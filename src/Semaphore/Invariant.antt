-- ===== src/Semaphore/Invariant.antt =====
-- What `m_count` and the system's semaphore say of the threads that wait and that release.
use audio_io.Prelude.{ℕ, zero, suc, ◌+◌, ◌≡◌, arith, some, refl, subst, sym}
use audio_io.Prelude.Int.{pos_part, neg_part}
use audio_io.Prelude.Threads.{total, total-update, total_zero}
use audio_io.Semaphore.{
  Shared, Pc, idle, waiting, tried, spinning, releasing, spun, Request, wait, try_wait, signal,
  step, System, start, Step, thread, Reach, here, next,
}

abbrev pub sleeps : Pc → ℕ
sleeps waiting = 1
sleeps _ = 0

abbrev pub to_post : Pc → ℕ
to_post (releasing count) = count
to_post _ = 0

-- A thread's contributions before and after a step.
abbrev Moves : Pc → Shared → Pc → Shared → Type 0
Moves p m p' m' =
    (pos_part m'.m_count + m'.taken + sleeps p' + neg_part m.m_count + m.given
      ≡ neg_part m'.m_count + m'.given + (pos_part m.m_count + m.taken + sleeps p))
    × (neg_part m'.m_count + m'.m_sema + to_post p' + sleeps p
        ≡ sleeps p' + (neg_part m.m_count + m.m_sema + to_post p))

step-Moves :
    (request : Request) (p p' : Pc) (m m' : Shared)
    → step request p m ≡ some (p', m')
    → Moves p m p' m'
unfolding step
step-Moves wait idle p' m m' e = ground arith
step-Moves try_wait idle p' m m' e = ground arith
step-Moves (signal count) idle p' m m' e = ground arith
step-Moves request waiting p' m m' e = ground arith
step-Moves request (tried blocking old) p' m m' e = ground arith
step-Moves request (spinning zero) p' m m' e = ground arith
step-Moves request (spinning (suc rounds)) p' m m' e = ground arith
step-Moves request (releasing zero) p' m m' e = ground arith
step-Moves request (releasing (suc count)) p' m m' e = ground arith
step-Moves request (spun rounds old) p' m m' e = ground arith

-- Every permit is counted, and whoever sleeps is owed a permit that is not there yet or not taken.
pub record Inv (n initial_count : ℕ) (s : System) : Type 0 where
  pub balance :
      pos_part s.shared.m_count + s.shared.taken + total sleeps n s.pc
      ≡ neg_part s.shared.m_count + s.shared.given + initial_count
  pub sleepers :
      total sleeps n s.pc ≡ neg_part s.shared.m_count + s.shared.m_sema + total to_post n s.pc

start-Inv : (n initial_count : ℕ) → Inv n initial_count (start initial_count)
unfolding start
start-Inv n initial_count = omega (
  arith,
  total_zero sleeps n (λ _. idle) (λ i lt. refl),
  total_zero to_post n (λ _. idle) (λ i lt. refl),
)

Step-Inv :
    {n initial_count : ℕ} {s t : System}
    → Step n s t
    → Inv n initial_count s
    → Inv n initial_count t
Step-Inv {n} {initial_count} {s} {t} (thread i request p m lt e same) v =
    let (balance, sleepers) = step-Moves request (s.pc i) p s.shared m e in
    subst (λ u. Inv n initial_count u) (sym same)
      (omega (
        arith,
        v.balance,
        v.sleepers,
        total-update sleeps n s.pc i p lt,
        total-update to_post n s.pc i p lt,
      ))

pub Reach-Inv :
    {n initial_count : ℕ} {s : System} → Reach n (start initial_count) s → Inv n initial_count s
Reach-Inv {n} {initial_count} here = start-Inv n initial_count
Reach-Inv (next r st) = Step-Inv st (Reach-Inv r)
