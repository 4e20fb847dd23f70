-- ===== src/Semaphore/Safety.antt =====
-- LightweightSemaphore against the counting semaphore that it stands for, in every interleaving.
use audio_io.Prelude.{ℕ, ◌+◌, ◌≡◌, ◌<◌, ◌⊎◌, inl, inr, refl, ◌-◌, ◌==◌, false, arith, some, dec_lt}
use audio_io.Prelude.Int.{pos_part, one_part}
use audio_io.Prelude.Threads.{total, total-le, total_pos}
use audio_io.Semaphore.{Shared, Pc, idle, waiting, wait, step, System, start, Reach}
use audio_io.Semaphore.Invariant.{sleeps, to_post, Reach-Inv}

-- The permits that no wait has taken: those that the count shows, those in the system's semaphore
-- and those on their way there.
pub value : ℕ → System → ℕ
value n s = pos_part s.shared.m_count + s.shared.m_sema + total to_post n s.pc

-- Of `n` threads that wait, try and signal in any order, no more waits return than permits were
-- there at the beginning and given since; what is left is the value of the semaphore.
pub permits_counted :
    (n initial_count : ℕ) (s : System)
    → Reach n (start initial_count) s
    → value n s + s.shared.taken ≡ initial_count + s.shared.given
unfolding value
permits_counted n initial_count s r = let v = Reach-Inv r in omega (arith, v.balance, v.sleepers)

-- No wake-up is lost: if a thread sleeps and there is a permit that no wait has taken, then the
-- thread can be woken now, or another one is about to add a permit for it.
pub sleeper_wakes :
    (n initial_count : ℕ) (s : System) (i : ℕ)
    → Reach n (start initial_count) s
    → i < n
    → s.pc i ≡ waiting
    → s.shared.taken < initial_count + s.shared.given
    → ((p : Pc) × (m : Shared) × (step wait (s.pc i) s.shared ≡ some (p, m))
        × (m.taken ≡ s.shared.taken + 1))
      ⊎ ((j : ℕ) × (j < n) × (0 < to_post (s.pc j)))
unfolding step
sleeper_wakes n initial_count s i r lt asleep more = elim (dec_lt 0 s.shared.m_sema) [
  | yes here ↦
      let test : (s.shared.m_sema == 0) ≡ false = ground arith in
      inl (
        idle,
        record (s.shared) { m_sema = s.shared.m_sema - 1; taken = s.shared.taken + 1 },
        rw (asleep, test) refl,
        refl,
      )
  | no empty ↦
      let v = Reach-Inv r in
      let asleep' : sleeps (s.pc i) ≡ 1 = rw asleep refl in
      inr (
        total_pos to_post n s.pc (
          omega (
            arith,
            v.balance,
            v.sleepers,
            asleep',
            one_part s.shared.m_count,
            total-le sleeps n s.pc i lt,
          )))
]
