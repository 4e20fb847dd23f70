-- ===== src/Semaphore/Counting.antt =====
-- LightweightSemaphore, step by step, as the number of permits that OutputWorkerThread is modelled with.
use audio_io.Prelude.{ℕ, zero, suc, ◌+◌, ◌≡◌, ◌<◌, ◌⊎◌, inl, inr, refl, arith, true, false, some}
use audio_io.Prelude.Threads.{update}
use audio_io.Semaphore.{
  Shared, Pc, idle, waiting, tried, spinning, releasing, spun, Request, wait, try_wait, signal,
  step, System, start, thread, Reach, next,
}
use audio_io.Semaphore.Safety.{value, permits_counted}

abbrev pub given_by : Request → ℕ
given_by (signal count) = count
given_by _ = 0

-- One permit for a call that returns.
abbrev pub returned : Pc → ℕ
returned idle = 1
returned _ = 0

-- What a step of a thread from `p` to `p'` does to the number of permits: a signal gives its permits at
-- once; tryWait takes one or none; the last step of a wait takes one; all other steps do nothing.
abbrev pub Effect : Request → Pc → Pc → ℕ → ℕ → Type 0
Effect request idle p' v v' = v' ≡ v + given_by request
Effect request (releasing count) p' v v' = v' ≡ v
Effect request (tried false old) p' v v' = (v ≡ v' + 1) ⊎ (v ≡ v')
Effect request (tried true old) p' v v' = v ≡ v' + returned p'
Effect request (spinning rounds) p' v v' = v ≡ v' + returned p'
Effect request (spun rounds old) p' v v' = v ≡ v' + returned p'
Effect request waiting p' v v' = v ≡ v' + returned p'

-- The same for the logs of what was given and taken.
abbrev Logged : Request → Pc → Pc → Shared → Shared → Type 0
Logged request idle p' m m' = (m'.given ≡ m.given + given_by request) × (m'.taken ≡ m.taken)
Logged request (releasing count) p' m m' = (m'.given ≡ m.given) × (m'.taken ≡ m.taken)
Logged request (tried false old) p' m m' =
    (m'.given ≡ m.given) × ((m'.taken ≡ m.taken + 1) ⊎ (m'.taken ≡ m.taken))
Logged request (tried true old) p' m m' = (m'.given ≡ m.given) × (m'.taken ≡ m.taken + returned p')
Logged request (spinning rounds) p' m m' = (m'.given ≡ m.given) × (m'.taken ≡ m.taken + returned p')
Logged request (spun rounds old) p' m m' = (m'.given ≡ m.given) × (m'.taken ≡ m.taken + returned p')
Logged request waiting p' m m' = (m'.given ≡ m.given) × (m'.taken ≡ m.taken + returned p')

step-Logged :
    (request : Request) (p p' : Pc) (m m' : Shared)
    → step request p m ≡ some (p', m')
    → Logged request p p' m m'
unfolding step
step-Logged wait idle p' m m' e = ground arith
step-Logged try_wait idle p' m m' e = ground arith
step-Logged (signal count) idle p' m m' e = ground arith
step-Logged request waiting p' m m' e = ground arith
step-Logged request (tried false old) p' m m' e = ground arith
step-Logged request (tried true old) p' m m' e = ground arith
step-Logged request (spinning zero) p' m m' e = ground arith
step-Logged request (spinning (suc rounds)) p' m m' e = ground arith
step-Logged request (releasing zero) p' m m' e = ground arith
step-Logged request (releasing (suc count)) p' m m' e = ground arith
step-Logged request (spun rounds old) p' m m' e = ground arith

-- With the two balances of permits, before and after.
Logged-Effect :
    (request : Request) (p p' : Pc) (m m' : Shared) (initial_count v v' : ℕ)
    → v + m.taken ≡ initial_count + m.given
    → v' + m'.taken ≡ initial_count + m'.given
    → Logged request p p' m m'
    → Effect request p p' v v'
Logged-Effect request idle p' m m' c v v' before after logged = omega arith
Logged-Effect request waiting p' m m' c v v' before after logged = omega arith
Logged-Effect request (tried false old) p' m m' c v v' before after (given, inl one) =
    inl (omega arith)
Logged-Effect request (tried false old) p' m m' c v v' before after (given, inr nothing) =
    inr (omega arith)
Logged-Effect request (tried true old) p' m m' c v v' before after logged = omega arith
Logged-Effect request (spinning rounds) p' m m' c v v' before after logged = omega arith
Logged-Effect request (releasing count) p' m m' c v v' before after logged = omega arith
Logged-Effect request (spun rounds old) p' m m' c v v' before after logged = omega arith

-- In every state that `n` threads can reach which wait, try and signal in any order: the permits that
-- no wait has taken, with those that waits have taken, are those of the beginning and those that were
-- given since. And a step of a thread does to the former what it does to a number of permits: a signal
-- gives its permits at once; tryWait takes one or none; the step with which a wait returns takes one;
-- all other steps leave the number as it is.
pub step_counts :
    (n initial_count : ℕ) (s : System) (i : ℕ) (request : Request) (p : Pc) (m : Shared)
    → Reach n (start initial_count) s
    → i < n
    → step request (s.pc i) s.shared ≡ some (p, m)
    → (value n s + s.shared.taken ≡ initial_count + s.shared.given)
      × Effect request
          (s.pc i)
          p
          (value n s)
          (value n (record { shared = m; pc = update s.pc i p }))
step_counts n initial_count s i request p m r lt e =
    let before = permits_counted n initial_count s r in
    (
      before,
      Logged-Effect request (s.pc i) p s.shared m initial_count _ _ before
          (permits_counted n initial_count _ (next r (thread i request p m lt e refl)))
          (step-Logged request (s.pc i) p s.shared m e),
    )
