-- ===== src/Semaphore/Tests.antt =====
-- Two threads: one waits at an empty semaphore until it sleeps, the other gives it a permit.
use audio_io.Prelude.{
  ℕ, zero, suc, ◌+◌, ◌≡◌, ◌<◌, ◌⊎◌, refl, fun_ext, arith, Bool, true, false, Option, none, some, [],
  ◌∷◌, ◌==◌, ltb, if◌then◌else◌, subst,
}
use audio_io.Prelude.Int.{pos, negsuc}
use audio_io.Prelude.Threads.{update}
use audio_io.Semaphore.{
  Shared, Pc, idle, waiting, tried, spinning, releasing, spun, Request, wait, signal, step, System,
  start, Step, thread, Reach, here, next,
}
use audio_io.Semaphore.Invariant.{to_post}
use audio_io.Semaphore.Safety.{value, sleeper_wakes}
use audio_io.Semaphore.Counting.{Effect, step_counts}
use audio_io.Semaphore.Platform.{Kernel, posix, posix_create, posix_wait, posix_signal}
use audio_io.Semaphore.Build.{Build}

abbrev pcs : Pc → Pc → ℕ → Pc
pcs p q j = if j == 0 then p else if j == 1 then q else idle

abbrev both : Shared → Pc → Pc → System
both m p q = record { shared = m; pc = pcs p q }

first_moves : (p p' q : Pc) → pcs p' q ≡ update (pcs p q) 0 p'
first_moves p p' q = fun_ext λ j. ground arith

second_moves : (p q q' : Pc) → pcs p q' ≡ update (pcs p q) 1 q'
second_moves p q q' = fun_ext λ j. ground arith

nobody_moves : (λ (j : ℕ). idle) ≡ pcs idle idle
nobody_moves = fun_ext λ j. ground arith

first :
    (request : Request) (m m' : Shared) (p p' q : Pc)
    → step request p m ≡ some (p', m')
    → Step 2 (both m p q) (both m' p' q)
first request m m' p p' q e =
    thread 0 request p' m' (omega arith) e (λ i. record { shared = m'; pc = first_moves p p' q i })

second :
    (request : Request) (m m' : Shared) (p q q' : Pc)
    → step request q m ≡ some (q', m')
    → Step 2 (both m p q) (both m' p q')
second request m m' p q q' e =
    thread 1 request q' m' (omega arith) e (λ i. record { shared = m'; pc = second_moves p q q' i })

abbrev empty : Shared
empty = record { m_count = pos 0; m_sema = 0; taken = 0; given = 0 }

spin_down :
    (rounds : ℕ)
    → Reach 2 (start 0) (both empty (spinning rounds) idle)
    → Reach 2 (start 0) (both empty (spinning 0) idle)
unfolding step
spin_down zero r = r
spin_down (suc rounds) r = spin_down rounds (
    next (next r (first wait empty empty (spinning (suc rounds)) (spun rounds (pos 0)) idle refl))
      (first wait empty empty (spun rounds (pos 0)) (spinning rounds) idle refl))

both_begin : start 0 ≡ both empty idle idle
unfolding start
both_begin = λ i. record { shared = empty; pc = nobody_moves i }

-- The first thread sleeps, and the second has still to wake it.
abbrev asleep : System
asleep = both (record empty { given = 1 }) waiting (releasing 1)

asleep-Reach : Reach 2 (start 0) asleep
unfolding step
asleep-Reach =
    next
      (next
        (spin_down 10000 (
          next
            (next (subst (λ s. Reach 2 (start 0) s) both_begin here)
              (first wait empty empty idle (tried true (pos 0)) idle refl))
            (first wait empty empty (tried true (pos 0)) (spinning 10000) idle refl)))
        (first wait empty (record empty { m_count = negsuc 0 }) (spinning 0) waiting idle refl))
      (second (signal 1) (record empty { m_count = negsuc 0 }) (record empty { given = 1 }) waiting
        idle (releasing 1) refl)

-- The permit for the sleeper is posted, which it was given before.
step_counts_example :
    (value 2 asleep + 0 ≡ 0 + 1)
    × Effect wait (releasing 1) idle (value 2 asleep) (
        value 2 (record {
          shared = record empty { m_sema = 1; given = 1 };
          pc = update (pcs waiting (releasing 1)) 1 idle;
        }))
unfolding step
step_counts_example =
    step_counts 2 0 asleep 1 wait idle (record empty { m_sema = 1; given = 1 }) asleep-Reach
      (omega arith) refl

sleeper_wakes_example :
    ((p : Pc) × (m : Shared) × (step wait waiting asleep.shared ≡ some (p, m)) × (m.taken ≡ 0 + 1))
    ⊎ ((j : ℕ) × (j < 2) × (0 < to_post (asleep.pc j)))
sleeper_wakes_example = sleeper_wakes 2 0 asleep 0 asleep-Reach (omega arith) refl (omega arith)

-- A semaphore that is its number of permits, and whether it is still there.
abbrev counter_release : ℕ → ℕ → ℕ × Bool → ℕ × Bool
counter_release max n s = (if ltb max (s.0 + n) then s.0 else s.0 + n, s.1)

counter_take : ℕ × Bool → Option (ℕ × Bool)
counter_take (zero, live) = none
counter_take (suc n, live) = some (n, live)

counter_takes_one :
    (s : ℕ × Bool) → 0 < s.0 → (s' : ℕ × Bool) × (counter_take s ≡ some s') × (s'.0 + 1 ≡ s.0)
unfolding counter_take
counter_takes_one (zero, live) lt = absurd (omega arith)
counter_takes_one (suc n, live) lt = ((n, live), refl, omega arith)

counter_is_out : (s : ℕ × Bool) → s.0 ≡ 0 → counter_take s ≡ none
unfolding counter_take
counter_is_out (zero, live) e = refl
counter_is_out (suc n, live) e = absurd (omega arith)

abbrev counter : Kernel
counter = record {
  Sem = ℕ × Bool;
  permits = λ s. s.0;
  make = λ n. (n, true);
  post = λ s. (s.0 + 1, s.1);
  release = counter_release;
  take = counter_take;
  close = λ s. (s.0, false);
  live = λ s. s.1;
  make_lem = λ n. refl;
  post_lem = λ s. refl;
  release_lem = λ max n s. refl;
  take_none = counter_is_out;
  take_some = counter_takes_one;
  make_live = λ n. refl;
  post_live = λ s. refl;
  release_live = λ max n s. refl;
  close_lem = λ s. refl;
}

abbrev linux : Build
linux = record { win32 = false; mach = false; unix = true }

-- Two permits and three more, of which one is taken.
posix_run :
    posix_wait counter (true ∷ false ∷ []) (posix_signal counter 3 (posix_create counter 2))
    ≡ some (posix counter (4, true))
unfolding posix_wait posix_signal posix_create counter_take
posix_run = refl
