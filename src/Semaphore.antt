-- ===== src/Semaphore.antt =====
-- include/audio_io/private/semaphore.hpp: LightweightSemaphore over the Semaphore of the operating
-- system. A thread's step is one access to what the threads share; `none` is a thread that has to
-- wait. The atomic operations are sequentially consistent, and `m_count` does not leave an `int`.
-- The log of permits is what the theorems speak of, and steers nothing.
pub mod Invariant
pub mod Safety
pub mod Counting
pub mod Platform
pub mod Systems
pub mod Build
mod Tests
use audio_io.Prelude.{
  ℕ, zero, suc, ◌+◌, ◌-◌, ◌≡◌, ◌<◌, Bool, true, false, Option, none, some, ◌&&◌, ◌==◌, ltb,
  if◌then◌else◌,
}
use audio_io.Prelude.Int.{ℤ, pos, negsuc, pos_part, neg_part, sub_ℕ, same_ℤ}
use audio_io.Prelude.Threads.{update}

-- What the threads share. `m_sema` is the number of permits of the system's semaphore, which
-- wait takes one of, or sleeps, and which signal adds to. `taken` counts the waits that have
-- returned, and `given` the permits of the signals that have been called.
pub record Shared : Type 0 where
  pub m_count : ℤ
  pub m_sema : ℕ
  pub taken : ℕ
  pub given : ℕ

-- Where a thread stands: outside; in tryWait with the count that it has read, with `wait` behind it
-- or not; in the loop of waitWithPartialSpinning with `spin` rounds left, before and after the read;
-- in m_sema.wait(); in m_sema.signal(count).
pub data Pc : Type 0 where
  idle waiting : Pc
  tried : Bool → ℤ → Pc
  spinning releasing : ℕ → Pc
  spun : ℕ → ℤ → Pc

-- What an idle thread calls.
pub data Request : Type 0 where
  wait try_wait : Request
  signal : ℕ → Request

-- m_count.compare_exchange_strong(old, old - 1), after `old > 0`.
unfoldable pub exchange : ℤ → Shared → Option Shared
exchange old m =
    if ltb 0 (pos_part old) && same_ℤ m.m_count old
    then some (record m { m_count = pos (pos_part old - 1); taken = m.taken + 1 })
    else none

-- tryWait, from the test on: the thread is done, or has to go on in wait.
unfoldable pub step_tried : Bool → ℤ → Shared → Pc × Shared
unfolding exchange
step_tried blocking old m = elim (exchange old m) [
  | some m' ↦ (idle, m')
  | none ↦ (if blocking then spinning 10000 else idle, m)
]

-- A round of the loop, from the test on.
unfoldable pub step_spun : ℕ → ℤ → Shared → Pc × Shared
unfolding exchange
step_spun rounds old m = elim (exchange old m) [
  | some m' ↦ (idle, m')
  | none ↦ (spinning rounds, m)
]

-- The loop's head, and m_count.fetch_sub(1) behind the loop.
unfoldable pub step_spinning : ℕ → Shared → Pc × Shared
step_spinning zero m =
    let m' = record m { m_count = sub_ℕ (pos_part m.m_count) (neg_part m.m_count + 1) } in
    if ltb 0 (pos_part m.m_count) then (idle, record m' { taken = m.taken + 1 }) else (waiting, m')
step_spinning (suc rounds) m = (spun rounds m.m_count, m)

-- signal, up to the call of m_sema.signal(toRelease).
unfoldable pub step_signal : ℕ → Shared → Pc × Shared
step_signal count m =
    let old = m.m_count in
    let to_release = if ltb (neg_part old) count then neg_part old else count in
    let m' = record m {
      m_count = sub_ℕ (pos_part old + count) (neg_part old);
      given = m.given + count;
    } in
    if ltb 0 to_release then (releasing to_release, m') else (idle, m')

-- m_sema.signal(count): a permit at a time.
unfoldable pub step_releasing : ℕ → Shared → Pc × Shared
step_releasing zero m = (idle, m)
step_releasing (suc count) m =
    (if count == 0 then idle else releasing count, record m { m_sema = m.m_sema + 1 })

unfoldable pub step_idle : Request → Shared → Pc × Shared
unfolding step_signal
step_idle wait m = (tried true m.m_count, m)
step_idle try_wait m = (tried false m.m_count, m)
step_idle (signal count) m = step_signal count m

-- m_sema.wait()
unfoldable pub step_waiting : Shared → Option (Pc × Shared)
step_waiting m =
    if m.m_sema == 0
    then none
    else some (idle, record m { m_sema = m.m_sema - 1; taken = m.taken + 1 })

unfoldable pub step : Request → Pc → Shared → Option (Pc × Shared)
unfolding step_tried step_spun step_spinning step_releasing step_idle step_waiting
step request idle m = some (step_idle request m)
step request waiting m = step_waiting m
step request (tried blocking old) m = some (step_tried blocking old m)
step request (spinning rounds) m = some (step_spinning rounds m)
step request (releasing count) m = some (step_releasing count m)
step request (spun rounds old) m = some (step_spun rounds old m)

-- LightweightSemaphore(initialCount), with `n` threads outside.
unfoldable pub create : ℕ → Shared
create initial_count = record { m_count = pos initial_count; m_sema = 0; taken = 0; given = 0 }

pub record System : Type 0 where
  pub shared : Shared
  pub pc : ℕ → Pc

unfoldable pub start : ℕ → System
unfolding create
start initial_count = record { shared = create initial_count; pc = λ _. idle }

-- One of `n` threads takes a step.
pub data Step (n : ℕ) (s t : System) : Type 0 where
  thread :
      (i : ℕ) (request : Request) (p : Pc) (m : Shared)
      → i < n
      → step request (s.pc i) s.shared ≡ some (p, m)
      → t ≡ record { shared = m; pc = update s.pc i p }
      → Step n s t

pub data Reach (n : ℕ) (s : System) : System → Type 0 where
  here : Reach n s s
  next : {t u : System} → Reach n s t → Step n t u → Reach n s u
