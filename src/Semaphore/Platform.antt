-- ===== src/Semaphore/Platform.antt =====
-- The three Semaphore classes of include/audio_io/private/semaphore.hpp over the primitives of their
-- operating systems, which are a parameter with their documented effect on the number of permits.
use mathlib.Core.Option
use audio_io.Prelude.{
  ℕ, zero, suc, ◌+◌, ◌-◌, ◌^◌, ◌≡◌, ◌≤◌, ◌<◌, Bool, true, false, Option, none, some, List, [], ◌∷◌,
  ltb, if◌then◌else◌,
}

-- sem_init, sem_post, sem_wait; semaphore_create, semaphore_signal, semaphore_wait; CreateSemaphore,
-- ReleaseSemaphore and WaitForSingleObject; sem_destroy, semaphore_destroy and CloseHandle are `close`,
-- and `live` is before it. A sem_wait can be interrupted by a signal handler, and
-- then fails; `none` is a thread that sleeps. ReleaseSemaphore fails, and does nothing, if the
-- number would exceed the semaphore's maximum.
pub record Kernel : Type 1 where
  pub Sem : Type 0
  pub permits : Sem → ℕ
  pub make : ℕ → Sem
  pub post : Sem → Sem
  pub release : ℕ → ℕ → Sem → Sem
  pub take : Sem → Option Sem
  pub close : Sem → Sem
  pub live : Sem → Bool
  pub make_lem : (n : ℕ) → permits (make n) ≡ n
  pub post_lem : (s : Sem) → permits (post s) ≡ permits s + 1
  pub release_lem :
      (max n : ℕ) (s : Sem)
      → permits (release max n s) ≡ (if ltb max (permits s + n) then permits s else permits s + n)
  pub take_none : (s : Sem) → permits s ≡ 0 → take s ≡ none
  pub take_some :
      (s : Sem) → 0 < permits s → (s' : Sem) × (take s ≡ some s') × (permits s' + 1 ≡ permits s)
  pub make_live : (n : ℕ) → live (make n) ≡ true
  pub post_live : (s : Sem) → live (post s) ≡ live s
  pub release_live : (max n : ℕ) (s : Sem) → live (release max n s) ≡ live s
  pub close_lem : (s : Sem) → live (close s) ≡ false

module _ (k : Kernel) where
  open k use {Sem, permits, make, post, release, take, close, live}

  -- MAXLONG
  abbrev pub max_long : ℕ
  max_long = 2 ^ 31 - 1

  -- The class for each system, of which an object cannot be copied.
  pub record WindowsSemaphore : Type 0 where
    pub m_hsema : Sem

  pub record MachSemaphore : Type 0 where
    pub m_sema : Sem

  pub record PosixSemaphore : Type 0 where
    pub m_sema : Sem

  abbrev pub windows : Sem → WindowsSemaphore
  windows s = record { m_hsema = s }

  abbrev pub mach : Sem → MachSemaphore
  mach s = record { m_sema = s }

  abbrev pub posix : Sem → PosixSemaphore
  posix s = record { m_sema = s }

  unfoldable pub windows_create : ℕ → WindowsSemaphore
  windows_create initial_count = windows (make initial_count)

  unfoldable pub windows_destroy : WindowsSemaphore → WindowsSemaphore
  windows_destroy s = windows (close s.m_hsema)

  unfoldable pub windows_wait : WindowsSemaphore → Option WindowsSemaphore
  windows_wait s = Option.map windows (take s.m_hsema)

  unfoldable pub windows_signal : ℕ → WindowsSemaphore → WindowsSemaphore
  windows_signal count s = windows (release max_long count s.m_hsema)

  unfoldable pub mach_create : ℕ → MachSemaphore
  mach_create initial_count = mach (make initial_count)

  unfoldable pub mach_destroy : MachSemaphore → MachSemaphore
  mach_destroy s = mach (close s.m_sema)

  unfoldable pub mach_wait : MachSemaphore → Option MachSemaphore
  mach_wait s = Option.map mach (take s.m_sema)

  -- while(count-- > 0) semaphore_signal(m_sema);
  unfoldable pub mach_signal : ℕ → MachSemaphore → MachSemaphore
  mach_signal zero s = s
  mach_signal (suc count) s = mach_signal count (mach (post s.m_sema))

  unfoldable pub posix_create : ℕ → PosixSemaphore
  posix_create initial_count = posix (make initial_count)

  unfoldable pub posix_destroy : PosixSemaphore → PosixSemaphore
  posix_destroy s = posix (close s.m_sema)

  -- `interrupted` says which calls of sem_wait fail with EINTR; the loop calls it again.
  unfoldable pub posix_wait : List Bool → PosixSemaphore → Option PosixSemaphore
  posix_wait [] s = Option.map posix (take s.m_sema)
  posix_wait (interrupted ∷ later) s =
      if interrupted then posix_wait later s else Option.map posix (take s.m_sema)

  unfoldable pub posix_signal : ℕ → PosixSemaphore → PosixSemaphore
  posix_signal zero s = s
  posix_signal (suc count) s = posix_signal count (posix (post s.m_sema))

  -- What `signal` and `wait` of a class promise, of the semaphore in it: as many permits as are asked
  -- for if they fit a LONG, and one permit taken, or a thread that sleeps.
  pub record Counts (C : Type 0) (handle : C → Sem) (signal : ℕ → C → C) (wait : C → Option C)
      : Type 0 where
    pub added :
        (count : ℕ) (c : C)
        → permits (handle c) + count ≤ max_long
        → permits (handle (signal count c)) ≡ permits (handle c) + count
    pub kept : (count : ℕ) (c : C) → live (handle (signal count c)) ≡ live (handle c)
    pub taken : (c : C) → Option.map handle (wait c) ≡ take (handle c)

  -- What the constructor and the destructor of a class promise: a semaphore with the initial permits,
  -- which is there until it is destroyed.
  pub record Lives (C : Type 0) (handle : C → Sem) (create : ℕ → C) (destroy : C → C) : Type 0 where
    pub initial : (n : ℕ) → permits (handle (create n)) ≡ n
    pub made : (n : ℕ) → live (handle (create n)) ≡ true
    pub gone : (c : C) → live (handle (destroy c)) ≡ false
