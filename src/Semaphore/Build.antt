-- ===== src/Semaphore/Build.antt =====
-- Which Semaphore class of include/audio_io/private/semaphore.hpp a build gets, and what
-- LightweightSemaphore relies on: its m_sema is the number of permits of an object of that class.
use mathlib.Core.Option
use audio_io.Prelude.{ℕ, ◌≡◌, Bool, Option, none, some, List, if◌then◌else◌, ◌⊎◌}
use audio_io.Semaphore.{Shared, idle, step_waiting}
use audio_io.Semaphore.Platform.{
  Kernel, WindowsSemaphore, MachSemaphore, PosixSemaphore, windows_create, windows_destroy,
  windows_wait, windows_signal, mach_create, mach_destroy, mach_wait, mach_signal, posix_create,
  posix_destroy, posix_wait, posix_signal, Counts, Lives,
}

-- The macros that the compiler defines for the system it builds for.
pub record Build : Type 0 where
  pub win32 : Bool
  pub mach : Bool
  pub unix : Bool

module _ (k : Kernel) where
  open k use {Sem, permits, take}

  -- The class that is called Semaphore in a build.
  pub record SemaphoreClass : Type 1 where
    pub Object : Type 0
    pub handle : Object → Sem
    pub create : ℕ → Object
    pub destroy : Object → Object
    pub wait : Object → Option Object
    pub signal : ℕ → Object → Object

  abbrev windows_class : SemaphoreClass
  windows_class = record {
    Object = WindowsSemaphore k;
    handle = λ c. c.m_hsema;
    create = windows_create k;
    destroy = windows_destroy k;
    wait = windows_wait k;
    signal = windows_signal k;
  }

  abbrev mach_class : SemaphoreClass
  mach_class = record {
    Object = MachSemaphore k;
    handle = λ c. c.m_sema;
    create = mach_create k;
    destroy = mach_destroy k;
    wait = mach_wait k;
    signal = mach_signal k;
  }

  abbrev posix_class : List Bool → SemaphoreClass
  posix_class interrupted = record {
    Object = PosixSemaphore k;
    handle = λ c. c.m_sema;
    create = posix_create k;
    destroy = posix_destroy k;
    wait = posix_wait k interrupted;
    signal = posix_signal k;
  }

  -- #if defined(_WIN32), #elif defined(__MACH__), #elif defined(__unix__); `none` is the #error.
  unfoldable pub semaphore_class : Build → List Bool → Option SemaphoreClass
  semaphore_class b interrupted =
      if b.win32
      then some windows_class
      else if b.mach
      then some mach_class
      else if b.unix
      then some (posix_class interrupted)
      else none

  -- A wait on an object, and the step of LightweightSemaphore for it: both sleep, or both take a
  -- permit.
  abbrev pub WaitsLike : (c : SemaphoreClass) → c.Object → Shared → Type 0
  WaitsLike c o m =
      ((c.wait o ≡ none) × (step_waiting m ≡ none))
      ⊎ ((o' : c.Object) × (m' : Shared) × (c.wait o ≡ some o')
          × (step_waiting m ≡ some (idle, m'))
          × (m'.m_sema ≡ permits (c.handle o')))

  -- What a class promises LightweightSemaphore.
  pub record Keeps (c : SemaphoreClass) : Type 0 where
    pub lives : Lives k c.Object c.handle c.create c.destroy
    pub counts : Counts k c.Object c.handle c.signal c.wait
    pub waits : (o : c.Object) (m : Shared) → m.m_sema ≡ permits (c.handle o) → WaitsLike c o m
