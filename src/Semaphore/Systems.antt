-- ===== src/Semaphore/Systems.antt =====
-- The three Semaphore classes of include/audio_io/private/semaphore.hpp keep the same promise.
use mathlib.Core.Option
use audio_io.Prelude.{
  ℕ, zero, suc, ◌+◌, ◌≡◌, ◌≤◌, ◌∙◌, arith, Bool, true, false, Option, none, some, List, [], ◌∷◌,
  refl,
}
use audio_io.Semaphore.Platform.{
  Kernel, max_long, WindowsSemaphore, MachSemaphore, PosixSemaphore, windows, mach, posix,
  windows_create, windows_destroy, windows_wait, windows_signal, mach_create, mach_destroy,
  mach_wait, mach_signal, posix_create, posix_destroy, posix_wait, posix_signal, Counts, Lives,
}

module _ (k : Kernel) where
  open k use {Sem, permits, take, live}

  posix_signal_lem :
      (count : ℕ) (s : PosixSemaphore k)
      → (permits (posix_signal k count s).m_sema ≡ permits s.m_sema + count)
        × (live (posix_signal k count s).m_sema ≡ live s.m_sema)
  unfolding posix_signal
  posix_signal_lem zero s = (omega arith, refl)
  posix_signal_lem (suc count) s =
      let (more, alive) = posix_signal_lem count (posix k (k.post s.m_sema)) in
      (omega (arith, more, k.post_lem s.m_sema), alive ∙ k.post_live s.m_sema)

  mach_signal_lem :
      (count : ℕ) (s : MachSemaphore k)
      → (permits (mach_signal k count s).m_sema ≡ permits s.m_sema + count)
        × (live (mach_signal k count s).m_sema ≡ live s.m_sema)
  unfolding mach_signal
  mach_signal_lem zero s = (omega arith, refl)
  mach_signal_lem (suc count) s =
      let (more, alive) = mach_signal_lem count (mach k (k.post s.m_sema)) in
      (omega (arith, more, k.post_lem s.m_sema), alive ∙ k.post_live s.m_sema)

  windows_signal_lem :
      (count : ℕ) (s : WindowsSemaphore k)
      → permits s.m_hsema + count ≤ max_long k
      → permits (windows_signal k count s).m_hsema ≡ permits s.m_hsema + count
  unfolding windows_signal
  windows_signal_lem count s fits = ground (arith, k.release_lem (max_long k) count s.m_hsema)

  map_back :
      {C : Type 0} (wrap : Sem → C) (handle : C → Sem) (o : Option Sem)
      → ((s : Sem) → handle (wrap s) ≡ s)
      → Option.map handle (Option.map wrap o) ≡ o
  map_back wrap handle none same = refl
  map_back wrap handle (some s) same = λ i. some (same s i)

  posix_wait_lem :
      (interrupted : List Bool) (s : PosixSemaphore k)
      → Option.map (λ c. c.m_sema) (posix_wait k interrupted s) ≡ take s.m_sema
  unfolding posix_wait
  posix_wait_lem [] s = map_back (posix k) _ (take s.m_sema) (λ _. refl)
  posix_wait_lem (true ∷ later) s = posix_wait_lem later s
  posix_wait_lem (false ∷ later) s = map_back (posix k) _ (take s.m_sema) (λ _. refl)

  pub windows-Counts :
      Counts k (WindowsSemaphore k) (λ c. c.m_hsema) (windows_signal k) (windows_wait k)
  unfolding windows_signal windows_wait
  windows-Counts = record {
    added = windows_signal_lem;
    kept = λ count c. k.release_live (max_long k) count c.m_hsema;
    taken = λ c. map_back (windows k) _ (take c.m_hsema) (λ _. refl);
  }

  pub mach-Counts : Counts k (MachSemaphore k) (λ c. c.m_sema) (mach_signal k) (mach_wait k)
  unfolding mach_wait
  mach-Counts = record {
    added = λ count c fits. (mach_signal_lem count c).0;
    kept = λ count c. (mach_signal_lem count c).1;
    taken = λ c. map_back (mach k) _ (take c.m_sema) (λ _. refl);
  }

  pub posix-Counts :
      (interrupted : List Bool)
      → Counts k (PosixSemaphore k) (λ c. c.m_sema) (posix_signal k) (posix_wait k interrupted)
  posix-Counts interrupted = record {
    added = λ count c fits. (posix_signal_lem count c).0;
    kept = λ count c. (posix_signal_lem count c).1;
    taken = posix_wait_lem interrupted;
  }

  pub windows-Lives :
      Lives k (WindowsSemaphore k) (λ c. c.m_hsema) (windows_create k) (windows_destroy k)
  unfolding windows_create windows_destroy
  windows-Lives = record {
    initial = k.make_lem;
    made = k.make_live;
    gone = λ c. k.close_lem c.m_hsema;
  }

  pub mach-Lives : Lives k (MachSemaphore k) (λ c. c.m_sema) (mach_create k) (mach_destroy k)
  unfolding mach_create mach_destroy
  mach-Lives = record { initial = k.make_lem; made = k.make_live; gone = λ c. k.close_lem c.m_sema }

  pub posix-Lives : Lives k (PosixSemaphore k) (λ c. c.m_sema) (posix_create k) (posix_destroy k)
  unfolding posix_create posix_destroy
  posix-Lives = record {
    initial = k.make_lem;
    made = k.make_live;
    gone = λ c. k.close_lem c.m_sema;
  }

  -- The classes of the three systems keep the same promise: the constructor makes a semaphore with the
  -- initial permits, which is there until the destructor; `signal` adds as many permits as it is asked
  -- for, as long as they fit a LONG; and `wait`, however often a signal handler interrupts it on POSIX,
  -- takes one, or sleeps if there is none.
  pub platforms_agree :
      (interrupted : List Bool)
      → (Lives k (WindowsSemaphore k) (λ c. c.m_hsema) (windows_create k) (windows_destroy k)
          × Counts k (WindowsSemaphore k) (λ c. c.m_hsema) (windows_signal k) (windows_wait k))
        × (Lives k (MachSemaphore k) (λ c. c.m_sema) (mach_create k) (mach_destroy k)
            × Counts k (MachSemaphore k) (λ c. c.m_sema) (mach_signal k) (mach_wait k))
        × (Lives k (PosixSemaphore k) (λ c. c.m_sema) (posix_create k) (posix_destroy k)
            × Counts k
                (PosixSemaphore k)
                (λ c. c.m_sema)
                (posix_signal k)
                (posix_wait k interrupted))
  platforms_agree interrupted = (
    (windows-Lives, windows-Counts),
    (mach-Lives, mach-Counts),
    (posix-Lives, posix-Counts interrupted),
  )
