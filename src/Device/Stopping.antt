-- ===== src/Device/Stopping.antt =====
-- The end of a factory: which devices it stops.
use audio_io.Prelude.{
  ℕ, ◌≡◌, refl, arith, Bool, false, Option, none, some, List, [], ◌∷◌, ◌||◌, ◌==◌, if◌then◌else◌,
}
use audio_io.Device.{Devices, OutputDeviceFactoryImplementation, stop_if_alive, stop_all, destroy}

-- `k` is one of the addresses.
pub listed : ℕ → List ℕ → Bool
listed k [] = false
listed k (p ∷ ps) = k == p || listed k ps

module _ {D : Type 0} (stop : D → D) where
  -- A device after the destructor has stopped it.
  pub stopped : Option D → Option D
  stopped none = none
  stopped (some d) = some (stop d)

  stop_if_alive_lem :
      (p k : ℕ) (devices : Devices D)
      → stop_if_alive stop p devices k ≡ (if k == p then stopped (devices k) else devices k)
  unfolding stop_if_alive stopped
  stop_if_alive_lem p k devices = ground arith

  stopped_twice :
      ((d : D) → stop (stop d) ≡ stop d) → (o : Option D) → stopped (stopped o) ≡ stopped o
  unfolding stopped
  stopped_twice same none = refl
  stopped_twice same (some d) = λ i. some (same d i)

  stop_all_lem :
      (same : (d : D) → stop (stop d) ≡ stop d) (ps : List ℕ) (devices : Devices D) (k : ℕ)
      → stop_all stop ps devices k ≡ (if listed k ps then stopped (devices k) else devices k)
  unfolding stop_all listed
  stop_all_lem same [] devices k = refl
  stop_all_lem same (p ∷ ps) devices k = ground (
    arith,
    stop_all_lem same ps (stop_if_alive stop p devices) k,
    stop_if_alive_lem p k devices,
    stopped_twice same (devices k),
  )

  -- If stopping a device twice is stopping it once, the destructor stops every device that it
  -- created and that still lives, once for all, and touches no other.
  pub destroy_lem :
      (factory : OutputDeviceFactoryImplementation) (devices : Devices D)
      → ((d : D) → stop (stop d) ≡ stop d)
      → (k : ℕ)
      → destroy stop factory devices k
        ≡ (if listed k factory.created_devices then stopped (devices k) else devices k)
  unfolding destroy
  destroy_lem factory devices same k = stop_all_lem same factory.created_devices devices k
