-- ===== src/Device/Interface.antt =====
-- The abstract classes OutputDevice and OutputDeviceFactory of include/audio_io/audio_io.hpp, which a
-- program sees of a backend, as records of their operations and of what a program relies on.
use Prim.Native.String.{String}
use audio_io.Prelude.{
  ℕ, subst, Bool, ◌≡◌, Option, none, some, List, [], ◌∷◌, length, inl, inr, Option-cases,
}
use audio_io.Prelude.Int.{ℤ}
use audio_io.Device.{Result, ok, throw, Creator, first_factory}
use audio_io.Outside.{Service, Driver, Outcome, done, thrown, undefined}

-- A call that may throw and changes the world `W`; `none` is undefined behaviour.
abbrev pub Called : Type 0 → Type 0 → Type 0
Called W A = Option (Result A × W)

-- `stop`, and the destructor.
pub record OutputDevice (D W : Type 0) : Type 0 where
  pub stop : D → W → W
  pub destroy : D → W → W

-- `C` is the program behind a callback.
pub record OutputDeviceFactory (F D C W : Type 0) : Type 0 where
  pub get_output_names : F → List String
  pub get_output_max_channels : F → List ℕ
  pub create_device : F → C → ℤ → ℕ → ℕ → ℕ → ℕ → W → Called W D
  pub get_output_count : F → ℕ
  pub get_name : F → String

-- What a program relies on when it lists the devices of a factory that the backend has `Made`: as many
-- names, and as many numbers of channels, as there are devices.
pub record Lists {F D C W : Type 0} (ops : OutputDeviceFactory F D C W) (Made : F → Type 0)
    : Type 0 where
  pub names_counted :
      (fact : F) → Made fact → length (ops.get_output_names fact) ≡ ops.get_output_count fact
  pub channels_counted :
      (fact : F) → Made fact → length (ops.get_output_max_channels fact) ≡ ops.get_output_count fact

-- What a chain of calls to a library is to a program.
abbrev pub as_called :
    {Call Reply A : Type 0} {succeeded : Call → Reply → Bool} {service : Service Call Reply}
    → Outcome Call Reply succeeded service A
    → Called (Driver Call Reply succeeded service) A
as_called (done a s) = some (ok a, s)
as_called (thrown e s) = some (throw e, s)
as_called undefined = none

-- A factory, if there is one, that the backend has made.
abbrev pub Makes : {F : Type 0} → (F → Type 0) → Option F → Type 0
Makes Made none = Unit
Makes Made (some fact) = Made fact

module _ {W F : Type 0} (Made : F → Type 0) where
  abbrev pub AllMake : List (Creator W F) → Type 0
  AllMake [] = Unit
  AllMake (create ∷ creators) = ((world : W) → Makes Made (create world).0) × AllMake creators

  -- The first factory of creators that make such factories is one of them.
  pub first_factory-Makes :
      (creators : List (Creator W F)) (world : W)
      → AllMake creators
      → Makes Made (first_factory creators world).0
  unfolding first_factory
  first_factory-Makes [] world h = tt
  first_factory-Makes (create ∷ creators) world (made, rest) =
      elim (Option-cases (create world).0) [
        | inl missing ↦ rw (Makes, missing) (first_factory-Makes creators (create world).1 rest)
        | inr (fact, there) ↦ rw (Makes, there) (subst (Makes Made) there (made world))
      ]
