-- ===== src/Alsa.antt =====
-- The ALSA backend: the scan for devices of src/audio_io/alsa/output_factory.cpp and the size of
-- the buffer in src/audio_io/alsa/output_device.cpp (its surround channels are in Surround). The strings that libasound gives for a hint
-- are a parameter: their type, and the comparison of one with "Input".
pub mod Sizes
pub mod Surround
pub mod Calls
pub mod Open
pub mod Errors
pub mod Playback
pub mod Invariant
pub mod Rounds
pub mod Interface
mod Tests
use Prim.Native.String.{String as Text}
use audio_io.Prelude.{
  ℕ, zero, suc, ◌+◌, ◌*◌, Bool, true, false, Option, none, some, List, [], ◌∷◌, length, ltb,
  if◌then◌else◌,
}

-- while(alsaBufferSize < 8192) alsaBufferSize += alsaPeriodSize; `none` is a loop out of fuel.
unfoldable pub grow : ℕ → ℕ → ℕ → Option ℕ
grow zero period size = none
grow (suc fuel) period size =
    let rest = grow fuel period (size + period) in if ltb size 8192 then rest else some size

-- The size that the constructor asks for: two periods, or more.
unfoldable pub buffer_size : ℕ → ℕ → Option ℕ
unfolding grow
buffer_size fuel period = grow fuel period (2 * period)

module _ (String : Type 0) (is_input : String → Bool) where
  -- What snd_device_name_get_hint finds of a device.
  pub record Hint : Type 0 where
    pub name : Option String
    pub ioid : Option String

  pub record AlsaOutputDeviceFactory : Type 0 where
    pub device_names : List String
    pub device_channels : List ℕ
    pub output_count : ℕ

  -- The test before `goto freeing`.
  unfoldable pub skipped : Option String → Bool
  skipped none = false
  skipped (some ioid) = if is_input ioid then false else true

  -- The loop over the hints, with what it pushes.
  unfoldable pub scan : List Hint → List String × List ℕ
  unfolding skipped
  scan [] = ([], [])
  scan (hint ∷ hints) =
      let (names, channels) = scan hints in
      elim hint.name [
        | none ↦ (names, channels)
        | some name ↦ if skipped hint.ioid then (names, channels) else (name ∷ names, 8 ∷ channels)
      ]

  -- `none` for the hints is a scan that failed.
  unfoldable pub rescan : Option (List Hint) → AlsaOutputDeviceFactory
  unfolding scan
  rescan none = record { device_names = []; device_channels = []; output_count = 0 }
  rescan (some hints) =
      let (names, channels) = scan hints in
      record { device_names = names; device_channels = channels; output_count = length names }

  -- The constructor.
  unfoldable pub create_factory : Option (List Hint) → AlsaOutputDeviceFactory
  unfolding rescan
  create_factory hints = rescan hints

  unfoldable pub get_output_names : AlsaOutputDeviceFactory → List String
  get_output_names factory = factory.device_names

  unfoldable pub get_output_max_channels : AlsaOutputDeviceFactory → List ℕ
  get_output_max_channels factory = factory.device_channels

  unfoldable pub get_name : AlsaOutputDeviceFactory → Text
  get_name factory = "alsa"

  -- Never the null pointer, whether there are devices or not.
  unfoldable pub create_alsa_output_device_factory :
      Option (List Hint) → Option AlsaOutputDeviceFactory
  unfolding create_factory
  create_alsa_output_device_factory hints = some (create_factory hints)
