-- ===== src/Wasapi.antt =====
-- The WASAPI backend: the format that the constructor of src/audio_io/wasapi/output_device.cpp asks
-- for. The rest of src/audio_io/wasapi/ is in the child modules.
pub mod Calls
pub mod Open
pub mod Playback
pub mod Invariant
pub mod Rounds
pub mod Factory
pub mod Listed
pub mod Errors
pub mod Formats
pub mod Interface
mod Tests
use audio_io.Prelude.{
  ℕ, ◌-◌, ◌*◌, ◌%◌, ◌^◌, Bool, true, false, Option, none, some, List, [], ◌∷◌, ◌==◌, ltb,
  if◌then◌else◌, ◌>>=◌,
}

pub data Speaker : Type 0 where
  front_left front_right front_center low_frequency back_left back_right side_left side_right :
      Speaker

-- dwChannelMask: what the device gave, a union of speakers, or (1 << n) - 1.
pub data ChannelMask : Type 0 where
  given lowest : ℕ → ChannelMask
  union : List Speaker → ChannelMask

-- WAVEFORMATEXTENSIBLE; `extensible` is the test of wFormatTag, `ieee_float` that of SubFormat.
pub record WaveFormat : Type 0 where
  pub extensible : Bool
  pub channels : ℕ
  pub samples_per_sec : ℕ
  pub avg_bytes_per_sec : ℕ
  pub block_align : ℕ
  pub bits_per_sample : ℕ
  pub cb_size : ℕ
  pub valid_bits_per_sample : ℕ
  pub channel_mask : ChannelMask
  pub ieee_float : Bool

-- The mask for a format that had none; 1 << n must fit an `int`.
unfoldable pub mask_for : ℕ → Option ChannelMask
mask_for channels =
    if channels == 2
    then some (union (front_left ∷ front_right ∷ []))
    else if channels == 4
    then some (union (front_left ∷ front_right ∷ back_left ∷ back_right ∷ []))
    else if channels == 6
    then some (
        union
          (front_left ∷ front_right ∷ front_center ∷ low_frequency ∷ back_left ∷ back_right ∷ []))
    else if channels == 8
    then some (
        union (
          front_left ∷ front_right ∷ front_center ∷ low_frequency ∷ back_left ∷ back_right
          ∷ side_left ∷ side_right ∷ []))
    else if ltb channels 31
    then some (lowest channels)
    else none

-- The mix format of the device made a format of floats.
unfoldable pub request_format : WaveFormat → Option WaveFormat
unfolding mask_for
request_format f = do
  mask ← if f.extensible then some f.channel_mask else mask_for f.channels
  some (record f {
    extensible = true;
    avg_bytes_per_sec = (4 * f.samples_per_sec * f.channels) % 2 ^ 32;
    block_align = (f.channels * 4) % 2 ^ 16;
    bits_per_sample = 32;
    cb_size = 22;
    valid_bits_per_sample = 32;
    channel_mask = mask;
    ieee_float = true;
  })
