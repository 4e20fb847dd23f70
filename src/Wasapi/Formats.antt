-- ===== src/Wasapi/Formats.antt =====
-- The format that the constructor of WasapiOutputDevice asks for.
use audio_io.Prelude.{ℕ, ◌*◌, ◌≡◌, true, length}
use audio_io.Wasapi.{WaveFormat, ChannelMask, given, union, lowest}

-- A mask of `n` speakers.
abbrev pub Places : ChannelMask → ℕ → Type 0
Places (given mask) n = ⊥
Places (union speakers) n = length speakers ≡ n
Places (lowest k) n = k ≡ n

-- What is asked for: floats, at the rate and with the channels of the device.
pub record Floats (f f' : WaveFormat) : Type 0 where
  pub floats : f'.ieee_float ≡ true
  pub bits : f'.bits_per_sample ≡ 32
  pub rate : f'.samples_per_sec ≡ f.samples_per_sec
  pub channels : f'.channels ≡ f.channels
  pub frame : f'.block_align ≡ f.channels * 4
