-- ===== src/Converter/Create.antt =====
-- The constructor of SampleFormatConverter: when it is defined, and what it sets up.
use audio_io.Prelude.{ℕ, ◌*◌, ◌/◌, ◌^◌, ◌≤◌, ◌<◌, ◌≡◌, ◌≢◌, ◌⊎◌, inl, inr, refl, arith, none, some}
use audio_io.Sample.{Float}
use audio_io.Converter.{Client, ResamplerLib, Converter, create}
use audio_io.Converter.Ends.{Productive, Runs}

module _ (fl : Float) (client : Client fl) (lib : ResamplerLib fl) where
  abbrev Conv : Type 0
  Conv = Converter fl client lib

  create_fields :
      (world : client.World) (input_frames input_channels input_sr output_channels output_sr : ℕ)
      (c : Conv)
      → 0 < input_frames
      → create fl client lib world input_frames input_channels input_sr output_channels output_sr
        ≡ some c
      → (c.consumed_output_frames ≡ c.output_frames)
        × (0 < c.output_frames)
        × (c.input_sr ≡ input_sr)
        × (c.output_sr ≡ output_sr)
        × ((c.output_frames ≡ input_frames * output_sr / input_sr)
            ⊎ (c.output_frames ≡ input_frames))
        × ((input_sr ≡ output_sr)
            ⊎ (c.resampler
                ≡ some (lib.create_resampler input_frames input_channels input_sr output_sr)))
  unfolding create
  create_fields world fs ic isr oc osr c pos e = ground arith

  -- A converter that was made from a block with frames is valid and can run; its blocks have
  -- `input_frames * output_sr / input_sr` frames, or `input_frames` of them if that is none or the
  -- sample rates are equal.
  pub create-Runs :
      (good : Productive lib) (world : client.World)
      (input_frames input_channels input_sr output_channels output_sr : ℕ) (c : Conv)
      → 0 < input_frames
      → create fl client lib world input_frames input_channels input_sr output_channels output_sr
        ≡ some c
      → Runs fl client lib good c.output_frames c
        × ((c.output_frames ≡ input_frames * output_sr / input_sr)
            ⊎ (c.output_frames ≡ input_frames))
  create-Runs good world fs ic isr oc osr c pos e =
      let (used, some_frames, rate_in, rate_out, frames, kept) =
        create_fields world fs ic isr oc osr c pos e in
      (
        record {
          valid = record { some_frames = some_frames; within = omega arith };
          block = refl;
          resampled = elim kept [ inl same ↦ inl (omega arith) | inr made ↦ inr (_, made) ];
        },
        frames,
      )

  -- With sample rates that differ, the constructor overflows an `int` as soon as
  -- `input_frames * output_sr` reaches 2^31, small as the quotient may be.
  pub create_overflows :
      (world : client.World) (input_frames input_channels input_sr output_channels output_sr : ℕ)
      → input_sr ≢ output_sr
      → 2 ^ 31 ≤ input_frames * output_sr
      → create fl client lib world input_frames input_channels input_sr output_channels output_sr
        ≡ none
  unfolding create
  create_overflows world fs ic isr oc osr differ big = ground arith
