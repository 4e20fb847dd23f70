-- ===== src/Converter/Refill.antt =====
-- What SampleFormatConverter::refillOutputBuffer changes of the converter.
use audio_io.Prelude.{
  ℕ, zero, suc, ◌+◌, ◌-◌, ◌*◌, ◌≡◌, refl, arith, some, ◌==◌, ltb, Bool-cases, inl, inr,
  Option-cases, OnSome, OnSome-elim,
}
use audio_io.Sample.{Float}
use audio_io.Converter.{
  Client, ResamplerLib, Converter, resample, refill_same_rate, refill_resampled,
  refill_output_buffer,
}
use audio_io.Converter.Write.{Refills}

module _ (fl : Float) (client : Client fl) (lib : ResamplerLib fl) where
  abbrev Conv : Type 0
  Conv = Converter fl client lib

  -- What no refill changes.
  abbrev pub SameFormat : Conv → Conv → Type 0
  SameFormat c c' =
      (c'.input_sr ≡ c.input_sr)
      × (c'.output_sr ≡ c.output_sr)
      × (c'.output_frames ≡ c.output_frames)
      × (c'.output_channels ≡ c.output_channels)

  resample-SameFormat :
      (fuel ic required got : ℕ) (c : Conv) (r : lib.Resampler)
      → OnSome (λ x. SameFormat c x.0) (resample fl client lib fuel ic required got c r)
  unfolding resample
  resample-SameFormat zero ic required got c r = tt
  resample-SameFormat (suc fuel) ic required got c r = elim (Bool-cases (ltb got required)) [
    | inl go_on ↦ elim (Bool-cases (ltb (got + n) required)) [
      | inl short ↦ rw (go_on, resample, short) (resample-SameFormat fuel ic required (got + n) _ _)
      | inr enough ↦
          rw (go_on, resample, enough) (resample-SameFormat fuel ic required (got + n) _ _)
    ]
    | inr stop ↦ rw (stop, resample) (refl, refl, refl, refl)
  ]
    where
      n : ℕ
      n = (lib.write r c.resampler_workspace (got * ic) (required - got)).0

  refill_same_rate-SameFormat : (c : Conv) → SameFormat c (refill_same_rate fl client lib c)
  unfolding refill_same_rate
  refill_same_rate-SameFormat c = ground arith

  refill_resampled-SameFormat : (c : Conv) → SameFormat c (refill_resampled fl client lib c)
  unfolding refill_resampled
  refill_resampled-SameFormat c = ground arith

  SameFormat-trans : (a b c : Conv) → SameFormat a b → SameFormat b c → SameFormat a c
  SameFormat-trans a b c p q = omega arith

  -- A refill that returns has kept the sample rates, the channels and the size of a block, and no
  -- frame of the new block is used up.
  pub refill_output_buffer_lem :
      (fuel : ℕ) (c : Conv)
      → OnSome
          (λ c'. SameFormat c c' × (c'.consumed_output_frames ≡ 0))
          (refill_output_buffer fl client lib fuel c)
  unfolding refill_output_buffer
  refill_output_buffer_lem fuel c = elim (Bool-cases (c.input_sr == c.output_sr)) [
    | inl same ↦ rw same (refill_same_rate-SameFormat c, refl)
    | inr differ ↦ elim (Option-cases c.resampler) [
      | inl missing ↦ rw (differ, missing) tt
      | inr (r, present) ↦
          elim (Option-cases (resample fl client lib fuel c.input_channels c.output_frames 0 c r)) [
            | inl stuck ↦ simp (differ, present, stuck) tt
            | inr (x, filled) ↦
                simp (differ, present, filled)
                  (
                    SameFormat-trans c x.0
                        (refill_resampled fl client lib (record (x.0) { resampler = some x.1 }))
                        (OnSome-elim (λ y. SameFormat c y.0) _
                          (resample-SameFormat fuel c.input_channels c.output_frames 0 c r) filled)
                        (refill_resampled-SameFormat (record (x.0) { resampler = some x.1 })),
                    refl,
                  )
          ]
    ]
  ]

  pub refill_output_buffer-Refills :
      (fuel : ℕ) → Refills fl client lib (refill_output_buffer fl client lib fuel)
  refill_output_buffer-Refills fuel c c' e =
      let ((_, _, same_frames, same_channels), start) =
        OnSome-elim (λ c'. SameFormat c c' × (c'.consumed_output_frames ≡ 0)) _
          (refill_output_buffer_lem fuel c) e in
      record { fresh = start; frames = same_frames; channels = same_channels }
