-- ===== src/Converter/Anywhere.antt =====
-- SampleFormatConverter::write gives the same audio wherever it is asked to put it.
use audio_io.Prelude.{
  ℕ, zero, suc, ◌+◌, ◌-◌, ◌*◌, ◌<◌, ◌≡◌, inl, inr, refl, sym, ap, ◌∙◌, arith, Option, some,
  some_inj, Option-cases, OnSome-elim, dec_lt, leb, ltb, ◌&&◌, true,
}
use audio_io.Sample.{Float, Buffer}
use audio_io.Converter.{Client, ResamplerLib, Converter, refill_output_buffer, write}
use audio_io.Converter.Frames.{pull}
use audio_io.Converter.Write.{IsValid, Refills}
use audio_io.Converter.Refill.{refill_output_buffer-Refills}
use audio_io.Converter.Chunks.{
  ready, advance, place_frame, pull_step, pull_stuck, ready_lem, pull_miss, Kept, pull_keeps,
  write-pull,
}

module _ (fl : Float) (client : Client fl) (lib : ResamplerLib fl) where
  abbrev Conv : Type 0
  Conv = Converter fl client lib

  -- The same converter is left, and the same samples stand at the two places.
  abbrev Alike : ℕ → ℕ → ℕ → Conv × Buffer fl → Conv × Buffer fl → Type 0
  Alike size pos pos' x y = (y.0 ≡ x.0) × ((k : ℕ) → k < size → y.1 (pos' + k) ≡ x.1 (pos + k))

  module _ (refill : Conv → Option Conv) (ok : Refills fl client lib refill) where
    frame_hit :
        (pos : ℕ) (c : Conv) (buffer : Buffer fl) (k : ℕ)
        → k < c.output_channels
        → place_frame fl client lib refill ok pos c buffer (pos + k)
          ≡ c.output_buffer (c.consumed_output_frames * c.output_channels + k)
    unfolding place_frame
    frame_hit pos c buffer k lk =
        let inside : (leb pos (pos + k) && ltb (pos + k) (pos + c.output_channels)) ≡ true =
          ground arith in
        let at : pos + k - pos ≡ k = omega arith in rw (inside, at) refl

    pull_anywhere :
        (n pos pos' : ℕ) (c : Conv) (buffer buffer' : Buffer fl) (x : Conv × Buffer fl)
        → IsValid fl client lib c
        → pull fl client lib refill n pos c buffer ≡ some x
        → (y : Conv × Buffer fl) × (pull fl client lib refill n pos' c buffer' ≡ some y)
          × Alike (n * c.output_channels) pos pos' x y
    unfolding pull advance
    pull_anywhere zero pos pos' c buffer buffer' x v e = (
      (c, buffer'),
      refl,
      (ap (λ (o : Conv × Buffer fl). o.0) (some_inj e), λ k lk. absurd (omega arith)),
    )
    pull_anywhere (suc n) pos pos' c buffer buffer' x v e =
        elim (Option-cases (ready fl client lib refill ok c)) [
          | inl stuck ↦ absurd (cc (e, pull_stuck fl client lib refill ok n pos c buffer stuck))
          | inr (c', r) ↦
              let (same, v', _) = ready_lem fl client lib refill ok c c' r v in
              let d = advance fl client lib refill ok c' in
              let here = place_frame fl client lib refill ok pos c' buffer in
              let there = place_frame fl client lib refill ok pos' c' buffer' in
              let later = sym (pull_step fl client lib refill ok n pos c c' buffer r) ∙ e in
              let (y, e', (left, alike)) =
                pull_anywhere n (pos + c'.output_channels) (pos' + c'.output_channels) d here there
                  x v' later in
              (
                y,
                pull_step fl client lib refill ok n pos' c c' buffer' r ∙ e',
                (
                  left,
                  λ k lk. elim (dec_lt k c'.output_channels) [
                    | yes first ↦
                        OnSome-elim (λ z. z.1 (pos' + k) ≡ there (pos' + k)) _
                          (pull_miss fl client lib refill ok n (pos' + c'.output_channels) d there
                            (pos' + k) v' (inl (omega arith)))
                          e'
                        ∙ frame_hit pos' c' buffer' k first
                        ∙ sym (frame_hit pos c' buffer k first)
                        ∙ sym (
                            OnSome-elim (λ z. z.1 (pos + k) ≡ here (pos + k)) _
                              (pull_miss fl client lib refill ok n (pos + c'.output_channels) d here
                                (pos + k) v' (inl (omega arith)))
                              later)
                    | no behind ↦
                        let j = k - c'.output_channels in
                        let at : pos + c'.output_channels + j ≡ pos + k = omega arith in
                        let at' : pos' + c'.output_channels + j ≡ pos' + k = omega arith in
                        ap y.1 (sym at') ∙ alike j (omega (arith, ap (λ m. n * m) same)) ∙ ap x.1 at
                  ],
                ),
              )
        ]

  -- `write` with another buffer and another place leaves the same converter, and gives the same samples.
  pub write_anywhere :
      (resample_fuel frames base base' : ℕ) (c : Conv) (buffer buffer' : Buffer fl)
      (x : Conv × Buffer fl)
      → IsValid fl client lib c
      → write fl client lib resample_fuel frames base c buffer ≡ some x
      → (y : Conv × Buffer fl) × (write fl client lib resample_fuel frames base' c buffer' ≡ some y)
        × Alike (frames * c.output_channels) base base' x y
  write_anywhere resample_fuel frames base base' c buffer buffer' x v e =
      let refill = refill_output_buffer fl client lib resample_fuel in
      let ok = refill_output_buffer-Refills fl client lib resample_fuel in
      let (y, e', alike) =
        pull_anywhere refill ok frames base base' c buffer buffer' x v
          (sym (write-pull fl client lib resample_fuel frames base c buffer v) ∙ e) in
      (y, write-pull fl client lib resample_fuel frames base' c buffer' v ∙ e', alike)

  -- What `write` leaves can be asked again, in the same channels.
  pub write_keeps :
      (resample_fuel frames base : ℕ) (c : Conv) (buffer : Buffer fl) (x : Conv × Buffer fl)
      → IsValid fl client lib c
      → write fl client lib resample_fuel frames base c buffer ≡ some x
      → IsValid fl client lib x.0 × (x.0.output_channels ≡ c.output_channels)
  write_keeps resample_fuel frames base c buffer x v e =
      let refill = refill_output_buffer fl client lib resample_fuel in
      let ok = refill_output_buffer-Refills fl client lib resample_fuel in
      OnSome-elim (Kept fl client lib refill ok c) _
        (pull_keeps fl client lib refill ok frames base c buffer v)
        (sym (write-pull fl client lib resample_fuel frames base c buffer v) ∙ e)

  -- Nothing is asked for.
  pub write_nothing :
      (resample_fuel base : ℕ) (c : Conv) (buffer : Buffer fl)
      → IsValid fl client lib c
      → write fl client lib resample_fuel 0 base c buffer ≡ some (c, buffer)
  unfolding pull
  write_nothing resample_fuel base c buffer v =
      write-pull fl client lib resample_fuel 0 base c buffer v
