-- ===== src/Converter/Write.antt =====
-- The loop of SampleFormatConverter::write against the frame by frame description (Frames).
use audio_io.Prelude.{
  ℕ, zero, suc, ◌+◌, ◌-◌, ◌*◌, ◌≤◌, ◌<◌, ◌≡◌, ◌≢◌, refl, sym, ap, ◌∙◌, arith, Option, none, some,
  true, false, ◌==◌, min, inl, inr, ℕ_discrete, Option-cases,
}
use audio_io.Sample.{Float, Buffer}
use audio_io.Converter.{Client, ResamplerLib, Converter, copy, write_loop}
use audio_io.Converter.Frames.{pull, pull_run}

module _ (fl : Float) (client : Client fl) (lib : ResamplerLib fl) where
  abbrev Conv : Type 0
  Conv = Converter fl client lib

  -- A block has frames, and no more of them are used up than there are.
  pub record IsValid (c : Conv) : Type 0 where
    pub some_frames : 0 < c.output_frames
    pub within : c.consumed_output_frames ≤ c.output_frames

  -- What write relies on in refillOutputBuffer (Refill): a new block of the same format.
  pub record Refilled (c c' : Conv) : Type 0 where
    pub fresh : c'.consumed_output_frames ≡ 0
    pub frames : c'.output_frames ≡ c.output_frames
    pub channels : c'.output_channels ≡ c.output_channels

  abbrev pub Refills : (Conv → Option Conv) → Type 0
  Refills refill = (c c' : Conv) → refill c ≡ some c' → Refilled c c'

  module _ (refill : Conv → Option Conv) where
    abbrev left : Conv → ℕ
    left c = c.output_frames - c.consumed_output_frames

    -- The state after a refill is pulled from like the state before it.
    pub pull_refilled :
        (n pos : ℕ) (c c' : Conv) (buffer : Buffer fl)
        → left c ≡ 0
        → refill c ≡ some c'
        → left c' ≢ 0
        → n ≢ 0
        → pull fl client lib refill n pos c buffer ≡ pull fl client lib refill n pos c' buffer
    unfolding pull
    pull_refilled zero pos c c' buffer empty e more ne = absurd (ne refl)
    pull_refilled (suc n) pos c c' buffer empty e more ne =
        let none_left : (left c == 0) ≡ true = ground arith in
        let some_left : (left c' == 0) ≡ false = ground arith in rw (none_left, some_left, e)

    pull_fails :
        (n pos : ℕ) (c : Conv) (buffer : Buffer fl)
        → left c ≡ 0
        → refill c ≡ none
        → n ≢ 0
        → pull fl client lib refill n pos c buffer ≡ none
    unfolding pull
    pull_fails zero pos c buffer empty e ne = absurd (ne refl)
    pull_fails (suc n) pos c buffer empty e ne =
        let none_left : (left c == 0) ≡ true = ground arith in rw (none_left, e)

    pull_none :
        (n pos : ℕ) (c : Conv) (buffer : Buffer fl)
        → n ≡ 0
        → pull fl client lib refill n pos c buffer ≡ some (c, buffer)
    unfolding pull
    pull_none zero pos c buffer e = refl
    pull_none (suc n) pos c buffer e = absurd (omega arith)

    -- Enough fuel for two rounds a frame, and for one more if the block is used up.
    pub write_loop-pull :
        Refills refill
        → (fuel frames base written : ℕ) (c : Conv) (buffer : Buffer fl) → IsValid c
        → written ≤ frames
        → 2 * (frames - written) + 1 ≤ fuel
        → (left c ≡ 0 → 2 * (frames - written) + 2 ≤ fuel)
        → write_loop fl client lib refill fuel frames base written c buffer
          ≡ pull fl client lib refill
              (frames - written)
              (base + written * c.output_channels)
              c
              buffer
    unfolding write_loop
    write_loop-pull ok zero frames base written c buffer v le f f' = absurd (omega arith)
    write_loop-pull ok (suc fuel) frames base written c buffer v le f f' =
        elim (ℕ_discrete written frames) [
          | yes e ↦
              let stop : (written == frames) ≡ true = ground arith in
              rw (stop, write_loop) (sym (pull_none (frames - written) _ c buffer (omega arith)))
          | no ne ↦
              let go_on : (written == frames) ≡ false = ground arith in
              elim (ℕ_discrete (left c) 0) [
                | yes empty ↦
                    let idle : (will_write == 0) ≡ true = ground arith in
                    elim (Option-cases (refill c)) [
                      | inl fails ↦
                          rw (go_on, write_loop, idle, fails)
                            (sym
                              (pull_fails (frames - written) _ c buffer empty fails (omega arith)))
                      | inr (c', e) ↦
                          let r = ok c c' e in
                          rw (go_on, write_loop, idle, e)
                            (write_loop-pull ok fuel frames base written c' buffer
                                (record { some_frames = omega arith; within = omega arith }) le
                                (omega (arith, f' empty)) (λ h. absurd (omega arith))
                              ∙ ap
                                  (λ oc.
                                    pull fl client lib refill (frames - written)
                                      (base + written * oc) c' buffer)
                                  r.channels
                              ∙ sym (
                                  pull_refilled (frames - written) _ c c' buffer empty e
                                    (omega arith) (omega arith)))
                    ]
                | no more ↦
                    let busy : (will_write == 0) ≡ false = ground arith in
                    rw (go_on, write_loop, busy)
                      (write_loop-pull ok fuel frames base (written + will_write) _ _
                          (record { some_frames = omega arith; within = omega arith }) (omega arith)
                          (omega arith) (λ h. omega arith)
                        ∙ (λ i.
                            pull fl client lib refill (rest i) (there i)
                              (record c {
                                consumed_output_frames = c.consumed_output_frames + will_write;
                              })
                              copied)
                        ∙ sym (
                            pull_run fl client lib refill will_write (frames - written)
                              (frames - written - will_write) (base + written * oc) c buffer
                              (omega arith) (omega arith)))
              ]
        ]
      where
        oc : ℕ
        oc = c.output_channels

        will_write : ℕ
        will_write = min (frames - written) (left c)

        rest : frames - (written + will_write) ≡ frames - written - will_write
        rest = omega arith

        there : base + (written + will_write) * oc ≡ base + written * oc + will_write * oc
        there = grind arith

        copied : Buffer fl
        copied =
            copy c.output_buffer (c.consumed_output_frames * oc) (will_write * oc) buffer
              (base + written * oc)

    -- One request: `write` ends on every valid converter, and what it does is to pull the frames one
    -- at a time, whatever the refills return.
    pub write_loop_enough :
        Refills refill
        → (frames base : ℕ) (c : Conv) (buffer : Buffer fl) → IsValid c
        → write_loop fl client lib refill (2 * frames + 2) frames base 0 c buffer
          ≡ pull fl client lib refill frames base c buffer
    write_loop_enough ok frames base c buffer v =
        write_loop-pull ok (2 * frames + 2) frames base 0 c buffer v (omega arith) (omega arith)
          (λ h. omega arith)
        ∙ (λ i. pull fl client lib refill (all i) (start i) c buffer)
      where
        all : frames - 0 ≡ frames
        all = omega arith

        start : base + 0 * c.output_channels ≡ base
        start = omega arith
