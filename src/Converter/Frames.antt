-- ===== src/Converter/Frames.antt =====
-- What SampleFormatConverter::write promises: frames are pulled one at a time, and a block is
-- fetched when the last one is used up.
use audio_io.Prelude.{
  ℕ, zero, suc, ◌+◌, ◌-◌, ◌*◌, ◌≤◌, ◌≡◌, sym, false, ap, ◌∙◌, fun_ext, arith, Option, some, ◌==◌,
  if◌then◌else◌, ◌>>=◌,
}
use audio_io.Sample.{Float, Buffer}
use audio_io.Converter.{Client, ResamplerLib, Converter, copy}

-- Copies of adjacent ranges to adjacent places.
copy-copy :
    {A : Type 0} (source : ℕ → A) (from a m to : ℕ) (dest : ℕ → A)
    → copy source (from + a) m (copy source from a dest to) (to + a)
      ≡ copy source from (a + m) dest to
copy-copy source from a m to dest = fun_ext (λ k. ground arith)

copy_none :
    {A : Type 0} (source : ℕ → A) (from to : ℕ) (dest : ℕ → A) → copy source from 0 dest to ≡ dest
copy_none source from to dest = fun_ext (λ k. ground arith)

module _ (fl : Float) (client : Client fl) (lib : ResamplerLib fl) where
  abbrev Conv : Type 0
  Conv = Converter fl client lib

  module _ (refill : Conv → Option Conv) where
    unfoldable pub pull : ℕ → ℕ → Conv → Buffer fl → Option (Conv × Buffer fl)
    pull zero pos c buffer = some (c, buffer)
    pull (suc n) pos c buffer =
        (if c.output_frames - c.consumed_output_frames == 0 then refill c else some c) >>= (λ c'.
          pull n (pos + c'.output_channels)
            (record c' { consumed_output_frames = c'.consumed_output_frames + 1 })
            (copy c'.output_buffer (c'.consumed_output_frames * c'.output_channels)
              c'.output_channels buffer pos))

    -- Frames that the block still holds are copied at once.
    pub pull_run :
        (w n k pos : ℕ) (c : Conv) (buffer : Buffer fl)
        → n ≡ w + k
        → c.consumed_output_frames + w ≤ c.output_frames
        → pull n pos c buffer
          ≡ pull k
              (pos + w * c.output_channels)
              (record c { consumed_output_frames = c.consumed_output_frames + w })
              (copy c.output_buffer
                (c.consumed_output_frames * c.output_channels)
                (w * c.output_channels)
                buffer
                pos)
    unfolding pull
    pull_run zero n k pos c buffer e fits =
        λ i. pull (same i) (there i) (record c { consumed_output_frames = used i }) (old i)
      where
        same : n ≡ k
        same = omega arith

        there : pos ≡ pos + zero * c.output_channels
        there = omega arith

        used : c.consumed_output_frames ≡ c.consumed_output_frames + zero
        used = omega arith

        none_left : zero * c.output_channels ≡ 0
        none_left = omega arith

        old :
            buffer
            ≡ copy c.output_buffer
                (c.consumed_output_frames * c.output_channels)
                (zero * c.output_channels)
                buffer
                pos
        old = sym (
            ap
              (λ n.
                copy c.output_buffer (c.consumed_output_frames * c.output_channels) n buffer pos)
              none_left
            ∙ copy_none c.output_buffer (c.consumed_output_frames * c.output_channels) pos buffer)
    pull_run (suc w) zero k pos c buffer e fits = absurd (omega arith)
    pull_run (suc w) (suc n) k pos c buffer e fits = rw open_block (
        pull_run w n k (pos + oc) next _ (omega arith) (omega arith)
        ∙ (λ i. pull k (there i) (record c { consumed_output_frames = used i }) (joined i)))
      where
        open c use {output_channels as oc, consumed_output_frames as used_up}

        next : Conv
        next = record c { consumed_output_frames = used_up + 1 }

        open_block : (c.output_frames - used_up == 0) ≡ false
        open_block = ground arith

        there : pos + oc + w * oc ≡ pos + suc w * oc
        there = grind arith

        used : used_up + 1 + w ≡ used_up + suc w
        used = omega arith

        from : (used_up + 1) * oc ≡ used_up * oc + oc
        from = grind arith

        size : oc + w * oc ≡ suc w * oc
        size = grind arith

        joined :
            copy c.output_buffer
              ((used_up + 1) * oc)
              (w * oc)
              (copy c.output_buffer (used_up * oc) oc buffer pos)
              (pos + oc)
            ≡ copy c.output_buffer (used_up * oc) (suc w * oc) buffer pos
        joined = rw from (
            copy-copy c.output_buffer (used_up * oc) oc (w * oc) pos buffer
            ∙ ap (λ n. copy c.output_buffer (used_up * oc) n buffer pos) size)
