-- ===== src/Mixing/Kernels.antt =====
-- The helpers of src/audio_io/format_conversion/remix.cpp. `+=` on a cell is `modify`; a loop
-- over `frames` that also advances `in` and `out` by the channel counts reads them as products
-- (with no input channel its test fails at once, and so does each inner loop here).
use audio_io.Prelude.{ℕ, zero, suc, ◌+◌, ◌*◌, List, [], ◌∷◌, min, for_below}
use audio_io.Sample.{Float, Buffer, Buffers, modify}

-- `matrix[k]`, and 0 behind the end.
abbrev pub entry : List ℕ → ℕ → ℕ
entry [] k = 0
entry (v ∷ vs) zero = v
entry (v ∷ vs) (suc k) = entry vs k

module _ (fl : Float) where
  open fl use {F, add, mul, lit}

  -- `p[k] += v`
  abbrev pub add_at : Buffer fl → ℕ → F → Buffer fl
  add_at p k v = modify p k (λ x. add x v)

  -- `ps[j][i] += v`
  abbrev pub add_at₂ : Buffers fl → ℕ → ℕ → F → Buffers fl
  add_at₂ ps j i v = modify ps j (λ p. add_at p i v)

  unfoldable pub upmix_mono_uninterleaved : ℕ → Buffer fl → ℕ → Buffers fl → Buffers fl
  upmix_mono_uninterleaved frames input output_channels outputs =
      for_below frames (λ i out. for_below output_channels (λ j o. add_at₂ o j i (input i)) out)
        outputs

  unfoldable pub upmix_mono_interleaved : ℕ → Buffer fl → ℕ → Buffer fl → Buffer fl
  upmix_mono_interleaved frames input output_channels output =
      for_below frames
        (λ i out.
          for_below output_channels (λ chan o. add_at o (i * output_channels + chan) (input i)) out)
        output

  unfoldable pub mix_unrecognized_uninterleaved : ℕ → ℕ → Buffers fl → ℕ → Buffers fl → Buffers fl
  mix_unrecognized_uninterleaved frames input_channels inputs output_channels outputs =
      for_below (min input_channels output_channels)
        (λ i out. for_below frames (λ frame o. add_at₂ o i frame (inputs i frame)) out) outputs

  unfoldable pub mix_unrecognized_interleaved : ℕ → ℕ → Buffer fl → ℕ → Buffer fl → Buffer fl
  mix_unrecognized_interleaved frames input_channels input output_channels output =
      for_below frames
        (λ i out.
          for_below (min input_channels output_channels)
            (λ j o. add_at o (i * output_channels + j) (input (i * input_channels + j))) out)
        output

  -- The frame copied out of the channels is `frame`.
  unfoldable pub apply_mixing_matrix_uninterleaved :
      List ℕ → ℕ → ℕ → ℕ → Buffers fl → Buffers fl → Buffers fl
  apply_mixing_matrix_uninterleaved matrix input_channels output_channels frames inputs outputs =
      for_below frames
        (λ i out.
          let frame = λ (j : ℕ). inputs j i in
          for_below output_channels
            (λ row o.
              for_below input_channels
                (λ column q.
                  add_at₂ q row i
                    (mul (frame column) (lit (entry matrix (row * input_channels + column)))))
                o)
            out)
        outputs

  unfoldable pub apply_mixing_matrix_interleaved :
      List ℕ → ℕ → ℕ → ℕ → Buffer fl → Buffer fl → Buffer fl
  apply_mixing_matrix_interleaved matrix input_channels output_channels frames input output =
      for_below frames
        (λ i out.
          let frame = λ (j : ℕ). input (i * input_channels + j) in
          for_below output_channels
            (λ row o.
              for_below input_channels
                (λ column q.
                  add_at q (i * output_channels + row)
                    (mul (lit (entry matrix (row * input_channels + column))) (frame column)))
                o)
            out)
        output
