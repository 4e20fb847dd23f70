-- ===== src/Mixing/Remix.antt =====
-- The choice of a helper by the channel counts, and the public functions remixAudioInterleaved and
-- remixAudioUninterleaved of src/audio_io/format_conversion/remix.cpp.
use audio_io.Prelude.{ℕ, List, ◌*◌, Bool, ◌&&◌, ◌==◌, if◌then◌else◌, for_below}
use audio_io.Sample.{Float, Buffer, Buffers, modify}
use audio_io.Mixing.Matrices.{
  mixing_matrix_1_2, mixing_matrix_1_4, mixing_matrix_1_6, mixing_matrix_1_8, mixing_matrix_2_1,
  mixing_matrix_2_4, mixing_matrix_2_6, mixing_matrix_2_8, mixing_matrix_4_1, mixing_matrix_4_2,
  mixing_matrix_4_6, mixing_matrix_4_8, mixing_matrix_6_1, mixing_matrix_6_2, mixing_matrix_6_4,
  mixing_matrix_6_8, mixing_matrix_8_1, mixing_matrix_8_2, mixing_matrix_8_4, mixing_matrix_8_6,
}
use audio_io.Mixing.Kernels.{
  upmix_mono_uninterleaved, upmix_mono_interleaved, mix_unrecognized_uninterleaved,
  mix_unrecognized_interleaved, apply_mixing_matrix_uninterleaved, apply_mixing_matrix_interleaved,
}

-- The helper that a branch of the chain calls; a matrix comes with its template's channel counts.
pub data Helper : Type 0 where
  matrix : List ℕ → ℕ → ℕ → Helper
  mono : Helper
  unrecognized : Helper

-- The chain of tests in remixAudioInterleaved, with `ic` and `oc` the input and output channels.
unfoldable pub choose_interleaved : ℕ → ℕ → Helper
choose_interleaved ic oc =
    if ic == 1 && oc == 2
    then matrix mixing_matrix_1_2 1 2
    else if ic == 1 && oc == 4
    then matrix mixing_matrix_1_4 1 4
    else if ic == 1 && oc == 6
    then matrix mixing_matrix_1_6 1 6
    else if ic == 1 && oc == 8
    then matrix mixing_matrix_1_8 1 8
    else if ic == 1
    then mono
    else if ic == 2 && oc == 1
    then matrix mixing_matrix_2_1 2 1
    else if ic == 2 && oc == 4
    then matrix mixing_matrix_2_4 2 4
    else if ic == 2 && oc == 6
    then matrix mixing_matrix_2_6 2 6
    else if ic == 2 && oc == 8
    then matrix mixing_matrix_2_8 2 8
    else if ic == 4 && oc == 1
    then matrix mixing_matrix_4_1 4 1
    else if ic == 4 && oc == 2
    then matrix mixing_matrix_4_2 4 2
    else if ic == 4 && oc == 6
    then matrix mixing_matrix_4_6 4 6
    else if ic == 4 && oc == 8
    then matrix mixing_matrix_4_8 4 8
    else if ic == 6 && oc == 1
    then matrix mixing_matrix_6_1 6 1
    else if ic == 6 && oc == 2
    then matrix mixing_matrix_6_2 6 2
    else if ic == 6 && oc == 4
    then matrix mixing_matrix_6_4 6 4
    else if ic == 6 && oc == 8
    then matrix mixing_matrix_6_8 6 8
    else if ic == 8 && oc == 1
    then matrix mixing_matrix_8_1 8 1
    else if ic == 8 && oc == 2
    then matrix mixing_matrix_8_2 8 2
    else if ic == 8 && oc == 4
    then matrix mixing_matrix_8_4 8 4
    else if ic == 8 && oc == 6
    then matrix mixing_matrix_8_6 8 6
    else unrecognized

-- The chain of tests in remixAudioUninterleaved.
unfoldable pub choose_uninterleaved : ℕ → ℕ → Helper
choose_uninterleaved ic oc =
    if ic == 1 && oc == 2
    then matrix mixing_matrix_1_2 1 2
    else if ic == 1 && oc == 4
    then matrix mixing_matrix_1_4 1 4
    else if ic == 1 && oc == 6
    then matrix mixing_matrix_1_6 1 6
    else if ic == 1 && oc == 8
    then matrix mixing_matrix_1_8 1 8
    else if ic == 1
    then mono
    else if ic == 2 && oc == 1
    then matrix mixing_matrix_2_1 2 1
    else if ic == 2 && oc == 4
    then matrix mixing_matrix_2_4 2 4
    else if ic == 2 && oc == 6
    then matrix mixing_matrix_2_6 2 6
    else if ic == 2 && oc == 8
    then matrix mixing_matrix_2_8 2 8
    else if ic == 4 && oc == 1
    then matrix mixing_matrix_4_1 4 1
    else if ic == 4 && oc == 2
    then matrix mixing_matrix_4_2 4 2
    else if ic == 4 && oc == 6
    then matrix mixing_matrix_4_6 4 6
    else if ic == 4 && oc == 8
    then matrix mixing_matrix_4_8 4 8
    else if ic == 6 && oc == 1
    then matrix mixing_matrix_6_1 6 1
    else if ic == 6 && oc == 2
    then matrix mixing_matrix_6_2 6 2
    else if ic == 6 && oc == 4
    then matrix mixing_matrix_6_4 6 4
    else if ic == 6 && oc == 8
    then matrix mixing_matrix_6_8 6 8
    else if ic == 8 && oc == 1
    then matrix mixing_matrix_8_1 8 1
    else if ic == 8 && oc == 2
    then matrix mixing_matrix_8_2 8 2
    else if ic == 8 && oc == 4
    then matrix mixing_matrix_8_4 8 4
    else if ic == 8 && oc == 6
    then matrix mixing_matrix_8_6 8 6
    else unrecognized

module _ (fl : Float) where
  open fl use {F, lit}

  -- std::fill of the first `n` samples.
  unfoldable pub fill : ℕ → F → Buffer fl → Buffer fl
  fill n v p = for_below n (λ i q. modify q i (λ _. v)) p

  unfoldable pub run_interleaved : Helper → ℕ → ℕ → Buffer fl → ℕ → Buffer fl → Buffer fl
  run_interleaved (matrix m a b) frames ic input oc output =
      apply_mixing_matrix_interleaved fl m a b frames input output
  run_interleaved mono frames ic input oc output = upmix_mono_interleaved fl frames input oc output
  run_interleaved unrecognized frames ic input oc output =
      mix_unrecognized_interleaved fl frames ic input oc output

  unfoldable pub run_uninterleaved : Helper → ℕ → ℕ → Buffers fl → ℕ → Buffers fl → Buffers fl
  run_uninterleaved (matrix m a b) frames ic inputs oc outputs =
      apply_mixing_matrix_uninterleaved fl m a b frames inputs outputs
  run_uninterleaved mono frames ic inputs oc outputs =
      upmix_mono_uninterleaved fl frames (inputs 0) oc outputs
  run_uninterleaved unrecognized frames ic inputs oc outputs =
      mix_unrecognized_uninterleaved fl frames ic inputs oc outputs

  unfoldable pub remix_audio_interleaved : ℕ → ℕ → Buffer fl → ℕ → Buffer fl → Bool → Buffer fl
  remix_audio_interleaved frames ic input oc output zero_first =
      let start = if zero_first then fill (frames * oc) (lit 0) output else output in
      run_interleaved (choose_interleaved ic oc) frames ic input oc start

  unfoldable pub remix_audio_uninterleaved : ℕ → ℕ → Buffers fl → ℕ → Buffers fl → Bool → Buffers fl
  remix_audio_uninterleaved frames ic inputs oc outputs zero_first =
      let clear = λ (i : ℕ) (ps : Buffers fl). modify ps i (fill frames (lit 0)) in
      let start = if zero_first then for_below oc clear outputs else outputs in
      run_uninterleaved (choose_uninterleaved ic oc) frames ic inputs oc start
