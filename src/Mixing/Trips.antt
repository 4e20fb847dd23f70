-- ===== src/Mixing/Trips.antt =====
-- Remixing to more channels and back, by src/audio_io/format_conversion/remix.cpp.
use audio_io.Prelude.{ℕ, zero, suc, ◌<◌, ◌≡◌, ◌∙◌, arith, true, for_below}
use audio_io.Sample.{Float, Buffer}
use audio_io.Mixing.Matrices.{
  mixing_matrix_1_2, mixing_matrix_1_6, mixing_matrix_1_8, mixing_matrix_2_1, mixing_matrix_2_6,
  mixing_matrix_2_8, mixing_matrix_4_6, mixing_matrix_6_1, mixing_matrix_6_2, mixing_matrix_6_4,
  mixing_matrix_8_1, mixing_matrix_8_2,
}
use audio_io.Mixing.Remix.{choose_interleaved, remix_audio_interleaved}
use audio_io.Mixing.Cells.{place, mixed}
use audio_io.Mixing.Interleaved.{choose_interleaved-Fits, remix_audio_interleaved-mixed}
use audio_io.Mixing.Agree.{mixed_cong}

-- What the entries 0, 1 and 0.5 do in arithmetic without rounding: IEEE 754 has these laws for finite
-- numbers of which half can be represented, if it does not matter which zero a zero is.
pub record Exact (fl : Float) : Type 0 where
  pub add_zero : (x : fl.F) → fl.add x (fl.lit 0) ≡ x
  pub zero_add : (x : fl.F) → fl.add (fl.lit 0) x ≡ x
  pub mul_one : (x : fl.F) → fl.mul (fl.lit 100000) x ≡ x
  pub mul_zero : (x : fl.F) → fl.mul (fl.lit 0) x ≡ fl.lit 0
  pub mul_silence : (n : ℕ) → fl.mul (fl.lit n) (fl.lit 0) ≡ fl.lit 0
  pub halves : (x : fl.F) → fl.add (fl.mul (fl.lit 50000) x) (fl.mul (fl.lit 50000) x) ≡ x

-- The channel counts between which audio goes there and back.
pub data Trip : ℕ → ℕ → Type 0 where
  mono_stereo : Trip 1 2
  mono_five_one : Trip 1 6
  mono_seven_one : Trip 1 8
  stereo_five_one : Trip 2 6
  stereo_seven_one : Trip 2 8
  quad_five_one : Trip 4 6

module _ (fl : Float) (h : Exact fl) where
  open fl use {F, lit}

  -- A frame, there and back.
  abbrev back : ℕ → ℕ → (ℕ → F) → ℕ → F
  back a b frame r =
      mixed fl (choose_interleaved b a) b (λ c. mixed fl (choose_interleaved a b) a frame c (lit 0))
        r (lit 0)

  back_lem : {a b : ℕ} → Trip a b → (frame : ℕ → F) (r : ℕ) → r < a → back a b frame r ≡ frame r
  unfolding mixed choose_interleaved for_below mixing_matrix_1_2 mixing_matrix_1_6 mixing_matrix_1_8
      mixing_matrix_2_1 mixing_matrix_2_6 mixing_matrix_2_8 mixing_matrix_4_6 mixing_matrix_6_1
      mixing_matrix_6_2 mixing_matrix_6_4 mixing_matrix_8_1 mixing_matrix_8_2
  back_lem mono_stereo frame zero lt =
      simp (h.add_zero, h.zero_add, h.mul_one, h.mul_zero, h.mul_silence, h.halves)
  back_lem mono_stereo frame (suc r) lt = absurd (omega arith)
  back_lem mono_five_one frame zero lt =
      simp (h.add_zero, h.zero_add, h.mul_one, h.mul_zero, h.mul_silence, h.halves)
  back_lem mono_five_one frame (suc r) lt = absurd (omega arith)
  back_lem mono_seven_one frame zero lt =
      simp (h.add_zero, h.zero_add, h.mul_one, h.mul_zero, h.mul_silence, h.halves)
  back_lem mono_seven_one frame (suc r) lt = absurd (omega arith)
  back_lem stereo_five_one frame zero lt =
      simp (h.add_zero, h.zero_add, h.mul_one, h.mul_zero, h.mul_silence, h.halves)
  back_lem stereo_five_one frame (suc zero) lt =
      simp (h.add_zero, h.zero_add, h.mul_one, h.mul_zero, h.mul_silence, h.halves)
  back_lem stereo_five_one frame (suc (suc r)) lt = absurd (omega arith)
  back_lem stereo_seven_one frame zero lt =
      simp (h.add_zero, h.zero_add, h.mul_one, h.mul_zero, h.mul_silence, h.halves)
  back_lem stereo_seven_one frame (suc zero) lt =
      simp (h.add_zero, h.zero_add, h.mul_one, h.mul_zero, h.mul_silence, h.halves)
  back_lem stereo_seven_one frame (suc (suc r)) lt = absurd (omega arith)
  back_lem quad_five_one frame zero lt =
      simp (h.add_zero, h.zero_add, h.mul_one, h.mul_zero, h.mul_silence, h.halves)
  back_lem quad_five_one frame (suc zero) lt =
      simp (h.add_zero, h.zero_add, h.mul_one, h.mul_zero, h.mul_silence, h.halves)
  back_lem quad_five_one frame (suc (suc zero)) lt =
      simp (h.add_zero, h.zero_add, h.mul_one, h.mul_zero, h.mul_silence, h.halves)
  back_lem quad_five_one frame (suc (suc (suc zero))) lt =
      simp (h.add_zero, h.zero_add, h.mul_one, h.mul_zero, h.mul_silence, h.halves)
  back_lem quad_five_one frame (suc (suc (suc (suc r)))) lt = absurd (omega arith)

  -- Audio that is remixed to more channels and back is what it was, in arithmetic without rounding:
  -- from mono to stereo, 5.1 or 7.1, from stereo to 5.1 or 7.1, and from four channels to 5.1.
  pub remix_there_and_back :
      (frames : ℕ) {a b : ℕ} (trip : Trip a b) (input there here : Buffer fl) (i r : ℕ)
      → i < frames
      → r < a
      → remix_audio_interleaved fl frames b
          (remix_audio_interleaved fl frames a input b there true)
          a
          here
          true
          (place a i r)
        ≡ input (place a i r)
  remix_there_and_back frames {a} {b} trip input there here i r li lr =
      remix_audio_interleaved-mixed fl frames b _ a here true i r li lr
      ∙ mixed_cong fl (choose_interleaved b a) b a _ _ r (lit 0) (choose_interleaved-Fits b a)
          (λ c lc. remix_audio_interleaved-mixed fl frames a input b there true i c li lc)
      ∙ back_lem trip (λ c. input (place a i c)) r lr
