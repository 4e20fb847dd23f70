-- ===== src/Mixing/Tests.antt =====
-- The mixing theorems at concrete audio, in exact arithmetic.
use audio_io.Prelude.{
  ℕ, zero, suc, ◌%◌, ◌≤◌, ◌⊎◌, ◌+◌, ◌*◌, ◌≡◌, refl, arith, true, false, mul_comm,
}
use audio_io.Sample.{Float, exact, Buffer, Buffers}
use audio_io.Mixing.Remix.{choose_interleaved, remix_audio_interleaved, remix_audio_uninterleaved}
use audio_io.Mixing.Cells.{place, mixed}
use audio_io.Mixing.Interleaved.{remix_audio_interleaved-mixed}
use audio_io.Mixing.Agree.{remix_agree, remix_bounds}
use audio_io.Mixing.Trips.{Exact, stereo_five_one, remix_there_and_back}
use audio_io.Mixing.Registry.{mixing_matrix_list, declared_matrices}
use audio_io.Mixing.Named.{named, choose_interleaved-named}
use audio_io.Mixing.Chosen.{
  registered, by_registry, shaped, unity, crosses, chosen_matrix_gain, chosen_matrix_sides,
}

-- Two stereo frames, (1, 2) and (3, 4), and the same by channels.
abbrev stereo : Buffer exact
stereo k = k + 1

abbrev stereo_channels : Buffers exact
stereo_channels c i = i * 2 + c + 1

abbrev silence : Buffer exact
silence k = 0

abbrev silent_channels : Buffers exact
silent_channels c i = 0

remix_agree_example :
    remix_audio_interleaved exact 2 2 stereo 1 silence true 1
    ≡ remix_audio_uninterleaved exact 2 2 stereo_channels 1 silent_channels true 0 1
remix_agree_example =
    remix_agree exact 2 2 stereo stereo_channels 1 silence silent_channels true mul_comm
      (λ i c li lc. refl) (λ i r li lr. refl) 1 0 (omega arith) (omega arith)

remix_audio_interleaved-mixed_example :
    remix_audio_interleaved exact 2 2 stereo 1 silence true 1
    ≡ mixed exact (choose_interleaved 2 1) 2 (λ c. stereo (place 2 1 c)) 0 0
remix_audio_interleaved-mixed_example =
    remix_audio_interleaved-mixed exact 2 2 stereo 1 silence true 1 0 (omega arith) (omega arith)

remix_bounds_example :
    ((k : ℕ) → 2 * 1 ≤ k → remix_audio_interleaved exact 2 2 stereo 1 silence true k ≡ 0)
    × ((r i : ℕ)
        → (1 ≤ r) ⊎ (2 ≤ i)
        → remix_audio_uninterleaved exact 2 2 stereo_channels 1 silent_channels true r i ≡ 0)
remix_bounds_example = remix_bounds exact 2 2 stereo stereo_channels 1 silence silent_channels true

choose_interleaved-named_example :
    (choose_interleaved 8 6 ≡ by_registry (registered mixing_matrix_list 8 6) 8 6)
    × (registered mixing_matrix_list 8 6 ≡ named declared_matrices 8 6)
choose_interleaved-named_example = choose_interleaved-named 8 6

chosen_matrix_gain_example :
    (shaped (choose_interleaved 6 2) ≡ true) × (unity (choose_interleaved 6 2) ≡ false)
chosen_matrix_gain_example = chosen_matrix_gain 6 2

chosen_matrix_sides_example : crosses (choose_interleaved 8 6) ≡ true
chosen_matrix_sides_example = chosen_matrix_sides 8 6

-- Arithmetic modulo three, in which 0.5 is two.
data Three : Type 0 where
  nought one two : Three

abbrev add_three : Three → Three → Three
add_three nought y = y
add_three one nought = one
add_three one one = two
add_three one two = nought
add_three two nought = two
add_three two one = nought
add_three two two = one

abbrev mul_three : Three → Three → Three
mul_three nought y = nought
mul_three one y = y
mul_three two y = add_three y y

abbrev of_rest : ℕ → Three
of_rest zero = nought
of_rest (suc zero) = one
of_rest (suc (suc n)) = two

abbrev modulo_three : Float
modulo_three = record { F = Three; add = add_three; mul = mul_three; lit = λ n. of_rest (n % 3) }

add_nought : (x : Three) → add_three x nought ≡ x
add_nought nought = refl
add_nought one = refl
add_nought two = refl

mul_nought : (x : Three) → mul_three x nought ≡ nought
mul_nought nought = refl
mul_nought one = refl
mul_nought two = refl

two_halves : (x : Three) → add_three (mul_three two x) (mul_three two x) ≡ x
two_halves nought = refl
two_halves one = refl
two_halves two = refl

modulo_three-Exact : Exact modulo_three
modulo_three-Exact = record {
  add_zero = add_nought;
  zero_add = λ x. refl;
  mul_one = λ x. refl;
  mul_zero = λ x. refl;
  mul_silence = λ n. mul_nought (of_rest (n % 3));
  halves = two_halves;
}

-- The right channel of the second of two stereo frames, through 5.1.
remix_there_and_back_example :
    remix_audio_interleaved modulo_three 2 6
      (remix_audio_interleaved modulo_three 2 2 (λ k. of_rest (k % 3)) 6 (λ k. one) true)
      2
      (λ k. one)
      true
      (place 2 1 1)
    ≡ of_rest (place 2 1 1 % 3)
remix_there_and_back_example =
    remix_there_and_back modulo_three modulo_three-Exact 2 stereo_five_one (λ k. of_rest (k % 3))
      (λ k. one) (λ k. one) 1 1 (omega arith) (omega arith)
