-- ===== src/Mixing/Registry.antt =====
-- The registry of the mixing matrices (include/audio_io/private/mixing_matrices.hpp and the head
-- of src/audio_io/format_conversion/mixing_matrices.cpp).
use audio_io.Prelude.{ℕ, List, [], ◌∷◌}
use audio_io.Mixing.Matrices.{
  mixing_matrix_1_2, mixing_matrix_1_4, mixing_matrix_1_6, mixing_matrix_1_8, mixing_matrix_2_1,
  mixing_matrix_2_4, mixing_matrix_2_6, mixing_matrix_2_8, mixing_matrix_4_1, mixing_matrix_4_2,
  mixing_matrix_4_6, mixing_matrix_4_8, mixing_matrix_6_1, mixing_matrix_6_2, mixing_matrix_6_4,
  mixing_matrix_6_8, mixing_matrix_8_1, mixing_matrix_8_2, mixing_matrix_8_4, mixing_matrix_8_6,
}

-- The sentinel's null pointer is the empty list.
pub record MixingMatrixInfo : Type 0 where
  pub in_channels : ℕ
  pub out_channels : ℕ
  pub pointer : List ℕ

abbrev info : ℕ → ℕ → List ℕ → MixingMatrixInfo
info i o m = record { in_channels = i; out_channels = o; pointer = m }

abbrev pub mixing_matrix_list : List MixingMatrixInfo
mixing_matrix_list =
    info 1 2 mixing_matrix_1_2
    ∷ info 1 4 mixing_matrix_1_4
    ∷ info 1 6 mixing_matrix_1_6
    ∷ info 1 8 mixing_matrix_1_8
    ∷ info 2 1 mixing_matrix_2_1
    ∷ info 2 4 mixing_matrix_2_4
    ∷ info 2 6 mixing_matrix_2_6
    ∷ info 2 8 mixing_matrix_2_8
    ∷ info 4 1 mixing_matrix_4_1
    ∷ info 4 2 mixing_matrix_4_2
    ∷ info 4 6 mixing_matrix_4_6
    ∷ info 4 8 mixing_matrix_4_8
    ∷ info 6 1 mixing_matrix_6_1
    ∷ info 6 2 mixing_matrix_6_2
    ∷ info 6 4 mixing_matrix_6_4
    ∷ info 6 8 mixing_matrix_6_8
    ∷ info 8 1 mixing_matrix_8_1
    ∷ info 8 2 mixing_matrix_8_2
    ∷ info 8 4 mixing_matrix_8_4
    ∷ info 8 6 mixing_matrix_8_6
    ∷ info 0 0 []
    ∷ []

-- The arrays that the header declares, each beside the numbers m and n of its name, mixing_matrix_m_n.
abbrev pub declared_matrices : List ((ℕ × ℕ) × List ℕ)
declared_matrices =
    ((1, 2), mixing_matrix_1_2)
    ∷ ((1, 4), mixing_matrix_1_4)
    ∷ ((1, 6), mixing_matrix_1_6)
    ∷ ((1, 8), mixing_matrix_1_8)
    ∷ ((2, 1), mixing_matrix_2_1)
    ∷ ((2, 4), mixing_matrix_2_4)
    ∷ ((2, 6), mixing_matrix_2_6)
    ∷ ((2, 8), mixing_matrix_2_8)
    ∷ ((4, 1), mixing_matrix_4_1)
    ∷ ((4, 2), mixing_matrix_4_2)
    ∷ ((4, 6), mixing_matrix_4_6)
    ∷ ((4, 8), mixing_matrix_4_8)
    ∷ ((6, 1), mixing_matrix_6_1)
    ∷ ((6, 2), mixing_matrix_6_2)
    ∷ ((6, 4), mixing_matrix_6_4)
    ∷ ((6, 8), mixing_matrix_6_8)
    ∷ ((8, 1), mixing_matrix_8_1)
    ∷ ((8, 2), mixing_matrix_8_2)
    ∷ ((8, 4), mixing_matrix_8_4)
    ∷ ((8, 6), mixing_matrix_8_6)
    ∷ []
