-- ===== src/Mixing/Matrices.antt =====
-- The mixing matrices of src/audio_io/format_conversion/mixing_matrices.cpp, row-major: a row for
-- each output channel, a column for each input channel. An entry is in units of 1/100000, so
-- `0.7071/2` is 35355.
use audio_io.Prelude.{ℕ, List, [], ◌∷◌}

-- 1 channels to 2
unfoldable pub mixing_matrix_1_2 : List ℕ
mixing_matrix_1_2 = 100000 ∷ 100000 ∷ []

-- 1 channels to 4
unfoldable pub mixing_matrix_1_4 : List ℕ
mixing_matrix_1_4 = 100000 ∷ 100000 ∷ 0 ∷ 0 ∷ []

-- 1 channels to 6
unfoldable pub mixing_matrix_1_6 : List ℕ
mixing_matrix_1_6 = 0 ∷ 0 ∷ 100000 ∷ 0 ∷ 0 ∷ 0 ∷ []

-- 1 channels to 8
unfoldable pub mixing_matrix_1_8 : List ℕ
mixing_matrix_1_8 = 0 ∷ 0 ∷ 100000 ∷ 0 ∷ 0 ∷ 0 ∷ 0 ∷ 0 ∷ []

-- 2 channels to 1
unfoldable pub mixing_matrix_2_1 : List ℕ
mixing_matrix_2_1 = 50000 ∷ 50000 ∷ []

-- 2 channels to 4
unfoldable pub mixing_matrix_2_4 : List ℕ
mixing_matrix_2_4 = 100000 ∷ 0 ∷ 0 ∷ 100000 ∷ 0 ∷ 0 ∷ 0 ∷ 0 ∷ []

-- 2 channels to 6
unfoldable pub mixing_matrix_2_6 : List ℕ
mixing_matrix_2_6 = 100000 ∷ 0 ∷ 0 ∷ 100000 ∷ 0 ∷ 0 ∷ 0 ∷ 0 ∷ 0 ∷ 0 ∷ 0 ∷ 0 ∷ []

-- 2 channels to 8
unfoldable pub mixing_matrix_2_8 : List ℕ
mixing_matrix_2_8 = 100000 ∷ 0 ∷ 0 ∷ 100000 ∷ 0 ∷ 0 ∷ 0 ∷ 0 ∷ 0 ∷ 0 ∷ 0 ∷ 0 ∷ 0 ∷ 0 ∷ 0 ∷ 0 ∷ []

-- 4 channels to 1
unfoldable pub mixing_matrix_4_1 : List ℕ
mixing_matrix_4_1 = 25000 ∷ 25000 ∷ 25000 ∷ 25000 ∷ []

-- 4 channels to 2
unfoldable pub mixing_matrix_4_2 : List ℕ
mixing_matrix_4_2 = 50000 ∷ 0 ∷ 50000 ∷ 0 ∷ 0 ∷ 50000 ∷ 0 ∷ 50000 ∷ []

-- 4 channels to 6
unfoldable pub mixing_matrix_4_6 : List ℕ
mixing_matrix_4_6 =
    100000 ∷ 0 ∷ 0 ∷ 0 ∷ 0 ∷ 100000 ∷ 0 ∷ 0 ∷ 0 ∷ 0 ∷ 0 ∷ 0 ∷ 0 ∷ 0 ∷ 0 ∷ 0 ∷ 0 ∷ 0 ∷ 100000 ∷ 0 ∷ 0
    ∷ 0 ∷ 0 ∷ 100000 ∷ []

-- 4 channels to 8
unfoldable pub mixing_matrix_4_8 : List ℕ
mixing_matrix_4_8 =
    100000 ∷ 0 ∷ 0 ∷ 0 ∷ 0 ∷ 100000 ∷ 0 ∷ 0 ∷ 0 ∷ 0 ∷ 0 ∷ 0 ∷ 0 ∷ 0 ∷ 0 ∷ 0 ∷ 0 ∷ 0 ∷ 70710 ∷ 0 ∷ 0
    ∷ 0 ∷ 0 ∷ 70710 ∷ 0 ∷ 0 ∷ 70710 ∷ 0 ∷ 0 ∷ 0 ∷ 0 ∷ 70710 ∷ []

-- 6 channels to 1
unfoldable pub mixing_matrix_6_1 : List ℕ
mixing_matrix_6_1 = 70700 ∷ 70700 ∷ 100000 ∷ 0 ∷ 50000 ∷ 50000 ∷ []

-- 6 channels to 2
unfoldable pub mixing_matrix_6_2 : List ℕ
mixing_matrix_6_2 = 100000 ∷ 0 ∷ 70710 ∷ 0 ∷ 70710 ∷ 0 ∷ 0 ∷ 100000 ∷ 70710 ∷ 0 ∷ 0 ∷ 70710 ∷ []

-- 6 channels to 4
unfoldable pub mixing_matrix_6_4 : List ℕ
mixing_matrix_6_4 =
    100000 ∷ 0 ∷ 70710 ∷ 0 ∷ 0 ∷ 0 ∷ 0 ∷ 100000 ∷ 70710 ∷ 0 ∷ 0 ∷ 0 ∷ 0 ∷ 0 ∷ 0 ∷ 0 ∷ 100000 ∷ 0 ∷ 0
    ∷ 0 ∷ 0 ∷ 0 ∷ 0 ∷ 100000 ∷ []

-- 6 channels to 8
unfoldable pub mixing_matrix_6_8 : List ℕ
mixing_matrix_6_8 =
    100000 ∷ 0 ∷ 0 ∷ 0 ∷ 0 ∷ 0 ∷ 0 ∷ 100000 ∷ 0 ∷ 0 ∷ 0 ∷ 0 ∷ 0 ∷ 0 ∷ 100000 ∷ 0 ∷ 0 ∷ 0 ∷ 0 ∷ 0 ∷ 0
    ∷ 100000 ∷ 0 ∷ 0 ∷ 0 ∷ 0 ∷ 0 ∷ 0 ∷ 50000 ∷ 0 ∷ 0 ∷ 0 ∷ 0 ∷ 0 ∷ 0 ∷ 50000 ∷ 0 ∷ 0 ∷ 0 ∷ 0 ∷ 50000
    ∷ 0 ∷ 0 ∷ 0 ∷ 0 ∷ 0 ∷ 0 ∷ 50000 ∷ []

-- 8 channels to 1
unfoldable pub mixing_matrix_8_1 : List ℕ
mixing_matrix_8_1 = 70710 ∷ 70710 ∷ 100000 ∷ 0 ∷ 25000 ∷ 25000 ∷ 25000 ∷ 25000 ∷ []

-- 8 channels to 2
unfoldable pub mixing_matrix_8_2 : List ℕ
mixing_matrix_8_2 =
    100000 ∷ 0 ∷ 70710 ∷ 0 ∷ 35355 ∷ 0 ∷ 35355 ∷ 0 ∷ 0 ∷ 100000 ∷ 70710 ∷ 0 ∷ 0 ∷ 35355 ∷ 0 ∷ 35355
    ∷ []

-- 8 channels to 4
unfoldable pub mixing_matrix_8_4 : List ℕ
mixing_matrix_8_4 =
    100000 ∷ 0 ∷ 70710 ∷ 0 ∷ 0 ∷ 0 ∷ 0 ∷ 0 ∷ 0 ∷ 100000 ∷ 70710 ∷ 0 ∷ 0 ∷ 0 ∷ 0 ∷ 0 ∷ 0 ∷ 0 ∷ 0 ∷ 0
    ∷ 50000 ∷ 0 ∷ 50000 ∷ 0 ∷ 0 ∷ 0 ∷ 0 ∷ 0 ∷ 0 ∷ 50000 ∷ 0 ∷ 50000 ∷ []

-- 8 channels to 6
unfoldable pub mixing_matrix_8_6 : List ℕ
mixing_matrix_8_6 =
    100000 ∷ 0 ∷ 0 ∷ 0 ∷ 0 ∷ 0 ∷ 0 ∷ 0 ∷ 0 ∷ 100000 ∷ 0 ∷ 0 ∷ 0 ∷ 0 ∷ 0 ∷ 0 ∷ 0 ∷ 0 ∷ 100000 ∷ 0 ∷ 0
    ∷ 0 ∷ 0 ∷ 0 ∷ 0 ∷ 0 ∷ 0 ∷ 100000 ∷ 0 ∷ 0 ∷ 0 ∷ 0 ∷ 0 ∷ 0 ∷ 0 ∷ 0 ∷ 50000 ∷ 50000 ∷ 0 ∷ 0 ∷ 0 ∷ 0
    ∷ 0 ∷ 0 ∷ 0 ∷ 0 ∷ 50000 ∷ 50000 ∷ []
