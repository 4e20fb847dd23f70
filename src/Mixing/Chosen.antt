-- ===== src/Mixing/Chosen.antt =====
-- The chain of tests against the registry, and what the chosen matrices are like.
use audio_io.Prelude.{
  ℕ, zero, suc, ◌+◌, ◌*◌, ◌%◌, ◌≡◌, refl, sym, arith, ◌≢◌, ◌⊎◌, inl, inr, List, [], ◌∷◌, Option,
  none, some, Bool, true, false, ◌&&◌, ◌||◌, not, ◌==◌, leb, if◌then◌else◌, length, take, drop,
}
use audio_io.Mixing.Matrices.{
  mixing_matrix_1_2, mixing_matrix_1_4, mixing_matrix_1_6, mixing_matrix_1_8, mixing_matrix_2_1,
  mixing_matrix_2_4, mixing_matrix_2_6, mixing_matrix_2_8, mixing_matrix_4_1, mixing_matrix_4_2,
  mixing_matrix_4_6, mixing_matrix_4_8, mixing_matrix_6_1, mixing_matrix_6_2, mixing_matrix_6_4,
  mixing_matrix_6_8, mixing_matrix_8_1, mixing_matrix_8_2, mixing_matrix_8_4, mixing_matrix_8_6,
}
use audio_io.Mixing.Registry.{MixingMatrixInfo, mixing_matrix_list}
use audio_io.Mixing.Kernels.{entry}
use audio_io.Mixing.Remix.{Helper, matrix, mono, unrecognized, choose_interleaved}

-- The registry's matrix for a pair of channel counts, up to the sentinel.
unfoldable pub registered : List MixingMatrixInfo → ℕ → ℕ → Option (List ℕ)
registered [] ic oc = none
registered (e ∷ es) ic oc =
    if e.in_channels == 0
    then none
    else if e.in_channels == ic && e.out_channels == oc
    then some e.pointer
    else registered es ic oc

pub by_registry : Option (List ℕ) → ℕ → ℕ → Helper
by_registry (some m) ic oc = matrix m ic oc
by_registry none ic oc = if ic == 1 then mono else unrecognized

-- Some other number of channels.
record Unlisted (n : ℕ) : Type 0 where
  not_one : n ≢ 1
  not_two : n ≢ 2
  not_four : n ≢ 4
  not_six : n ≢ 6
  not_eight : n ≢ 8

ne→== : (a b : ℕ) → a ≢ b → (a == b) ≡ false
ne→== a b ne = ground arith

count_cases : (n : ℕ) → (n ≡ 1) ⊎ (n ≡ 2) ⊎ (n ≡ 4) ⊎ (n ≡ 6) ⊎ (n ≡ 8) ⊎ Unlisted n
count_cases n = ground arith

-- For every pair of channel counts the chain of tests chooses the matrix that the registry lists
-- for it, with those counts; where it lists none, one input channel is copied to all outputs and
-- any other count keeps the channels that both sides have.
pub choose_interleaved-registered :
    (ic oc : ℕ) → choose_interleaved ic oc ≡ by_registry (registered mixing_matrix_list ic oc) ic oc
unfolding choose_interleaved registered by_registry
choose_interleaved-registered ic oc = elim (count_cases ic) [
  | inl e ↦ rw e (ground arith)
  | inr (inl e) ↦ rw e (ground arith)
  | inr (inr (inl e)) ↦ rw e (ground arith)
  | inr (inr (inr (inl e))) ↦ rw e (ground arith)
  | inr (inr (inr (inr (inl e)))) ↦ rw e (ground arith)
  | inr (inr (inr (inr (inr other)))) ↦
      rw
        (
          ne→== ic 1 other.not_one,
          ne→== ic 2 other.not_two,
          ne→== ic 4 other.not_four,
          ne→== ic 6 other.not_six,
          ne→== ic 8 other.not_eight,
          ne→== 1 ic (λ e. other.not_one (sym e)),
          ne→== 2 ic (λ e. other.not_two (sym e)),
          ne→== 4 ic (λ e. other.not_four (sym e)),
          ne→== 6 ic (λ e. other.not_six (sym e)),
          ne→== 8 ic (λ e. other.not_eight (sym e)),
        )
        (ground arith)
]

all_below : ℕ → (ℕ → Bool) → Bool
all_below zero p = true
all_below (suc n) p = p n && all_below n p

sum : List ℕ → ℕ
sum [] = 0
sum (x ∷ xs) = x + sum xs

-- The doc's rule for a matrix of `a` columns and `b` rows: as many entries, each at most 1.
pub shaped : Helper → Bool
unfolding all_below
shaped (matrix m a b) = length m == a * b && all_below (a * b) (λ k. leb (entry m k) 100000)
shaped mono = true
shaped unrecognized = true

-- The doc's other rule: no row sums to more than 1.
pub unity : Helper → Bool
unfolding all_below sum
unity (matrix m a b) = all_below b (λ row. leb (sum (take a (drop (row * a) m))) 100000)
unity mono = true
unity unrecognized = true

data Side : Type 0 where
  left right middle : Side

-- The side of channel `c` of `n`: fl, fr, (fc, lfe,) bl, br, sl, sr.
side : ℕ → ℕ → Side
side n c =
    if n == 1 || (leb 6 n && (c == 2 || c == 3)) then middle else if c % 2 == 0 then left else right

opposite : Side → Side → Bool
opposite left right = true
opposite right left = true
opposite _ _ = false

-- A channel of one side is heard on the other.
pub crosses : Helper → Bool
unfolding all_below side opposite
crosses (matrix m a b) = not (
    all_below b (λ row.
      all_below a (λ c. not (opposite (side a c) (side b row)) || entry m (row * a + c) == 0)))
crosses mono = false
crosses unrecognized = false

shaped_table :
    (shaped (matrix mixing_matrix_1_2 1 2) ≡ true)
    × (shaped (matrix mixing_matrix_1_4 1 4) ≡ true)
    × (shaped (matrix mixing_matrix_1_6 1 6) ≡ true)
    × (shaped (matrix mixing_matrix_1_8 1 8) ≡ true)
    × (shaped (matrix mixing_matrix_2_1 2 1) ≡ true)
    × (shaped (matrix mixing_matrix_2_4 2 4) ≡ true)
    × (shaped (matrix mixing_matrix_2_6 2 6) ≡ true)
    × (shaped (matrix mixing_matrix_2_8 2 8) ≡ true)
    × (shaped (matrix mixing_matrix_4_1 4 1) ≡ true)
    × (shaped (matrix mixing_matrix_4_2 4 2) ≡ true)
    × (shaped (matrix mixing_matrix_4_6 4 6) ≡ true)
    × (shaped (matrix mixing_matrix_4_8 4 8) ≡ true)
    × (shaped (matrix mixing_matrix_6_1 6 1) ≡ true)
    × (shaped (matrix mixing_matrix_6_2 6 2) ≡ true)
    × (shaped (matrix mixing_matrix_6_4 6 4) ≡ true)
    × (shaped (matrix mixing_matrix_6_8 6 8) ≡ true)
    × (shaped (matrix mixing_matrix_8_1 8 1) ≡ true)
    × (shaped (matrix mixing_matrix_8_2 8 2) ≡ true)
    × (shaped (matrix mixing_matrix_8_4 8 4) ≡ true)
    × (shaped (matrix mixing_matrix_8_6 8 6) ≡ true)
    × (shaped mono ≡ true)
    × (shaped unrecognized ≡ true)
unfolding shaped mixing_matrix_1_2 mixing_matrix_1_4 mixing_matrix_1_6 mixing_matrix_1_8
    mixing_matrix_2_1 mixing_matrix_2_4 mixing_matrix_2_6 mixing_matrix_2_8 mixing_matrix_4_1
    mixing_matrix_4_2 mixing_matrix_4_6 mixing_matrix_4_8 mixing_matrix_6_1 mixing_matrix_6_2
    mixing_matrix_6_4 mixing_matrix_6_8 mixing_matrix_8_1 mixing_matrix_8_2 mixing_matrix_8_4
    mixing_matrix_8_6
shaped_table = (
  refl, refl, refl, refl, refl, refl, refl, refl, refl, refl, refl, refl, refl, refl, refl, refl,
  refl, refl, refl, refl, refl, refl,
)

unity_table :
    (unity (matrix mixing_matrix_1_2 1 2) ≡ true)
    × (unity (matrix mixing_matrix_1_4 1 4) ≡ true)
    × (unity (matrix mixing_matrix_1_6 1 6) ≡ true)
    × (unity (matrix mixing_matrix_1_8 1 8) ≡ true)
    × (unity (matrix mixing_matrix_2_1 2 1) ≡ true)
    × (unity (matrix mixing_matrix_2_4 2 4) ≡ true)
    × (unity (matrix mixing_matrix_2_6 2 6) ≡ true)
    × (unity (matrix mixing_matrix_2_8 2 8) ≡ true)
    × (unity (matrix mixing_matrix_4_1 4 1) ≡ true)
    × (unity (matrix mixing_matrix_4_2 4 2) ≡ true)
    × (unity (matrix mixing_matrix_4_6 4 6) ≡ true)
    × (unity (matrix mixing_matrix_4_8 4 8) ≡ true)
    × (unity (matrix mixing_matrix_6_1 6 1) ≡ false)
    × (unity (matrix mixing_matrix_6_2 6 2) ≡ false)
    × (unity (matrix mixing_matrix_6_4 6 4) ≡ false)
    × (unity (matrix mixing_matrix_6_8 6 8) ≡ true)
    × (unity (matrix mixing_matrix_8_1 8 1) ≡ false)
    × (unity (matrix mixing_matrix_8_2 8 2) ≡ false)
    × (unity (matrix mixing_matrix_8_4 8 4) ≡ false)
    × (unity (matrix mixing_matrix_8_6 8 6) ≡ true)
    × (unity mono ≡ true)
    × (unity unrecognized ≡ true)
unfolding unity mixing_matrix_1_2 mixing_matrix_1_4 mixing_matrix_1_6 mixing_matrix_1_8
    mixing_matrix_2_1 mixing_matrix_2_4 mixing_matrix_2_6 mixing_matrix_2_8 mixing_matrix_4_1
    mixing_matrix_4_2 mixing_matrix_4_6 mixing_matrix_4_8 mixing_matrix_6_1 mixing_matrix_6_2
    mixing_matrix_6_4 mixing_matrix_6_8 mixing_matrix_8_1 mixing_matrix_8_2 mixing_matrix_8_4
    mixing_matrix_8_6
unity_table = (
  refl, refl, refl, refl, refl, refl, refl, refl, refl, refl, refl, refl, refl, refl, refl, refl,
  refl, refl, refl, refl, refl, refl,
)

crosses_table :
    (crosses (matrix mixing_matrix_1_2 1 2) ≡ false)
    × (crosses (matrix mixing_matrix_1_4 1 4) ≡ false)
    × (crosses (matrix mixing_matrix_1_6 1 6) ≡ false)
    × (crosses (matrix mixing_matrix_1_8 1 8) ≡ false)
    × (crosses (matrix mixing_matrix_2_1 2 1) ≡ false)
    × (crosses (matrix mixing_matrix_2_4 2 4) ≡ false)
    × (crosses (matrix mixing_matrix_2_6 2 6) ≡ false)
    × (crosses (matrix mixing_matrix_2_8 2 8) ≡ false)
    × (crosses (matrix mixing_matrix_4_1 4 1) ≡ false)
    × (crosses (matrix mixing_matrix_4_2 4 2) ≡ false)
    × (crosses (matrix mixing_matrix_4_6 4 6) ≡ false)
    × (crosses (matrix mixing_matrix_4_8 4 8) ≡ false)
    × (crosses (matrix mixing_matrix_6_1 6 1) ≡ false)
    × (crosses (matrix mixing_matrix_6_2 6 2) ≡ false)
    × (crosses (matrix mixing_matrix_6_4 6 4) ≡ false)
    × (crosses (matrix mixing_matrix_6_8 6 8) ≡ false)
    × (crosses (matrix mixing_matrix_8_1 8 1) ≡ false)
    × (crosses (matrix mixing_matrix_8_2 8 2) ≡ false)
    × (crosses (matrix mixing_matrix_8_4 8 4) ≡ false)
    × (crosses (matrix mixing_matrix_8_6 8 6) ≡ true)
    × (crosses mono ≡ false)
    × (crosses unrecognized ≡ false)
unfolding crosses mixing_matrix_1_2 mixing_matrix_1_4 mixing_matrix_1_6 mixing_matrix_1_8
    mixing_matrix_2_1 mixing_matrix_2_4 mixing_matrix_2_6 mixing_matrix_2_8 mixing_matrix_4_1
    mixing_matrix_4_2 mixing_matrix_4_6 mixing_matrix_4_8 mixing_matrix_6_1 mixing_matrix_6_2
    mixing_matrix_6_4 mixing_matrix_6_8 mixing_matrix_8_1 mixing_matrix_8_2 mixing_matrix_8_4
    mixing_matrix_8_6
crosses_table = (
  refl, refl, refl, refl, refl, refl, refl, refl, refl, refl, refl, refl, refl, refl, refl, refl,
  refl, refl, refl, refl, refl, refl,
)

-- Every matrix that the code applies has an entry for each pair of an input and an output channel,
-- and no entry above 1. No row sums to more than 1, except where six or eight channels are mixed
-- to four or fewer: each of those matrices has a row that does.
pub chosen_matrix_gain :
    (ic oc : ℕ)
    → (shaped (choose_interleaved ic oc) ≡ true)
      × (unity (choose_interleaved ic oc)
          ≡ not ((ic == 6 || ic == 8) && (oc == 1 || oc == 2 || oc == 4)))
unfolding choose_interleaved
chosen_matrix_gain ic oc = ground (arith, shaped_table, unity_table)

-- No matrix sends a left channel to a right one or a right one to a left one, except the matrix
-- from eight channels to six, which does.
pub chosen_matrix_sides : (ic oc : ℕ) → crosses (choose_interleaved ic oc) ≡ (ic == 8 && oc == 6)
unfolding choose_interleaved
chosen_matrix_sides ic oc = ground (arith, crosses_table)
