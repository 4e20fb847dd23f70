-- ===== src/Alsa/Sizes.antt =====
-- The size of the ALSA buffer, and the sizes of the lists of devices.
use audio_io.Prelude.{
  ℕ, zero, suc, ◌+◌, ◌*◌, ◌≤◌, ◌<◌, ◌≡◌, ◌⊎◌, inl, inr, refl, ap, arith, Bool, Option, none, some,
  List, [], ◌∷◌, length, Option-cases, Bool-cases,
}
use audio_io.Alsa.{Hint, skipped, scan, rescan}

-- What the loop gives for `k` periods so far.
abbrev Grown : ℕ → ℕ → ℕ → Type 0
Grown period k size =
    (n : ℕ) × (size ≡ n * period) × (k ≤ n) × (8192 ≤ size) × ((n ≡ k) ⊎ (size < 8192 + period))

-- A list that says eight of each of `n` devices.
pub eights : ℕ → List ℕ
eights zero = []
eights (suc n) = 8 ∷ eights n

pub length-eights : (n : ℕ) → length (eights n) ≡ n
unfolding eights
length-eights zero = refl
length-eights (suc n) = ap suc (length-eights n)

module _ (String : Type 0) (is_input : String → Bool) where
  scan_lem :
      (hints : List (Hint String is_input))
      → (scan String is_input hints).1 ≡ eights (length (scan String is_input hints).0)
  unfolding scan eights
  scan_lem [] = refl
  scan_lem (hint ∷ hints) = elim (Option-cases hint.name) [
    | inl unnamed ↦ rw unnamed (scan_lem hints)
    | inr (name, named) ↦ elim (Bool-cases (skipped String is_input hint.ioid)) [
      | inl skip ↦ rw (named, skip) (scan_lem hints)
      | inr keep ↦ rw (named, keep) (grind (arith, scan_lem hints))
    ]
  ]

  -- After a scan, failed or not, the factory counts the names that it lists, and has one number of
  -- channels for each of them, which is eight.
  pub rescan_lem :
      (hints : Option (List (Hint String is_input)))
      → ((rescan String is_input hints).output_count
          ≡ length (rescan String is_input hints).device_names)
        × ((rescan String is_input hints).device_channels
            ≡ eights (rescan String is_input hints).output_count)
  unfolding rescan eights
  rescan_lem none = (refl, refl)
  rescan_lem (some hints) = (refl, scan_lem hints)
