-- ===== src/Mixing/Cells.antt =====
-- What each helper of remix.cpp leaves in each cell of its output.
use audio_io.Prelude.{
  ℕ, ◌+◌, ◌*◌, ◌≤◌, ◌<◌, ◌≡◌, arith, for_below, ltb, if◌then◌else◌, dec_lt, ℕ_discrete,
}
use audio_io.Sample.{Float, modify}
use audio_io.Mixing.Walk.{IsAt}
use audio_io.Mixing.Kernels.{entry}
use audio_io.Mixing.Remix.{Helper, matrix, mono, unrecognized}

-- The cell of channel `r` in frame `i` of interleaved audio with `w` channels.
abbrev pub place : ℕ → ℕ → ℕ → ℕ
place w i r = i * w + r

row-le : (w i j : ℕ) → i < j → i * w + w ≤ j * w
row-le w i j h = grind arith

pub place_inj :
    (w v i r j q : ℕ) → v ≤ w → r < v → q < v → place w i r ≡ place w j q → (i ≡ j) × (r ≡ q)
place_inj w v i r j q hv hr hq e = elim (dec_lt i j) [
  | yes lt ↦ absurd (omega (arith, row-le w i j lt))
  | no nlt ↦ elim (dec_lt j i) [
    | yes gt ↦ absurd (omega (arith, row-le w j i gt))
    | no ngt ↦
        let same : i ≡ j = omega arith in
        (same, let e' : place w j r ≡ place w j q = rw same at e in omega arith)
  ]
]

pub place-lt : (w n i r : ℕ) → i < n → r < w → place w i r < n * w
place-lt w n i r hi hr = omega (arith, row-le w i n hi)

module _ {ℓ} {A : Type ℓ} where
  -- a buffer's cells
  abbrev pub read : (ℕ → A) → ℕ → A
  read p k = p k

  -- the cells of several buffers
  abbrev pub read₂ : (ℕ → ℕ → A) → ℕ × ℕ → A
  read₂ ps x = ps x.0 x.1

  pub modify-IsAt : (k : ℕ) (f : A → A) → IsAt read k f (λ p. modify p k f)
  modify-IsAt k f = record { hit = λ s. ground arith; miss = λ s y ne. ground arith }

  pub modify₂-IsAt :
      (j i : ℕ) (f : A → A) → IsAt read₂ (j, i) f (λ ps. modify ps j (λ p. modify p i f))
  modify₂-IsAt j i f = record {
    hit = λ s. ground arith;
    miss = λ s y ne. elim (ℕ_discrete y.0 j) [
      | yes p ↦ elim (ℕ_discrete y.1 i) [
        | yes q ↦ absurd (ne (λ t. (p t, q t)))
        | no nq ↦ ground arith
      ]
      | no np ↦ ground arith
    ];
  }

module _ (fl : Float) where
  open fl use {F, add, mul, lit}

  -- One frame remixed: the sample of output channel `r` when it held `x`, from the frame's input
  -- samples.
  unfoldable pub mixed : Helper → ℕ → (ℕ → F) → ℕ → F → F
  mixed (matrix m a b) ic frame r x =
      for_below a (λ column t. add t (mul (lit (entry m (r * a + column))) (frame column))) x
  mixed mono ic frame r x = add x (frame 0)
  mixed unrecognized ic frame r x = if ltb r ic then add x (frame r) else x
