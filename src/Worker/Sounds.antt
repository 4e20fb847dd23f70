-- ===== src/Worker/Sounds.antt =====
-- Frames that stand in a buffer one behind the other.
use audio_io.Prelude.{
  ℕ, zero, suc, ◌+◌, ◌*◌, ◌<◌, ◌≡◌, refl, sym, subst, ap, ◌∙◌, arith, List, [], ◌∷◌, ◌++◌, length,
}
use audio_io.Sample.{Float, Buffer}
use audio_io.Worker.System.{Frame, frames_at}

module _ (fl : Float) where
  -- These frames stand in the buffer from position `at` on.
  abbrev pub Sounds : ℕ → List (Frame fl) → Buffer fl → ℕ → Type 0
  Sounds channels [] p at = Unit
  Sounds channels (f ∷ fs) p at =
      ((c : ℕ) → c < channels → p (at + c) ≡ f c) × Sounds channels fs p (at + channels)

  next_row : (channels i k : ℕ) → channels * (i + 1) + k ≡ channels * i + (channels + k)
  next_row channels i k = grind arith

  suc_rows : (channels n : ℕ) → channels * suc n ≡ channels + channels * n
  suc_rows channels n = grind arith

  pub frames_at-Sounds :
      (samples : Buffer fl) (channels i n : ℕ) (p : Buffer fl) (at : ℕ)
      → ((k : ℕ) → k < channels * n → p (at + k) ≡ samples (channels * i + k))
      → Sounds channels (frames_at fl samples channels i n) p at
  unfolding frames_at
  frames_at-Sounds samples channels i zero p at h = tt
  frames_at-Sounds samples channels i (suc n) p at h = (
    λ c lc. h c (omega (arith, suc_rows channels n)),
    frames_at-Sounds samples channels (i + 1) n p (at + channels) (λ k lk.
        let moved : at + channels + k ≡ at + (channels + k) = omega arith in
        ap p moved
        ∙ h (channels + k) (omega (arith, suc_rows channels n))
        ∙ ap samples (sym (next_row channels i k))),
  )

  pub length-frames_at :
      (samples : Buffer fl) (channels i n : ℕ) → length (frames_at fl samples channels i n) ≡ n
  unfolding frames_at
  length-frames_at samples channels i zero = refl
  length-frames_at samples channels i (suc n) =
      omega (arith, length-frames_at samples channels (i + 1) n)

  -- Later writes behind these frames leave them.
  pub Sounds-kept :
      (channels : ℕ) (fs : List (Frame fl)) (p q : Buffer fl) (at : ℕ)
      → ((k : ℕ) → k < at + channels * length fs → q k ≡ p k)
      → Sounds channels fs p at
      → Sounds channels fs q at
  Sounds-kept channels [] p q at same h = tt
  Sounds-kept channels (f ∷ fs) p q at same h = (
    λ c lc. same (at + c) (omega (arith, suc_rows channels (length fs))) ∙ h.0 c lc,
    Sounds-kept channels fs p q (at + channels)
        (λ k lk. same k (omega (arith, lk, suc_rows channels (length fs)))) h.1,
  )

  pub Sounds-append :
      (channels : ℕ) (fs gs : List (Frame fl)) (p : Buffer fl) (at : ℕ)
      → Sounds channels fs p at
      → Sounds channels gs p (at + channels * length fs)
      → Sounds channels (fs ++ gs) p at
  Sounds-append channels [] gs p at h g =
      let same : at + channels * 0 ≡ at = grind arith in subst (Sounds channels gs p) same g
  Sounds-append channels (f ∷ fs) gs p at h g =
      let same : at + channels * suc (length fs) ≡ at + channels + channels * length fs =
        omega (arith, suc_rows channels (length fs)) in
      (
        h.0,
        Sounds-append channels fs gs p (at + channels) h.1 (subst (Sounds channels gs p) same g),
      )
