-- ===== src/Latency/Numbers.antt =====
-- The largest time of a history, and a prediction between its bounds.
use audio_io.Prelude.{
  ℕ, zero, suc, ◌+◌, ◌≤◌, ◌<◌, ◌≡◌, ◌⊎◌, inl, inr, refl, arith, true, false, if◌then◌else◌,
  Bool-cases, ℕ_discrete,
}
use audio_io.Latency.{Double, Ordered, max_element}

module _ (d : Double) (laws : Ordered d) where
  open d use {D, lt, Time}

  pub irreflexive : (a : D) → lt a a ≡ false
  irreflexive a = elim (Bool-cases (lt a a)) [ inl e ↦ laws.asym a a e | inr e ↦ e ]

  pub not_below : (a b c : D) → lt a b ≡ false → lt b c ≡ false → lt a c ≡ false
  not_below a b c ab bc = elim (Bool-cases (lt a c)) [
    | inl e ↦ elim (laws.compare_with a b c e) [
      | inl h ↦ absurd (cc (h, ab))
      | inr h ↦ absurd (cc (h, bc))
    ]
    | inr e ↦ e
  ]

  below_not_below : (a b c : D) → lt a b ≡ true → lt a c ≡ false → lt b c ≡ false
  below_not_below a b c ab ac = not_below b a c (laws.asym a b ab) ac

  -- The largest latency of the history is below none of them.
  pub max_element_lem :
      (history : ℕ → D) (n i : ℕ) → i ≤ n → lt (max_element d history n) (history i) ≡ false
  unfolding max_element
  max_element_lem history zero i le =
      let first : i ≡ 0 = omega arith in rw first (irreflexive (history 0))
  max_element_lem history (suc n) i le =
      let largest = max_element d history n in
      elim (Bool-cases (lt largest (history (suc n)))) [
        | inl e ↦ rw e (elim (ℕ_discrete i (suc n)) [
          | yes last ↦ rw last (irreflexive (history (suc n)))
          | no earlier ↦
              below_not_below largest (history (suc n)) (history i) e
                (max_element_lem history n i (omega arith))
        ])
        | inr e ↦ rw e (elim (ℕ_discrete i (suc n)) [
          | yes last ↦ rw last e
          | no earlier ↦ max_element_lem history n i (omega arith)
        ])
      ]

  -- The largest latency, raised to the minimum and then cut at the maximum.
  abbrev pub clamp : D → D → D → D
  clamp low high x =
      let raised = if lt x low then low else x in if lt high raised then high else raised

  pub clamp_lem :
      (low high x : D)
      → lt high low ≡ false
      → (lt (clamp low high x) low ≡ false)
        × (lt high (clamp low high x) ≡ false)
        × ((lt (clamp low high x) x ≡ false) ⊎ (clamp low high x ≡ high))
  clamp_lem low high x ordered =
      ground (arith, irreflexive low, irreflexive high, irreflexive x, laws.asym x low)

  pub max_element_attained :
      (history : ℕ → D) (n : ℕ) → (i : ℕ) × (i < n + 1) × (max_element d history n ≡ history i)
  unfolding max_element
  max_element_attained history zero = (0, omega arith, refl)
  max_element_attained history (suc n) =
      let (i, li, e) = max_element_attained history n in
      elim (Bool-cases (lt (max_element d history n) (history (suc n)))) [
        | inl less ↦ rw less (suc n, omega arith, refl)
        | inr more ↦ rw more (i, omega arith, e)
      ]

  pub clamp_attained :
      (low high x : D)
      → (clamp low high x ≡ low) ⊎ (clamp low high x ≡ high) ⊎ (clamp low high x ≡ x)
  clamp_attained low high x = ground arith
