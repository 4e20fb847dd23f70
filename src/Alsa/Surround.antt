-- ===== src/Alsa/Surround.antt =====
-- The order of the surround channels: what workerThreadFunction of src/audio_io/alsa/output_device.cpp
-- does to the frames before it hands them to ALSA.
use audio_io.Prelude.{
  ℕ, zero, suc, ◌+◌, ◌-◌, ◌*◌, ◌≤◌, ◌<◌, ◌≡◌, ◌⊎◌, inl, inr, refl, ap, ◌∙◌, arith, true, Bool-cases,
  ◌==◌, ◌||◌, if◌then◌else◌, for_below, ℕ_discrete,
}
use audio_io.Mixing.Cells.{place, place-lt}

-- The channel that comes to stand at channel `r`.
unfoldable pub partner : ℕ → ℕ → ℕ
partner oc r =
    if r == 2
    then oc - 2
    else if r == 3
    then oc - 1
    else if r == oc - 2
    then 2
    else if r == oc - 1
    then 3
    else r

one_more : (n w : ℕ) → (n + 1) * w ≡ n * w + w
one_more n w = grind arith

module _ {A : Type 0} where
  -- std::swap(p[a], p[b])
  abbrev swap : ℕ → ℕ → (ℕ → A) → ℕ → A
  swap a b p k = if k == a then p b else if k == b then p a else p k

  -- The body of the loop, for the frame that starts at `i`.
  unfoldable pub swap_channels : ℕ → ℕ → (ℕ → A) → ℕ → A
  swap_channels output_channels i p =
      swap (i + 3) (i + (output_channels - 1)) (swap (i + 2) (i + (output_channels - 2)) p)

  unfoldable pub reorder : ℕ → ℕ → (ℕ → A) → ℕ → A
  unfolding swap_channels
  reorder output_channels written workspace =
      if output_channels == 6 || output_channels == 8
      then for_below written (λ i p. swap_channels output_channels (place output_channels i 0) p)
          workspace
      else workspace

  swap_channels_hit :
      (oc i r : ℕ) (p : ℕ → A)
      → 6 ≤ oc
      → r < oc
      → swap_channels oc i p (i + r) ≡ p (i + partner oc r)
  unfolding swap_channels partner
  swap_channels_hit oc i r p big lt = ground arith

  swap_channels_miss :
      (oc i k : ℕ) (p : ℕ → A) → 6 ≤ oc → (k < i) ⊎ (i + oc ≤ k) → swap_channels oc i p k ≡ p k
  unfolding swap_channels
  swap_channels_miss oc i k p big far = ground arith

  -- The loop, for the first `n` frames.
  loop : ℕ → ℕ → (ℕ → A) → ℕ → A
  loop oc n p = for_below n (λ i q. swap_channels oc (place oc i 0) q) p

  loop_miss : (oc n k : ℕ) (p : ℕ → A) → 6 ≤ oc → n * oc ≤ k → loop oc n p k ≡ p k
  unfolding loop for_below
  loop_miss oc zero k p big far = refl
  loop_miss oc (suc n) k p big far =
      let more = one_more n oc in
      swap_channels_miss oc (place oc n 0) k (loop oc n p) big (inr (omega arith))
      ∙ loop_miss oc n k p big (omega arith)

  loop_hit :
      (oc n i r : ℕ) (p : ℕ → A)
      → 6 ≤ oc
      → i < n
      → r < oc
      → loop oc n p (place oc i r) ≡ p (place oc i (partner oc r))
  unfolding loop for_below
  loop_hit oc zero i r p big li lr = absurd (omega arith)
  loop_hit oc (suc n) i r p big li lr = elim (ℕ_discrete i n) [
    | yes last ↦ rw last (
        ap (swap_channels oc (place oc n 0) (loop oc n p)) (omega arith)
        ∙ swap_channels_hit oc (place oc n 0) r (loop oc n p) big lr
        ∙ loop_miss oc n (place oc n 0 + partner oc r) p big (omega arith)
        ∙ ap p (omega arith))
    | no earlier ↦
        swap_channels_miss oc (place oc n 0) (place oc i r) (loop oc n p) big
          (inl (omega (arith, place-lt oc n i r (omega arith) lr)))
        ∙ loop_hit oc n i r p big (omega arith) lr
  ]

  pub reorder_miss :
      (oc written k : ℕ) (p : ℕ → A) → written * oc ≤ k → reorder oc written p k ≡ p k
  unfolding reorder loop
  reorder_miss oc written k p far = elim (Bool-cases (oc == 6 || oc == 8)) [
    | inl surround ↦ rw surround (loop_miss oc written k p (ground arith) far)
    | inr plain ↦ rw plain refl
  ]

  -- With six or eight output channels, channel `r` of every frame that was written gets the sample
  -- of its partner: the centre and the LFE change places with the last two channels, and the other
  -- channels keep theirs. Behind those frames nothing changes.
  pub reorder_lem :
      (oc written : ℕ) (p : ℕ → A)
      → (oc ≡ 6) ⊎ (oc ≡ 8)
      → ((i r : ℕ)
          → i < written
          → r < oc
          → reorder oc written p (place oc i r) ≡ p (place oc i (partner oc r)))
        × ((k : ℕ) → written * oc ≤ k → reorder oc written p k ≡ p k)
  unfolding reorder loop
  reorder_lem oc written p surround =
      let test : (oc == 6 || oc == 8) ≡ true = ground arith in
      rw test (
        λ i r li lr. loop_hit oc written i r p (omega arith) li lr,
        λ k far. loop_miss oc written k p (omega arith) far,
      )
