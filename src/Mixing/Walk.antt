-- ===== src/Mixing/Walk.antt =====
-- Loops over the cells of a memory: what stands at a cell after each address was visited once,
-- and after one address was visited many times.
use audio_io.Prelude.{ℕ, zero, suc, ◌<◌, ◌≡◌, refl, ap, ◌∙◌, ◌≢◌, arith, for_below, ℕ_discrete}

module _ {ℓ κ μ} {S : Type ℓ} {X : Type κ} {V : Type μ} (read : S → X → V) where
  -- `op` changes the cell at `x` by `g`, and no other.
  pub record IsAt (x : X) (g : V → V) (op : S → S) : Type (ℓ ⊔ κ ⊔ μ) where
    pub hit : (s : S) → read (op s) x ≡ g (read s x)
    pub miss : (s : S) (y : X) → y ≢ x → read (op s) y ≡ read s y

  -- Rounds at one address compose.
  pub stay-IsAt :
      (n : ℕ) (x : X) (g : ℕ → V → V) (op : ℕ → S → S)
      → ((i : ℕ) → IsAt x (g i) (op i))
      → IsAt x (for_below n g) (for_below n op)
  unfolding for_below
  stay-IsAt zero x g op h = record { hit = λ s. refl; miss = λ s y ne. refl }
  stay-IsAt (suc n) x g op h = record {
    hit = λ s. (h n).hit _ ∙ ap (g n) ((stay-IsAt n x g op h).hit s);
    miss = λ s y ne. (h n).miss _ y ne ∙ (stay-IsAt n x g op h).miss s y ne;
  }

  -- Rounds at different addresses: `n` cells are visited once each.
  module _ (addr : ℕ → X) (g : ℕ → V → V) (op : ℕ → S → S)
      (at : (i : ℕ) → IsAt (addr i) (g i) (op i)) where
    pub walk_miss :
        (n : ℕ) (s : S) (y : X)
        → ((i : ℕ) → i < n → y ≢ addr i)
        → read (for_below n op s) y ≡ read s y
    unfolding for_below
    walk_miss zero s y ne = refl
    walk_miss (suc n) s y ne =
        (at n).miss _ y (ne n (omega arith)) ∙ walk_miss n s y (λ i lt. ne i (omega arith))

    pub walk_hit :
        (n : ℕ) (s : S)
        → ((i j : ℕ) → i < n → j < n → addr i ≡ addr j → i ≡ j)
        → (i : ℕ) → i < n
        → read (for_below n op s) (addr i) ≡ g i (read s (addr i))
    unfolding for_below
    walk_hit zero s inj i lt = elim lt [ ]
    walk_hit (suc n) s inj i lt = elim (ℕ_discrete i n) [
      | yes e ↦ rw e (
          (at n).hit _
          ∙ ap (g n) (
              walk_miss n s (addr n)
                (λ j lt' e'. absurd (omega (arith, inj n j (omega arith) (omega arith) e')))))
      | no ne ↦
          (at n).miss _ (addr i) (λ e. ne (inj i n lt (omega arith) e))
          ∙ walk_hit n s (λ a b la lb e. inj a b (omega arith) (omega arith) e) i (omega arith)
    ]

  -- The cells of a table, row after row.
  module _ (w : ℕ) (addr : ℕ → ℕ → X) (g : ℕ → ℕ → V → V) (op : ℕ → ℕ → S → S)
      (at : (i r : ℕ) → IsAt (addr i r) (g i r) (op i r)) where
    abbrev pub table : ℕ → S → S
    table n s = for_below n (λ i t. for_below w (op i) t) s

    pub table_miss :
        (n : ℕ) (s : S) (y : X)
        → ((i r : ℕ) → i < n → r < w → y ≢ addr i r)
        → read (table n s) y ≡ read s y
    unfolding for_below
    table_miss zero s y ne = refl
    table_miss (suc n) s y ne =
        walk_miss (addr n) (g n) (op n) (at n) w _ y (λ r lt. ne n r (omega arith) lt)
        ∙ table_miss n s y (λ i r li lr. ne i r (omega arith) lr)

    pub table_hit :
        (n : ℕ) (s : S)
        → ((i r j q : ℕ) → r < w → q < w → addr i r ≡ addr j q → (i ≡ j) × (r ≡ q))
        → (i r : ℕ) → i < n
        → r < w
        → read (table n s) (addr i r) ≡ g i r (read s (addr i r))
    unfolding for_below
    table_hit zero s inj i r li lr = elim li [ ]
    table_hit (suc n) s inj i r li lr = elim (ℕ_discrete i n) [
      | yes e ↦ rw e (
          walk_hit (addr n) (g n) (op n) (at n) w _ (λ a b la lb p. (inj n a n b la lb p).1) r lr
          ∙ ap (g n r) (
              table_miss n s (addr n r)
                (λ j q lj lq p. absurd (omega (arith, (inj n r j q lr lq p).0)))))
      | no ne ↦
          walk_miss (addr n) (g n) (op n) (at n) w _ (addr i r)
            (λ q lq p. ne (inj i r n q lr lq p).0)
          ∙ table_hit n s inj i r (omega arith) lr
    ]
