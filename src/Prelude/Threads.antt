-- ===== src/Prelude/Threads.antt =====
-- The places where the threads of a system stand, and counts over them.
use Prim.Native.Nat.{ℕ, zero, suc, ◌+◌, ◌≤◌, ◌<◌}
use mathlib.Core.Path.{◌≡◌}
use native.Mathlib.Omega.{arith}
use native.Mathlib.Decide.{ℕ_discrete, dec_lt}
use audio_io.Prelude.Tests.{◌==◌, if◌then◌else◌}

module _ {P : Type 0} where
  -- Thread `i` moves to `p`.
  abbrev pub update : (ℕ → P) → ℕ → P → ℕ → P
  update pc i p j = if j == i then p else pc j

  module _ (f : P → ℕ) where
    -- The sum of `f` over the first `n` threads.
    pub total : ℕ → (ℕ → P) → ℕ
    total zero pc = 0
    total (suc n) pc = f (pc n) + total n pc

    total-miss : (n : ℕ) (pc : ℕ → P) (i : ℕ) (p : P) → n ≤ i → total n (update pc i p) ≡ total n pc
    unfolding total
    total-miss zero pc i p le = omega arith
    total-miss (suc n) pc i p le = ground (arith, total-miss n pc i p)

    pub total-update :
        (n : ℕ) (pc : ℕ → P) (i : ℕ) (p : P)
        → i < n
        → total n (update pc i p) + f (pc i) ≡ total n pc + f p
    unfolding total
    total-update zero pc i p lt = absurd (omega arith)
    total-update (suc n) pc i p lt = elim (ℕ_discrete i n) [
      | yes last ↦ rw last (ground (arith, total-miss n pc n p))
      | no earlier ↦ ground (arith, total-update n pc i p)
    ]

    pub total-le : (n : ℕ) (pc : ℕ → P) (i : ℕ) → i < n → f (pc i) ≤ total n pc
    unfolding total
    total-le zero pc i lt = absurd (omega arith)
    total-le (suc n) pc i lt = elim (ℕ_discrete i n) [
      | yes last ↦ rw last (omega arith)
      | no earlier ↦ omega (arith, total-le n pc i (omega arith))
    ]

    -- Nobody has anything to count.
    pub total_zero : (n : ℕ) (pc : ℕ → P) → ((i : ℕ) → i < n → f (pc i) ≡ 0) → total n pc ≡ 0
    unfolding total
    total_zero zero pc h = omega arith
    total_zero (suc n) pc h =
        omega (arith, h n (omega arith), total_zero n pc (λ i lt. h i (omega arith)))

    -- Somebody has something to count.
    pub total_pos : (n : ℕ) (pc : ℕ → P) → 0 < total n pc → (i : ℕ) × (i < n) × (0 < f (pc i))
    unfolding total
    total_pos zero pc pos = absurd (omega arith)
    total_pos (suc n) pc pos = elim (dec_lt 0 (f (pc n))) [
      | yes last ↦ (n, omega arith, last)
      | no nothing ↦
          let (i, lt, some_thing) = total_pos n pc (omega arith) in (i, omega arith, some_thing)
    ]
