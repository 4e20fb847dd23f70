-- ===== src/Prelude/Loops.antt =====
-- Counted loops, and the buffers that they write.
use Prim.Native.Nat.{ℕ, zero, suc, ◌<◌}
use mathlib.Core.Path.{◌≡◌, refl, ap, ◌∙◌}
use native.Mathlib.Omega.{arith}

-- for (i = 0; i < n; i++) s = body(i, s): the last round is the outermost call.
unfoldable pub for_below {ℓ} : {S : Type ℓ} → ℕ → (ℕ → S → S) → S → S
for_below zero body s = s
for_below (suc n) body s = body n (for_below n body s)

pub for_below_inv {ℓ κ} :
    {S : Type ℓ} (P : S → Type κ) (n : ℕ) (body : ℕ → S → S) (s : S)
    → ((i : ℕ) (s : S) → i < n → P s → P (body i s))
    → P s
    → P (for_below n body s)
unfolding for_below
for_below_inv P zero body s keep h = h
for_below_inv P (suc n) body s keep h =
    keep n _ (omega arith) (for_below_inv P n body s (λ i t lt. keep i t (omega arith)) h)

-- Two loops whose rounds agree.
pub for_below_cong {ℓ} :
    {S : Type ℓ} (n : ℕ) (f g : ℕ → S → S) (s : S)
    → ((i : ℕ) (s : S) → i < n → f i s ≡ g i s)
    → for_below n f s ≡ for_below n g s
unfolding for_below
for_below_cong zero f g s h = refl
for_below_cong (suc n) f g s h =
    h n _ (omega arith) ∙ ap (g n) (for_below_cong n f g s (λ i t lt. h i t (omega arith)))
