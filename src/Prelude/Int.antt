-- ===== src/Prelude/Int.antt =====
-- `int` values that may be negative, as two natural parts.
use Prim.Native.Nat.{ℕ, suc, ◌-◌}
use mathlib.Core.Path.{◌≡◌, refl}
use mathlib.Core.Logic.{◌⊎◌, inl, inr}
use mathlib.Core.Bool.{Bool, ◌&&◌}
use audio_io.Prelude.Tests.{leb, ◌==◌, if◌then◌else◌}

-- `negsuc n` is -(n + 1).
pub data ℤ : Type 0 where
  pos negsuc : ℕ → ℤ

abbrev pub pos_part : ℤ → ℕ
pos_part (pos n) = n
pos_part (negsuc n) = 0

abbrev pub neg_part : ℤ → ℕ
neg_part (pos n) = 0
neg_part (negsuc n) = suc n

-- `a - b`
abbrev pub sub_ℕ : ℕ → ℕ → ℤ
sub_ℕ a b = if leb b a then pos (a - b) else negsuc (b - a - 1)

abbrev pub same_ℤ : ℤ → ℤ → Bool
same_ℤ a b = pos_part a == pos_part b && neg_part a == neg_part b

-- One of the two parts is empty.
pub one_part : (z : ℤ) → (pos_part z ≡ 0) ⊎ (neg_part z ≡ 0)
one_part (pos n) = inr refl
one_part (negsuc n) = inl refl
