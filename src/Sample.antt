-- ===== src/Sample.antt =====
-- The `float` samples of the buffers (all of format_conversion) and the buffers themselves.
-- A `float` is opaque: an operation record stands for IEEE single precision, and the code's
-- decimal literals enter through `lit`.
use audio_io.Prelude.{ℕ, ◌==◌, if◌then◌else◌, ◌≡◌, ◌*◌, ◌+◌}

-- `lit n` is the float nearest to n / 100000, the unit of the mixing matrices.
pub record Float : Type 1 where
  pub F : Type 0
  pub add : F → F → F
  pub mul : F → F → F
  pub lit : ℕ → F

-- IEEE 754 multiplication gives the same result in either order.
abbrev pub MulComm : Float → Type 0
MulComm fl = (a b : fl.F) → fl.mul a b ≡ fl.mul b a

-- A `float*`: what stands at each index from the pointer on. The theorems on bounds say which
-- indices the code reads and writes.
abbrev pub Buffer : Float → Type 0
Buffer fl = ℕ → fl.F

-- A `float**`: one buffer for each channel.
abbrev pub Buffers : Float → Type 0
Buffers fl = ℕ → ℕ → fl.F

-- `p[k] = f(p[k])`
abbrev pub modify {ℓ} : {A : Type ℓ} → (ℕ → A) → ℕ → (A → A) → ℕ → A
modify p k f m = if m == k then f (p m) else p m

-- Exact arithmetic on naturals, in which concrete inputs are evaluated.
abbrev pub exact : Float
exact = record { F = ℕ; add = ◌+◌; mul = ◌*◌; lit = λ n. n }
