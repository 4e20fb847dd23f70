-- ===== src/Memory.antt =====
-- new[] and delete[] as the constructors and the destructors of the program call them. What is live
-- is all that is kept; `none` is undefined behaviour, a second delete[] for instance.
pub mod Destructors
mod Tests
use audio_io.Prelude.{
  ℕ, ◌+◌, ◌≤◌, ◌<◌, ◌≡◌, ◌≢◌, ◌⊎◌, refl, arith, Bool, true, false, not, Option, none, some, ◌==◌,
  ◌&&◌, ◌||◌, if◌then◌else◌,
}

-- Addresses begin at 1, and 0 is the null pointer.
pub record Memory : Type 0 where
  pub live : ℕ → Bool
  pub last : ℕ

abbrev pub empty : Memory
empty = record { live = λ k. false; last = 0 }

unfoldable pub new_array : Memory → ℕ × Memory
new_array m = (m.last + 1, record { live = λ k. k == m.last + 1 || m.live k; last = m.last + 1 })

-- The memory without one array.
abbrev pub without : ℕ → Memory → Memory
without p m = record m { live = λ k. m.live k && not (k == p) }

unfoldable pub delete_array : ℕ → Memory → Option Memory
delete_array p m = if m.live p then some (without p m) else none

-- Nothing is live that has not been allocated.
abbrev pub IsValid : Memory → Type 0
IsValid m = (k : ℕ) → (k ≡ 0) ⊎ (m.last < k) → m.live k ≡ false

pub delete_array_lem :
    (p : ℕ) (m : Memory) → m.live p ≡ true → delete_array p m ≡ some (without p m)
unfolding delete_array
delete_array_lem p m there = rw there refl

-- An array stays while another one is deleted.
pub without-other : (p q : ℕ) (m : Memory) → q ≢ p → m.live q ≡ true → (without p m).live q ≡ true
without-other p q m other there = ground arith
