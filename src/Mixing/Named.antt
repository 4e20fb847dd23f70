-- ===== src/Mixing/Named.antt =====
-- The names of the arrays in include/audio_io/private/mixing_matrices.hpp against the registry.
use audio_io.Prelude.{
  ℕ, ◌≡◌, refl, ◌∙◌, ap, arith, List, [], ◌∷◌, Option, none, some, Bool, true, ◌&&◌, not, ◌==◌,
  if◌then◌else◌,
}
use audio_io.Mixing.Registry.{MixingMatrixInfo, mixing_matrix_list, declared_matrices}
use audio_io.Mixing.Remix.{choose_interleaved}
use audio_io.Mixing.Chosen.{registered, by_registry, choose_interleaved-registered}

-- The array whose name has the numbers `ic` and `oc`.
pub named : List ((ℕ × ℕ) × List ℕ) → ℕ → ℕ → Option (List ℕ)
named [] ic oc = none
named (((m, n), matrix) ∷ rest) ic oc = if m == ic && n == oc then some matrix else named rest ic oc

-- A registry of such arrays, with its sentinel.
listed : List ((ℕ × ℕ) × List ℕ) → List MixingMatrixInfo
listed [] = record { in_channels = 0; out_channels = 0; pointer = [] } ∷ []
listed (((m, n), matrix) ∷ rest) =
    record { in_channels = m; out_channels = n; pointer = matrix } ∷ listed rest

-- No array is named like the sentinel.
some_channels : List ((ℕ × ℕ) × List ℕ) → Bool
some_channels [] = true
some_channels (((m, n), matrix) ∷ rest) = not (m == 0) && some_channels rest

listed-named :
    (arrays : List ((ℕ × ℕ) × List ℕ)) (ic oc : ℕ)
    → some_channels arrays ≡ true
    → registered (listed arrays) ic oc ≡ named arrays ic oc
unfolding registered named listed some_channels
listed-named [] ic oc e = refl
listed-named (((m, n), matrix) ∷ rest) ic oc e = let later = listed-named rest ic oc in ground arith

registry_listed : mixing_matrix_list ≡ listed declared_matrices
unfolding listed
registry_listed = refl

all_named : some_channels declared_matrices ≡ true
unfolding some_channels
all_named = refl

-- For every pair of channel counts the chain of tests chooses the matrix that the registry lists
-- for it, with those counts; where it lists none, one input channel is copied to all outputs and
-- any other count keeps the channels that both sides have. The registry lists for m and n the array
-- that the header declares as mixing_matrix_m_n, and none where the header declares none.
pub choose_interleaved-named :
    (ic oc : ℕ)
    → (choose_interleaved ic oc ≡ by_registry (registered mixing_matrix_list ic oc) ic oc)
      × (registered mixing_matrix_list ic oc ≡ named declared_matrices ic oc)
choose_interleaved-named ic oc = (
  choose_interleaved-registered ic oc,
  ap (λ l. registered l ic oc) registry_listed ∙ listed-named declared_matrices ic oc all_named,
)
