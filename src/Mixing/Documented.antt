-- ===== src/Mixing/Documented.antt =====
-- What include/audio_io/audio_io.hpp says of the two remix functions, against what they do.
use audio_io.Prelude.{ℕ, Bool, ◌&&◌, ◌||◌, not, ◌==◌, ltb, if◌then◌else◌}
use audio_io.Sample.{Float}

-- The standard channel counts, which are mixed between each other appropriately.
unfoldable pub standard : ℕ → Bool
standard n = n == 1 || n == 2 || n == 6 || n == 8

unfoldable pub mixed_appropriately : ℕ → ℕ → Bool
unfolding standard
mixed_appropriately ic oc = standard ic && standard oc && not (ic == oc)

module _ (fl : Float) where
  open fl use {F, add, lit}

  -- Otherwise: the sample of output channel `r` that held `x`, from the input samples of its frame. If
  -- the input is mono it is copied to all channels; if not, the channels that both have are kept. The
  -- buffers are zeroed before use if `zero_first` is set.
  unfoldable pub documented : ℕ → (ℕ → F) → ℕ → F → Bool → F
  documented ic frame r x zero_first =
      let start = if zero_first then lit 0 else x in
      if ic == 1 then add start (frame 0) else if ltb r ic then add start (frame r) else start
