-- ===== src/Logging/Tests.antt =====
-- The theorem on the order of the calls at a program that logs without having asked for the logger.
use audio_io.Prelude.{◌≡◌, refl, true, false, none, some, List, [], ◌∷◌}
use audio_io.Logging.{Logging, unused, LoggingCall, initializing, logging, shutting_down, calls}
use audio_io.Logging.Documented.{in_order, logs_first, in_order_lem}

abbrev plain : List LoggingCall
plain = initializing ∷ logging ∷ shutting_down ∷ []

in_order_lem_example :
    (logs_first plain ≡ true → calls plain unused ≡ none)
    × (logs_first plain ≡ false → (s : Logging) × (calls plain unused ≡ some s))
unfolding in_order
in_order_lem_example = in_order_lem plain refl
