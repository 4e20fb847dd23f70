-- ===== src/Logging/Documented.antt =====
-- The order in which include/audio_io/audio_io.hpp wants initialize, getLogger and shutdown called, and
-- what comes of it.
use audio_io.Prelude.{◌≡◌, refl, Bool, true, false, none, some, List, [], ◌∷◌}
use audio_io.Logging.{
  Logging, unused, LoggingCall, initializing, getting, logging, shutting_down, calls,
}
use audio_io.Logging.Life.{used}

-- How far a program has come: it may call getLogger before initialize; all else is between initialize
-- and shutdown.
pub data Phase : Type 0 where
  before_initialize running after_shutdown : Phase

unfoldable pub in_order : Phase → List LoggingCall → Bool
in_order phase [] = true
in_order before_initialize (getting ∷ cs) = in_order before_initialize cs
in_order before_initialize (initializing ∷ cs) = in_order running cs
in_order before_initialize (logging ∷ cs) = false
in_order before_initialize (shutting_down ∷ cs) = false
in_order running (getting ∷ cs) = in_order running cs
in_order running (initializing ∷ cs) = false
in_order running (logging ∷ cs) = in_order running cs
in_order running (shutting_down ∷ cs) = in_order after_shutdown cs
in_order after_shutdown (c ∷ cs) = false

-- Something is logged before the first getLogger.
abbrev pub logs_first : List LoggingCall → Bool
logs_first [] = false
logs_first (getting ∷ cs) = false
logs_first (logging ∷ cs) = true
logs_first (initializing ∷ cs) = logs_first cs
logs_first (shutting_down ∷ cs) = logs_first cs

used_in_order :
    (phase : Phase) (cs : List LoggingCall)
    → in_order phase cs ≡ true
    → (s : Logging) × (calls cs used ≡ some s)
unfolding calls in_order
used_in_order phase [] e = (used, refl)
used_in_order before_initialize (getting ∷ cs) e = used_in_order before_initialize cs e
used_in_order before_initialize (initializing ∷ cs) e = used_in_order running cs e
used_in_order before_initialize (logging ∷ cs) e = absurd (cc e)
used_in_order before_initialize (shutting_down ∷ cs) e = absurd (cc e)
used_in_order running (getting ∷ cs) e = used_in_order running cs e
used_in_order running (initializing ∷ cs) e = absurd (cc e)
used_in_order running (logging ∷ cs) e = used_in_order running cs e
used_in_order running (shutting_down ∷ []) e = (_, refl)
used_in_order running (shutting_down ∷ c ∷ cs) e = absurd (cc e)
used_in_order after_shutdown (c ∷ cs) e = absurd (cc e)

unused_running :
    (cs : List LoggingCall)
    → in_order running cs ≡ true
    → (logs_first cs ≡ true → calls cs unused ≡ none)
      × (logs_first cs ≡ false → (s : Logging) × (calls cs unused ≡ some s))
unfolding calls in_order
unused_running [] e = (λ first. absurd (cc first), λ _. (unused, refl))
unused_running (getting ∷ cs) e = (λ first. absurd (cc first), λ _. used_in_order running cs e)
unused_running (initializing ∷ cs) e = absurd (cc e)
unused_running (logging ∷ cs) e = (λ _. refl, λ later. absurd (cc later))
unused_running (shutting_down ∷ []) e = (λ first. absurd (cc first), λ _. (unused, refl))
unused_running (shutting_down ∷ c ∷ cs) e = absurd (cc e)

-- For calls in the documented order, which is getLogger any time before shutdown, initialize before
-- anything else, and nothing after shutdown: if something is logged before the first getLogger, that is
-- undefined behaviour, although initialize has been called; and if not, every call is defined.
pub in_order_lem :
    (cs : List LoggingCall)
    → in_order before_initialize cs ≡ true
    → (logs_first cs ≡ true → calls cs unused ≡ none)
      × (logs_first cs ≡ false → (s : Logging) × (calls cs unused ≡ some s))
unfolding calls in_order
in_order_lem [] e = (λ first. absurd (cc first), λ _. (unused, refl))
in_order_lem (getting ∷ cs) e =
    (λ first. absurd (cc first), λ _. used_in_order before_initialize cs e)
in_order_lem (initializing ∷ cs) e = unused_running cs e
in_order_lem (logging ∷ cs) e = absurd (cc e)
in_order_lem (shutting_down ∷ cs) e = absurd (cc e)
