-- ===== src/Logging/Life.antt =====
-- Between which calls the logger may be used.
use audio_io.Prelude.{
  ◌≡◌, refl, sym, ap, ◌∙◌, append-nil, Bool, true, false, none, some, List, [], ◌∷◌, ◌++◌,
}
use audio_io.Logging.{
  alive, deleted, Logging, unused, LoggingCall, initializing, getting, logging, shutting_down,
  calls,
}

-- No call of `shutdown`.
abbrev pub KeepsLogger : List LoggingCall → Type 0
KeepsLogger [] = Unit
KeepsLogger (shutting_down ∷ cs) = ⊥
KeepsLogger (_ ∷ cs) = KeepsLogger cs

abbrev pub used : Logging
used = record { logger = alive; init_logger_flag = true }

abbrev pub gone : Logging
gone = record { logger = deleted; init_logger_flag = true }

calls-used :
    (cs later : List LoggingCall) → KeepsLogger cs → calls (cs ++ later) used ≡ calls later used
unfolding calls
calls-used [] later h = refl
calls-used (initializing ∷ cs) later h = calls-used cs later h
calls-used (getting ∷ cs) later h = calls-used cs later h
calls-used (logging ∷ cs) later h = calls-used cs later h
calls-used (shutting_down ∷ cs) later h = absurd h

abbrev pub uses_logger : LoggingCall → Bool
uses_logger initializing = false
uses_logger _ = true

calls-gone :
    (c : LoggingCall) (later : List LoggingCall)
    → uses_logger c ≡ true
    → calls (c ∷ later) gone ≡ none
unfolding calls
calls-gone initializing later e = absurd (cc e)
calls-gone getting later e = refl
calls-gone logging later e = refl
calls-gone shutting_down later e = refl

-- After getLogger, and any calls but shutdown, the logger is there. After a shutdown that follows
-- these, getLogger, the functions that log and a second shutdown are undefined behaviour; and so is
-- logging before any getLogger.
pub logger_lives :
    (cs later : List LoggingCall) (c : LoggingCall)
    → KeepsLogger cs
    → uses_logger c ≡ true
    → (calls (getting ∷ cs) unused ≡ some used)
      × (calls (getting ∷ cs ++ (shutting_down ∷ c ∷ later)) unused ≡ none)
      × (calls (logging ∷ later) unused ≡ none)
unfolding calls
logger_lives cs later c h uses = (
  ap (λ xs. calls xs used) (sym (append-nil cs)) ∙ calls-used cs [] h,
  calls-used cs (shutting_down ∷ c ∷ later) h ∙ calls-gone c later uses,
  refl,
)
