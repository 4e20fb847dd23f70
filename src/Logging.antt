-- ===== src/Logging.antt =====
-- The logger's life: src/audio_io/logging.cpp, src/audio_io/initialization.cpp and
-- include/audio_io/private/logging.hpp. What is logged is left out. `none` is undefined behaviour.
pub mod Life
pub mod Documented
mod Tests
use audio_io.Prelude.{Bool, true, false, Option, none, some, List, [], ◌∷◌, if◌then◌else◌, ◌>>=◌}

-- What `logger` points at: nothing, a logger, or one that was deleted.
pub data LoggerPointer : Type 0 where
  nullptr alive deleted : LoggerPointer

-- `init_logger_flag` is set once call_once has run.
pub record Logging : Type 0 where
  pub logger : LoggerPointer
  pub init_logger_flag : Bool

abbrev pub unused : Logging
unused = record { logger = nullptr; init_logger_flag = false }

-- *logger
unfoldable pub dereference : LoggerPointer → Logging → Option Logging
dereference nullptr s = none
dereference alive s = some s
dereference deleted s = none

unfoldable pub initialize_logger : Logging → Logging
initialize_logger s = record s { logger = alive; init_logger_flag = true }

-- getLogger: call_once, and *logger.
unfoldable pub get_logger : Logging → Option Logging
unfolding dereference initialize_logger
get_logger s =
    let s' = if s.init_logger_flag then s else initialize_logger s in dereference s'.logger s'

-- logCritical, logInfo and logDebug.
unfoldable pub log_message : Logging → Option Logging
unfolding dereference
log_message s = dereference s.logger s

-- if(logger) delete logger;
unfoldable pub shutdown_logger : LoggerPointer → Logging → Option Logging
shutdown_logger nullptr s = some s
shutdown_logger alive s = some (record s { logger = deleted })
shutdown_logger deleted s = none

unfoldable pub initialize : Logging → Option Logging
initialize s = some s

unfoldable pub shutdown : Logging → Option Logging
unfolding shutdown_logger
shutdown s = shutdown_logger s.logger s

pub data LoggingCall : Type 0 where
  initializing getting logging shutting_down : LoggingCall

unfoldable pub call : LoggingCall → Logging → Option Logging
unfolding initialize get_logger log_message shutdown
call initializing s = initialize s
call getting s = get_logger s
call logging s = log_message s
call shutting_down s = shutdown s

unfoldable pub calls : List LoggingCall → Logging → Option Logging
unfolding call
calls [] s = some s
calls (c ∷ cs) s = call c s >>= calls cs
