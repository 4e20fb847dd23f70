-- ===== src/Programs.antt =====
-- The two programs of src/tests/, output.cpp and enumeration.cpp, over the library as they see it. What
-- they print is kept; what the logger's callback prints is left out.
pub mod Generator
pub mod Blocks
pub mod Runs
pub mod Backends
pub mod Enumeration
pub mod Output
mod Tests
use Prim.Native.String.{String}
use audio_io.Prelude.{ℕ, zero, suc, Option, none, some, List, [], ◌∷◌, ◌++◌, some_or}
use audio_io.Prelude.Int.{negsuc}
use audio_io.Sample.{Float}
use audio_io.Device.{AudioIoError, what, Result, ok, throw, Creator, get_output_device_factory}
use audio_io.Device.Interface.{Called, OutputDevice, OutputDeviceFactory}
use audio_io.Logging.{
  Logging, LoggingCall, initializing, getting, logging as logging_call, shutting_down, calls,
}
use audio_io.Programs.Generator.{Maths, SineGen, create}

pub data Line : Type 0 where
  usage note : Line
  playing : ℕ → ℕ → ℕ → ℕ → Line
  using_factory enumerating_with exception : String → Line
  detected : ℕ → Line
  device : String → ℕ → Line

-- The operations of the library, each of which may log.
pub data Operation : Type 0 where
  get_factory create_device sleep destroy_device destroy_factory : Operation

-- output.cpp's global variables.
pub record Globals : Type 0 where
  pub channels : ℕ
  pub sr : ℕ
  pub block_size : ℕ
  pub mixahead : ℕ

abbrev pub globals : Globals
globals = record { channels = 2; sr = 44100; block_size = 1024; mixahead = 0 }

-- `n` messages.
abbrev pub messages_of : ℕ → List LoggingCall
messages_of zero = []
messages_of (suc n) = logging_call ∷ messages_of n

-- What the programs use: the backends of the build, their factories and devices, how many messages an
-- operation logs, five seconds of playing, and what sscanf reads, `none` if there is no number. A
-- negative number is left out.
pub record Library (fl : Float) (m : Maths fl) : Type 1 where
  pub W : Type 0
  pub F : Type 0
  pub D : Type 0
  pub creators : List (Creator W F)
  pub factories : OutputDeviceFactory F D (ℕ × SineGen fl m) W
  pub devices : OutputDevice D W
  pub destroy_factory : F → W → W
  pub messages : Operation → W → ℕ
  pub play_on : W → W
  pub sscanf : String → Option ℕ

module _ (fl : Float) (m : Maths fl) (lib : Library fl m) where
  open lib use {W, F, D, creators, factories, devices, messages, play_on, sscanf}

  pub record Session : Type 0 where
    pub logger : Logging
    pub world : W
    pub printed : List Line

  abbrev pub Program : Type 0 → Type 0
  Program A = Session → Called Session A

  abbrev pub then_run : {A B : Type 0} → Called Session A → (A → Program B) → Called Session B
  then_run none f = none
  then_run (some (ok a, s)) f = f a s
  then_run (some (throw e, s)) f = some (throw e, s)

  infixl 5 ◌>>=◌ ◌>>◌
  abbrev pub ◌>>=◌ : {A B : Type 0} → Program A → (A → Program B) → Program B
  (p >>= f) s = then_run (p s) f

  abbrev pub ◌>>◌ : {A B : Type 0} → Program A → Program B → Program B
  (p >> q) s = then_run (p s) (λ _. q)

  abbrev pub pure : {A : Type 0} → A → Program A
  pure a s = some (ok a, s)

  abbrev pub print : Line → Program Unit
  print line s = some (ok tt, record s { printed = s.printed ++ (line ∷ []) })

  abbrev pub with_logger :
      {A : Type 0} → Option Logging → (Logging → Called Session A) → Called Session A
  with_logger none f = none
  with_logger (some l) f = f l

  -- initialize, getLogger, the functions that log, and shutdown.
  abbrev pub tell : List LoggingCall → Program Unit
  tell cs s = with_logger (calls cs s.logger) (λ l. some (ok tt, record s { logger = l }))

  abbrev pub in_session : {A : Type 0} → Session → Called W A → Called Session A
  in_session s none = none
  in_session s (some (r, w)) = some (r, record s { world = w })

  -- An operation of the library, with its messages.
  abbrev pub ask : {A : Type 0} → Operation → (W → Called W A) → Program A
  ask op f s =
      with_logger (calls (messages_of (messages op s.world)) s.logger)
        (λ l. in_session (record s { logger = l }) (f s.world))

  abbrev pub then_result : {A : Type 0} → Result A → Called Session Unit → Called Session A
  then_result r none = none
  then_result r (some (_, s)) = some (r, s)

  abbrev pub ending : {A : Type 0} → Called Session A → Program Unit → Called Session A
  ending none q = none
  ending (some (r, s)) q = then_result r (q s)

  -- The factory ends after `p`, also if that throws.
  abbrev pub with_factory : {A : Type 0} → F → Program A → Program A
  with_factory fact p s =
      ending (p s) (ask destroy_factory (λ w. some (ok tt, lib.destroy_factory fact w)))

  -- initialize, and the callback and the level of the logger.
  abbrev pub set_up : Program Unit
  set_up = tell (initializing ∷ getting ∷ getting ∷ [])

  abbrev pub factory_of_build : Program F
  factory_of_build = ask get_factory (λ w. some (get_output_device_factory creators w))

  -- catch(std::exception &e)
  abbrev pub caught : Called Session Unit → Option Session
  caught none = none
  caught (some (ok _, s)) = some s
  caught (some (throw e, s)) = some (record s { printed = s.printed ++ (exception (what e) ∷ []) })

  -- The loop with the iterators i and j; to read behind the numbers of channels is undefined behaviour.
  unfoldable pub print_devices : List String → List ℕ → Program Unit
  print_devices [] channels s = some (ok tt, s)
  print_devices (name ∷ names) [] s = none
  print_devices (name ∷ names) (n ∷ channels) s =
      print_devices names channels (record s { printed = s.printed ++ (device name n ∷ []) })

  unfoldable pub enumerate : F → Program Unit
  unfolding print_devices
  enumerate fact =
      print (enumerating_with (factories.get_name fact))
      >> print note
      >> print (detected (factories.get_output_count fact))
      >> print_devices (factories.get_output_names fact) (factories.get_output_max_channels fact)

  -- main of enumeration.cpp
  unfoldable pub enumeration_main : Session → Option Session
  unfolding enumerate
  enumeration_main s = caught (
      (set_up
          >> (factory_of_build >>= λ fact. with_factory fact (enumerate fact))
          >> tell (shutting_down ∷ []))
        s)

  -- A variable that sscanf may set.
  abbrev pub scanned : String → ℕ → ℕ
  scanned text old = some_or old (sscanf text)

  abbrev pub globals_of : String → String → String → String → Globals
  globals_of c r b a = record {
    channels = scanned c globals.channels;
    sr = scanned r globals.sr;
    block_size = scanned b globals.block_size;
    mixahead = scanned a globals.mixahead;
  }

  -- createDevice, as the program calls it.
  abbrev pub device_for : F → Globals → W → Called W D
  device_for fact g w =
      factories.create_device fact (g.block_size, create fl m g.sr (fl.lit 30000000)) (negsuc 0)
        g.channels g.sr g.block_size g.mixahead w

  -- The life of the device.
  unfoldable pub play : F → Globals → Program Unit
  play fact g =
      print (using_factory (factories.get_name fact))
      >> ask create_device (device_for fact g)
      >>= λ dev.
          ask sleep (λ w. some (ok tt, play_on w))
          >> ask destroy_device (λ w. some (ok tt, devices.destroy dev w))

  -- From the test of argc on; the arguments are those behind the name of the program.
  unfoldable pub run_output : List String → Program Unit
  unfolding play
  run_output (c ∷ r ∷ b ∷ a ∷ []) =
      let g = globals_of c r b a in
      print (playing g.channels g.sr g.block_size g.mixahead)
      >> (factory_of_build >>= λ fact. with_factory fact (play fact g))
      >> tell (shutting_down ∷ [])
  run_output _ = print usage

  -- main of output.cpp
  unfoldable pub output_main : List String → Session → Option Session
  unfolding run_output
  output_main args s = caught ((set_up >> run_output args) s)
