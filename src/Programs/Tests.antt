-- ===== src/Programs/Tests.antt =====
-- The theorems on the programs, over a backend with two devices that logs twice in each operation.
use Prim.Native.String.{String}
use audio_io.Prelude.{
  ℕ, ◌+◌, ◌-◌, ◌*◌, ◌/◌, ◌≡◌, refl, none, some, List, [], ◌∷◌, length, for_below, ◌==◌,
  if◌then◌else◌,
}
use audio_io.Sample.{exact}
use audio_io.Device.{ok, throw, audio_io_error, first_factory, get_output_device_factory}
use audio_io.Device.Interface.{OutputDeviceFactory, Lists, AllMake}
use audio_io.Logging.{
  unused, get_logger, initialize_logger, dereference, log_message, initialize, shutdown,
  shutdown_logger, calls, call as logging_call,
}
use audio_io.Programs.Generator.{Maths, SineGen, create, value, call}
use audio_io.Programs.{
  playing, using_factory, note, enumerating_with, detected, device, Library, Session, print_devices,
  enumerate, enumeration_main, play, run_output, output_main,
}
use audio_io.Programs.Enumeration
use audio_io.Programs.Enumeration.{enumeration_main_lem}
use audio_io.Programs.Output
use audio_io.Programs.Output.{output_main_lem}
use audio_io.Alsa.Calls.{Libasound}
use audio_io.Alsa.Interface
use audio_io.Alsa.Interface.{alsa_factory}
use audio_io.Wasapi.Calls.{Com}
use audio_io.Wasapi.Interface as WasapiInterface
use audio_io.Wasapi.Interface.{wasapi_factory}
use audio_io.Programs.Backends.{backends_list}
use audio_io.Prelude.{Bool, false}
use audio_io.Prelude.Int.{pos}
use audio_io.Fixtures.{counting, sevens, queue, plain}

-- Whole numbers, whose sine is twice the number.
abbrev whole : Maths exact
whole = record {
  D = ℕ;
  widen = λ x. x;
  narrow = λ x. x;
  mul_double = λ x y. y;
  double = λ n. n;
  of_int = λ n. n;
  div = ◌/◌;
  sub = ◌-◌;
  sinf = λ x. 2 * x;
  floorf = λ x. 10 * (x / 10);
}

abbrev gen : SineGen exact whole
gen = record { phase = 0; delta = 7; frequency = 3 }

-- The third frame, and the first sample behind the block; the phase is 21 less 20.
third_frame : (call exact whole 3 gen (λ k. 5) 2).1 4 ≡ 28
unfolding call value for_below
third_frame = refl

phase_after : (call exact whole 3 gen (λ k. 5) 2).0.phase ≡ 1
unfolding call value for_below
phase_after = refl

-- The factories list what they are made of; a device is refused to a program with no channels.
abbrev two_devices : List String × List ℕ
two_devices = ("speakers" ∷ "headphones" ∷ [], 8 ∷ 2 ∷ [])

abbrev listing : OutputDeviceFactory (List String × List ℕ) ℕ (ℕ × SineGen exact whole) ℕ
listing = record {
  get_output_names = λ fact. fact.0;
  get_output_max_channels = λ fact. fact.1;
  create_device = λ fact world index channels sr block_size mixahead w.
      if channels == 0 then some (throw (audio_io_error "no channels"), w) else some (ok w, w + 1);
  get_output_count = λ fact. length fact.0;
  get_name = λ fact. "two";
}

Same : List String × List ℕ → Type 0
Same fact = length fact.1 ≡ length fact.0

abbrev two : Library exact whole
two = record {
  W = ℕ;
  F = List String × List ℕ;
  D = ℕ;
  creators = (λ w. (none, w)) ∷ (λ w. (some two_devices, w + 1)) ∷ [];
  factories = listing;
  devices = record { stop = λ d w. w; destroy = λ d w. w + 10 };
  destroy_factory = λ fact w. w + 100;
  messages = λ op w. 2;
  play_on = λ w. w + 1000;
  sscanf = λ text. some 4;
}

two-Lists : Lists listing Same
unfolding Same
two-Lists = record { names_counted = λ fact same. refl; channels_counted = λ fact same. same }

two_made : AllMake Same two.creators
unfolding Same
two_made = (λ w. tt, (λ w. refl, tt))

abbrev begun : Session exact whole two
begun = record { logger = unused; world = 0; printed = [] }

enumeration_main_lem_example :
    (s : Session exact whole two) × (enumeration_main exact whole two begun ≡ some s)
    × Enumeration.Ends exact whole two Same begun s
enumeration_main_lem_example =
    enumeration_main_lem exact whole two Same begun two-Lists two_made refl

-- Both devices are printed.
both_printed :
    elim (enumeration_main exact whole two begun) [ none ↦ [] | some s ↦ s.printed ]
    ≡ enumerating_with "two" ∷ note ∷ detected 2 ∷ device "speakers" 8 ∷ device "headphones" 2 ∷ []
unfolding enumeration_main enumerate print_devices get_output_device_factory first_factory calls
    logging_call initialize get_logger initialize_logger dereference log_message shutdown
    shutdown_logger
both_printed = refl

always_defined : Output.Fine exact whole two ("2" ∷ "44100" ∷ "1024" ∷ "4" ∷ [])
always_defined fact w e = cc e

output_main_lem_example :
    (s : Session exact whole two) × (output_main exact whole two
        ("2" ∷ "44100" ∷ "1024" ∷ "4" ∷ [])
        begun
      ≡ some s)
    × Output.Ends exact whole two ("2" ∷ "44100" ∷ "1024" ∷ "4" ∷ []) [] 0 s
output_main_lem_example =
    output_main_lem exact whole two ("2" ∷ "44100" ∷ "1024" ∷ "4" ∷ []) begun refl always_defined

-- It plays on a device for what sscanf reads.
played_on :
    elim (output_main exact whole two ("2" ∷ "44100" ∷ "1024" ∷ "4" ∷ []) begun) [
      | none ↦ []
      | some s ↦ s.printed
    ]
    ≡ playing 4 4 4 4 ∷ using_factory "two" ∷ []
unfolding output_main run_output play create get_output_device_factory first_factory calls
    logging_call initialize get_logger initialize_logger dereference log_message shutdown
    shutdown_logger
played_on = refl

-- A card and a Windows of which every call succeeds.
abbrev none_input : String → Bool
none_input text = false

abbrev idle_card : Libasound exact.F
idle_card = record { World = ℕ; answer = λ call w. (w, record { result = pos 0; value = 0 }) }

abbrev idle_windows : Com exact.F
idle_windows = record {
  World = ℕ;
  answer = λ call w. (w, record { result = pos 0; value = 2; text = "speakers"; format = plain });
}

backends_list_example :
    Lists
      (alsa_factory none_input exact counting sevens queue idle_card)
      (Interface.Made none_input)
    × Lists
        (wasapi_factory exact counting sevens queue idle_windows)
        (WasapiInterface.Made exact counting sevens queue idle_windows)
backends_list_example = backends_list none_input exact counting sevens queue idle_card idle_windows
