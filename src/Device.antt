-- ===== src/Device.antt =====
-- What every backend shares: include/audio_io/private/audio_outputs.hpp,
-- src/audio_io/common/common_output.cpp, src/audio_io/common/factory_creation.cpp and the
-- exceptions of include/audio_io/audio_io.hpp. Logging is left out.
pub mod Blocks
pub mod Stopping
pub mod Backends
pub mod Interface
pub mod Stop
mod Tests
use Prim.Native.String.{String}
use audio_io.Prelude.{
  ℕ, ◌+◌, ◌*◌, ◌/◌, ◌≡◌, Bool, true, false, Option, none, some, List, [], ◌∷◌, ◌++◌, ◌>>=◌, ◌==◌,
  ltb, ◌^◌, if◌then◌else◌,
}
use audio_io.Sample.{Float}
use audio_io.Converter.{Client, ResamplerLib, Converter, int_mul, int_div}
use audio_io.Converter
use audio_io.Worker.Queue.{AudioCommand, SpscQueue}
use audio_io.Worker.{OutputWorkerThread}
use audio_io.Worker

-- The exceptions, by their classes.
pub data AudioIoError : Type 0 where
  audio_io_error device_unavailable_error : String → AudioIoError
  no_backend_error : AudioIoError

unfoldable pub what : AudioIoError → String
what (audio_io_error message) = message
what (device_unavailable_error message) = message
what no_backend_error = "No audio_io backend is available on the current system."

-- The cast of an unsigned number to `int`; `none` if it does not fit.
abbrev pub to_int : ℕ → Option ℕ
to_int n = if ltb n (2 ^ 31) then some n else none

-- A call that may throw.
pub data Result (A : Type 0) : Type 0 where
  ok : A → Result A
  throw : AudioIoError → Result A

module _ (fl : Float) (client : Client fl) (lib : ResamplerLib fl)
    (spsc : SpscQueue (AudioCommand fl)) where
  pub record OutputDeviceImplementation : Type 0 where
    pub input_frames : ℕ
    pub input_channels : ℕ
    pub input_sr : ℕ
    pub output_channels : ℕ
    pub output_sr : ℕ
    pub output_frames : ℕ
    pub sample_format_converter : Converter fl client lib
    pub worker_thread : OutputWorkerThread fl client lib spsc
    pub stopped : Bool

  -- init, on a new object; `none` is undefined behaviour. `world` is the program behind the
  -- callback, which is not called yet.
  unfoldable pub init : client.World → ℕ → ℕ → ℕ → ℕ → ℕ → ℕ → Option OutputDeviceImplementation
  init world input_frames input_channels input_sr output_channels output_sr mixahead = do
    converter ←
        Converter.create fl client lib world input_frames input_channels input_sr output_channels
          output_sr
    worker ←
        Worker.create fl client lib spsc world input_frames input_channels input_sr output_channels
          output_sr mixahead
    product ← int_mul input_frames output_sr
    output_frames ← int_div product input_sr
    some (record {
      input_frames = input_frames;
      input_channels = input_channels;
      input_sr = input_sr;
      output_channels = output_channels;
      output_sr = output_sr;
      output_frames = output_frames;
      sample_format_converter = converter;
      worker_thread = worker;
      stopped = false;
    })

-- The devices that live, by their addresses.
abbrev pub Devices : Type 0 → Type 0
Devices D = ℕ → Option D

pub record OutputDeviceFactoryImplementation : Type 0 where
  pub created_devices : List ℕ
  pub output_count : ℕ

unfoldable pub get_output_count : OutputDeviceFactoryImplementation → ℕ
get_output_count factory = factory.output_count

-- What a backend that has no name of its own is called.
unfoldable pub get_name : OutputDeviceFactoryImplementation → String
get_name factory = "Invalid backend: subclass failed to implement"

module _ {D : Type 0} (stop : D → D) where
  -- strong->stop(), if p.lock() finds the device.
  unfoldable pub stop_if_alive : ℕ → Devices D → Devices D
  stop_if_alive p devices k =
      if k == p then elim (devices p) [ none ↦ none | some d ↦ some (stop d) ] else devices k

  -- The loop of ~OutputDeviceFactoryImplementation.
  unfoldable pub stop_all : List ℕ → Devices D → Devices D
  unfolding stop_if_alive
  stop_all [] devices = devices
  stop_all (p ∷ ps) devices = stop_all ps (stop_if_alive p devices)

  unfoldable pub destroy : OutputDeviceFactoryImplementation → Devices D → Devices D
  unfolding stop_all
  destroy factory devices = stop_all factory.created_devices devices

-- The functions of outputDeviceFactoryCreators, for the backends that the build has; each may change
-- the state of the system, and `none` is the null pointer.
abbrev pub Creator : Type 0 → Type 0 → Type 0
Creator W F = W → Option F × W

module _ {W F : Type 0} where
  -- outputDeviceFactoryCreators, of which the build takes those that it is configured for.
  unfoldable pub output_device_factory_creators :
      (use_wasapi use_winmm use_alsa : Bool) (wasapi winmm alsa : Creator W F) → List (Creator W F)
  output_device_factory_creators use_wasapi use_winmm use_alsa wasapi winmm alsa =
      (if use_wasapi then wasapi ∷ [] else [])
      ++ ((if use_winmm then winmm ∷ [] else []) ++ (if use_alsa then alsa ∷ [] else []))

  -- The loop of getOutputDeviceFactory.
  unfoldable pub first_factory : List (Creator W F) → W → Option F × W
  first_factory [] world = (none, world)
  first_factory (create ∷ creators) world =
      let (fact, world') = create world in
      let rest = first_factory creators world' in
      elim fact [ some f ↦ (some f, world') | none ↦ rest ]

  -- What follows the loop.
  abbrev pub or_throw : Option F × W → Result F × W
  or_throw (some fact, world) = (ok fact, world)
  or_throw (none, world) = (throw no_backend_error, world)

  unfoldable pub get_output_device_factory : List (Creator W F) → W → Result F × W
  unfolding first_factory
  get_output_device_factory creators world = or_throw (first_factory creators world)
