-- ===== src/Wasapi/Open.antt =====
-- WasapiOutputDevice::WasapiOutputDevice of src/audio_io/wasapi/output_device.cpp. The calls that go
-- through the single-threaded apartment are calls.
use Prim.Native.String.{String}
use audio_io.Prelude.{ℕ, Bool, true}
use audio_io.Sample.{Float}
use audio_io.Converter.{Client, ResamplerLib}
use audio_io.Worker.Queue.{AudioCommand, SpscQueue}
use audio_io.Device.{OutputDeviceImplementation, init, to_int}
use audio_io.Wasapi.{WaveFormat, request_format}
use audio_io.Wasapi.Calls.{
  ComCall, activate, get_mix_format, is_format_supported, get_device_period, initialize,
  get_buffer_size, Reply, Com, is_error, not_ok, M, pure, bind, or_undefined, attempt,
}

module _ (fl : Float) (client : Client fl) (lib : ResamplerLib fl)
    (spsc : SpscQueue (AudioCommand fl)) (win : Com fl.F) where
  infixl 5 ◌>>=◌ ◌>>◌
  abbrev ◌>>=◌ : {A B : Type 0} → M fl.F win A → (A → M fl.F win B) → M fl.F win B
  m >>= f = bind fl.F win m f

  abbrev ◌>>◌ : {A B : Type 0} → M fl.F win A → M fl.F win B → M fl.F win B
  m >> k = bind fl.F win m (λ _. k)

  -- `audio_client` is the IAudioClient; `should_continue` is what the flag is set to.
  pub record WasapiOutputDevice : Type 0 where
    pub base : OutputDeviceImplementation fl client lib spsc
    pub audio_client : ℕ
    pub format : WaveFormat
    pub period : ℕ
    pub wasapi_buffer_size : ℕ
    pub should_continue : Bool
    pub joinable : Bool

  -- A call that throws if IS_ERROR of its result.
  abbrev try_call : ComCall fl.F → String → M fl.F win Reply
  try_call call message = attempt fl.F win is_error call message

  -- The IAudioClient and the format that it has been initialised with.
  unfoldable pub open_client : ℕ → M fl.F win (ℕ × WaveFormat × ℕ)
  open_client device = do
    activated ← try_call (activate device) "Wasapi: could not activate device."
    mixed ← try_call (get_mix_format activated.value) "Wasapi: unable to retrieve mix format."
    format ← or_undefined fl.F win (request_format mixed.format)
    try_call (is_format_supported activated.value format)
        "Wasapi: could not initialize with float audio.."
    period ← try_call (get_device_period activated.value) "WASAPI: couldn't query device period."
    attempt fl.F win not_ok (initialize activated.value format)
        "Wasapi: call to IAudioClient::initialize failed."
    pure fl.F win (activated.value, format, period.value)

  unfoldable pub create : client.World → ℕ → ℕ → ℕ → ℕ → ℕ → M fl.F win WasapiOutputDevice
  unfolding open_client
  create world device input_frames input_channels input_sr mixahead = do
    (audio_client, format, period) ← open_client device
    size ← try_call (get_buffer_size audio_client) "Couldn't get Wasapi buffer size."
    output_sr ← or_undefined fl.F win (to_int format.samples_per_sec)
    base ← or_undefined fl.F win (
        init fl client lib spsc world input_frames input_channels input_sr format.channels output_sr
          mixahead)
    pure fl.F win (record {
      base = base;
      audio_client = audio_client;
      format = format;
      period = period;
      wasapi_buffer_size = size.value;
      should_continue = true;
      joinable = true;
    })
