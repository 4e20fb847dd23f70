-- ===== src/Alsa/Open.antt =====
-- AlsaOutputDevice::AlsaOutputDevice of src/audio_io/alsa/output_device.cpp, and createDevice of
-- src/audio_io/alsa/output_factory.cpp.
use Prim.Native.String.{String}
use audio_io.Prelude.{ℕ, ◌-◌, Bool, true, Option, none, some, List, [], ◌∷◌, ◌==◌, if◌then◌else◌}
use audio_io.Prelude.Int.{ℤ, pos, negsuc}
use audio_io.Sample.{Float}
use audio_io.Converter.{Client, ResamplerLib}
use audio_io.Worker.Queue.{AudioCommand, SpscQueue}
use audio_io.Device.{OutputDeviceImplementation, init, to_int}
use audio_io.Alsa.{buffer_size}
use audio_io.Alsa.Calls.{
  AlsaCall, open_pcm, hw_params_any, set_format, set_access, hw_params, sw_params_current,
  sw_params, set_channels_near, set_rate_near, set_period_size_near, set_buffer_size_first,
  set_start_threshold, set_silence_threshold, set_silence_size, set_avail_min, Libasound, negative,
  nonzero, M, pure, bind, or_undefined, attempt,
}

module _ (fl : Float) (client : Client fl) (lib : ResamplerLib fl)
    (spsc : SpscQueue (AudioCommand fl)) (alsa : Libasound fl.F) where
  infixl 5 ◌>>=◌ ◌>>◌
  abbrev ◌>>=◌ : {A B : Type 0} → M fl.F alsa A → (A → M fl.F alsa B) → M fl.F alsa B
  m >>= f = bind fl.F alsa m f

  abbrev ◌>>◌ : {A B : Type 0} → M fl.F alsa A → M fl.F alsa B → M fl.F alsa B
  m >> k = bind fl.F alsa m (λ _. k)

  -- `running` is what worker_running's flag is set to, `joinable` whether the I/O thread was started
  -- and has not been joined.
  pub record AlsaOutputDevice : Type 0 where
    pub base : OutputDeviceImplementation fl client lib spsc
    pub alsa_buffer_frames : ℕ
    pub worker_running : Bool
    pub joinable : Bool

  -- A call that throws if its result is negative.
  abbrev try_call : AlsaCall fl.F → String → M fl.F alsa ℕ
  try_call call message = attempt fl.F alsa negative call message

  -- The hardware parameters: the channels, the sample rate, the period size and the buffer size that
  -- the device has.
  unfoldable pub set_hw_params : String → ℕ → ℕ → M fl.F alsa (ℕ × ℕ × ℕ × ℕ)
  set_hw_params name sr channels = do
    attempt fl.F alsa nonzero (open_pcm name) "An Alsa Error occurred."
    try_call hw_params_any "Alsa: could not configuer PCM device."
    try_call set_format "ALSA: Couldn't get little endian float."
    alsa_channels ← try_call (set_channels_near channels) "Couldn't constrain channel count."
    alsa_sr ← try_call (set_rate_near sr) "ALSA: Couldn't constrain sample rate."
    try_call set_access "ALSA: couldn't set access."
    period ← try_call (set_period_size_near 2048) "ALSA: Couldn't set period size."
    wanted ← or_undefined fl.F alsa (buffer_size 8193 period)
    size ← try_call (set_buffer_size_first wanted) "ALSA: couldn't set buffer size."
    try_call hw_params "ALSA: Could not prepare device."
    pure fl.F alsa (alsa_channels, alsa_sr, period, size)

  unfoldable pub set_sw_params : ℕ → ℕ → M fl.F alsa ℕ
  set_sw_params period size = do
    try_call sw_params_current "ALSA: couldn't get current software parameters."
    try_call (set_start_threshold size) "ALSA: couldn't set startup threshold."
    try_call (set_silence_threshold period) "ALSA: Couldn't set silence threshold."
    try_call (set_silence_size size) "ALSA: couldn't set silence size."
    try_call (set_avail_min period) "ALSA: couldn't set avail_min"
    try_call sw_params "ALSA: couldn't install software params."

  unfoldable pub create : client.World → String → ℕ → ℕ → ℕ → ℕ → M fl.F alsa AlsaOutputDevice
  unfolding set_hw_params set_sw_params
  create world name sr channels block_size mixahead = do
    (alsa_channels, alsa_sr, period, size) ← set_hw_params name sr channels
    alsa_buffer_frames ← or_undefined fl.F alsa (to_int size)
    set_sw_params period size
    base ←
        or_undefined fl.F alsa
          (init fl client lib spsc world block_size channels sr alsa_channels alsa_sr mixahead)
    pure fl.F alsa (record {
      base = base;
      alsa_buffer_frames = alsa_buffer_frames;
      worker_running = true;
      joinable = true;
    })

  -- device_names[index]; a bad index is undefined behaviour.
  unfoldable pub name_at : List String → ℕ → Option String
  name_at [] index = none
  name_at (name ∷ names) index = if index == 0 then some name else name_at names (index - 1)

  -- AlsaOutputDeviceFactory::createDevice.
  unfoldable pub create_device :
      List String → client.World → ℤ → ℕ → ℕ → ℕ → ℕ → M fl.F alsa AlsaOutputDevice
  unfolding create name_at
  create_device device_names world (pos index) channels sr block_size mixahead = do
    name ← or_undefined fl.F alsa (name_at device_names index)
    create world name sr channels block_size mixahead
  create_device device_names world (negsuc index) channels sr block_size mixahead = do
    name ← or_undefined fl.F alsa (if index == 0 then some "default" else none)
    create world name sr channels block_size mixahead
