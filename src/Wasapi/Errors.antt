-- ===== src/Wasapi/Errors.antt =====
-- How createDevice of the WASAPI factory fails.
use Prim.Native.String.{String}
use audio_io.Prelude.{◌≡◌, not, Bool, Option, none, some, List}
use audio_io.Sample.{Float}
use audio_io.Converter.{Client, ResamplerLib}
use audio_io.Worker.Queue.{AudioCommand, SpscQueue}
use audio_io.Outside.{Outcome}
use audio_io.Outside.Chains
use audio_io.Wasapi.Calls.{
  ComCall, get_default_audio_endpoint, get_device, activate, get_mix_format, is_format_supported,
  get_device_period, initialize, get_buffer_size, Reply, Com, succeeded, M, bind, attempt,
}

-- What the user is told if a call of createDevice fails; the calls that it does not make have no
-- message.
pub message_of : {F : Type 0} → ComCall F → Option String
message_of (get_default_audio_endpoint enumerator) = some "Could not create IMMDeviceInstance"
message_of (get_device enumerator id) = some "Could not create IMMDeviceInstance"
message_of (activate device) = some "Wasapi: could not activate device."
message_of (get_mix_format client) = some "Wasapi: unable to retrieve mix format."
message_of (is_format_supported client format) =
    some "Wasapi: could not initialize with float audio.."
message_of (get_device_period client) = some "WASAPI: couldn't query device period."
message_of (initialize client format) = some "Wasapi: call to IAudioClient::initialize failed."
message_of (get_buffer_size client) = some "Couldn't get Wasapi buffer size."
message_of _ = none

module _ (fl : Float) (client : Client fl) (lib : ResamplerLib fl)
    (spsc : SpscQueue (AudioCommand fl)) (win : Com fl.F) where
  abbrev pub AllWell : List (ComCall fl.F × Bool) → Type 0
  AllWell log = Chains.AllWell (ComCall fl.F) Reply succeeded win message_of log

  abbrev pub Post : {A : Type 0} → Outcome (ComCall fl.F) Reply succeeded win A → Type 0
  Post o = Chains.Post (ComCall fl.F) Reply succeeded win message_of o

  abbrev Sound : {A : Type 0} → M fl.F win A → Type 0
  Sound m = Chains.Sound (ComCall fl.F) Reply succeeded win message_of m

  bind-Sound :
      {A B : Type 0} (m : M fl.F win A) (f : A → M fl.F win B)
      → Sound m
      → ((a : A) → Sound (f a))
      → Sound (bind fl.F win m f)
  bind-Sound = Chains.bind-Sound (ComCall fl.F) Reply succeeded win message_of

  called :
      {B : Type 0} (fails : Reply → Bool) (call : ComCall fl.F) (text : String)
      (f : Reply → M fl.F win B)
      → message_of call ≡ some text
      → ((reply : Reply) → succeeded call reply ≡ not (fails reply))
      → ((reply : Reply) → Sound (f reply))
      → Sound (bind fl.F win (attempt fl.F win fails call text) f)
  called fails call text f told checked = bind-Sound _ f (
      Chains.attempt-Sound (ComCall fl.F) Reply succeeded win message_of fails call text told
        checked)
