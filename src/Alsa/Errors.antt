-- ===== src/Alsa/Errors.antt =====
-- How the constructor of AlsaOutputDevice fails.
use Prim.Native.String.{String}
use audio_io.Prelude.{ℕ, ◌≡◌, not, Bool, Option, none, some, List}
use audio_io.Prelude.Int.{ℤ}
use audio_io.Sample.{Float}
use audio_io.Converter.{Client, ResamplerLib}
use audio_io.Worker.Queue.{AudioCommand, SpscQueue}
use audio_io.Outside.Chains
use audio_io.Outside.{Outcome}
use audio_io.Alsa.Calls.{
  Reply, AlsaCall, open_pcm, hw_params_any, set_format, set_access, hw_params, sw_params_current,
  sw_params, set_channels_near, set_rate_near, set_period_size_near, set_buffer_size_first,
  set_start_threshold, set_silence_threshold, set_silence_size, set_avail_min, Libasound, succeeded,
  negative, M, pure, bind, attempt, avail_update, drain, close_pcm, recover, writei, wait,
}

-- What the user is told if a call fails; the calls that the constructor does not make have no
-- message.
pub message_of : {F : Type 0} → AlsaCall F → Option String
message_of (open_pcm name) = some "An Alsa Error occurred."
message_of hw_params_any = some "Alsa: could not configuer PCM device."
message_of set_format = some "ALSA: Couldn't get little endian float."
message_of (set_channels_near n) = some "Couldn't constrain channel count."
message_of (set_rate_near n) = some "ALSA: Couldn't constrain sample rate."
message_of set_access = some "ALSA: couldn't set access."
message_of (set_period_size_near n) = some "ALSA: Couldn't set period size."
message_of (set_buffer_size_first n) = some "ALSA: couldn't set buffer size."
message_of hw_params = some "ALSA: Could not prepare device."
message_of sw_params_current = some "ALSA: couldn't get current software parameters."
message_of (set_start_threshold n) = some "ALSA: couldn't set startup threshold."
message_of (set_silence_threshold n) = some "ALSA: Couldn't set silence threshold."
message_of (set_silence_size n) = some "ALSA: couldn't set silence size."
message_of (set_avail_min n) = some "ALSA: couldn't set avail_min"
message_of sw_params = some "ALSA: couldn't install software params."
message_of avail_update = none
message_of drain = none
message_of close_pcm = none
message_of (recover n) = none
message_of (writei samples n) = none
message_of (wait n) = none

module _ (F : Type 0) (alsa : Libasound F) where
  abbrev pub AllWell : List (AlsaCall F × Bool) → Type 0
  AllWell log = Chains.AllWell (AlsaCall F) Reply succeeded alsa message_of log

  abbrev pub Post : {A : Type 0} → Outcome (AlsaCall F) Reply succeeded alsa A → Type 0
  Post o = Chains.Post (AlsaCall F) Reply succeeded alsa message_of o

  abbrev Sound : {A : Type 0} → M F alsa A → Type 0
  Sound m = Chains.Sound (AlsaCall F) Reply succeeded alsa message_of m

  bind-Sound :
      {A B : Type 0} (m : M F alsa A) (f : A → M F alsa B)
      → Sound m
      → ((a : A) → Sound (f a))
      → Sound (bind F alsa m f)
  bind-Sound = Chains.bind-Sound (AlsaCall F) Reply succeeded alsa message_of

  pure-Sound : {A : Type 0} (a : A) → Sound (pure F alsa a)
  pure-Sound = Chains.pure-Sound (AlsaCall F) Reply succeeded alsa message_of

  attempt-Sound :
      (fails : ℤ → Bool) (call : AlsaCall F) (text : String)
      → message_of call ≡ some text
      → ((reply : Reply) → succeeded call reply ≡ not (fails reply.result))
      → Sound (attempt F alsa fails call text)
  attempt-Sound fails call text told checked =
      bind-Sound _ _
        (Chains.attempt-Sound (AlsaCall F) Reply succeeded alsa message_of
          (λ reply. fails reply.result) call text told checked)
        (λ reply. pure-Sound reply.value)

module _ (fl : Float) (client : Client fl) (lib : ResamplerLib fl)
    (spsc : SpscQueue (AudioCommand fl)) (alsa : Libasound fl.F) where
  abbrev F : Type 0
  F = fl.F

  called :
      {B : Type 0} (call : AlsaCall F) (text : String) (f : ℕ → M F alsa B)
      → message_of call ≡ some text
      → ((reply : Reply) → succeeded call reply ≡ not (negative reply.result))
      → ((n : ℕ) → Sound F alsa (f n))
      → Sound F alsa (bind F alsa (attempt F alsa negative call text) f)
  called call text f told checked =
      bind-Sound F alsa _ f (attempt-Sound F alsa negative call text told checked)
