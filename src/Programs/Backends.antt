-- ===== src/Programs/Backends.antt =====
-- Both backends, as the programs of src/tests/ use them.
use Prim.Native.String.{String}
use audio_io.Prelude.{Bool}
use audio_io.Sample.{Float}
use audio_io.Converter.{Client, ResamplerLib}
use audio_io.Worker.Queue.{AudioCommand, SpscQueue}
use audio_io.Device.Interface.{Lists}
use audio_io.Alsa.Calls.{Libasound}
use audio_io.Alsa.Interface
use audio_io.Alsa.Interface.{alsa_factory, alsa_factory-Lists}
use audio_io.Wasapi.Calls.{Com}
use audio_io.Wasapi.Interface as WasapiInterface
use audio_io.Wasapi.Interface.{wasapi_factory, wasapi_factory-Lists}

module _ (is_input : String → Bool) (fl : Float) (client : Client fl) (lib : ResamplerLib fl)
    (spsc : SpscQueue (AudioCommand fl)) where
  -- The factories of both backends keep what OutputDeviceFactory promises a program that lists the
  -- devices: whatever the scan finds and whatever Windows answers, there are as many names, and as
  -- many numbers of channels, as getOutputCount says.
  pub backends_list :
      (alsa : Libasound fl.F) (win : Com fl.F)
      → Lists (alsa_factory is_input fl client lib spsc alsa) (Interface.Made is_input)
        × Lists
            (wasapi_factory fl client lib spsc win)
            (WasapiInterface.Made fl client lib spsc win)
  backends_list alsa win = (
    alsa_factory-Lists is_input fl client lib spsc alsa,
    wasapi_factory-Lists fl client lib spsc win,
  )
