-- ===== src/Wasapi/Interface.antt =====
-- The WASAPI backend as a program sees it, through OutputDeviceFactory.
use audio_io.Prelude.{subst, ◌≡◌, refl, some}
use audio_io.Sample.{Float}
use audio_io.Converter.{Client, ResamplerLib}
use audio_io.Worker.Queue.{AudioCommand, SpscQueue}
use audio_io.Outside.{done}
use audio_io.Device.Interface.{OutputDeviceFactory, Lists, as_called}
use audio_io.Wasapi.Calls.{Com, Driver}
use audio_io.Wasapi.Open.{WasapiOutputDevice}
use audio_io.Wasapi.Factory.{
  WasapiOutputDeviceFactory, get_output_names, get_output_max_channels, get_output_count, get_name,
  create_device, create_wasapi_output_device_factory,
}
use audio_io.Wasapi.Listed.{Listed, Tried, create_wasapi_output_device_factory_lem}

module _ (fl : Float) (client : Client fl) (lib : ResamplerLib fl)
    (spsc : SpscQueue (AudioCommand fl)) (win : Com fl.F) where
  -- A factory of createWasapiOutputDeviceFactory, whatever Windows has answered.
  abbrev pub Made : WasapiOutputDeviceFactory → Type 0
  Made fact =
      (s s' : Driver fl.F win) × (create_wasapi_output_device_factory fl client lib spsc win s
        ≡ done (some fact) s')

  unfoldable pub wasapi_factory :
      OutputDeviceFactory WasapiOutputDeviceFactory
        (WasapiOutputDevice fl client lib spsc win)
        client.World
        (Driver fl.F win)
  wasapi_factory = record {
    get_output_names = get_output_names;
    get_output_max_channels = get_output_max_channels;
    create_device = λ fact world index channels sr block_size mixahead s.
        as_called
          (create_device fl client lib spsc win fact world index channels sr block_size mixahead s);
    get_output_count = get_output_count;
    get_name = get_name;
  }

  Made-Listed : (fact : WasapiOutputDeviceFactory) → Made fact → Listed fact
  Made-Listed fact (s, s', e) =
      subst (Tried fl client lib spsc win) e
        (create_wasapi_output_device_factory_lem fl client lib spsc win s)

  -- Whatever Windows answers, a factory of createWasapiOutputDeviceFactory lists as many names as it
  -- counts devices, and as many numbers of channels.
  pub wasapi_factory-Lists : Lists wasapi_factory Made
  unfolding wasapi_factory get_output_names get_output_max_channels get_output_count
  wasapi_factory-Lists = record {
    names_counted = λ fact made. refl;
    channels_counted = λ fact made. (Made-Listed fact made).channels;
  }
