-- ===== src/Alsa/Interface.antt =====
-- The ALSA backend as a program sees it, through OutputDeviceFactory.
use Prim.Native.String.{String}
use audio_io.Prelude.{some_inj, subst, ◌≡◌, ◌∙◌, sym, ap, Bool, Option, some, List, length}
use audio_io.Sample.{Float}
use audio_io.Converter.{Client, ResamplerLib}
use audio_io.Worker.Queue.{AudioCommand, SpscQueue}
use audio_io.Device.Interface.{OutputDeviceFactory, Lists, as_called}
use audio_io.Alsa.{
  Hint, AlsaOutputDeviceFactory, create_factory, get_output_names, get_output_max_channels,
  get_name, create_alsa_output_device_factory,
}
use audio_io.Alsa.Sizes.{length-eights, rescan_lem}
use audio_io.Alsa.Calls.{Libasound, Driver}
use audio_io.Alsa.Open.{AlsaOutputDevice, create_device}

module _ (is_input : String → Bool) where
  abbrev pub Factory : Type 0
  Factory = AlsaOutputDeviceFactory String is_input

  -- A factory of createAlsaOutputDeviceFactory, whatever the scan finds.
  abbrev pub Made : Factory → Type 0
  Made fact =
      (hints : Option (List (Hint String is_input))) × (create_alsa_output_device_factory String
          is_input hints
        ≡ some fact)

  module _ (fl : Float) (client : Client fl) (lib : ResamplerLib fl)
      (spsc : SpscQueue (AudioCommand fl)) (alsa : Libasound fl.F) where
    unfoldable pub alsa_factory :
        OutputDeviceFactory Factory
          (AlsaOutputDevice fl client lib spsc alsa)
          client.World
          (Driver fl.F alsa)
    alsa_factory = record {
      get_output_names = get_output_names String is_input;
      get_output_max_channels = get_output_max_channels String is_input;
      create_device = λ fact world index channels sr block_size mixahead s. as_called (
          create_device fl client lib spsc alsa fact.device_names world index channels sr block_size
            mixahead s);
      get_output_count = λ fact. fact.output_count;
      get_name = get_name String is_input;
    }

    -- The numbers of names and of channels that a factory lists.
    abbrev Counted : Factory → Type 0
    Counted fact =
        (length fact.device_names ≡ fact.output_count)
        × (length fact.device_channels ≡ fact.output_count)

    Made-Counted : (fact : Factory) → Made fact → Counted fact
    unfolding create_alsa_output_device_factory create_factory
    Made-Counted fact (hints, e) =
        let (count, channels) = rescan_lem String is_input hints in
        subst Counted (some_inj e) (sym count, ap length channels ∙ length-eights _)

    -- Whatever the scan finds, a factory of createAlsaOutputDeviceFactory lists as many names as it
    -- counts devices, and as many numbers of channels.
    pub alsa_factory-Lists : Lists alsa_factory Made
    unfolding alsa_factory get_output_names get_output_max_channels
    alsa_factory-Lists = record {
      names_counted = λ fact made. (Made-Counted fact made).0;
      channels_counted = λ fact made. (Made-Counted fact made).1;
    }
