-- ===== src/Device/Tests.antt =====
-- The theorems on devices at a device that resamples, at two devices, and at two backends.
use audio_io.Prelude.{
  ℕ, ◌+◌, ◌≡◌, ◌⊎◌, refl, Bool, true, false, none, some, List, [], ◌∷◌, if◌then◌else◌, ◌==◌,
}
use audio_io.Sample.{exact}
use audio_io.Converter.{Converter, create, set_up_resampler}
use audio_io.Worker
use audio_io.Worker.{fill_returned, frames_of_block}
use audio_io.Worker.Queue.{AudioCommand, buffer, SpscQueue}
use audio_io.Device.{
  stop_all, stop_if_alive, OutputDeviceImplementation, init, Devices, destroy, Creator,
  first_factory, output_device_factory_creators, get_output_device_factory, ok, throw,
  no_backend_error,
}
use audio_io.Device.Stop.{
  Ends, joining, working, started, alsa, alsa_stop, thread_step, test_and_set, stop_lem, next, here,
  runs, stops,
}
use audio_io.Device.Backends.{Taken, AllFail, get_output_device_factory_lem}
use audio_io.Fixtures.{counting, sevens, list_queue}

abbrev queue : SpscQueue (AudioCommand exact)
queue = list_queue (AudioCommand exact)

abbrev converter : Converter exact counting sevens
converter = record {
  world = 0;
  input_buffer = λ k. 0;
  output_buffer = λ k. 0;
  resampler_workspace = λ k. 0;
  input_sr = 8;
  output_sr = 4;
  input_channels = 1;
  output_channels = 2;
  input_frames = 4;
  output_frames = 2;
  consumed_output_frames = 2;
  resampler = some 0;
}

-- Blocks of four frames at 8 samples a second are two frames at 4.
abbrev ready : OutputDeviceImplementation exact counting sevens queue
ready = record {
  input_frames = 4;
  input_channels = 1;
  input_sr = 8;
  output_channels = 2;
  output_sr = 4;
  output_frames = 2;
  sample_format_converter = converter;
  worker_thread = record {
    converter = converter;
    prepared_buffers = ([], 1);
    returned_buffers = (record { command_type = buffer; samples = λ k. 0; used = 0 } ∷ [], 1);
    current_buffer = none;
    semaphore = 1;
    finished_initial_mix = false;
    destination_channels = 2;
    destination_frames = 2;
    mixahead = 1;
  };
  stopped = false;
}

ready-init : init exact counting sevens queue 0 4 1 8 2 4 1 ≡ some ready
unfolding init create set_up_resampler Worker.create fill_returned frames_of_block
ready-init = refl

-- A device that is its flag: the one that was created and lives is stopped.
abbrev stop_flag : Bool → Bool
stop_flag b = true

abbrev two_devices : Devices Bool
two_devices k = if k == 7 then some false else if k == 8 then some false else none

one_stopped :
    destroy stop_flag (record { created_devices = 7 ∷ 9 ∷ []; output_count = 1 }) two_devices 7
    ≡ some true
unfolding destroy stop_all stop_if_alive
one_stopped = refl

-- The first backend is missing, the second gives factory 5; each call is counted.
abbrev missing : Creator ℕ ℕ
missing w = (none, w + 1)

abbrev present : Creator ℕ ℕ
present w = (some 5, w + 1)

abbrev backends : List (Creator ℕ ℕ)
backends = output_device_factory_creators true false true missing missing present

get_output_device_factory_lem_example :
    ((fact : ℕ) × (world' : ℕ) × (get_output_device_factory backends 0 ≡ (ok fact, world'))
      × Taken backends 0 fact world')
    ⊎ ((world' : ℕ) × (get_output_device_factory backends 0 ≡ (throw no_backend_error, world'))
        × AllFail backends 0 world')
get_output_device_factory_lem_example = get_output_device_factory_lem backends 0

-- WASAPI fails, and ALSA is there.
alsa_taken : get_output_device_factory backends 0 ≡ (ok 5, 2)
unfolding get_output_device_factory first_factory output_device_factory_creators
alsa_taken = refl

-- The thread is in a round when stop is called.
stop_lem_example : Ends joining (record started { thread_at = working; flag = false })
unfolding alsa_stop thread_step test_and_set started
stop_lem_example =
    stop_lem alsa joining (record started { thread_at = working; flag = false })
      (next (next here (runs refl)) stops)
