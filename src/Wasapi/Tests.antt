-- ===== src/Wasapi/Tests.antt =====
-- The WASAPI theorems at a system with two devices, and at a device that plays three blocks.
use audio_io.Prelude.{ℕ, ◌+◌, ◌-◌, ◌≡◌, refl, Bool, true, false, List, [], ◌∷◌, ◌==◌, if◌then◌else◌}
use audio_io.Prelude.Int.{pos, negsuc}
use audio_io.Sample.{exact}
use audio_io.Worker.System.{System, start}
use audio_io.Device.{audio_io_error}
use audio_io.Outside.{thrown}
use audio_io.Wasapi.Calls.{ComCall, get_current_padding, activate, get_default_audio_endpoint, Com}
use audio_io.Wasapi.Factory.{create_device, find_device, WasapiOutputDeviceFactory}
use audio_io.Wasapi.Open
use audio_io.Fixtures.{counting, sevens, queue, made, plain}

-- Every call replies with the number 2; call number `w` from now on fails.
abbrev pair : Com exact.F
pair = record {
  World = ℕ;
  answer = λ call w. (
    w - 1,
    record {
      result = if w == 0 then negsuc 0 else pos 0;
      value = 2;
      text = "speakers";
      format = plain;
    },
  );
}

abbrev two_devices : WasapiOutputDeviceFactory
two_devices = record {
  enumerator = 2;
  names = "speakers" ∷ "speakers" ∷ [];
  max_channels = 3 ∷ 3 ∷ [];
  ids_to_id_strings = (1, "speakers") ∷ (0, "speakers") ∷ [];
}

-- The device is found, and cannot be activated.
not_activated :
    create_device exact counting sevens queue pair two_devices 0
      (negsuc 0)
      2
      4
      8
      1
      (record { world = 1; log = [] })
    ≡ thrown (audio_io_error "Wasapi: could not activate device.") (record {
      world = 0;
      log = (activate 2, false) ∷ (get_default_audio_endpoint 2, true) ∷ [];
    })
unfolding create_device find_device Open.create Open.open_client
not_activated = refl

-- Calls always succeed. The buffer has two frames, of which none is taken.
abbrev number : ComCall exact.F → ℕ
number (get_current_padding audio_client) = 0
number _ = 2

abbrev patient : Com exact.F
patient = record {
  World = ℕ;
  answer =
      λ call w. (w + 1, record { result = pos 0; value = number call; text = ""; format = plain });
}

abbrev begun : System exact counting sevens queue 9
begun = start exact counting sevens queue 9 made

abbrev schedule : List (ℕ × Bool)
schedule = (4, true) ∷ (0, true) ∷ (9, false) ∷ []
