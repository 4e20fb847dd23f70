-- ===== src/Alsa/Tests.antt =====
-- The ALSA theorems at a period of 2048 frames, and at a scan that finds three devices.
use audio_io.Prelude.{
  for_below, inl, ℕ, ◌*◌, ◌≤◌, ◌<◌, ◌≡◌, arith, refl, Bool, true, false, Option, none, some, List,
  [], ◌∷◌,
}
use audio_io.Alsa.{create_alsa_output_device_factory, Hint, rescan, scan}
use audio_io.Alsa.Surround.{reorder, partner, reorder_lem}
use audio_io.Mixing.Cells.{place}
use audio_io.Prelude.{◌-◌, ◌==◌, if◌then◌else◌}
use audio_io.Prelude.Int.{pos, negsuc}
use audio_io.Sample.{exact}
use audio_io.Worker.System.{System, start, here}
use audio_io.Device.{audio_io_error}
use audio_io.Outside.{thrown}
use audio_io.Alsa.Calls.{
  AlsaCall, open_pcm, hw_params_any, set_format, set_channels_near, set_rate_near,
  set_period_size_near, set_buffer_size_first, Libasound,
}
use audio_io.Alsa.Open.{set_hw_params, create, name_at, create_device}
use audio_io.Alsa.Playback.{Stage, Playing, worker_thread_function}
use audio_io.Alsa.Rounds.{Played, worker_thread_function_lem}
use audio_io.Fixtures.{counting, sevens, queue, made, made-create}

-- The strings of the test.
data Word : Type 0 where
  input output speaker microphone both : Word

is_input : Word → Bool
is_input input = true
is_input _ = false

-- One device plays, one records and one does both.
abbrev three : Option (List (Hint Word is_input))
three = some (
    record { name = some speaker; ioid = some output }
    ∷ record { name = some microphone; ioid = some input }
    ∷ record { name = some both; ioid = none }
    ∷ [])

-- The device that only plays is the one that is left out.
listed : (rescan Word is_input three).device_names ≡ microphone ∷ both ∷ []
unfolding rescan scan is_input
listed = refl

-- A scan that fails leaves a factory without devices.
nothing_found :
    create_alsa_output_device_factory Word is_input none
    ≡ some (record { device_names = []; device_channels = []; output_count = 0 })
unfolding create_alsa_output_device_factory rescan
nothing_found = refl

-- Two 5.1 frames of which each sample is its own index.
reorder_lem_example :
    ((i r : ℕ) → i < 2 → r < 6 → reorder 6 2 (λ k. k) (place 6 i r) ≡ place 6 i (partner 6 r))
    × ((k : ℕ) → 2 * 6 ≤ k → reorder 6 2 (λ k. k) k ≡ k)
reorder_lem_example = reorder_lem 6 2 (λ k. k) (inl refl)

-- fl, fr, fc, lfe, bl, br become fl, fr, bl, br, fc, lfe.
second_frame : reorder 6 2 (λ k. k) 8 ≡ 10
unfolding reorder for_below
second_frame = refl

-- A card of which the call number `w` from now on fails; it grants what is asked for.
abbrev asked_for : AlsaCall exact.F → ℕ
asked_for (set_channels_near n) = n
asked_for (set_rate_near n) = n
asked_for (set_period_size_near n) = n
asked_for (set_buffer_size_first n) = n
asked_for _ = 0

abbrev card : Libasound exact.F
card = record {
  World = ℕ;
  answer = λ call w.
      (w - 1, record { result = if w == 0 then negsuc 0 else pos 5; value = asked_for call });
}

-- The third call of the constructor fails, that of snd_pcm_hw_params_set_format. (snd_pcm_open must
-- return 0.)
abbrev picky : Libasound exact.F
picky = record {
  World = ℕ;
  answer = λ call w.
      (w - 1, record { result = if w == 0 then negsuc 0 else pos 0; value = asked_for call });
}

third_fails :
    create_device exact counting sevens queue picky
      ("hw:0" ∷ [])
      0
      (pos 0)
      2
      4
      8
      1
      (record { world = 2; log = [] })
    ≡ thrown (audio_io_error "ALSA: Couldn't get little endian float.") (record {
      world = 0;
      log = (set_format, false) ∷ (hw_params_any, true) ∷ (open_pcm "hw:0", true) ∷ [];
    })
unfolding create_device name_at create set_hw_params
third_fails = refl

abbrev begun : System exact counting sevens queue 9
begun = start exact counting sevens queue 9 made

-- Two rounds, and then the flag is found cleared.
abbrev schedule : List (ℕ × Bool)
schedule = (4, true) ∷ (0, true) ∷ (9, false) ∷ []

worker_thread_function_lem_example :
    (x : Stage × Playing exact counting sevens queue card 9) × (worker_thread_function exact
        counting sevens queue card 9 2 3 schedule
        (λ k. 8)
        begun
        (record { world = 50; log = [] })
      ≡ some x)
    × Played exact counting sevens queue card 9 2 3 (λ k. 8) schedule x
unfolding start
worker_thread_function_lem_example =
    worker_thread_function_lem exact counting sevens queue card 9 0 2 1 8 2 8 1 made begun 2 3
      schedule (λ k. 8) (record { world = 50; log = [] }) made-create here (omega arith) refl refl
      tt
