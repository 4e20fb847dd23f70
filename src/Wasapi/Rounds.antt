-- ===== src/Wasapi/Rounds.antt =====
-- The mixing thread of the WASAPI backend, whatever the worker thread does between two rounds.
use audio_io.Prelude.{ℕ, ◌≡◌, ◌≢◌, ◌⊎◌, Bool, false, List, [], ◌∷◌}
use audio_io.Sample.{Float, Buffer}
use audio_io.Converter.{Client, ResamplerLib}
use audio_io.Worker.Queue.{AudioCommand, SpscQueue}
use audio_io.Worker
use audio_io.Worker.System.{System, mixed_by}
use audio_io.Wasapi.Calls.{ComCall, co_initialize, stop, reset, co_uninitialize, close_handle, Com}
use audio_io.Wasapi.Playback.{Stage, looping, ended, no_com, Playing}
use audio_io.Wasapi.Invariant.{Sound}

module _ (fl : Float) (client : Client fl) (lib : ResamplerLib fl)
    (spsc : SpscQueue (AudioCommand fl)) (win : Com fl.F) (resample_fuel : ℕ) where
  abbrev State : Type 0
  State = System fl client lib spsc resample_fuel

  abbrev Thread : Type 0
  Thread = Playing fl client lib spsc win resample_fuel

  module _ (size output_channels : ℕ) (beyond : Buffer fl) where
    -- The flag is found cleared at some test.
    abbrev pub Stopped : List (ℕ × Bool) → Type 0
    Stopped [] = ⊥
    Stopped ((steps, running) ∷ later) = (running ≡ false) ⊎ Stopped later

    -- At the end the device was stopped and reset, and COM and the event were given back.
    abbrev pub Left : Stage → List (ComCall fl.F × Bool) → Type 0
    Left ended log =
        (client event : ℕ) × (stopped was_reset left closed : Bool) × (earlier : List
          (ComCall fl.F × Bool))
        × (log
            ≡ (close_handle event, closed)
              ∷ (co_uninitialize, left)
              ∷ (reset client, was_reset)
              ∷ (stop client, stopped)
              ∷ earlier)
    Left no_com log = log ≡ (co_initialize, false) ∷ []
    Left looping log = Unit

    pub record Played (schedule : List (ℕ × Bool)) (x : Stage × Thread) : Type 0 where
      pub sound : Sound fl client lib spsc win resample_fuel size output_channels beyond x.1
      pub left : Left x.0 x.1.driver.log
      pub stops : Stopped schedule → x.0 ≢ looping

    abbrev mixed : ℕ → Thread → Thread
    mixed steps s = record s { system = mixed_by fl client lib spsc resample_fuel steps s.system }
