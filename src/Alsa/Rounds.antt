-- ===== src/Alsa/Rounds.antt =====
-- The I/O thread of the ALSA backend, whatever libasound answers and whatever the mixing thread does
-- between two rounds.
use audio_io.Prelude.{
  ℕ, ◌<◌, ◌≡◌, ◌≢◌, ◌∙◌, refl, arith, Bool, true, false, Option, some, List, [], ◌∷◌, inl, inr, ◌⊎◌,
}
use audio_io.Sample.{Float, Buffer}
use audio_io.Converter.{Client, ResamplerLib}
use audio_io.Worker.Queue.{AudioCommand, SpscQueue}
use audio_io.Worker
use audio_io.Worker.{OutputWorkerThread}
use audio_io.Worker.System.{System, start, Reach, idle, mixed_by}
use audio_io.Worker.Steady.{Reach-Steady, mixed_by-Steady}
use audio_io.Alsa.Calls.{AlsaCall, drain, close_pcm, Libasound, Driver}
use audio_io.Alsa.Playback.{
  Round, continue, cleanup, Stage, looping, closed, abandoned, Playing, finish, rounds,
  worker_thread_function,
}
use audio_io.Alsa.Invariant.{Fits, Sound, with_driver, GaveUp, Ended, run_round, round-Sound}

module _ (fl : Float) (client : Client fl) (lib : ResamplerLib fl)
    (spsc : SpscQueue (AudioCommand fl)) (alsa : Libasound fl.F) (resample_fuel : ℕ) where
  abbrev State : Type 0
  State = System fl client lib spsc resample_fuel

  abbrev Thread : Type 0
  Thread = Playing fl client lib spsc alsa resample_fuel

  module _ (output_channels alsa_buffer_frames : ℕ) (beyond : Buffer fl) where
    abbrev pub Left : Stage → List (AlsaCall fl.F × Bool) → Type 0
    Left looping log = Unit
    Left closed log =
        (drained closing : Bool) × (earlier : List (AlsaCall fl.F × Bool)) × (log
          ≡ (close_pcm, closing) ∷ (drain, drained) ∷ earlier)
    Left abandoned log =
        GaveUp fl client lib spsc alsa resample_fuel output_channels alsa_buffer_frames beyond log

    -- The flag is found cleared at some test.
    abbrev pub Stopped : List (ℕ × Bool) → Type 0
    Stopped [] = ⊥
    Stopped ((steps, running) ∷ later) = (running ≡ false) ⊎ Stopped later

    pub record Played (schedule : List (ℕ × Bool)) (x : Stage × Thread) : Type 0 where
      pub sound :
          Sound fl client lib spsc alsa resample_fuel output_channels alsa_buffer_frames beyond x.1
      pub left : Left x.0 x.1.driver.log
      pub stops : Stopped schedule → x.0 ≢ looping

    abbrev run_rounds : List (ℕ × Bool) → Thread → Option (Stage × Thread)
    run_rounds = rounds fl client lib spsc alsa resample_fuel output_channels alsa_buffer_frames

    abbrev mixed : ℕ → Thread → Thread
    mixed steps s = record s { system = mixed_by fl client lib spsc resample_fuel steps s.system }

    mixed-Sound :
        (steps : ℕ) (s : Thread)
        → Sound fl client lib spsc alsa resample_fuel output_channels alsa_buffer_frames beyond s
        → Sound fl client lib spsc alsa resample_fuel output_channels alsa_buffer_frames beyond
            (mixed steps s)
    mixed-Sound steps s v =
        let (still, same) =
          mixed_by-Steady fl client lib spsc resample_fuel steps s.system v.steady in
        record { steady = still; channels = same ∙ v.channels; outside = v.outside; fits = v.fits }

    abbrev Plays : List (ℕ × Bool) → Thread → Type 0
    Plays schedule s = (x : Stage × Thread) × (run_rounds schedule s ≡ some x) × Played schedule x

    round-Plays :
        (steps : ℕ) (later : List (ℕ × Bool)) (s t : Thread) (ends : Round)
        → run_round fl client lib spsc alsa resample_fuel output_channels alsa_buffer_frames beyond
            (mixed steps s)
          ≡ some (ends, t)
        → Ended fl client lib spsc alsa resample_fuel output_channels alsa_buffer_frames beyond
            (ends, t)
        → Plays later t
        → Plays ((steps, true) ∷ later) s
    unfolding rounds
    round-Plays steps later s t cleanup e (v, gave) rest =
        rw (rounds, e)
          (_, refl, record { sound = v; left = gave refl; stops = λ yes same. absurd (cc same) })
    round-Plays steps later s t continue e (v, gave) (x, e', played) =
        rw (rounds, e)
          (
            x,
            e',
            record {
              sound = played.sound;
              left = played.left;
              stops = λ yes. elim yes [
                | inl now ↦ absurd (cc now)
                | inr further ↦ played.stops further
              ];
            },
          )

    rounds-Plays :
        (schedule : List (ℕ × Bool)) (s : Thread)
        → Sound fl client lib spsc alsa resample_fuel output_channels alsa_buffer_frames beyond s
        → Plays schedule s
    unfolding rounds finish
    rounds-Plays [] s v = (_, refl, record { sound = v; left = tt; stops = λ no. absurd no })
    rounds-Plays ((steps, false) ∷ later) s v =
        let v' = mixed-Sound steps s v in
        (
          _,
          refl,
          record {
            sound =
                with_driver fl client lib spsc alsa resample_fuel output_channels alsa_buffer_frames
                  beyond (mixed steps s) _ v' (omega arith, (omega arith, v.fits));
            left = (_, _, _, refl);
            stops = λ yes e. absurd (cc e);
          },
        )
    rounds-Plays ((steps, true) ∷ later) s v =
        let (x, e, ended) =
          round-Sound fl client lib spsc alsa resample_fuel output_channels alsa_buffer_frames
            beyond (mixed steps s) (mixed-Sound steps s v) in
        round-Plays steps later s x.1 x.0 e ended (rounds-Plays later x.1 ended.0)

  -- For an OutputWorkerThread whose blocks have frames, and a workspace for its channels, started in
  -- any state that it can reach between two calls: whatever libasound answers and whatever steps the
  -- mixing thread takes between the rounds, the I/O thread never gets stuck in a call. It writes
  -- nothing behind the workspace and hands no more frames to the device at once than its buffer has.
  -- It leaves the loop at the latest when it finds the flag cleared; if it has left, its last calls
  -- drained and closed the device, or it gave up because its last call could not recover an error.
  pub worker_thread_function_lem :
      (world : client.World) (frames ic isr oc osr mixahead : ℕ)
      (w : OutputWorkerThread fl client lib spsc) (s : State)
      (output_channels alsa_buffer_frames : ℕ) (schedule : List (ℕ × Bool)) (beyond : Buffer fl)
      (driver : Driver fl.F alsa)
      → Worker.create fl client lib spsc world frames ic isr oc osr mixahead ≡ some w
      → Reach fl client lib spsc resample_fuel (start fl client lib spsc resample_fuel w) s
      → 0 < w.destination_frames
      → s.io_at ≡ idle
      → s.object.destination_channels ≡ output_channels
      → Fits alsa_buffer_frames driver.log
      → (x : Stage × Thread) × (worker_thread_function fl client lib spsc alsa resample_fuel
            output_channels alsa_buffer_frames schedule beyond s driver
          ≡ some x)
        × Played output_channels alsa_buffer_frames beyond schedule x
  unfolding worker_thread_function
  worker_thread_function_lem world frames ic isr oc osr mixahead w s output_channels
        alsa_buffer_frames schedule beyond driver e r pos now same fits =
      rounds-Plays output_channels alsa_buffer_frames beyond schedule _ (record {
        steady =
            Reach-Steady fl client lib spsc resample_fuel world frames ic isr oc osr mixahead w s e
              r pos now;
        channels = same;
        outside = λ k far. ground arith;
        fits = fits;
      })
