-- ===== src/Alsa/Playback.antt =====
-- AlsaOutputDevice::workerThreadFunction of src/audio_io/alsa/output_device.cpp, the I/O thread, with
-- the thread that mixes: it takes as many steps as a schedule says before each round, and stands
-- still during one. `none` is undefined behaviour or a loop that does not end.
use audio_io.Prelude.{ℕ, ◌*◌, Bool, false, Option, none, some, List, [], ◌∷◌, ltb, if◌then◌else◌}
use audio_io.Prelude.Int.{ℤ, pos_part}
use audio_io.Sample.{Float, Buffer}
use audio_io.Converter.{Client, ResamplerLib}
use audio_io.Worker.Queue.{AudioCommand, SpscQueue}
use audio_io.Worker
use audio_io.Worker.System.{System, mixed_by}
use audio_io.Alsa.Calls.{
  AlsaCall, avail_update, drain, close_pcm, recover, writei, wait, Libasound, negative, Driver,
  request,
}
use audio_io.Alsa.Surround.{reorder}

-- Where a round leaves the thread: in the loop, or at CLEANUP.
pub data Round : Type 0 where
  continue cleanup : Round

-- How far the thread is: in the loop, past snd_pcm_close, or past CLEANUP without it.
pub data Stage : Type 0 where
  looping closed abandoned : Stage

module _ (fl : Float) (client : Client fl) (lib : ResamplerLib fl)
    (spsc : SpscQueue (AudioCommand fl)) (alsa : Libasound fl.F) (resample_fuel : ℕ) where
  -- OutputWorkerThread with its mixing thread, `workspace`, and the handle.
  pub record Playing : Type 0 where
    pub system : System fl client lib spsc resample_fuel
    pub workspace : Buffer fl
    pub driver : Driver fl.F alsa

  -- ALSAREC(err): whether it goes to CLEANUP.
  abbrev pub alsarec : ℤ → Driver fl.F alsa → Bool × Driver fl.F alsa
  alsarec err d =
      let (reply, d') = request fl.F alsa (recover err) d in
      if negative err then (negative reply.result, d') else (false, d)

  -- A call and ALSAREC of its result.
  abbrev pub recovered : AlsaCall fl.F → Driver fl.F alsa → ℤ × Bool × Driver fl.F alsa
  recovered call d =
      let (reply, d') = request fl.F alsa call d in
      let (lost, d'') = alsarec reply.result d' in (reply.result, lost, d'')

  -- The end of a round, with the frames that were written into the workspace.
  unfoldable pub hand_over : ℕ → Playing → Round × Playing
  hand_over written s =
      let (_, lost, d) = recovered (writei s.workspace written) s.driver in
      let (_, lost', d') = recovered (wait 200) d in
      if lost
      then (cleanup, record s { driver = d })
      else if lost'
      then (cleanup, record s { driver = d' })
      else (continue, record s { driver = d' })

  -- The middle of a round: `available` frames, and what they become.
  unfoldable pub fill : ℕ → ℕ → ℕ → Playing → Option (ℕ × Playing)
  fill output_channels alsa_buffer_frames available s =
      let count = if ltb alsa_buffer_frames available then alsa_buffer_frames else available in
      elim (Worker.write fl client lib spsc count 0 s.system.object s.workspace) [
        | none ↦ none
        | some (written, w, workspace) ↦ some (
          written,
          record s {
            system = record (s.system) { object = w };
            workspace = reorder output_channels written workspace;
          },
        )
      ]

  -- The round once `available` is known, and whether ALSAREC gives up on it.
  unfoldable pub go_on : ℕ → ℕ → ℤ → Bool → Playing → Option (Round × Playing)
  unfolding fill hand_over
  go_on output_channels alsa_buffer_frames available lost s =
      if lost
      then some (cleanup, s)
      else if negative available
      then some (continue, s)
      else elim (fill output_channels alsa_buffer_frames (pos_part available) s) [
        | none ↦ none
        | some (written, s') ↦ some (hand_over written s')
      ]

  -- The body of the loop.
  unfoldable pub round : ℕ → ℕ → Playing → Option (Round × Playing)
  unfolding go_on
  round output_channels alsa_buffer_frames s =
      let (available, lost, d) = recovered avail_update s.driver in
      go_on output_channels alsa_buffer_frames available lost (record s { driver = d })

  -- The thread leaves the loop when test_and_set finds the flag cleared.
  unfoldable pub finish : Playing → Playing
  finish s =
      let (_, d) = request fl.F alsa drain s.driver in
      let (_, d') = request fl.F alsa close_pcm d in record s { driver = d' }

  -- The while loop: for each test of the flag, the steps that the mixing thread takes before it, and
  -- what it finds.
  unfoldable pub rounds : ℕ → ℕ → List (ℕ × Bool) → Playing → Option (Stage × Playing)
  unfolding round finish
  rounds output_channels alsa_buffer_frames [] s = some (looping, s)
  rounds output_channels alsa_buffer_frames ((steps, running) ∷ later) s =
      let s' = record s { system = mixed_by fl client lib spsc resample_fuel steps s.system } in
      if running
      then elim (round output_channels alsa_buffer_frames s') [
        | none ↦ none
        | some (cleanup, s'') ↦ some (abandoned, s'')
        | some (continue, s'') ↦ rounds output_channels alsa_buffer_frames later s''
      ]
      else some (closed, finish s')

  -- workerThreadFunction, after awaitInitialMix: the workspace is cleared first. What lies behind it
  -- in memory is `beyond`.
  unfoldable pub worker_thread_function :
      ℕ
      → ℕ
      → List (ℕ × Bool)
      → Buffer fl
      → System fl client lib spsc resample_fuel
      → Driver fl.F alsa
      → Option (Stage × Playing)
  unfolding rounds
  worker_thread_function output_channels alsa_buffer_frames schedule beyond system driver =
      rounds output_channels alsa_buffer_frames schedule (record {
        system = system;
        workspace =
            λ k. if ltb k (alsa_buffer_frames * output_channels) then fl.lit 0 else beyond k;
        driver = driver;
      })
