-- ===== src/Worker/System.antt =====
-- The worker thread (OutputWorkerThread::workerThread), the I/O thread (writeHelper and its helpers,
-- and the destructor) and their interleavings. A step of a thread is one access to what both share,
-- with the local work around it; `none` is a thread that cannot go on: it waits at the semaphore,
-- spins, or has ended. The log of frames is what the theorems speak of, and steers nothing.
use audio_io.Prelude.{
  ℕ, zero, suc, ◌+◌, ◌-◌, ◌*◌, ◌≡◌, true, Option, none, some, List, [], ◌∷◌, ◌++◌, not, ◌==◌, leb,
  ltb, ◌&&◌, if◌then◌else◌, ◌>>=◌,
}
use audio_io.Sample.{Float, Buffer}
use audio_io.Converter.{Client, ResamplerLib, Converter}
use audio_io.Converter
use audio_io.Worker.Queue.{AudioCommand, buffer, stop, SpscQueue}
use audio_io.Worker.{OutputWorkerThread, spin_push}

-- One sample for each channel.
abbrev pub Frame : Float → Type 0
Frame fl = ℕ → fl.F

-- `n` frames of interleaved audio, from frame `i` on.
unfoldable pub frames_at : (fl : Float) → Buffer fl → ℕ → ℕ → ℕ → List (Frame fl)
frames_at fl samples channels i zero = []
frames_at fl samples channels i (suc n) =
    (λ c. samples (channels * i + c)) ∷ frames_at fl samples channels (i + 1) n

-- Where the worker thread stands: at the semaphore, at the pop, with a popped buffer, with a mixed
-- one, or at its end.
pub data WorkerAt (fl : Float) : Type 0 where
  waiting popping exited : WorkerAt fl
  mixing pushing : AudioCommand fl → WorkerAt fl

-- Where the I/O thread stands: between calls; in releaseBuffer before the push and before the
-- signal; in the destructor before its push, before its signal, at the join and after it.
pub data IoAt (fl : Float) : Type 0 where
  idle signalling stopping stop_signalling joining joined : IoAt fl
  releasing : AudioCommand fl → IoAt fl

-- What the I/O thread does next where it has a choice.
pub data Request : Type 0 where
  acquire destroy proceed : Request
  copy : ℕ → Request

module _ (fl : Float) (client : Client fl) (lib : ResamplerLib fl)
    (spsc : SpscQueue (AudioCommand fl)) (resample_fuel : ℕ) where
  open spsc use {Queue as Commands, push, pop}

  abbrev pub Object : Type 0
  Object = OutputWorkerThread fl client lib spsc

  abbrev Command : Type 0
  Command = AudioCommand fl

  pub record System : Type 0 where
    pub object : Object
    pub worker_at : WorkerAt fl
    pub io_at : IoAt fl
    pub mixed : ℕ
    pub made : List (Frame fl)
    pub heard : List (Frame fl)

  unfoldable pub start : Object → System
  start w = record {
    object = w;
    worker_at = waiting;
    io_at = idle;
    mixed = 0;
    made = [];
    heard = [];
  }

  -- All frames of a mixed buffer.
  abbrev pub block : Object → Command → List (Frame fl)
  block w cmd = frames_at fl cmd.samples w.destination_channels 0 w.destination_frames

  -- The buffer is cleared, and the converter writes a block into it.
  unfoldable pub mix : Object → Command → Option (Command × Object)
  mix w cmd = do
    (c, samples) ←
        Converter.write fl client lib resample_fuel w.destination_frames 0 w.converter (λ k.
          if ltb k (w.destination_frames * w.destination_channels) then fl.lit 0 else cmd.samples k)
    some (record cmd { samples = samples; used = 0 }, record w { converter = c })

  -- The flag that awaitInitialMix waits for is set by the push of block number `mixahead`.
  unfoldable pub count_mixed : Object → ℕ → Object
  count_mixed w mixed =
      if not w.finished_initial_mix && (mixed + 1 == w.mixahead)
      then record w { finished_initial_mix = true }
      else w

  unfoldable pub worker_pop : System → Option System
  worker_pop s =
      let (got, q) = pop s.object.returned_buffers in
      let w = record (s.object) { returned_buffers = q } in
      elim got [
        | none ↦ none
        | some cmd ↦ elim cmd.command_type [
          | stop ↦ some (record s { object = w; worker_at = exited })
          | buffer ↦ some (record s { object = w; worker_at = mixing cmd })
        ]
      ]

  unfoldable pub worker_do : WorkerAt fl → System → Option System
  worker_do waiting s =
      if s.object.semaphore == 0
      then none
      else some (record s {
        object = record (s.object) { semaphore = s.object.semaphore - 1 };
        worker_at = popping;
      })
  worker_do popping s = worker_pop s
  worker_do (mixing cmd) s = mix s.object cmd >>= (λ x.
      some
        (record s { object = x.1; worker_at = pushing x.0; made = s.made ++ block s.object x.0 }))
  worker_do (pushing cmd) s = spin_push fl client lib spsc cmd s.object.prepared_buffers >>= (λ q.
      some (record s {
        object = count_mixed (record (s.object) { prepared_buffers = q }) s.mixed;
        worker_at = waiting;
        mixed = if s.object.finished_initial_mix then s.mixed else s.mixed + 1;
      }))
  worker_do exited s = none

  unfoldable pub worker_step : System → Option System
  worker_step s = worker_do s.worker_at s

  -- `n` steps of the worker thread; one that waits takes none.
  unfoldable pub mixed_by : ℕ → System → System
  unfolding worker_step
  mixed_by zero s = s
  mixed_by (suc n) s = elim (worker_step s) [ none ↦ s | some t ↦ mixed_by n t ]

  -- std::copy of `n` frames out of the current buffer; a buffer that is used up is to be released.
  unfoldable pub io_copy : ℕ → Command → System → Option System
  io_copy n cmd s =
      let w = s.object in
      let cmd' = record cmd { used = cmd.used + n } in
      let heard' = s.heard ++ frames_at fl cmd.samples w.destination_channels cmd.used n in
      if leb (cmd.used + n) w.destination_frames
      then (if cmd.used + n == w.destination_frames
          then some (record s {
            object = record w { current_buffer = none };
            io_at = releasing cmd';
            heard = heard';
          })
          else some (record s { object = record w { current_buffer = some cmd' }; heard = heard' }))
      else none

  unfoldable pub io_idle : Request → System → Option System
  io_idle proceed s = none
  io_idle destroy s = some (record s { io_at = stopping })
  io_idle acquire s =
      let w = s.object in
      let (got, q) = pop w.prepared_buffers in
      elim w.current_buffer [
        | none ↦
            some (record s { object = record w { prepared_buffers = q; current_buffer = got } })
        | some cmd ↦ none
      ]
  io_idle (copy n) s = elim s.object.current_buffer [ none ↦ none | some cmd ↦ io_copy n cmd s ]

  unfoldable pub io_return : Command → IoAt fl → System → Option System
  io_return cmd next s = spin_push fl client lib spsc cmd s.object.returned_buffers >>= (λ q.
      some (record s { object = record (s.object) { returned_buffers = q }; io_at = next }))

  unfoldable pub io_signal : IoAt fl → System → Option System
  io_signal next s =
      some (record s {
        object = record (s.object) { semaphore = s.object.semaphore + 1 };
        io_at = next;
      })

  -- `AudioCommand cmd; cmd.type = stop;`
  abbrev pub stop_command : Command
  stop_command = record { command_type = stop; samples = λ _. fl.lit 0; used = 0 }

  unfoldable pub io_join : WorkerAt fl → System → Option System
  io_join exited s = some (record s { io_at = joined })
  io_join _ s = none

  unfoldable pub io_do : IoAt fl → Request → System → Option System
  io_do idle request s = io_idle request s
  io_do (releasing cmd) request s = io_return cmd signalling s
  io_do signalling request s = io_signal idle s
  io_do stopping request s = io_return stop_command stop_signalling s
  io_do stop_signalling request s = io_signal joining s
  io_do joining request s = io_join s.worker_at s
  io_do joined request s = none

  unfoldable pub io_step : Request → System → Option System
  io_step request s = io_do s.io_at request s

  -- Either thread takes a step.
  pub data Step (s t : System) : Type 0 where
    worker : worker_step s ≡ some t → Step s t
    io : (request : Request) → io_step request s ≡ some t → Step s t

  pub data Reach (s : System) : System → Type 0 where
    here : Reach s s
    next : {t u : System} → Reach s t → Step t u → Reach s u
