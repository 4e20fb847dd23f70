-- ===== src/Worker/Steps.antt =====
-- Every step of either thread keeps the counts of Invariant.
use audio_io.Prelude.{ℕ, ◌≡◌, inl, inr, refl, ◌∙◌, arith, some, Option-cases}
use audio_io.Sample.{Float}
use audio_io.Converter.{Client, ResamplerLib}
use audio_io.Worker.Queue.{AudioCommand, SpscQueue}
use audio_io.Worker.{OutputWorkerThread}
use audio_io.Worker.System.{
  WorkerAt, waiting, popping, exited, mixing, pushing, IoAt, idle, signalling, stopping,
  stop_signalling, joining, joined, releasing, Request, acquire, destroy, proceed, copy, System,
  mix, count_mixed, worker_pop, worker_do, worker_step, io_copy, io_idle, io_return, io_signal,
  io_join, io_do, stop_command, io_step, Step, worker, io, Reach, here, next,
}
use audio_io.Worker.Invariant.{Inv, push_counts, pop_counts, pop_nothing}

module _ (fl : Float) (client : Client fl) (lib : ResamplerLib fl)
    (spsc : SpscQueue (AudioCommand fl)) (resample_fuel : ℕ) where
  open spsc use {Queue as Commands, push, pop, items, capacity}

  abbrev State : Type 0
  State = System fl client lib spsc resample_fuel

  abbrev Holds : State → Type 0
  Holds = Inv fl client lib spsc resample_fuel

  abbrev Object : Type 0
  Object = OutputWorkerThread fl client lib spsc

  -- A mixed buffer is fresh, and all but the converter stays as it was.
  pub mix_keeps :
      (w w' : Object) (cmd cmd' : AudioCommand fl)
      → mix fl client lib spsc resample_fuel w cmd ≡ some (cmd', w')
      → (w'.prepared_buffers ≡ w.prepared_buffers)
        × (w'.returned_buffers ≡ w.returned_buffers)
        × (w'.current_buffer ≡ w.current_buffer)
        × (w'.semaphore ≡ w.semaphore)
        × (w'.mixahead ≡ w.mixahead)
        × (w'.destination_channels ≡ w.destination_channels)
        × (w'.destination_frames ≡ w.destination_frames)
        × (cmd'.command_type ≡ cmd.command_type)
        × (cmd'.used ≡ 0)
  unfolding mix
  mix_keeps w w' cmd cmd' e = ground arith

  worker_do-Inv :
      (at : WorkerAt fl) (s t : State)
      → s.worker_at ≡ at
      → worker_do fl client lib spsc resample_fuel at s ≡ some t
      → Holds s
      → Holds t
  unfolding worker_do worker_pop count_mixed
  worker_do-Inv waiting s t now e v = ground arith
  worker_do-Inv popping s t now e v = elim (Option-cases (pop s.object.returned_buffers).0) [
    | inl empty ↦ ground arith
    | inr (cmd, got) ↦
        ground
          (arith, pop_counts fl client lib spsc resample_fuel s.object.returned_buffers cmd got)
  ]
  worker_do-Inv (mixing cmd) s t now e v =
      elim (Option-cases (mix fl client lib spsc resample_fuel s.object cmd)) [
        | inl fails ↦ ground arith
        | inr (x, done) ↦ ground (arith, mix_keeps s.object x.1 cmd x.0 done)
      ]
  worker_do-Inv (pushing cmd) s t now e v =
      ground (arith, push_counts fl client lib spsc resample_fuel cmd s.object.prepared_buffers)
  worker_do-Inv exited s t now e v = absurd (cc e)

  io_do-Inv :
      (at : IoAt fl) (request : Request) (s t : State)
      → s.io_at ≡ at
      → io_do fl client lib spsc resample_fuel at request s ≡ some t
      → Holds s
      → Holds t
  unfolding io_do io_idle io_copy io_return io_signal io_join
  io_do-Inv idle proceed s t now e v = absurd (cc e)
  io_do-Inv idle destroy s t now e v = ground arith
  io_do-Inv idle acquire s t now e v = elim (Option-cases (pop s.object.prepared_buffers).0) [
    | inl empty ↦
        ground (arith, pop_nothing fl client lib spsc resample_fuel s.object.prepared_buffers empty)
    | inr (cmd, got) ↦
        ground
          (arith, pop_counts fl client lib spsc resample_fuel s.object.prepared_buffers cmd got)
  ]
  io_do-Inv idle (copy n) s t now e v = ground arith
  io_do-Inv (releasing cmd) request s t now e v =
      ground (arith, push_counts fl client lib spsc resample_fuel cmd s.object.returned_buffers)
  io_do-Inv signalling request s t now e v = ground arith
  io_do-Inv stopping request s t now e v = ground (
    arith,
    push_counts fl client lib spsc resample_fuel (stop_command fl client lib spsc resample_fuel)
        s.object.returned_buffers,
  )
  io_do-Inv stop_signalling request s t now e v = ground arith
  io_do-Inv joining request s t now e v = ground arith
  io_do-Inv joined request s t now e v = absurd (cc e)

  -- Every step keeps the counts.
  pub Step-Inv : {s t : State} → Step fl client lib spsc resample_fuel s t → Holds s → Holds t
  unfolding worker_step io_step
  Step-Inv {s} {t} (worker e) v = worker_do-Inv s.worker_at s t refl e v
  Step-Inv {s} {t} (io request e) v = io_do-Inv s.io_at request s t refl e v

  pub Reach-Inv : {s t : State} → Reach fl client lib spsc resample_fuel s t → Holds s → Holds t
  Reach-Inv here v = v
  Reach-Inv (next r st) v = Step-Inv st (Reach-Inv r v)

  worker_do-mixahead :
      (at : WorkerAt fl) (s t : State)
      → worker_do fl client lib spsc resample_fuel at s ≡ some t
      → t.object.mixahead ≡ s.object.mixahead
  unfolding worker_do worker_pop count_mixed
  worker_do-mixahead (mixing cmd) s t e =
      elim (Option-cases (mix fl client lib spsc resample_fuel s.object cmd)) [
        | inl fails ↦ ground arith
        | inr (x, done) ↦ ground (arith, mix_keeps s.object x.1 cmd x.0 done)
      ]
  worker_do-mixahead at s t e = ground arith

  io_do-mixahead :
      (at : IoAt fl) (request : Request) (s t : State)
      → io_do fl client lib spsc resample_fuel at request s ≡ some t
      → t.object.mixahead ≡ s.object.mixahead
  unfolding io_do io_idle io_copy io_return io_signal io_join
  io_do-mixahead idle proceed s t e = absurd (cc e)
  io_do-mixahead idle request s t e = ground arith
  io_do-mixahead at request s t e = ground arith

  pub Reach-mixahead :
      {s t : State}
      → Reach fl client lib spsc resample_fuel s t
      → t.object.mixahead ≡ s.object.mixahead
  unfolding worker_step io_step
  Reach-mixahead here = refl
  Reach-mixahead (next {t} {u} r (worker e)) =
      worker_do-mixahead t.worker_at t u e ∙ Reach-mixahead r
  Reach-mixahead (next {t} {u} r (io request e)) =
      io_do-mixahead t.io_at request t u e ∙ Reach-mixahead r
