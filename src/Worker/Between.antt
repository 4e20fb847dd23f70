-- ===== src/Worker/Between.antt =====
-- OutputWorkerThread between two calls of `write`, in every interleaving of its two threads.
use audio_io.Prelude.{ℕ, ◌+◌, ◌<◌, ◌≡◌, arith, some, min, Option-cases, inl, inr}
use audio_io.Sample.{Float, Buffer}
use audio_io.Converter.{Client, ResamplerLib}
use audio_io.Worker.Queue.{AudioCommand, SpscQueue}
use audio_io.Worker.{OutputWorkerThread, create, write}
use audio_io.Worker.System.{
  WorkerAt, mixing, IoAt, idle, Request, acquire, proceed, copy, System, start, mix, count_mixed,
  worker_pop, worker_do, worker_step, io_copy, io_idle, io_return, io_signal, io_join, io_do,
  io_step, worker, io, Reach, here, next,
}
use audio_io.Worker.Invariant.{Inv}
use audio_io.Worker.Steps.{Reach-Inv, mix_keeps}
use audio_io.Worker.Progress.{create-Inv}
use audio_io.Worker.Stream.{InOrder, Reach-InOrder, pop_items}
use audio_io.Worker.WriteHelper.{Ready, available, used_of}
use audio_io.Worker.Write.{write_lem}
use audio_io.Worker.Safety.{create-InOrder}

module _ (fl : Float) (client : Client fl) (lib : ResamplerLib fl)
    (spsc : SpscQueue (AudioCommand fl)) (resample_fuel : ℕ) where
  open spsc use {Queue as Commands, push, pop, items, capacity}

  abbrev State : Type 0
  State = System fl client lib spsc resample_fuel

  -- The current buffer is given back as soon as it is used up.
  abbrev pub Short : State → Type 0
  Short s = used_of fl client lib spsc s.object.current_buffer < s.object.destination_frames

  worker_do-Short :
      (at : WorkerAt fl) (s t : State)
      → worker_do fl client lib spsc resample_fuel at s ≡ some t
      → Short s
      → Short t
  unfolding worker_do worker_pop count_mixed
  worker_do-Short (mixing cmd) s t e v =
      elim (Option-cases (mix fl client lib spsc resample_fuel s.object cmd)) [
        | inl fails ↦ ground arith
        | inr (x, done) ↦
            ground (arith, mix_keeps fl client lib spsc resample_fuel s.object x.1 cmd x.0 done)
      ]
  worker_do-Short at s t e v = ground arith

  io_do-Short :
      (at : IoAt fl) (request : Request) (s t : State)
      → io_do fl client lib spsc resample_fuel at request s ≡ some t
      → InOrder fl client lib spsc resample_fuel s
      → Short s
      → Short t
  unfolding io_do io_idle io_copy io_return io_signal io_join
  io_do-Short idle proceed s t e o v = absurd (cc e)
  io_do-Short idle acquire s t e o v = elim (Option-cases (pop s.object.prepared_buffers).0) [
    | inl empty ↦ ground arith
    | inr (cmd, got) ↦
        ground (arith, pop_items fl client lib spsc resample_fuel s.object.prepared_buffers cmd got)
  ]
  io_do-Short idle (copy n) s t e o v = elim (Option-cases s.object.current_buffer) [
    | inl missing ↦ ground arith
    | inr (cmd, present) ↦ ground arith
  ]
  io_do-Short at request s t e o v = ground arith

  pub Reach-Short :
      {s t : State}
      → Reach fl client lib spsc resample_fuel s t
      → InOrder fl client lib spsc resample_fuel s
      → Short s
      → Short t
  unfolding worker_step io_step
  Reach-Short here o v = v
  Reach-Short (next {t} {u} r (worker e)) o v =
      worker_do-Short t.worker_at t u e (Reach-Short r o v)
  Reach-Short (next {t} {u} r (io request e)) o v =
      io_do-Short t.io_at request t u e (Reach-InOrder fl client lib spsc resample_fuel r o)
        (Reach-Short r o v)

  idle-Ready :
      (s : State)
      → s.io_at ≡ idle
      → Inv fl client lib spsc resample_fuel s
      → InOrder fl client lib spsc resample_fuel s
      → Short s
      → Ready fl client lib spsc s.object
  idle-Ready s now v o short = record { short = short; unused = o.unused; room = ground arith }

  pub create-Short :
      (world : client.World) (frames ic isr oc osr mixahead : ℕ)
      (w : OutputWorkerThread fl client lib spsc)
      → create fl client lib spsc world frames ic isr oc osr mixahead ≡ some w
      → 0 < w.destination_frames
      → Short (start fl client lib spsc resample_fuel w)
  unfolding create start
  create-Short world frames ic isr oc osr mixahead w e pos = ground arith

  -- In a state that can be reached, between two calls, the object is ready for the next one.
  pub Reach-Ready :
      (world : client.World) (frames ic isr oc osr mixahead : ℕ)
      (w : OutputWorkerThread fl client lib spsc) (s : State)
      → create fl client lib spsc world frames ic isr oc osr mixahead ≡ some w
      → Reach fl client lib spsc resample_fuel (start fl client lib spsc resample_fuel w) s
      → 0 < w.destination_frames
      → s.io_at ≡ idle
      → Ready fl client lib spsc s.object
  Reach-Ready world frames ic isr oc osr mixahead w s e r pos now =
      let v = create-Inv fl client lib spsc resample_fuel world frames ic isr oc osr mixahead w e in
      let o =
        create-InOrder fl client lib spsc resample_fuel world frames ic isr oc osr mixahead w e in
      idle-Ready s now (Reach-Inv fl client lib spsc resample_fuel r v.0)
        (Reach-InOrder fl client lib spsc resample_fuel r o)
        (Reach-Short r o (create-Short world frames ic isr oc osr mixahead w e pos))

  -- In every state that an OutputWorkerThread whose blocks have frames can reach, between two calls
  -- of the I/O thread: a call of `write` during which the worker thread stands still returns. It
  -- gives as many frames as are asked for or, if they are fewer, all that are mixed and not copied
  -- yet, takes those away, and leaves the object ready for the next call.
  pub write_returns :
      (world : client.World) (frames ic isr oc osr mixahead : ℕ)
      (w : OutputWorkerThread fl client lib spsc) (s : State) (count base : ℕ)
      (destination : Buffer fl)
      → create fl client lib spsc world frames ic isr oc osr mixahead ≡ some w
      → Reach fl client lib spsc resample_fuel (start fl client lib spsc resample_fuel w) s
      → 0 < w.destination_frames
      → s.io_at ≡ idle
      → (x : ℕ × OutputWorkerThread fl client lib spsc × Buffer fl) × (write fl client lib spsc
            count base s.object destination
          ≡ some x)
        × (x.0 ≡ min count (available fl client lib spsc s.object))
        × Ready fl client lib spsc x.1
        × (x.0 + available fl client lib spsc x.1 ≡ available fl client lib spsc s.object)
  write_returns world frames ic isr oc osr mixahead w s count base destination e r pos now =
      write_lem fl client lib spsc count base s.object destination
        (Reach-Ready world frames ic isr oc osr mixahead w s e r pos now)
