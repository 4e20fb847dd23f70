-- ===== src/Worker/Safety.antt =====
-- OutputWorkerThread from its constructor on, in every interleaving of its two threads.
use audio_io.Prelude.{ℕ, ◌≡◌, refl, arith, Bool, true, false, not, none, some, List, ◌++◌}
use audio_io.Sample.{Float}
use audio_io.Converter.{Client, ResamplerLib}
use audio_io.Worker.Queue.{AudioCommand, SpscQueue}
use audio_io.Worker.{OutputWorkerThread, create}
use audio_io.Worker.System.{
  WorkerAt, popping, exited, pushing, IoAt, joining, releasing, System, start, Reach, mix,
  worker_step, Frame,
}
use audio_io.Worker.Invariant.{Inv}
use audio_io.Worker.Steps.{Reach-Inv}
use audio_io.Worker.Progress.{create-Inv, no_spin, joining_moves}
use audio_io.Worker.Stream.{InOrder, Reach-InOrder}

module _ (fl : Float) (client : Client fl) (lib : ResamplerLib fl)
    (spsc : SpscQueue (AudioCommand fl)) (resample_fuel : ℕ) where
  open spsc use {Queue as Commands, push, pop, items}

  abbrev State : Type 0
  State = System fl client lib spsc resample_fuel

  -- A loop `while(queue.pop(cmd) == false);` or `while(queue.push(cmd) == false);` of the worker
  -- thread that has to go round again.
  worker_spins_at : WorkerAt fl → State → Bool
  worker_spins_at popping s = elim (pop s.object.returned_buffers).0 [
    | none ↦ true
    | some cmd ↦ false
  ]
  worker_spins_at (pushing cmd) s = not (push cmd s.object.prepared_buffers).0
  worker_spins_at _ s = false

  -- The loop of releaseBuffer, likewise.
  io_spins_at : IoAt fl → State → Bool
  io_spins_at (releasing cmd) s = not (push cmd s.object.returned_buffers).0
  io_spins_at _ s = false

  pub spins : State → Bool × Bool
  unfolding worker_spins_at io_spins_at
  spins s = (worker_spins_at s.worker_at s, io_spins_at s.io_at s)

  worker_quiet :
      (at : WorkerAt fl) (s : State)
      → s.worker_at ≡ at
      → Inv fl client lib spsc resample_fuel s
      → worker_spins_at at s ≡ false
  unfolding worker_spins_at
  worker_quiet popping s now v =
      let (cmd, got) = (no_spin fl client lib spsc resample_fuel s v).1 now in
      rw (got, worker_spins_at)
  worker_quiet (pushing cmd) s now v =
      rw ((no_spin fl client lib spsc resample_fuel s v).0 cmd now, worker_spins_at)
  worker_quiet _ s now v = refl

  io_quiet :
      (at : IoAt fl) (s : State)
      → s.io_at ≡ at
      → Inv fl client lib spsc resample_fuel s
      → io_spins_at at s ≡ false
  unfolding io_spins_at
  io_quiet (releasing cmd) s now v =
      rw ((no_spin fl client lib spsc resample_fuel s v).2 cmd now, io_spins_at)
  io_quiet _ s now v = refl

  pub create-InOrder :
      (world : client.World) (frames ic isr oc osr mixahead : ℕ)
      (w : OutputWorkerThread fl client lib spsc)
      → create fl client lib spsc world frames ic isr oc osr mixahead ≡ some w
      → InOrder fl client lib spsc resample_fuel (start fl client lib spsc resample_fuel w)
  unfolding create start
  create-InOrder world frames ic isr oc osr mixahead w e = ground (arith, spsc.make_lem mixahead)

  module _ (world : client.World) (frames ic isr oc osr mixahead : ℕ)
      (w : OutputWorkerThread fl client lib spsc)
      (made : create fl client lib spsc world frames ic isr oc osr mixahead ≡ some w) (s : State)
      (reach : Reach fl client lib spsc resample_fuel
        (start fl client lib spsc resample_fuel w)
        s) where
    invariant : Inv fl client lib spsc resample_fuel s
    invariant =
        Reach-Inv fl client lib spsc resample_fuel reach
          (create-Inv fl client lib spsc resample_fuel world frames ic isr oc osr mixahead w made).0

    -- In every state that an OutputWorkerThread can reach, no spin loop on a queue has to go round
    -- again: neither the worker thread's two nor that of releaseBuffer.
    pub never_spins : spins s ≡ (false, false)
    unfolding spins
    never_spins =
        λ i. (worker_quiet s.worker_at s refl invariant i, io_quiet s.io_at s refl invariant i)

    -- The frames that the I/O thread has been given are the first of those that the worker thread
    -- has mixed, in the same order, whatever the interleaving: none is lost, repeated or swapped.
    pub heard_in_order : (rest : List (Frame fl)) × (s.made ≡ s.heard ++ rest)
    heard_in_order = (
      _,
      (Reach-InOrder fl client lib spsc resample_fuel reach
          (create-InOrder world frames ic isr oc osr mixahead w made)).stream,
    )

    -- Once the destructor joins, the worker thread always has a next step until it has ended, if the
    -- converter's writes return.
    join_waits_for_no_one :
        s.io_at ≡ joining
        → ¬ (s.worker_at ≡ exited)
        → ((cmd : AudioCommand fl) → ¬ (mix fl client lib spsc resample_fuel s.object cmd ≡ none))
        → (t : State) × (worker_step fl client lib spsc resample_fuel s ≡ some t)
    join_waits_for_no_one = joining_moves fl client lib spsc resample_fuel s invariant
