-- ===== src/Worker/Progress.antt =====
-- What the counts say of the spin loops of OutputWorkerThread and of its destructor's join.
use audio_io.Prelude.{
  ℕ, zero, suc, ◌≤◌, ◌<◌, ◌≡◌, ◌≢◌, ◌⊎◌, inl, inr, refl, ap, ◌∙◌, arith, true, none, some, length,
  Option-cases,
}
use audio_io.Sample.{Float}
use audio_io.Converter.{Client, ResamplerLib}
use audio_io.Worker.Queue.{AudioCommand, buffer, SpscQueue}
use audio_io.Worker.{OutputWorkerThread, fill_returned, create}
use audio_io.Worker.System.{
  WorkerAt, waiting, popping, exited, mixing, pushing, joining, releasing, System, start, mix,
  worker_pop, worker_do, worker_step,
}
use audio_io.Worker.Invariant.{stops, stops-le-length, Inv, push_counts, pop_nothing}

module _ (fl : Float) (client : Client fl) (lib : ResamplerLib fl)
    (spsc : SpscQueue (AudioCommand fl)) (resample_fuel : ℕ) where
  open spsc use {Queue as Commands, make, push, pop, items, capacity}

  abbrev State : Type 0
  State = System fl client lib spsc resample_fuel

  abbrev Object : Type 0
  Object = OutputWorkerThread fl client lib spsc

  -- The constructor's loop finds room for every buffer.
  fill_returned_lem :
      (n m : ℕ)
      → n ≤ m
      → (q : Commands) × (fill_returned fl client lib spsc n (make m) ≡ some q)
        × (length (items q) ≡ n)
        × (stops (items q) ≡ 0)
        × (capacity q ≡ m)
  unfolding fill_returned
  fill_returned_lem zero m le =
      let (empty, room) = spsc.make_lem m in (make m, refl, ap length empty, ap stops empty, room)
  fill_returned_lem (suc n) m le =
      let (q, e, many, no_stop, room) = fill_returned_lem n m (omega arith) in
      let (done, _, _) = spsc.push_room new q (omega arith) in
      let (more, stops', room') = push_counts fl client lib spsc resample_fuel new q done in
      ((push new q).1, rw (e, done), omega arith, omega arith, room' ∙ room)
    where
      new : AudioCommand fl
      new = record { command_type = buffer; samples = λ _. fl.lit 0; used = 0 }

  pub create-Inv :
      (world : client.World) (frames ic isr oc osr mixahead : ℕ) (w : Object)
      → create fl client lib spsc world frames ic isr oc osr mixahead ≡ some w
      → Inv fl client lib spsc resample_fuel (start fl client lib spsc resample_fuel w)
        × (w.mixahead ≡ mixahead)
  unfolding create start
  create-Inv world frames ic isr oc osr mixahead w e =
      ground (arith, fill_returned_lem mixahead mixahead (omega arith), spsc.make_lem mixahead)

  push_succeeds :
      (cmd : AudioCommand fl) (q : Commands) → length (items q) < capacity q → (push cmd q).0 ≡ true
  push_succeeds cmd q room = (spsc.push_room cmd q room).0

  pop_succeeds :
      (q : Commands) → 0 < length (items q) → (cmd : AudioCommand fl) × ((pop q).0 ≡ some cmd)
  pop_succeeds q some_there = elim (Option-cases (pop q).0) [
    | inl empty ↦
        absurd (omega (arith, ap length (pop_nothing fl client lib spsc resample_fuel q empty).1))
    | inr found ↦ found
  ]

  module _ (s : State) (v : Inv fl client lib spsc resample_fuel s) where
    -- A spin loop that is reached goes through at once: a mixed buffer finds room in
    -- prepared_buffers, a signalled command is in returned_buffers, and a used up buffer finds room
    -- there.
    pub no_spin :
        ((cmd : AudioCommand fl)
          → s.worker_at ≡ pushing cmd
          → (push cmd s.object.prepared_buffers).0 ≡ true)
        × (s.worker_at ≡ popping
            → (cmd : AudioCommand fl) × ((pop s.object.returned_buffers).0 ≡ some cmd))
        × ((cmd : AudioCommand fl)
            → s.io_at ≡ releasing cmd
            → (push cmd s.object.returned_buffers).0 ≡ true)
    no_spin = (
      λ cmd now.
          push_succeeds cmd s.object.prepared_buffers
            (ground (arith, stops-le-length (items s.object.returned_buffers))),
      λ now. pop_succeeds s.object.returned_buffers (ground arith),
      λ cmd now. push_succeeds cmd s.object.returned_buffers (ground arith),
    )

    -- The worker thread cannot go on only at the semaphore with no permit, at its end, or where the
    -- converter does not return.
    pub worker_blocked :
        worker_step fl client lib spsc resample_fuel s ≡ none
        → ((s.worker_at ≡ waiting) × (s.object.semaphore ≡ 0))
          ⊎ (s.worker_at ≡ exited)
          ⊎ ((cmd : AudioCommand fl) × (s.worker_at ≡ mixing cmd)
              × (mix fl client lib spsc resample_fuel s.object cmd ≡ none))
    unfolding worker_step worker_do worker_pop
    worker_blocked stuck = go s.worker_at refl stuck
      where
        go :
            (at : WorkerAt fl)
            → s.worker_at ≡ at
            → worker_do fl client lib spsc resample_fuel at s ≡ none
            → ((s.worker_at ≡ waiting) × (s.object.semaphore ≡ 0))
              ⊎ (s.worker_at ≡ exited)
              ⊎ ((cmd : AudioCommand fl) × (s.worker_at ≡ mixing cmd)
                  × (mix fl client lib spsc resample_fuel s.object cmd ≡ none))
        go waiting now e = inl (now, ground arith)
        go popping now e = let (cmd, got) = no_spin.1 now in absurd (ground (arith, got))
        go (mixing cmd) now e =
            elim (Option-cases (mix fl client lib spsc resample_fuel s.object cmd)) [
              | inl fails ↦ inr (inr (cmd, now, fails))
              | inr (x, done) ↦ absurd (ground arith)
            ]
        go (pushing cmd) now e = absurd (ground (arith, no_spin.0 cmd now))
        go exited now e = inr (inl now)

    -- While the destructor joins, the worker thread is not stopped by the semaphore: it goes on until
    -- it has popped the stop command, or the converter does not return.
    pub joining_moves :
        s.io_at ≡ joining
        → s.worker_at ≢ exited
        → ((cmd : AudioCommand fl) → mix fl client lib spsc resample_fuel s.object cmd ≢ none)
        → (t : State) × (worker_step fl client lib spsc resample_fuel s ≡ some t)
    joining_moves now alive mixes =
        elim (Option-cases (worker_step fl client lib spsc resample_fuel s)) [
          | inl stuck ↦ absurd (elim (worker_blocked stuck) [
            | inl (wait, none_left) ↦
                ground (arith, stops-le-length (items s.object.returned_buffers))
            | inr (inl over) ↦ alive over
            | inr (inr (cmd, at, fails)) ↦ mixes cmd fails
          ])
          | inr moved ↦ moved
        ]
