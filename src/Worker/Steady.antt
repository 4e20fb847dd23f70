-- ===== src/Worker/Steady.antt =====
-- OutputWorkerThread between two calls of `write`, with the worker thread anywhere: what its steps and
-- `write` both keep.
use audio_io.Prelude.{
  ℕ, ◌+◌, ◌≤◌, ◌<◌, ◌≡◌, arith, ◌*◌, ◌-◌, ◌∙◌, zero, suc, some, Option-cases, inl, inr, refl, ap,
}
use audio_io.Sample.{Float, Buffer}
use audio_io.Converter.{Client, ResamplerLib}
use audio_io.Worker.Queue.{AudioCommand, SpscQueue, Unused}
use audio_io.Worker.{OutputWorkerThread, create, write}
use audio_io.Worker.System.{
  WorkerAt, waiting, popping, mixing, pushing, exited, idle, System, start, mix, count_mixed,
  worker_pop, worker_do, mixed_by, worker_step, Reach,
}
use audio_io.Worker.Invariant.{worker_held, io_stopped, push_counts, pop_counts}
use audio_io.Worker.Steps.{Reach-Inv, mix_keeps}
use audio_io.Worker.Progress.{create-Inv}
use audio_io.Worker.Stream.{UnusedAt, Unused-append, Reach-InOrder, push_items}
use audio_io.Worker.Safety.{create-InOrder}
use audio_io.Worker.Between.{Reach-Short, create-Short}
use audio_io.Worker.WriteHelper.{Ready, used_of}
use audio_io.Worker.Write.{write_lem}
use audio_io.Worker.Bounds.{buffers, Kept, write-Kept}

module _ (fl : Float) (client : Client fl) (lib : ResamplerLib fl)
    (spsc : SpscQueue (AudioCommand fl)) (resample_fuel : ℕ) where
  open spsc use {Queue as Commands, push, pop, items, capacity}

  abbrev State : Type 0
  State = System fl client lib spsc resample_fuel

  abbrev Object : Type 0
  Object = OutputWorkerThread fl client lib spsc

  -- Ready, with the buffer that the worker thread has in hand.
  pub record Steady (s : State) : Type 0 where
    pub short : used_of fl client lib spsc s.object.current_buffer < s.object.destination_frames
    pub unused : Unused (items s.object.prepared_buffers)
    pub unused_at : UnusedAt fl client lib spsc resample_fuel s.worker_at
    pub room :
        buffers fl client lib spsc s.object + worker_held s.worker_at
        ≤ capacity s.object.returned_buffers

  Steady-Ready : (s : State) → Steady s → Ready fl client lib spsc s.object
  Steady-Ready s v = record { short = v.short; unused = v.unused; room = omega (arith, v.room) }

  write-Steady :
      (s : State) (base total : ℕ) (destination : Buffer fl) (x : ℕ × Object × Buffer fl)
      → Steady s
      → Ready fl client lib spsc x.1
      → Kept fl client lib spsc base total s.object destination x
      → Steady (record s { object = x.1 })
  write-Steady s base total destination x v ready k = record {
    short = ready.short;
    unused = ready.unused;
    unused_at = v.unused_at;
    room = omega (arith, v.room, k.held, k.room);
  }

  worker_do-Steady :
      (at : WorkerAt fl) (s t : State)
      → s.worker_at ≡ at
      → worker_do fl client lib spsc resample_fuel at s ≡ some t
      → Steady s
      → Steady t × (t.object.destination_channels ≡ s.object.destination_channels)
  unfolding worker_do worker_pop count_mixed
  worker_do-Steady waiting s t now e v = ground arith
  worker_do-Steady popping s t now e v = elim (Option-cases (pop s.object.returned_buffers).0) [
    | inl empty ↦ ground arith
    | inr (cmd, got) ↦
        ground
          (arith, pop_counts fl client lib spsc resample_fuel s.object.returned_buffers cmd got)
  ]
  worker_do-Steady (mixing cmd) s t now e v =
      elim (Option-cases (mix fl client lib spsc resample_fuel s.object cmd)) [
        | inl fails ↦ ground arith
        | inr (x, done) ↦
            ground (arith, mix_keeps fl client lib spsc resample_fuel s.object x.1 cmd x.0 done)
      ]
  worker_do-Steady (pushing cmd) s t now e v = ground (
    arith,
    push_counts fl client lib spsc resample_fuel cmd s.object.prepared_buffers,
    push_items fl client lib spsc resample_fuel cmd s.object.prepared_buffers,
    Unused-append fl client lib spsc resample_fuel (items s.object.prepared_buffers) cmd,
  )
  worker_do-Steady exited s t now e v = absurd (cc e)

  worker_step-Steady :
      (s t : State)
      → worker_step fl client lib spsc resample_fuel s ≡ some t
      → Steady s
      → Steady t × (t.object.destination_channels ≡ s.object.destination_channels)
  unfolding worker_step
  worker_step-Steady s t e v = worker_do-Steady s.worker_at s t refl e v

  -- Between two calls of the I/O thread every state that can be reached is steady.
  pub Reach-Steady :
      (world : client.World) (frames ic isr oc osr mixahead : ℕ) (w : Object) (s : State)
      → create fl client lib spsc world frames ic isr oc osr mixahead ≡ some w
      → Reach fl client lib spsc resample_fuel (start fl client lib spsc resample_fuel w) s
      → 0 < w.destination_frames
      → s.io_at ≡ idle
      → Steady s
  Reach-Steady world frames ic isr oc osr mixahead w s e r pos now =
      let v =
        Reach-Inv fl client lib spsc resample_fuel r
          (create-Inv fl client lib spsc resample_fuel world frames ic isr oc osr mixahead w e).0 in
      let o =
        create-InOrder fl client lib spsc resample_fuel world frames ic isr oc osr mixahead w e in
      let ordered = Reach-InOrder fl client lib spsc resample_fuel r o in
      record {
        short = Reach-Short fl client lib spsc resample_fuel r o (
            create-Short fl client lib spsc resample_fuel world frames ic isr oc osr mixahead w e
              pos);
        unused = ordered.unused;
        unused_at = ordered.unused_at;
        room = omega (arith, v.kept, v.one_stop, v.returned_room, ap io_stopped now);
      }

  pub mixed_by-Steady :
      (n : ℕ) (s : State)
      → Steady s
      → Steady (mixed_by fl client lib spsc resample_fuel n s)
        × ((mixed_by fl client lib spsc resample_fuel n s).object.destination_channels
            ≡ s.object.destination_channels)
  unfolding mixed_by
  mixed_by-Steady zero s v = (v, refl)
  mixed_by-Steady (suc n) s v =
      elim (Option-cases (worker_step fl client lib spsc resample_fuel s)) [
        | inl waits ↦ rw (mixed_by, waits) (v, refl)
        | inr (t, moved) ↦
            let (still, same) = worker_step-Steady s t moved v in
            let (later, same') = mixed_by-Steady n t still in
            rw (mixed_by, moved) (later, same' ∙ same)
      ]

  -- A sample behind `limit` frames is behind fewer frames.
  pub behind : (n limit ch j : ℕ) → n ≤ limit → limit * ch ≤ j → n * ch ≤ j
  behind n limit ch j le far = grind arith

  in_frames : (n ch j : ℕ) → n * ch ≤ j → 0 + ch * (n - 0) ≤ j
  in_frames n ch j far = grind arith

  -- `write` to the beginning of a workspace with room for `limit` frames.
  pub record Filled (s : State) (workspace : Buffer fl) (count limit : ℕ)
      (x : ℕ × Object × Buffer fl) : Type 0 where
    pub no_more : x.0 ≤ count
    pub steady : Steady (record s { object = x.1 })
    pub channels : x.1.destination_channels ≡ s.object.destination_channels
    pub outside : (k : ℕ) → limit * s.object.destination_channels ≤ k → x.2 k ≡ workspace k

  pub write-Filled :
      (s : State) (workspace : Buffer fl) (count limit : ℕ)
      → Steady s
      → count ≤ limit
      → (x : ℕ × Object × Buffer fl) × (write fl client lib spsc count 0 s.object workspace
          ≡ some x)
        × Filled s workspace count limit x
  write-Filled s workspace count limit v le =
      let (x, e, n, ready, _) =
        write_lem fl client lib spsc count 0 s.object workspace (Steady-Ready s v) in
      let k = write-Kept fl client lib spsc count 0 s.object workspace x e in
      let fits : x.0 ≤ count = omega (arith, n) in
      (
        x,
        e,
        record {
          no_more = fits;
          steady = write-Steady s 0 0 workspace x v ready k;
          channels = k.channels;
          outside = λ j far. k.outside j (
              inr (
                in_frames x.0 s.object.destination_channels j
                  (behind x.0 limit s.object.destination_channels j (omega arith) far)));
        },
      )
