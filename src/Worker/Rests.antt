-- ===== src/Worker/Rests.antt =====
-- The worker thread of src/audio_io/output_worker_thread.cpp while the I/O thread stands still: what it
-- has in hand and in returned_buffers it mixes, and then it rests.
use audio_io.Prelude.{
  ℕ, zero, suc, ◌+◌, ◌*◌, ◌≤◌, ◌<◌, ◌≡◌, refl, sym, ◌∙◌, subst, arith, none, some, length,
  Option-cases, inl, inr, ◌⊎◌,
}
use audio_io.Sample.{Float}
use audio_io.Converter.{Client, ResamplerLib}
use audio_io.Converter
use audio_io.Converter.Ends.{Productive, Runs, enough}
use audio_io.Converter.Create.{create-Runs}
use audio_io.Worker.Queue.{AudioCommand, SpscQueue}
use audio_io.Worker.{OutputWorkerThread, create}
use audio_io.Worker.System.{
  WorkerAt, waiting, popping, exited, mixing, pushing, IoAt, System, start, mix, worker_pop,
  count_mixed, worker_do, worker_step, mixed_by, io_step, worker, io, Step, Reach, here, next,
}
use audio_io.Worker.Invariant.{Inv, pop_counts}
use audio_io.Worker.Steps.{Step-Inv, Reach-Inv, Reach-mixahead}
use audio_io.Worker.Progress.{create-Inv, worker_blocked}
use audio_io.Worker.InitialMix.{mix_lem}
use audio_io.Worker.Played.{io_do-Still, worker_do-Still}

module _ (fl : Float) (client : Client fl) (lib : ResamplerLib fl)
    (spsc : SpscQueue (AudioCommand fl)) (resample_fuel : ℕ) where
  open spsc use {Queue as Commands, push, pop, items, capacity}

  abbrev State : Type 0
  State = System fl client lib spsc resample_fuel

  pub Reach-mixed_by :
      {s : State} (n : ℕ) (t : State)
      → Reach fl client lib spsc resample_fuel s t
      → Reach fl client lib spsc resample_fuel s (mixed_by fl client lib spsc resample_fuel n t)
  unfolding mixed_by
  Reach-mixed_by zero t r = r
  Reach-mixed_by (suc n) t r =
      elim (Option-cases (worker_step fl client lib spsc resample_fuel t)) [
        | inl stuck ↦ rw (stuck, mixed_by) r
        | inr (u, e) ↦ rw (e, mixed_by) (Reach-mixed_by n u (next r (worker e)))
      ]

  -- The steps that the worker thread may take until it rests, if nothing is
  -- returned any more.
  abbrev ahead : ℕ → WorkerAt fl → ℕ
  ahead queued waiting = 4 * queued + 1
  ahead queued popping = 4 * queued
  ahead queued (mixing cmd) = 4 * queued + 3
  ahead queued (pushing cmd) = 4 * queued + 2
  ahead queued exited = 0

  abbrev pub until_rest : State → ℕ
  until_rest s = ahead (length (items s.object.returned_buffers)) s.worker_at

  module _ (good : Productive lib) (frames : ℕ)
      (fuel : enough fl client lib good frames ≤ resample_fuel) where
    abbrev CanMix : State → Type 0
    CanMix s = Runs fl client lib good frames s.object.converter

    worker_do-CanMix :
        (at : WorkerAt fl) (s t : State)
        → worker_do fl client lib spsc resample_fuel at s ≡ some t
        → CanMix s
        → CanMix t
    unfolding worker_do
    worker_do-CanMix (mixing cmd) s t e v =
        let (x, done, runs, _, _, _, _) =
          mix_lem fl client lib spsc resample_fuel good frames 0 fuel s cmd v in
        ground arith
    worker_do-CanMix at s t e v =
        subst (Runs fl client lib good frames)
          (sym
            (worker_do-Still fl client lib spsc resample_fuel at s t (λ cmd q. cc q) e).converter)
          v

    Step-CanMix : (s t : State) → Step fl client lib spsc resample_fuel s t → CanMix s → CanMix t
    unfolding worker_step io_step
    Step-CanMix s t (worker e) v = worker_do-CanMix s.worker_at s t e v
    Step-CanMix s t (io request e) v =
        subst (Runs fl client lib good frames)
          (sym (io_do-Still fl client lib spsc resample_fuel s.io_at request s t e).converter) v

    Reach-CanMix : {s t : State} → Reach fl client lib spsc resample_fuel s t → CanMix s → CanMix t
    Reach-CanMix here v = v
    Reach-CanMix (next {t} {u} r step) v = Step-CanMix t u step (Reach-CanMix r v)

    -- The I/O thread stands at `at`, and the converter can be asked for blocks.
    pub record Working (at : IoAt fl) (s : State) : Type 0 where
      pub counts : Inv fl client lib spsc resample_fuel s
      pub now : s.io_at ≡ at
      pub can_mix : CanMix s

    -- Each step brings the worker thread nearer to the stop command.
    nearer :
        (at : WorkerAt fl) (s t : State)
        → s.worker_at ≡ at
        → worker_do fl client lib spsc resample_fuel at s ≡ some t
        → (t.io_at ≡ s.io_at) × (until_rest t < ahead (length (items s.object.returned_buffers)) at)
    unfolding worker_do worker_pop count_mixed mix
    nearer popping s t now e = elim (Option-cases (pop s.object.returned_buffers).0) [
      | inl empty ↦ ground arith
      | inr (cmd, got) ↦
          ground
            (arith, pop_counts fl client lib spsc resample_fuel s.object.returned_buffers cmd got)
    ]
    nearer at s t now e = ground arith

    -- The worker thread rests only at the semaphore with no permit, and at its end.
    pub rest_cases :
        (at : IoAt fl) (s : State)
        → Working at s
        → worker_step fl client lib spsc resample_fuel s ≡ none
        → ((s.worker_at ≡ waiting) × (s.object.semaphore ≡ 0)) ⊎ (s.worker_at ≡ exited)
    rest_cases at s j stuck =
        elim (worker_blocked fl client lib spsc resample_fuel s j.counts stuck) [
          | inl none_left ↦ inl none_left
          | inr (inl over) ↦ inr over
          | inr (inr (cmd, mixes, fails)) ↦ absurd (
              cc (
                fails,
                (mix_lem fl client lib spsc resample_fuel good frames 0 fuel s cmd j.can_mix).1,
              ))
        ]

    -- After enough steps it rests.
    pub worker_rests :
        (at : IoAt fl) (n : ℕ) (s : State)
        → Working at s
        → until_rest s ≤ n
        → Working at (mixed_by fl client lib spsc resample_fuel n s)
          × (worker_step fl client lib spsc resample_fuel
                (mixed_by fl client lib spsc resample_fuel n s)
              ≡ none)
    unfolding mixed_by worker_step
    worker_rests at zero s j le =
        elim (Option-cases (worker_step fl client lib spsc resample_fuel s)) [
          | inl stuck ↦ (j, stuck)
          | inr (t, e) ↦ absurd (omega (arith, (nearer s.worker_at s t refl e).1, le))
        ]
    worker_rests at (suc n) s j le =
        elim (Option-cases (worker_step fl client lib spsc resample_fuel s)) [
          | inl stuck ↦ rw (stuck, mixed_by) (j, stuck)
          | inr (t, e) ↦
              let (io_same, closer) = nearer s.worker_at s t refl e in
              let again : Working at t = record {
                counts = Step-Inv fl client lib spsc resample_fuel (worker e) j.counts;
                now = io_same ∙ j.now;
                can_mix = worker_do-CanMix s.worker_at s t e j.can_mix;
              } in
              rw (e, mixed_by) (worker_rests at n t again (omega (arith, closer, le)))
        ]

  module _ (world : client.World) (frames ic isr oc osr mixahead : ℕ)
      (w : OutputWorkerThread fl client lib spsc)
      (made : create fl client lib spsc world frames ic isr oc osr mixahead ≡ some w) where
    create_converter : Converter.create fl client lib world frames ic isr oc osr ≡ some w.converter
    unfolding create
    create_converter = ground arith

    start_lem :
        ((start fl client lib spsc resample_fuel w).object.converter ≡ w.converter)
        × ((start fl client lib spsc resample_fuel w).object.mixahead ≡ w.mixahead)
    unfolding start
    start_lem = (refl, refl)

    -- In every state that can be reached the worker thread goes on until it rests.
    pub Reach-Working :
        (good : Productive lib) (s : State)
        → Reach fl client lib spsc resample_fuel (start fl client lib spsc resample_fuel w) s
        → (fuel : enough fl client lib good w.converter.output_frames ≤ resample_fuel) → 0 < frames
        → Working good w.converter.output_frames fuel s.io_at s × (s.object.mixahead ≡ mixahead)
    Reach-Working good s reach fuel pos =
        let (v, size) =
          create-Inv fl client lib spsc resample_fuel world frames ic isr oc osr mixahead w made in
        let (converter, many) = start_lem in
        let (runs, _) =
          create-Runs fl client lib good world frames ic isr oc osr w.converter pos
            create_converter in
        (
          record {
            counts = Reach-Inv fl client lib spsc resample_fuel reach v;
            now = refl;
            can_mix =
                Reach-CanMix good w.converter.output_frames fuel reach
                  (subst (Runs fl client lib good w.converter.output_frames) (sym converter) runs);
          },
          Reach-mixahead fl client lib spsc resample_fuel reach ∙ many ∙ size,
        )
