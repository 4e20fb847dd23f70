-- ===== src/Worker/InitialMix.antt =====
-- The first `mixahead` buffers that the worker thread of src/audio_io/output_worker_thread.cpp mixes,
-- while nothing else uses the object.
use audio_io.Prelude.{
  ℕ, ◌+◌, ◌-◌, ◌*◌, ◌≤◌, ◌<◌, ◌≡◌, ◌⊎◌, inl, inr, refl, ap, ◌∙◌, arith, true, false, none, some,
  length, if◌then◌else◌, Option-cases, ℕ_discrete, ltb, ◌==◌, sym, subst,
}
use audio_io.Sample.{Float}
use audio_io.Converter.{Client, ResamplerLib}
use audio_io.Converter.Ends.{Productive, Runs, enough, write_ends}
use audio_io.Worker.Queue.{AudioCommand, SpscQueue}
use audio_io.Worker.{OutputWorkerThread}
use audio_io.Worker.System.{
  WorkerAt, waiting, popping, exited, mixing, pushing, idle, System, mix, count_mixed, worker_pop,
  worker_do, worker_step,
}
use audio_io.Worker.Invariant.{Inv, stops-le-length, push_counts, pop_counts}
use audio_io.Worker.Progress.{worker_blocked}

module _ (fl : Float) (client : Client fl) (lib : ResamplerLib fl)
    (spsc : SpscQueue (AudioCommand fl)) (resample_fuel : ℕ) where
  open spsc use {Queue as Commands, push, pop, items, capacity}

  abbrev State : Type 0
  State = System fl client lib spsc resample_fuel

  -- The steps that the worker thread takes for a buffer.
  abbrev taken : WorkerAt fl → ℕ
  taken waiting = 0
  taken popping = 1
  taken (mixing cmd) = 2
  taken (pushing cmd) = 3
  taken exited = 0

  taken-le : (at : WorkerAt fl) → taken at ≤ 3
  taken-le waiting = omega arith
  taken-le popping = omega arith
  taken-le (mixing cmd) = omega arith
  taken-le (pushing cmd) = omega arith
  taken-le exited = omega arith

  module _ (good : Productive lib) (frames wanted : ℕ)
      (fuel : enough fl client lib good frames ≤ resample_fuel) where
    -- The object is not used yet, and the worker thread has `mixed` buffers ready.
    pub record Unused (s : State) : Type 0 where
      pub counts : Inv fl client lib spsc resample_fuel s
      pub quiet : s.io_at ≡ idle
      pub size : s.object.mixahead ≡ wanted
      pub unopened : s.object.current_buffer ≡ none
      pub runs : Runs fl client lib good frames s.object.converter

    pub record Pending (s : State) : Type 0 where
      pub unused : Unused s
      pub unset : s.object.finished_initial_mix ≡ false
      pub missing : s.mixed < s.object.mixahead
      pub ready : length (items s.object.prepared_buffers) ≡ s.mixed

    -- All buffers are ready, and the flag is set.
    pub record Complete (s : State) : Type 0 where
      pub counts : Inv fl client lib spsc resample_fuel s
      pub quiet : s.io_at ≡ idle
      pub size : s.object.mixahead ≡ wanted
      pub set : s.object.finished_initial_mix ≡ true
      pub ready : length (items s.object.prepared_buffers) ≡ wanted
      pub at : s.worker_at ≡ waiting

    abbrev pub steps_left : State → ℕ
    steps_left s = 4 * (s.object.mixahead - s.mixed) - taken s.worker_at

    -- What the worker thread leaves alone on its way to the next push.
    record Onward (s t : State) : Type 0 where
      io : t.io_at ≡ s.io_at
      current : t.object.current_buffer ≡ s.object.current_buffer
      prepared : t.object.prepared_buffers ≡ s.object.prepared_buffers
      set : t.object.finished_initial_mix ≡ s.object.finished_initial_mix
      mixahead : t.object.mixahead ≡ s.object.mixahead
      mixed : t.mixed ≡ s.mixed
      nearer : taken t.worker_at ≡ taken s.worker_at + 1
      runs : Runs fl client lib good frames t.object.converter

    -- A block can be mixed, and the converter can be asked for the next one then.
    pub mix_lem :
        (s : State) (cmd : AudioCommand fl)
        → Runs fl client lib good frames s.object.converter
        → (x : AudioCommand fl × OutputWorkerThread fl client lib spsc) × (mix fl client lib spsc
              resample_fuel s.object cmd
            ≡ some x)
          × Runs fl client lib good frames x.1.converter
          × (x.1.prepared_buffers ≡ s.object.prepared_buffers)
          × (x.1.current_buffer ≡ s.object.current_buffer)
          × (x.1.finished_initial_mix ≡ s.object.finished_initial_mix)
          × (x.1.mixahead ≡ s.object.mixahead)
    unfolding mix
    mix_lem s cmd can =
        let silence = λ (k : ℕ).
          if ltb k (s.object.destination_frames * s.object.destination_channels)
          then fl.lit 0
          else cmd.samples k in
        let (x, e, runs) =
          write_ends fl client lib good resample_fuel frames fuel s.object.destination_frames 0
            s.object.converter silence can in
        (
          (record cmd { samples = x.1; used = 0 }, record (s.object) { converter = x.0 }),
          rw e refl,
          runs,
          refl,
          refl,
          refl,
          refl,
        )

    waiting-Onward :
        (s t : State)
        → s.worker_at ≡ waiting
        → worker_do fl client lib spsc resample_fuel waiting s ≡ some t
        → Unused s
        → Onward s t
    unfolding worker_do
    waiting-Onward s t now e u = let runs = u.runs in ground arith

    popping-Onward :
        (s t : State)
        → s.worker_at ≡ popping
        → worker_do fl client lib spsc resample_fuel popping s ≡ some t
        → Unused s
        → Onward s t
    unfolding worker_do worker_pop
    popping-Onward s t now e u = elim (Option-cases (pop s.object.returned_buffers).0) [
      | inl empty ↦ ground arith
      | inr (cmd, got) ↦
          let runs = u.runs in
          ground (
            arith,
            pop_counts fl client lib spsc resample_fuel s.object.returned_buffers cmd got,
            u.counts.one_stop,
            u.quiet,
          )
    ]

    mixing-Onward :
        (cmd : AudioCommand fl) (s t : State)
        → s.worker_at ≡ mixing cmd
        → worker_do fl client lib spsc resample_fuel (mixing cmd) s ≡ some t
        → Unused s
        → Onward s t
    unfolding worker_do
    mixing-Onward cmd s t now e u =
        let (x, done, runs, prepared, current, set, mixahead) = mix_lem s cmd u.runs in ground arith

    Onward-Pending :
        (s t : State)
        → Onward s t
        → Inv fl client lib spsc resample_fuel t
        → Pending s
        → Pending t × (steps_left t + 1 ≡ steps_left s)
    Onward-Pending s t on counts p = (
      record {
        unused = record {
          counts = counts;
          quiet = on.io ∙ p.unused.quiet;
          size = on.mixahead ∙ p.unused.size;
          unopened = on.current ∙ p.unused.unopened;
          runs = on.runs;
        };
        unset = on.set ∙ p.unset;
        missing = omega (arith, p.missing, on.mixed, on.mixahead);
        ready = ap (λ q. length (items q)) on.prepared ∙ p.ready ∙ omega (arith, on.mixed);
      },
      omega (arith, p.missing, on.mixed, on.mixahead, on.nearer, taken-le t.worker_at),
    )

    pushing_lem :
        (cmd : AudioCommand fl) (s t : State)
        → worker_do fl client lib spsc resample_fuel (pushing cmd) s ≡ some t
        → s.object.finished_initial_mix ≡ false
        → (t.io_at ≡ s.io_at)
          × (t.worker_at ≡ waiting)
          × (t.object.current_buffer ≡ s.object.current_buffer)
          × (t.object.converter ≡ s.object.converter)
          × (t.object.mixahead ≡ s.object.mixahead)
          × (t.mixed ≡ s.mixed + 1)
          × (t.object.finished_initial_mix ≡ (s.mixed + 1 == s.object.mixahead))
          × (length (items t.object.prepared_buffers)
              ≡ length (items s.object.prepared_buffers) + 1)
    unfolding worker_do count_mixed
    pushing_lem cmd s t e unset =
        ground (arith, push_counts fl client lib spsc resample_fuel cmd s.object.prepared_buffers)

    pushing_done :
        (cmd : AudioCommand fl) (s t : State)
        → s.worker_at ≡ pushing cmd
        → worker_do fl client lib spsc resample_fuel (pushing cmd) s ≡ some t
        → Inv fl client lib spsc resample_fuel t
        → Pending s
        → (Pending t × (steps_left t + 1 ≡ steps_left s)) ⊎ Complete t
    pushing_done cmd s t now e counts p =
        let (io, at, current, converter, mixahead, mixed, set, more) =
          pushing_lem cmd s t e p.unset in
        elim (ℕ_discrete (s.mixed + 1) s.object.mixahead) [
          | yes last ↦ inr (record {
            counts = counts;
            quiet = io ∙ p.unused.quiet;
            size = mixahead ∙ p.unused.size;
            set = set ∙ ground arith;
            ready = omega (arith, more, p.ready, last, p.unused.size);
            at = at;
          })
          | no not_last ↦ inl (
            record {
              unused = record {
                counts = counts;
                quiet = io ∙ p.unused.quiet;
                size = mixahead ∙ p.unused.size;
                unopened = current ∙ p.unused.unopened;
                runs = subst (Runs fl client lib good frames) (sym converter) p.unused.runs;
              };
              unset = set ∙ ground arith;
              missing = omega (arith, p.missing, mixed, mixahead, not_last);
              ready = omega (arith, more, p.ready, mixed);
            },
            omega (arith, p.missing, mixed, mixahead, not_last, ap taken at, ap taken now),
          )
        ]

    pub steps_left_pos : (s : State) → Pending s → 0 < steps_left s
    steps_left_pos s p = omega (arith, p.missing, taken-le s.worker_at)

    -- A worker thread that is in the first mix has a next step.
    pub first_mix_moves :
        (s : State)
        → Pending s
        → (t : State) × (worker_step fl client lib spsc resample_fuel s ≡ some t)
    first_mix_moves s p =
        let v = p.unused.counts in
        elim (Option-cases (worker_step fl client lib spsc resample_fuel s)) [
          | inl stuck ↦ absurd (elim (worker_blocked fl client lib spsc resample_fuel s v stuck) [
            | inl (at, no_permit) ↦ ground (
              arith,
              v.kept,
              v.permits,
              v.one_stop,
              p.unused.quiet,
              p.unused.unopened,
              p.ready,
              p.missing,
              stops-le-length (items s.object.returned_buffers),
            )
            | inr (inl over) ↦ ground (arith, v.one_stop, p.unused.quiet)
            | inr (inr (cmd, at, fails)) ↦ cc (fails, (mix_lem s cmd p.unused.runs).1)
          ])
          | inr moved ↦ moved
        ]

    pub first_mix_step :
        (at : WorkerAt fl) (s t : State)
        → s.worker_at ≡ at
        → worker_do fl client lib spsc resample_fuel at s ≡ some t
        → Inv fl client lib spsc resample_fuel t
        → Pending s
        → (Pending t × (steps_left t + 1 ≡ steps_left s)) ⊎ Complete t
    unfolding worker_do
    first_mix_step waiting s t now e counts p =
        let on = waiting-Onward s t now e p.unused in inl (Onward-Pending s t on counts p)
    first_mix_step popping s t now e counts p =
        let on = popping-Onward s t now e p.unused in inl (Onward-Pending s t on counts p)
    first_mix_step (mixing cmd) s t now e counts p =
        let on = mixing-Onward cmd s t now e p.unused in inl (Onward-Pending s t on counts p)
    first_mix_step (pushing cmd) s t now e counts p = pushing_done cmd s t now e counts p
    first_mix_step exited s t now e counts p = absurd (cc e)
