-- ===== src/Worker/Mixahead.antt =====
-- What `mixahead` is for in src/audio_io/output_worker_thread.cpp: how much a call of `write` can count on.
use audio_io.Prelude.{
  ℕ, ◌+◌, ◌*◌, ◌≤◌, ◌<◌, ◌≡◌, ◌⊎◌, inl, inr, ◌∙◌, ap, sym, subst, arith, some, length, Option-cases,
}
use audio_io.Sample.{Float, Buffer}
use audio_io.Converter.{Client, ResamplerLib}
use audio_io.Converter.Ends.{Productive, enough}
use audio_io.Worker.Queue.{AudioCommand, SpscQueue}
use audio_io.Worker.{OutputWorkerThread, create, write}
use audio_io.Worker.System.{waiting, exited, idle, System, start, mixed_by, Reach}
use audio_io.Worker.Invariant.{Inv, current_held, stops-le-length}
use audio_io.Worker.WriteHelper.{Ready, available}
use audio_io.Worker.Between.{Reach-Ready, write_returns}
use audio_io.Worker.Converted.{converter_heard}
use audio_io.Worker.Rests.{until_rest, Reach-mixed_by, rest_cases, worker_rests, Reach-Working}

module _ (fl : Float) (client : Client fl) (lib : ResamplerLib fl)
    (spsc : SpscQueue (AudioCommand fl)) (resample_fuel : ℕ) where
  open spsc use {items}

  abbrev Object : Type 0
  Object = OutputWorkerThread fl client lib spsc

  abbrev State : Type 0
  State = System fl client lib spsc resample_fuel

  -- Where the worker thread rests between two calls, every buffer is mixed.
  all_mixed :
      (s : State)
      → Inv fl client lib spsc resample_fuel s
      → s.io_at ≡ idle
      → ((s.worker_at ≡ waiting) × (s.object.semaphore ≡ 0)) ⊎ (s.worker_at ≡ exited)
      → length (items s.object.prepared_buffers) + current_held s.object.current_buffer
        ≡ s.object.mixahead
  all_mixed s v now (inl (wait, none_left)) =
      ground
        (arith, v.kept, v.permits, v.one_stop, stops-le-length (items s.object.returned_buffers))
  all_mixed s v now (inr over) = absurd (ground (arith, v.one_stop))

  one_fewer : (m n frames : ℕ) → m ≡ n + 1 → m * frames ≡ n * frames + frames
  one_fewer m n frames e = ap (λ k. k * frames) e ∙ grind arith

  -- At least one frame of the current buffer is left.
  plenty :
      (w : Object) (count : ℕ)
      → Ready fl client lib spsc w
      → length (items w.prepared_buffers) + current_held w.current_buffer ≡ w.mixahead
      → count + w.destination_frames ≤ w.mixahead * w.destination_frames + 1
      → count ≤ available fl client lib spsc w
  plenty w count ready all le = elim (Option-cases w.current_buffer) [
    | inl missing ↦
        let whole : length (items w.prepared_buffers) ≡ w.mixahead =
          omega (arith, all, ap current_held missing) in
        let product = ap (λ n. n * w.destination_frames) whole in ground (arith, ready.short)
    | inr (cmd, present) ↦
        let product =
          one_fewer w.mixahead (length (items w.prepared_buffers)) w.destination_frames
            (omega (arith, all, ap current_held present)) in
        ground (arith, ready.short)
  ]

  few_ahead :
      (s : State)
      → Inv fl client lib spsc resample_fuel s
      → s.io_at ≡ idle
      → until_rest fl client lib spsc resample_fuel s ≤ 4 * s.object.mixahead + 1
  few_ahead s v now = ground (arith, v.kept, v.one_stop)

  module _ (world : client.World) (frames ic isr oc osr mixahead : ℕ) (w : Object)
      (made : create fl client lib spsc world frames ic isr oc osr mixahead ≡ some w) where
    -- For blocks with frames, with a productive resampler and enough fuel for its loop: from every state
    -- that an OutputWorkerThread can reach, under every interleaving, between two calls of the I/O
    -- thread, let the worker thread take four steps for each buffer and one more. The next call of
    -- `write` then returns all the frames that are asked for, if these are no more than one frame and
    -- `mixahead` - 1 blocks.
    pub never_short :
        (good : Productive lib) (s : State) (n count base : ℕ) (destination : Buffer fl)
        → Reach fl client lib spsc resample_fuel (start fl client lib spsc resample_fuel w) s
        → enough fl client lib good w.converter.output_frames ≤ resample_fuel
        → 0 < frames
        → 0 < w.destination_frames
        → s.io_at ≡ idle
        → 4 * mixahead + 1 ≤ n
        → count + w.destination_frames ≤ mixahead * w.destination_frames + 1
        → (x : ℕ × Object × Buffer fl) × (write fl client lib spsc count base
              (mixed_by fl client lib spsc resample_fuel n s).object
              destination
            ≡ some x)
          × (x.0 ≡ count)
    never_short good s n count base destination reach fuel pos some_frames now many few =
        let (v, same) =
          Reach-Working fl client lib spsc resample_fuel world frames ic isr oc osr mixahead w made
            good s reach fuel pos in
        let (j, rests) =
          worker_rests fl client lib spsc resample_fuel good w.converter.output_frames fuel s.io_at
            n s v (omega (arith, few_ahead s v.counts now, same, many)) in
        let t = mixed_by fl client lib spsc resample_fuel n s in
        let later = Reach-mixed_by fl client lib spsc resample_fuel n s reach in
        let (_, same') =
          Reach-Working fl client lib spsc resample_fuel world frames ic isr oc osr mixahead w made
            good t later fuel pos in
        let (_, _, _, _, _, _, _, _, size) =
          converter_heard fl client lib spsc resample_fuel world frames ic isr oc osr mixahead w
            made t later pos in
        let all = all_mixed t j.counts (j.now ∙ now) (
          rest_cases fl client lib spsc resample_fuel good w.converter.output_frames fuel s.io_at t
            j rests) in
        let ready =
          Reach-Ready fl client lib spsc resample_fuel world frames ic isr oc osr mixahead w t made
            later some_frames (j.now ∙ now) in
        let fits : count + t.object.destination_frames
            ≤ t.object.mixahead * t.object.destination_frames + 1 =
          subst (λ m. count + t.object.destination_frames ≤ m * t.object.destination_frames + 1)
            (sym same') (subst (λ d. count + d ≤ mixahead * d + 1) (sym size) few) in
        let (x, e, returned, _, _) =
          write_returns fl client lib spsc resample_fuel world frames ic isr oc osr mixahead w t
            count base destination made later some_frames (j.now ∙ now) in
        (x, e, returned ∙ omega (arith, plenty t.object count ready all fits))
