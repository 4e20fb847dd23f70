-- ===== src/Worker/Join.antt =====
-- worker_thread.join() in the destructor of src/audio_io/output_worker_thread.cpp.
use audio_io.Prelude.{ℕ, ◌+◌, ◌*◌, ◌≤◌, ◌<◌, ◌≡◌, refl, ◌∙◌, arith, some, inl, inr, ◌⊎◌}
use audio_io.Sample.{Float}
use audio_io.Converter.{Client, ResamplerLib}
use audio_io.Converter.Ends.{Productive, enough}
use audio_io.Worker.Queue.{AudioCommand, SpscQueue}
use audio_io.Worker.{OutputWorkerThread, create}
use audio_io.Worker.System.{
  waiting, exited, joining, joined, proceed, System, start, mixed_by, io_join, io_do, io_step, io,
  Reach, next,
}
use audio_io.Worker.Invariant.{Inv, current_held, stops-le-length}
use audio_io.Worker.Rests.{until_rest, Reach-mixed_by, rest_cases, worker_rests, Reach-Working}
use audio_io.Worker.Destroy.{delete_all, delete_all_lem}

module _ (fl : Float) (client : Client fl) (lib : ResamplerLib fl)
    (spsc : SpscQueue (AudioCommand fl)) (resample_fuel : ℕ) where
  open spsc use {Queue as Commands, push, pop, items, capacity}

  abbrev State : Type 0
  State = System fl client lib spsc resample_fuel

  join_returns :
      (s : State)
      → s.io_at ≡ joining
      → s.worker_at ≡ exited
      → (t : State) × (io_step fl client lib spsc resample_fuel proceed s ≡ some t)
        × (t.io_at ≡ joined)
  unfolding io_step io_do io_join
  join_returns s now over = (record s { io_at = joined }, ground arith, refl)

  -- With the stop command in returned_buffers there is a permit.
  joined_over :
      (s : State)
      → Inv fl client lib spsc resample_fuel s
      → s.io_at ≡ joining
      → ((s.worker_at ≡ waiting) × (s.object.semaphore ≡ 0)) ⊎ (s.worker_at ≡ exited)
      → s.worker_at ≡ exited
  joined_over s v now (inl (wait, none_left)) =
      absurd
        (ground (arith, v.permits, v.one_stop, stops-le-length (items s.object.returned_buffers)))
  joined_over s v now (inr over) = over

  module _ (world : client.World) (frames ic isr oc osr mixahead : ℕ)
      (w : OutputWorkerThread fl client lib spsc)
      (made : create fl client lib spsc world frames ic isr oc osr mixahead ≡ some w) where
    few_ahead :
        (s : State)
        → Inv fl client lib spsc resample_fuel s
        → s.io_at ≡ joining
        → until_rest fl client lib spsc resample_fuel s ≤ 4 * s.object.mixahead + 5
    few_ahead s v now = ground (arith, v.kept, v.one_stop)

    -- For blocks with frames, with a productive resampler and enough fuel for its loop: from every state
    -- that an OutputWorkerThread can reach, under every interleaving, in which its destructor has come to
    -- the join, the worker thread ends after at most four steps for each buffer and five more, and the
    -- join returns. The loops that drain the queues then end too; they delete all `mixahead` buffers,
    -- except the one that the I/O thread was in the middle of, if there was one.
    pub join_ends :
        (good : Productive lib) (s : State) (n : ℕ)
        → Reach fl client lib spsc resample_fuel (start fl client lib spsc resample_fuel w) s
        → enough fl client lib good w.converter.output_frames ≤ resample_fuel
        → 0 < frames
        → s.io_at ≡ joining
        → 4 * mixahead + 5 ≤ n
        → ((mixed_by fl client lib spsc resample_fuel n s).worker_at ≡ exited)
          × (t : State) × (io_step fl client lib spsc resample_fuel proceed
                (mixed_by fl client lib spsc resample_fuel n s)
              ≡ some t)
          × (t.io_at ≡ joined)
          × (deleted : ℕ) × (delete_all fl client lib spsc t.object ≡ some deleted)
          × (deleted + current_held t.object.current_buffer ≡ mixahead)
    join_ends good s n reach fuel pos now many =
        let (v, same) =
          Reach-Working fl client lib spsc resample_fuel world frames ic isr oc osr mixahead w made
            good s reach fuel pos in
        let (j, rests) =
          worker_rests fl client lib spsc resample_fuel good w.converter.output_frames fuel s.io_at
            n s v (omega (arith, few_ahead s v.counts now, same, many)) in
        let end = mixed_by fl client lib spsc resample_fuel n s in
        let over = joined_over end j.counts (j.now ∙ now) (
          rest_cases fl client lib spsc resample_fuel good w.converter.output_frames fuel s.io_at
            end j rests) in
        let (t, e, gone) = join_returns end (j.now ∙ now) over in
        let (deleted, ends, all) =
          delete_all_lem fl client lib spsc resample_fuel world frames ic isr oc osr mixahead w t
            made (next (Reach-mixed_by fl client lib spsc resample_fuel n s reach) (io proceed e))
            gone in
        (over, t, e, gone, deleted, ends, all)
