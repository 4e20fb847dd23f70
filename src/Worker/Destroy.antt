-- ===== src/Worker/Destroy.antt =====
-- The end of ~OutputWorkerThread: both queues are drained, and what they hold is deleted.
use audio_io.Prelude.{
  ℕ, zero, suc, ◌+◌, ◌<◌, ◌≡◌, refl, ap, ◌∙◌, arith, Option, none, some, length, ◌>>=◌,
  Option-cases, inl, inr,
}
use audio_io.Sample.{Float}
use audio_io.Converter.{Client, ResamplerLib}
use audio_io.Worker.Queue.{AudioCommand, SpscQueue}
use audio_io.Worker.{OutputWorkerThread, create}
use audio_io.Worker.System.{joined, System, start, Reach}
use audio_io.Worker.Invariant.{Inv, current_held, pop_counts, pop_nothing}
use audio_io.Worker.Steps.{Reach-Inv, Reach-mixahead}
use audio_io.Worker.Progress.{create-Inv}

module _ (fl : Float) (client : Client fl) (lib : ResamplerLib fl)
    (spsc : SpscQueue (AudioCommand fl)) where
  open spsc use {Queue as Commands, pop, items}

  -- while(queue.pop(tmp)) delete tmp: how many commands are deleted. `none` is a loop that has not
  -- ended within its fuel.
  unfoldable pub drain : ℕ → Commands → Option ℕ
  drain zero q = none
  drain (suc fuel) q =
      let rest = drain fuel (pop q).1 in
      elim (pop q).0 [ none ↦ some 0 | some cmd ↦ rest >>= (λ n. some (n + 1)) ]

  -- The two loops of the destructor, after the join.
  unfoldable pub delete_all : OutputWorkerThread fl client lib spsc → Option ℕ
  unfolding drain
  delete_all w = do
    from_returned ← drain (w.mixahead + 2) w.returned_buffers
    from_prepared ← drain (w.mixahead + 2) w.prepared_buffers
    some (from_returned + from_prepared)

  module _ (resample_fuel : ℕ) where
    -- A queue is drained in one round for each command and one for the failing pop.
    drain_lem :
        (fuel : ℕ) (q : Commands) → length (items q) < fuel → drain fuel q ≡ some (length (items q))
    unfolding drain
    drain_lem zero q lt = absurd (omega arith)
    drain_lem (suc fuel) q lt = elim (Option-cases (pop q).0) [
      | inl empty ↦
          rw (empty, drain)
            (ap some
              (omega (arith, ap length (pop_nothing fl client lib spsc resample_fuel q empty).1)))
      | inr (cmd, got) ↦
          let (fewer, _, _) = pop_counts fl client lib spsc resample_fuel q cmd got in
          rw (got, drain, drain_lem fuel (pop q).1 (omega arith)) (ap some (omega arith))
    ]

    deleted :
        (s : System fl client lib spsc resample_fuel)
        → Inv fl client lib spsc resample_fuel s
        → s.io_at ≡ joined
        → (length (items s.object.returned_buffers)
              + length (items s.object.prepared_buffers)
              + current_held s.object.current_buffer
            ≡ s.object.mixahead)
          × (length (items s.object.returned_buffers) < s.object.mixahead + 2)
          × (length (items s.object.prepared_buffers) < s.object.mixahead + 2)
    deleted s v now = ground arith

    start_mixahead :
        (w : OutputWorkerThread fl client lib spsc)
        → (start fl client lib spsc resample_fuel w).object.mixahead ≡ w.mixahead
    unfolding start
    start_mixahead w = refl

    -- From the constructor to the destructor's last loop, in every interleaving: that loop ends, and
    -- it deletes all `mixahead` buffers, except the one that the I/O thread was in the middle of, if
    -- there was one.
    pub delete_all_lem :
        (world : client.World) (frames ic isr oc osr mixahead : ℕ)
        (w : OutputWorkerThread fl client lib spsc) (s : System fl client lib spsc resample_fuel)
        → create fl client lib spsc world frames ic isr oc osr mixahead ≡ some w
        → Reach fl client lib spsc resample_fuel (start fl client lib spsc resample_fuel w) s
        → s.io_at ≡ joined
        → (n : ℕ) × (delete_all s.object ≡ some n)
          × (n + current_held s.object.current_buffer ≡ mixahead)
    unfolding delete_all
    delete_all_lem world frames ic isr oc osr mixahead w s e r now =
        let (v₀, size) =
          create-Inv fl client lib spsc resample_fuel world frames ic isr oc osr mixahead w e in
        let v = Reach-Inv fl client lib spsc resample_fuel r v₀ in
        let same = Reach-mixahead fl client lib spsc resample_fuel r in
        let (all, returned_fits, prepared_fits) = deleted s v now in
        (
          length (items s.object.returned_buffers) + length (items s.object.prepared_buffers),
          rw (
            drain_lem (s.object.mixahead + 2) s.object.returned_buffers returned_fits,
            drain_lem (s.object.mixahead + 2) s.object.prepared_buffers prepared_fits,
          ),
          all ∙ same ∙ start_mixahead w ∙ size,
        )
