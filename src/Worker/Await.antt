-- ===== src/Worker/Await.antt =====
-- awaitInitialMix of src/audio_io/output_worker_thread.cpp, called before anything else uses the
-- object.
use audio_io.Prelude.{ℕ, ◌+◌, ◌≤◌, Option, none, some, List, [], ◌∷◌, if◌then◌else◌}
use audio_io.Sample.{Float}
use audio_io.Converter.{Client, ResamplerLib}
use audio_io.Converter
use audio_io.Converter.Ends.{Productive, enough}
use audio_io.Worker.Queue.{AudioCommand, SpscQueue}
use audio_io.Worker.System.{System, mixed_by}
use audio_io.Worker.InitialMix.{Pending, Complete, steps_left}

module _ (fl : Float) (client : Client fl) (lib : ResamplerLib fl)
    (spsc : SpscQueue (AudioCommand fl)) (resample_fuel : ℕ) where
  open spsc use {Queue as Commands, push, pop, items, capacity}

  abbrev State : Type 0
  State = System fl client lib spsc resample_fuel

  -- while(finished_initial_mix.load() == 0), where the worker thread takes the listed numbers of steps
  -- between the loads; `none` is a list that ends first.
  unfoldable pub await_initial_mix : List ℕ → State → Option State
  await_initial_mix [] s = if s.object.finished_initial_mix then some s else none
  await_initial_mix (n ∷ ns) s =
      let rest = await_initial_mix ns (mixed_by fl client lib spsc resample_fuel n s) in
      if s.object.finished_initial_mix then some s else rest

  abbrev pub total : List ℕ → ℕ
  total [] = 0
  total (n ∷ ns) = n + total ns

  module _ (good : Productive lib) (frames wanted : ℕ)
      (fuel : enough fl client lib good frames ≤ resample_fuel) where
    abbrev Pends : State → Type 0
    Pends = Pending fl client lib spsc resample_fuel good frames wanted fuel

    abbrev Completes : State → Type 0
    Completes = Complete fl client lib spsc resample_fuel good frames wanted fuel

    abbrev left : State → ℕ
    left = steps_left fl client lib spsc resample_fuel good frames wanted fuel
