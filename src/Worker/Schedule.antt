-- ===== src/Worker/Schedule.antt =====
-- Interleavings as lists of moves, which the tests run.
use audio_io.Prelude.{
  ℕ, ◌≡◌, Option, some, List, [], ◌∷◌, ◌>>=◌, Option-cases, inl, inr, subst, some_inj,
}
use audio_io.Sample.{Float}
use audio_io.Converter.{Client, ResamplerLib}
use audio_io.Worker.Queue.{AudioCommand, SpscQueue}
use audio_io.Worker.System.{
  Request, System, worker_step, io_step, Step, worker, io, Reach, here, next,
}

pub data Move : Type 0 where
  work : Move
  play : Request → Move

module _ (fl : Float) (client : Client fl) (lib : ResamplerLib fl)
    (spsc : SpscQueue (AudioCommand fl)) (resample_fuel : ℕ) where
  abbrev State : Type 0
  State = System fl client lib spsc resample_fuel

  unfoldable pub move : Move → State → Option State
  move work s = worker_step fl client lib spsc resample_fuel s
  move (play request) s = io_step fl client lib spsc resample_fuel request s

  -- The latest move is the head of the list.
  unfoldable pub run : List Move → State → Option State
  unfolding move
  run [] s = some s
  run (m ∷ ms) s = run ms s >>= move m

  move-Step :
      (m : Move) (s t : State) → move m s ≡ some t → Step fl client lib spsc resample_fuel s t
  unfolding move
  move-Step work s t e = worker e
  move-Step (play request) s t e = io request e

  -- A schedule that runs leads to a reachable state.
  pub run-Reach :
      (ms : List Move) (s t : State)
      → run ms s ≡ some t
      → Reach fl client lib spsc resample_fuel s t
  unfolding run
  run-Reach [] s t e = subst (λ u. Reach fl client lib spsc resample_fuel s u) (some_inj e) here
  run-Reach (m ∷ ms) s t e = elim (Option-cases (run ms s)) [
    | inl stuck ↦ absurd (cc (rw stuck at e))
    | inr (u, before) ↦ next (run-Reach ms s u before) (move-Step m u t (rw before at e))
  ]
