-- ===== src/Worker/Write.antt =====
-- OutputWorkerThread::write as the I/O thread sees it while the worker thread stands still.
use audio_io.Prelude.{
  ℕ, zero, suc, ◌+◌, ◌-◌, ◌*◌, ◌<◌, ◌≡◌, ◌≢◌, ◌⊎◌, inl, inr, arith, some, min, ℕ_discrete, ◌∙◌,
}
use audio_io.Sample.{Float, Buffer}
use audio_io.Converter.{Client, ResamplerLib}
use audio_io.Worker.Queue.{AudioCommand, SpscQueue}
use audio_io.Worker.{OutputWorkerThread, write_helper, write_loop, write}
use audio_io.Worker.WriteHelper.{available, Ready, write_helper_lem}

module _ (fl : Float) (client : Client fl) (lib : ResamplerLib fl)
    (spsc : SpscQueue (AudioCommand fl)) where
  abbrev Object : Type 0
  Object = OutputWorkerThread fl client lib spsc

  abbrev Result : Type 0
  Result = ℕ × Object × Buffer fl

  pub last_round :
      (fuel count total base : ℕ) (w : Object) (destination : Buffer fl) (x : Result)
      → write_helper fl client lib spsc count base w destination ≡ some x
      → x.0 ≡ 0
      → write_loop fl client lib spsc (suc fuel) count total base w destination
        ≡ some (total, x.1, x.2)
  unfolding write_loop
  last_round fuel count total base w destination x e z = ground arith

  pub next_round :
      (fuel count total base : ℕ) (w : Object) (destination : Buffer fl) (x : Result)
      → write_helper fl client lib spsc count base w destination ≡ some x
      → x.0 ≢ 0
      → write_loop fl client lib spsc (suc fuel) count total base w destination
        ≡ write_loop fl client lib spsc fuel
            (count - x.0)
            (total + x.0)
            (base + w.destination_channels * x.0)
            x.1
            x.2
  unfolding write_loop
  next_round fuel count total base w destination x e nz = ground arith

  none_taken : (count w : ℕ) → (count ≡ 0) ⊎ (w ≡ 0) → min count w ≡ 0
  none_taken count w (inl e) = omega arith
  none_taken count w (inr e) = omega arith

  write_loop_lem :
      (fuel count total base : ℕ) (w : Object) (destination : Buffer fl)
      → count < fuel
      → Ready fl client lib spsc w
      → (x : Result) × (write_loop fl client lib spsc fuel count total base w destination ≡ some x)
        × (x.0 ≡ total + min count (available fl client lib spsc w))
        × Ready fl client lib spsc x.1
        × (x.0 + available fl client lib spsc x.1 ≡ total + available fl client lib spsc w)
  write_loop_lem zero count total base w destination lt ready = absurd (omega arith)
  write_loop_lem (suc fuel) count total base w destination lt ready =
      let (x, e, wrote) = write_helper_lem fl client lib spsc count base w destination ready in
      elim (ℕ_discrete x.0 0) [
        | yes none_more ↦ (
          _,
          last_round fuel count total base w destination x e none_more,
          omega (arith, none_taken count (available fl client lib spsc w) (wrote.stops none_more)),
          wrote.ready,
          omega (arith, wrote.rest),
        )
        | no some_more ↦
            let (y, e', n, still, rest) =
              write_loop_lem fuel (count - x.0) (total + x.0) (base + w.destination_channels * x.0)
                x.1 x.2 (omega (arith, wrote.no_more)) wrote.ready in
            (
              y,
              next_round fuel count total base w destination x e some_more ∙ e',
              omega (arith, n, wrote.no_more, wrote.rest),
              still,
              omega (arith, rest, wrote.rest),
            )
      ]

  pub write_lem :
      (count base : ℕ) (w : Object) (destination : Buffer fl)
      → Ready fl client lib spsc w
      → (x : Result) × (write fl client lib spsc count base w destination ≡ some x)
        × (x.0 ≡ min count (available fl client lib spsc w))
        × Ready fl client lib spsc x.1
        × (x.0 + available fl client lib spsc x.1 ≡ available fl client lib spsc w)
  unfolding write
  write_lem count base w destination ready =
      let (x, e, n, still, rest) =
        write_loop_lem (count + 1) count 0 base w destination (omega arith) ready in
      (x, e, omega (arith, n), still, omega (arith, rest))
