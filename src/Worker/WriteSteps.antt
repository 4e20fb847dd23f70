-- ===== src/Worker/WriteSteps.antt =====
-- OutputWorkerThread::write as steps of the I/O thread in System.
use audio_io.Prelude.{
  ℕ, zero, suc, ◌+◌, ◌-◌, ◌*◌, ◌≡◌, inl, inr, refl, sym, subst, ap, ◌∙◌, arith, Option, none, some,
  some_inj, Option-cases, ℕ_discrete,
}
use audio_io.Sample.{Float, Buffer}
use audio_io.Converter.{Client, ResamplerLib}
use audio_io.Worker.Queue.{AudioCommand, SpscQueue}
use audio_io.Worker.{OutputWorkerThread, acquire_buffer, fetch, write_helper, write_loop, write}
use audio_io.Worker.System.{System, idle, acquire, io_idle, io_do, here}
use audio_io.Worker.WriteHelper.{Ready, fetched, write_helper_lem}
use audio_io.Worker.Write.{last_round, next_round}
use audio_io.Worker.Ran.{Ran, Leads, step_of, nothing-Ran, Ran-further}
use audio_io.Worker.CopySteps.{RanTo, copying_out, copy_steps}

module _ (fl : Float) (client : Client fl) (lib : ResamplerLib fl)
    (spsc : SpscQueue (AudioCommand fl)) (resample_fuel : ℕ) where
  open spsc use {pop}

  abbrev Object : Type 0
  Object = OutputWorkerThread fl client lib spsc

  abbrev State : Type 0
  State = System fl client lib spsc resample_fuel

  abbrev Result : Type 0
  Result = ℕ × Object × Buffer fl

  fetch_present :
      (w : Object) (cmd : AudioCommand fl)
      → w.current_buffer ≡ some cmd
      → fetch fl client lib spsc w ≡ (some cmd, w)
  unfolding fetch
  fetch_present w cmd present = ground arith

  abbrev fetched_into : Object → Object
  fetched_into w = record w {
    prepared_buffers = (pop w.prepared_buffers).1;
    current_buffer = (pop w.prepared_buffers).0;
  }

  fetch_missing :
      (w : Object)
      → w.current_buffer ≡ none
      → fetch fl client lib spsc w ≡ ((pop w.prepared_buffers).0, fetched_into w)
  unfolding fetch acquire_buffer
  fetch_missing w missing = ground arith

  acquire_missing :
      (s : State)
      → s.object.current_buffer ≡ none
      → io_do fl client lib spsc resample_fuel idle acquire s
        ≡ some (record s { object = fetched_into s.object })
  unfolding io_do io_idle
  acquire_missing s missing = ground arith

  -- What a fetch leaves the rest of writeHelper.
  abbrev Fetches : State → Option (AudioCommand fl) × Object → Type 0
  Fetches s got =
      Leads fl client lib spsc resample_fuel s (record s { object = got.1 })
      × ((cmd : AudioCommand fl) → got.0 ≡ some cmd → got.1.current_buffer ≡ some cmd)

  -- writeHelper fetches a buffer, or has one.
  fetch_steps : (s : State) → s.io_at ≡ idle → Fetches s (fetch fl client lib spsc s.object)
  fetch_steps s now = elim (Option-cases s.object.current_buffer) [
    | inr (cmd, present) ↦
        subst (Fetches s) (sym (fetch_present s.object cmd present)) (here, λ cmd' e. present ∙ e)
    | inl missing ↦ subst (Fetches s) (sym (fetch_missing s.object missing)) (
      step_of fl client lib spsc resample_fuel acquire s _ (
          ap (λ at. io_do fl client lib spsc resample_fuel at acquire s) now
          ∙ acquire_missing s missing),
      λ cmd e. e,
    )
  ]

  fetch_channels :
      (w : Object) → (fetch fl client lib spsc w).1.destination_channels ≡ w.destination_channels
  fetch_channels w = elim (Option-cases w.current_buffer) [
    | inr (cmd, present) ↦ ap (λ x. x.1.destination_channels) (fetch_present w cmd present)
    | inl missing ↦ ap (λ x. x.1.destination_channels) (fetch_missing w missing)
  ]

  -- What follows a fetch.
  abbrev after_fetch : ℕ → ℕ → Object → Buffer fl → Option (AudioCommand fl) → Option Result
  after_fetch count base w p none = some (0, w, p)
  after_fetch count base w p (some cmd) =
      copying_out fl client lib spsc resample_fuel count base cmd w p

  helper_fetches :
      (count base : ℕ) (w : Object) (p : Buffer fl)
      → write_helper fl client lib spsc count base w p
        ≡ after_fetch count base (fetch fl client lib spsc w).1 p (fetch fl client lib spsc w).0
  unfolding write_helper
  helper_fetches count base w p = ground arith

  -- Steps that have only fetched, before those that have copied.
  fetched_first :
      (s t : State) (base : ℕ) (p : Buffer fl) (x : Result) (v : Object)
      → Ran fl client lib spsc resample_fuel s t base 0 p p v
      → RanTo fl client lib spsc resample_fuel t base p x
      → RanTo fl client lib spsc resample_fuel s base p x
  fetched_first s t base p x v f (u, g) =
      let still : base ≡ base + s.object.destination_channels * 0 = grind arith in
      let sum : 0 + x.0 ≡ x.0 = omega arith in
      (
        u,
        subst (λ n. Ran fl client lib spsc resample_fuel s u base n p x.2 x.1) sum
            (Ran-further fl client lib spsc resample_fuel s t u base 0 x.0 p p x.2 v x.1 f
              (subst (λ b. Ran fl client lib spsc resample_fuel t u b x.0 p x.2 x.1) still g)),
      )

  -- One round of `write`.
  helper_steps :
      (count base : ℕ) (s : State) (p : Buffer fl) (x : Result)
      → s.io_at ≡ idle
      → Ready fl client lib spsc s.object
      → write_helper fl client lib spsc count base s.object p ≡ some x
      → RanTo fl client lib spsc resample_fuel s base p x
  helper_steps count base s p x now ready e =
      let w = (fetch fl client lib spsc s.object).1 in
      let (leads, current) = fetch_steps s now in
      let t : State = record s { object = w } in
      let fetches =
        nothing-Ran fl client lib spsc resample_fuel s t base p leads now (fetch_channels s.object)
          refl refl in
      let rest = sym (helper_fetches count base s.object p) ∙ e in
      elim (fetched fl client lib spsc s.object ready) [
        | inl (missing, _, _, _) ↦
            subst (RanTo fl client lib spsc resample_fuel s base p)
              (some_inj (sym (ap (after_fetch count base w p) missing) ∙ rest)) (t, fetches)
        | inr (cmd, got, f) ↦ fetched_first s t base p x w fetches (
            copy_steps fl client lib spsc resample_fuel count base cmd t p x now (current cmd got)
              f.begun (sym (ap (after_fetch count base w p) got) ∙ rest))
      ]

  -- The rounds of `write` from `total` on.
  loop_steps :
      (fuel count total base : ℕ) (s : State) (p : Buffer fl) (y : Result)
      → s.io_at ≡ idle
      → Ready fl client lib spsc s.object
      → write_loop fl client lib spsc fuel count total base s.object p ≡ some y
      → (n : ℕ) × (y.0 ≡ total + n) × RanTo fl client lib spsc resample_fuel s base p (n, y.1, y.2)
  unfolding write_loop
  loop_steps zero count total base s p y now ready e = absurd (cc e)
  loop_steps (suc fuel) count total base s p y now ready e =
      let (x, round, wrote) = write_helper_lem fl client lib spsc count base s.object p ready in
      let (t, f) = helper_steps count base s p x now ready round in
      elim (ℕ_discrete x.0 0) [
        | yes none_more ↦
            let end = some_inj (
              sym (last_round fl client lib spsc fuel count total base s.object p x round none_more)
              ∙ e) in
            (
              x.0,
              ap (λ z. z.0) (sym end) ∙ omega (arith, none_more),
              subst (λ z. RanTo fl client lib spsc resample_fuel s base p (x.0, z.1, z.2)) end
                  (t, f),
            )
        | no some_more ↦
            let later =
              sym (next_round fl client lib spsc fuel count total base s.object p x round some_more)
              ∙ e in
            let (n, sum, (u, g)) =
              loop_steps fuel (count - x.0) (total + x.0)
                (base + s.object.destination_channels * x.0) t x.2 y f.idle_again
                (subst (Ready fl client lib spsc) (sym f.object) wrote.ready)
                (ap
                    (λ o.
                      write_loop fl client lib spsc fuel (count - x.0) (total + x.0)
                        (base + s.object.destination_channels * x.0) o x.2)
                    f.object
                  ∙ later) in
            (
              x.0 + n,
              omega (arith, sum),
              (
                u,
                Ran-further fl client lib spsc resample_fuel s t u base x.0 n p x.2 y.2 x.1 y.1 f g,
              ),
            )
      ]

  -- In a state between two calls, for blocks with frames: a call of `write` is a sequence of steps of
  -- the I/O thread, while the worker thread stands still. It leads to the object that `write` leaves;
  -- as many frames are heard by it as `write` returns, they stand in the destination from `base` on,
  -- one behind the other, and nothing else of the destination is written.
  pub write_steps :
      (count base : ℕ) (s : State) (p : Buffer fl) (x : Result)
      → s.io_at ≡ idle
      → Ready fl client lib spsc s.object
      → write fl client lib spsc count base s.object p ≡ some x
      → (t : State) × Ran fl client lib spsc resample_fuel s t base x.0 p x.2 x.1
  unfolding write
  write_steps count base s p x now ready e =
      let (n, same, (t, f)) = loop_steps (count + 1) count 0 base s p x now ready e in
      (
        t,
        subst (λ m. Ran fl client lib spsc resample_fuel s t base m p x.2 x.1) (omega (arith, same))
            f,
      )
