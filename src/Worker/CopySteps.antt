-- ===== src/Worker/CopySteps.antt =====
-- The copying part of OutputWorkerThread::writeHelper as steps of the I/O thread in System.
use audio_io.Prelude.{
  ℕ, ◌+◌, ◌-◌, ◌*◌, ◌≤◌, ◌<◌, ◌≡◌, ◌⊎◌, inl, inr, refl, sym, subst, ap, ◌∙◌, arith, Option, none,
  some, some_inj, ◌++◌, ltb, leb, ◌==◌, ◌&&◌, if◌then◌else◌, Option-cases, true, false, Bool-cases,
  ◌>>=◌,
}
use audio_io.Sample.{Float, Buffer}
use audio_io.Converter.{Client, ResamplerLib, copy}
use audio_io.Worker.Queue.{AudioCommand, SpscQueue}
use audio_io.Worker.{OutputWorkerThread, spin_push, release_buffer, copy_out}
use audio_io.Worker.System.{
  frames_at, System, idle, releasing, signalling, proceed, copy as copying, io_copy, io_idle,
  io_return, io_signal, io_do,
}
use audio_io.Worker.Sounds.{frames_at-Sounds, length-frames_at}
use audio_io.Worker.Ran.{Ran, Leads, Leads-trans, step_of}

module _ (fl : Float) (client : Client fl) (lib : ResamplerLib fl)
    (spsc : SpscQueue (AudioCommand fl)) (resample_fuel : ℕ) where
  open spsc use {Queue as Commands}

  abbrev Object : Type 0
  Object = OutputWorkerThread fl client lib spsc

  abbrev State : Type 0
  State = System fl client lib spsc resample_fuel

  -- The frames that one round copies.
  abbrev will_write : ℕ → AudioCommand fl → Object → ℕ
  will_write count cmd w =
      if ltb (w.destination_frames - cmd.used) count then w.destination_frames - cmd.used else count

  will_write_fits :
      (count : ℕ) (cmd : AudioCommand fl) (w : Object)
      → cmd.used < w.destination_frames
      → leb (cmd.used + will_write count cmd w) w.destination_frames ≡ true
  will_write_fits count cmd w begun = ground arith

  abbrev advanced : ℕ → AudioCommand fl → AudioCommand fl
  advanced n cmd = record cmd { used = cmd.used + n }

  abbrev copied : ℕ → ℕ → AudioCommand fl → Object → Buffer fl → Buffer fl
  copied n base cmd w p =
      copy cmd.samples (w.destination_channels * cmd.used) (w.destination_channels * n) p base

  copied_hit :
      (n base : ℕ) (cmd : AudioCommand fl) (w : Object) (p : Buffer fl) (k : ℕ)
      → k < w.destination_channels * n
      → copied n base cmd w p (base + k) ≡ cmd.samples (w.destination_channels * cmd.used + k)
  copied_hit n base cmd w p k lk =
      let inside : (leb base (base + k) && ltb (base + k) (base + w.destination_channels * n))
          ≡ true =
        ground arith in
      let at : base + k - base ≡ k = omega arith in rw (inside, at) refl

  copied_miss :
      (n base : ℕ) (cmd : AudioCommand fl) (w : Object) (p : Buffer fl) (k : ℕ)
      → (k < base) ⊎ (base + w.destination_channels * n ≤ k)
      → copied n base cmd w p k ≡ p k
  copied_miss n base cmd w p k far =
      let behind : (leb base k && ltb k (base + w.destination_channels * n)) ≡ false =
        ground arith in
      rw behind refl

  -- The state after a round that has copied `n` frames.
  copied-Ran :
      (s t : State) (n base : ℕ) (cmd : AudioCommand fl) (p : Buffer fl)
      → Leads fl client lib spsc resample_fuel s t
      → t.io_at ≡ idle
      → t.object.destination_channels ≡ s.object.destination_channels
      → t.worker_at ≡ s.worker_at
      → t.heard ≡ s.heard ++ frames_at fl cmd.samples s.object.destination_channels cmd.used n
      → Ran fl client lib spsc resample_fuel s t base n p (copied n base cmd s.object p) t.object
  copied-Ran s t n base cmd p leads now same stood heard = record {
    leads = leads;
    idle_again = now;
    object = refl;
    channels_kept = same;
    worker_stood = stood;
    played = frames_at fl cmd.samples s.object.destination_channels cmd.used n;
    counted = length-frames_at fl cmd.samples s.object.destination_channels cmd.used n;
    heard = heard;
    sounds =
        frames_at-Sounds fl cmd.samples s.object.destination_channels cmd.used n _ base
          (copied_hit n base cmd s.object p);
    outside = copied_miss n base cmd s.object p;
  }

  -- The states of a round: with the frames copied, with the buffer given back, with the signal given.
  abbrev partly : ℕ → AudioCommand fl → State → State
  partly n cmd s = record s {
    object = record (s.object) { current_buffer = some (advanced n cmd) };
    heard = s.heard ++ frames_at fl cmd.samples s.object.destination_channels cmd.used n;
  }

  abbrev used_up : ℕ → AudioCommand fl → State → State
  used_up n cmd s = record s {
    object = record (s.object) { current_buffer = none };
    io_at = releasing (advanced n cmd);
    heard = s.heard ++ frames_at fl cmd.samples s.object.destination_channels cmd.used n;
  }

  abbrev returned : Commands → State → State
  returned q s = record s {
    object = record (s.object) { returned_buffers = q };
    io_at = signalling;
  }

  abbrev signalled : State → State
  signalled s = record s {
    object = record (s.object) { semaphore = s.object.semaphore + 1 };
    io_at = idle;
  }

  copy_partly :
      (n : ℕ) (cmd : AudioCommand fl) (s : State)
      → s.object.current_buffer ≡ some cmd
      → leb (cmd.used + n) s.object.destination_frames ≡ true
      → (cmd.used + n == s.object.destination_frames) ≡ false
      → io_do fl client lib spsc resample_fuel idle (copying n) s ≡ some (partly n cmd s)
  unfolding io_do io_idle io_copy
  copy_partly n cmd s present fits more = ground arith

  copy_used_up :
      (n : ℕ) (cmd : AudioCommand fl) (s : State)
      → s.object.current_buffer ≡ some cmd
      → leb (cmd.used + n) s.object.destination_frames ≡ true
      → (cmd.used + n == s.object.destination_frames) ≡ true
      → io_do fl client lib spsc resample_fuel idle (copying n) s ≡ some (used_up n cmd s)
  unfolding io_do io_idle io_copy
  copy_used_up n cmd s present fits full = ground arith

  return_step :
      (cmd : AudioCommand fl) (q : Commands) (s : State)
      → spin_push fl client lib spsc cmd s.object.returned_buffers ≡ some q
      → io_do fl client lib spsc resample_fuel (releasing cmd) proceed s ≡ some (returned q s)
  unfolding io_do io_return
  return_step cmd q s e = ap (λ r. r >>= λ q'. some (returned q' s)) e

  signal_step :
      (s : State) → io_do fl client lib spsc resample_fuel signalling proceed s ≡ some (signalled s)
  unfolding io_do io_signal
  signal_step s = refl

  abbrev pub Result : Type 0
  Result = ℕ × Object × Buffer fl

  abbrev pub copying_out : ℕ → ℕ → AudioCommand fl → Object → Buffer fl → Option Result
  copying_out = copy_out fl client lib spsc

  out_partly :
      (count base : ℕ) (cmd : AudioCommand fl) (w : Object) (p : Buffer fl)
      → (cmd.used + will_write count cmd w == w.destination_frames) ≡ false
      → copying_out count base cmd w p
        ≡ some (
          will_write count cmd w,
          record w { current_buffer = some (advanced (will_write count cmd w) cmd) },
          copied (will_write count cmd w) base cmd w p,
        )
  unfolding copy_out
  out_partly count base cmd w p more = rw more refl

  -- What is left of copy_out for a buffer that is used up.
  abbrev after_return :
      ℕ → ℕ → AudioCommand fl → Object → Buffer fl → Option Commands → Option Result
  after_return n base cmd w p pushed =
      (pushed >>= λ q. some (record w { returned_buffers = q; semaphore = w.semaphore + 1 }))
      >>= λ w'. some (n, record w' { current_buffer = none }, copied n base cmd w p)

  out_used_up :
      (count base : ℕ) (cmd : AudioCommand fl) (w : Object) (p : Buffer fl)
      → (cmd.used + will_write count cmd w == w.destination_frames) ≡ true
      → copying_out count base cmd w p
        ≡ after_return (will_write count cmd w) base cmd w p (
            spin_push fl client lib spsc (advanced (will_write count cmd w) cmd) w.returned_buffers)
  unfolding copy_out release_buffer
  out_used_up count base cmd w p full = rw full refl

  abbrev pub RanTo : State → ℕ → Buffer fl → Result → Type 0
  RanTo s base p x = (t : State) × Ran fl client lib spsc resample_fuel s t base x.0 p x.2 x.1

  -- What it copies, and gives back a buffer that is used up.
  pub copy_steps :
      (count base : ℕ) (cmd : AudioCommand fl) (s : State) (p : Buffer fl) (x : Result)
      → s.io_at ≡ idle
      → s.object.current_buffer ≡ some cmd
      → cmd.used < s.object.destination_frames
      → copying_out count base cmd s.object p ≡ some x
      → RanTo s base p x
  copy_steps count base cmd s p x now present begun e =
      let n = will_write count cmd s.object in
      let fits = will_write_fits count cmd s.object begun in
      let idling =
        λ (t : State) (copies : io_do fl client lib spsc resample_fuel idle (copying n) s ≡ some t).
          step_of fl client lib spsc resample_fuel (copying n) s t
            (ap (λ at. io_do fl client lib spsc resample_fuel at (copying n) s) now ∙ copies) in
      elim (Bool-cases (cmd.used + n == s.object.destination_frames)) [
        | inr more ↦
            subst (RanTo s base p) (some_inj (sym (out_partly count base cmd s.object p more) ∙ e))
              (
                partly n cmd s,
                copied-Ran s (partly n cmd s) n base cmd p
                    (idling (partly n cmd s) (copy_partly n cmd s present fits more)) now refl refl
                    refl,
              )
        | inl full ↦
            let out = sym (out_used_up count base cmd s.object p full) ∙ e in
            let first = used_up n cmd s in
            elim (Option-cases
              (spin_push fl client lib spsc (advanced n cmd) s.object.returned_buffers)) [
                | inl stuck ↦
                    absurd (cc (sym (ap (after_return n base cmd s.object p) stuck) ∙ out))
                | inr (q, pushed) ↦
                    subst (RanTo s base p)
                      (some_inj (sym (ap (after_return n base cmd s.object p) pushed) ∙ out))
                      (
                        signalled (returned q first),
                        copied-Ran s (signalled (returned q first)) n base cmd p
                            (Leads-trans fl client lib spsc resample_fuel
                              (idling first (copy_used_up n cmd s present fits full))
                              (Leads-trans fl client lib spsc resample_fuel
                                (step_of fl client lib spsc resample_fuel proceed first _
                                  (return_step (advanced n cmd) q first pushed))
                                (step_of fl client lib spsc resample_fuel proceed (returned q first)
                                  _ (signal_step (returned q first)))))
                            refl refl refl refl,
                      )
              ]
      ]
