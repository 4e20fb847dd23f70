-- ===== src/Worker/Ran.antt =====
-- What steps of the I/O thread have done that stand for a call of OutputWorkerThread::write.
use audio_io.Prelude.{
  ℕ, ◌+◌, ◌*◌, ◌≤◌, ◌<◌, ◌≡◌, ◌⊎◌, inl, inr, refl, sym, subst, ap, ◌∙◌, arith, some, List, [], ◌++◌,
  append-nil, append_assoc, length, length-append,
}
use audio_io.Sample.{Float, Buffer}
use audio_io.Converter.{Client, ResamplerLib}
use audio_io.Worker.Queue.{AudioCommand, SpscQueue}
use audio_io.Worker.{OutputWorkerThread}
use audio_io.Worker.System.{Frame, System, idle, Request, io_do, io_step, io, Reach, here, next}
use audio_io.Worker.Sounds.{Sounds, Sounds-kept, Sounds-append}

module _ (fl : Float) (client : Client fl) (lib : ResamplerLib fl)
    (spsc : SpscQueue (AudioCommand fl)) (resample_fuel : ℕ) where
  open spsc use {Queue as Commands, push, pop, items}

  abbrev Object : Type 0
  Object = OutputWorkerThread fl client lib spsc

  abbrev State : Type 0
  State = System fl client lib spsc resample_fuel

  abbrev pub Leads : State → State → Type 0
  Leads = Reach fl client lib spsc resample_fuel

  pub Leads-trans : {s t u : State} → Leads s t → Leads t u → Leads s u
  Leads-trans r here = r
  Leads-trans r (next q step) = next (Leads-trans r q) step

  -- What steps of the I/O thread have done that stand for a call: `n` frames were heard, which stand in
  -- the destination from `base` on; the rest of it is as before, and so is the worker thread.
  pub record Ran (s t : State) (base n : ℕ) (before after : Buffer fl) (w : Object) : Type 0 where
    pub leads : Leads s t
    pub idle_again : t.io_at ≡ idle
    pub object : t.object ≡ w
    pub channels_kept : w.destination_channels ≡ s.object.destination_channels
    pub worker_stood : t.worker_at ≡ s.worker_at
    pub played : List (Frame fl)
    pub counted : length played ≡ n
    pub heard : t.heard ≡ s.heard ++ played
    pub sounds : Sounds fl s.object.destination_channels played after base
    pub outside :
        (k : ℕ) → (k < base) ⊎ (base + s.object.destination_channels * n ≤ k) → after k ≡ before k

  pub nothing-Ran :
      (s t : State) (base : ℕ) (p : Buffer fl)
      → Leads s t
      → t.io_at ≡ idle
      → t.object.destination_channels ≡ s.object.destination_channels
      → t.worker_at ≡ s.worker_at
      → t.heard ≡ s.heard
      → Ran s t base 0 p p t.object
  nothing-Ran s t base p leads now same stood heard = record {
    leads = leads;
    idle_again = now;
    object = refl;
    channels_kept = same;
    worker_stood = stood;
    played = [];
    counted = refl;
    heard = heard ∙ sym (append-nil s.heard);
    sounds = tt;
    outside = λ k far. refl;
  }

  pub Ran-further :
      (s t u : State) (base m n : ℕ) (p q r : Buffer fl) (v w : Object)
      → Ran s t base m p q v
      → Ran t u (base + s.object.destination_channels * m) n q r w
      → Ran s u base (m + n) p r w
  Ran-further s t u base m n p q r v w f g =
      let same : t.object.destination_channels ≡ s.object.destination_channels =
        ap (λ o. o.destination_channels) f.object ∙ f.channels_kept in
      let sum : base + s.object.destination_channels * m + s.object.destination_channels * n
          ≡ base + s.object.destination_channels * (m + n) =
        grind arith in
      record {
        leads = Leads-trans f.leads g.leads;
        idle_again = g.idle_again;
        object = g.object;
        channels_kept = g.channels_kept ∙ same;
        worker_stood = g.worker_stood ∙ f.worker_stood;
        played = f.played ++ g.played;
        counted = length-append f.played g.played ∙ omega (arith, f.counted, g.counted);
        heard = g.heard ∙ ap (λ l. l ++ g.played) f.heard ∙ append_assoc s.heard f.played g.played;
        sounds =
            Sounds-append fl s.object.destination_channels f.played g.played r base
              (Sounds-kept fl s.object.destination_channels f.played q r base
                (λ k lk.
                  g.outside k
                    (inl (subst (λ x. k < base + s.object.destination_channels * x) f.counted lk)))
                f.sounds)
              (subst
                (λ c.
                  Sounds fl c g.played r (base + s.object.destination_channels * length f.played))
                same
                (subst
                  (λ x.
                    Sounds fl t.object.destination_channels g.played r
                      (base + s.object.destination_channels * x))
                  (sym f.counted) g.sounds));
        outside = λ k far. elim far [
          | inl before ↦ g.outside k (inl (omega (arith, before))) ∙ f.outside k (inl before)
          | inr behind ↦
              g.outside k (inr (omega (arith, behind, sum, ap (λ c. c * n) same)))
              ∙ f.outside k (inr (omega (arith, behind, sum)))
        ];
      }

  -- The I/O thread's next step.
  pub step_of :
      (request : Request) (s t : State)
      → io_do fl client lib spsc resample_fuel s.io_at request s ≡ some t
      → Leads s t
  unfolding io_step
  step_of request s t e = next here (io request e)
