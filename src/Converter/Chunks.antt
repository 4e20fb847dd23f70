-- ===== src/Converter/Chunks.antt =====
-- How requests to SampleFormatConverter::write combine, and the cells that a request writes.
use audio_io.Prelude.{
  ℕ, zero, suc, ◌+◌, ◌-◌, ◌*◌, ◌≤◌, ◌<◌, ◌≡◌, ◌⊎◌, inl, inr, refl, sym, ap, subst, OnSome-map, ◌∙◌,
  arith, Option, none, some, ◌==◌, if◌then◌else◌, ◌>>=◌, Option-cases, OnSome, OnSome-elim,
}
use audio_io.Sample.{Float, Buffer}
use audio_io.Converter.{Client, ResamplerLib, Converter, copy, refill_output_buffer, write}
use audio_io.Converter.Frames.{pull}
use audio_io.Converter.Write.{IsValid, Refills, write_loop_enough}
use audio_io.Converter.Refill.{refill_output_buffer-Refills}

module _ (fl : Float) (client : Client fl) (lib : ResamplerLib fl) where
  abbrev Conv : Type 0
  Conv = Converter fl client lib

  abbrev Valid : Conv → Type 0
  Valid = IsValid fl client lib

  module _ (refill : Conv → Option Conv) (ok : Refills fl client lib refill) where
    -- the block that the next frame comes from
    pub ready : Conv → Option Conv
    ready c = if c.output_frames - c.consumed_output_frames == 0 then refill c else some c

    unfoldable pub advance : Conv → Conv
    advance c = record c { consumed_output_frames = c.consumed_output_frames + 1 }

    unfoldable pub place_frame : ℕ → Conv → Buffer fl → Buffer fl
    place_frame pos c buffer =
        copy c.output_buffer (c.consumed_output_frames * c.output_channels) c.output_channels buffer
          pos

    abbrev pull' : ℕ → ℕ → Conv → Buffer fl → Option (Conv × Buffer fl)
    pull' = pull fl client lib refill

    pub pull_step :
        (n pos : ℕ) (c c' : Conv) (buffer : Buffer fl)
        → ready c ≡ some c'
        → pull' (suc n) pos c buffer
          ≡ pull' n (pos + c'.output_channels) (advance c') (place_frame pos c' buffer)
    unfolding ready advance place_frame pull
    pull_step n pos c c' buffer e = rw e

    pub pull_stuck :
        (n pos : ℕ) (c : Conv) (buffer : Buffer fl)
        → ready c ≡ none
        → pull' (suc n) pos c buffer ≡ none
    unfolding ready pull
    pull_stuck n pos c buffer e = rw e

    pub ready_lem :
        (c c' : Conv)
        → ready c ≡ some c'
        → Valid c
        → (c'.output_channels ≡ c.output_channels)
          × Valid (advance c')
          × (c'.output_frames ≡ c.output_frames)
    unfolding ready advance
    ready_lem c c' e v = ground (arith, ok c c')

    -- Pulling `m` frames and then `n` is pulling `m + n`.
    pull-add :
        (m n t pos : ℕ) (c : Conv) (buffer : Buffer fl)
        → t ≡ m + n
        → Valid c
        → pull' t pos c buffer
          ≡ (pull' m pos c buffer >>= (λ x. pull' n (pos + m * c.output_channels) x.0 x.1))
    unfolding pull
    pull-add zero n t pos c buffer e v = λ i. pull' (same i) (there i) c buffer
      where
        same : t ≡ n
        same = omega arith

        there : pos ≡ pos + zero * c.output_channels
        there = omega arith
    pull-add (suc m) n zero pos c buffer e v = absurd (omega arith)
    pull-add (suc m) n (suc t) pos c buffer e v = elim (Option-cases (ready c)) [
      | inl stuck ↦ rw (pull_stuck t pos c buffer stuck, pull_stuck m pos c buffer stuck)
      | inr (c', r) ↦
          let (same, v', _) = ready_lem c c' r v in
          pull_step t pos c c' buffer r
          ∙ pull-add m n t (pos + c'.output_channels) (advance c') (place_frame pos c' buffer)
              (omega arith) v'
          ∙ (λ i.
              pull' m (pos + c'.output_channels) (advance c') (place_frame pos c' buffer)
              >>= (λ x. pull' n (there c' same i) x.0 x.1))
          ∙ sym (
              ap (λ o. o >>= (λ x. pull' n (pos + suc m * c.output_channels) x.0 x.1))
                (pull_step m pos c c' buffer r))
    ]
      where
        there :
            (c' : Conv)
            → c'.output_channels ≡ c.output_channels
            → pos + c'.output_channels + m * (advance c').output_channels
              ≡ pos + suc m * c.output_channels
        there c' same = unfold advance in omega (arith, ap (λ d. m * d) same)

    -- What pulling keeps.
    abbrev pub Kept : Conv → Conv × Buffer fl → Type 0
    Kept c x = Valid x.0 × (x.0.output_channels ≡ c.output_channels)

    kept_channels :
        (c c' d : Conv)
        → d.output_channels ≡ (advance c').output_channels
        → c'.output_channels ≡ c.output_channels
        → d.output_channels ≡ c.output_channels
    unfolding advance
    kept_channels c c' d p q = p ∙ q

    pub pull_keeps :
        (n pos : ℕ) (c : Conv) (buffer : Buffer fl)
        → Valid c
        → OnSome (Kept c) (pull' n pos c buffer)
    unfolding pull
    pull_keeps zero pos c buffer v = (v, refl)
    pull_keeps (suc n) pos c buffer v = elim (Option-cases (ready c)) [
      | inl stuck ↦ subst (OnSome (Kept c)) (sym (pull_stuck n pos c buffer stuck)) tt
      | inr (c', r) ↦
          let (same, v', _) = ready_lem c c' r v in
          subst (OnSome (Kept c)) (sym (pull_step n pos c c' buffer r)) (
            OnSome-map (Kept (advance c')) (Kept c)
              (pull' n (pos + c'.output_channels) (advance c') (place_frame pos c' buffer))
              (λ x h. (h.0, kept_channels c c' x.0 h.1 same))
              (pull_keeps n (pos + c'.output_channels) (advance c') (place_frame pos c' buffer) v'))
    ]

    -- Pulling writes from `pos` on, and the samples of its own frames only.
    pub pull_miss :
        (n pos : ℕ) (c : Conv) (buffer : Buffer fl) (k : ℕ)
        → Valid c
        → (k < pos) ⊎ (pos + n * c.output_channels ≤ k)
        → OnSome (λ x. x.1 k ≡ buffer k) (pull' n pos c buffer)
    unfolding pull
    pull_miss zero pos c buffer k v far = refl
    pull_miss (suc n) pos c buffer k v far = elim (Option-cases (ready c)) [
      | inl stuck ↦ subst (OnSome same_cell) (sym (pull_stuck n pos c buffer stuck)) tt
      | inr (c', r) ↦
          let (same, v', _) = ready_lem c c' r v in
          subst (OnSome same_cell) (sym (pull_step n pos c c' buffer r)) (
            OnSome-map (λ x. x.1 k ≡ place_frame pos c' buffer k) same_cell
              (pull' n (pos + c'.output_channels) (advance c') (place_frame pos c' buffer))
              (λ x h. h ∙ elsewhere c' same)
              (pull_miss n (pos + c'.output_channels) (advance c') (place_frame pos c' buffer) k v'
                (beyond c' same)))
    ]
      where
        same_cell : Conv × Buffer fl → Type 0
        same_cell x = x.1 k ≡ buffer k

        elsewhere :
            (c' : Conv)
            → c'.output_channels ≡ c.output_channels
            → place_frame pos c' buffer k ≡ buffer k
        elsewhere c' same = unfold place_frame in ground arith

        beyond :
            (c' : Conv)
            → c'.output_channels ≡ c.output_channels
            → (k < pos + c'.output_channels)
              ⊎ (pos + c'.output_channels + n * (advance c').output_channels ≤ k)
        beyond c' same = unfold advance in ground (arith, ap (λ d. n * d) same)

  module _ (resample_fuel : ℕ) where
    abbrev refill : Conv → Option Conv
    refill = refill_output_buffer fl client lib resample_fuel

    ok : Refills fl client lib refill
    ok = refill_output_buffer-Refills fl client lib resample_fuel

    -- `write` does what pulling the frames one at a time does: it copies each frame once, in order,
    -- fetches a block exactly when the last one is used up, and ends if the refills do.
    pub write-pull :
        (frames base : ℕ) (c : Conv) (buffer : Buffer fl)
        → Valid c
        → write fl client lib resample_fuel frames base c buffer
          ≡ pull fl client lib refill frames base c buffer
    unfolding write
    write-pull frames base c buffer v =
        write_loop_enough fl client lib refill ok frames base c buffer v

    -- A request for `m + n` frames is a request for `m` frames followed by one for `n` that goes on
    -- behind them: the same audio, and the same converter afterwards.
    pub write-add :
        (m n base : ℕ) (c : Conv) (buffer : Buffer fl)
        → Valid c
        → write fl client lib resample_fuel (m + n) base c buffer ≡ (
            write fl client lib resample_fuel m base c buffer
            >>= (λ x. write fl client lib resample_fuel n (base + m * c.output_channels) x.0 x.1))
    write-add m n base c buffer v =
        write-pull (m + n) base c buffer v
        ∙ pull-add refill ok m n (m + n) base c buffer refl v
        ∙ later (pull fl client lib refill m base c buffer) (pull_keeps refill ok m base c buffer v)
        ∙ sym (
            ap
              (λ o. o >>= (λ x.
                write fl client lib resample_fuel n (base + m * c.output_channels) x.0 x.1))
              (write-pull m base c buffer v))
      where
        later :
            (o : Option (Conv × Buffer fl))
            → OnSome (Kept refill ok c) o
            → (o >>= (λ x. pull fl client lib refill n (base + m * c.output_channels) x.0 x.1)) ≡ (
                o >>= (λ x.
                  write fl client lib resample_fuel n (base + m * c.output_channels) x.0 x.1))
        later none h = refl
        later (some x) h = sym (write-pull n (base + m * c.output_channels) x.0 x.1 h.0)

    -- `write` writes no sample outside the frames asked for.
    pub write_bounds :
        (frames base : ℕ) (c c' : Conv) (buffer buffer' : Buffer fl)
        → Valid c
        → write fl client lib resample_fuel frames base c buffer ≡ some (c', buffer')
        → (k : ℕ) → (k < base) ⊎ (base + frames * c.output_channels ≤ k)
        → buffer' k ≡ buffer k
    write_bounds frames base c c' buffer buffer' v e k far =
        OnSome-elim (λ x. x.1 k ≡ buffer k) _ (pull_miss refill ok frames base c buffer k v far)
          (sym (write-pull frames base c buffer v) ∙ e)
