-- ===== src/Converter/Ends.antt =====
-- The end of the two loops behind SampleFormatConverter::write, and what it needs of the resampler.
use audio_io.Prelude.{
  ℕ, zero, suc, ◌+◌, ◌-◌, ◌*◌, ◌≤◌, ◌<◌, ◌≡◌, ◌≢◌, ◌⊎◌, inl, inr, refl, ◌∙◌, arith, Option, some,
  true, false, ◌==◌, ltb, Bool-cases, ℕ_discrete, ltb→lt, OnSome-elim,
}
use audio_io.Sample.{Float, Buffer}
use audio_io.Converter.{
  Client, ResamplerLib, Converter, resample, refill_same_rate, refill_resampled,
  refill_output_buffer, write,
}
use audio_io.Converter.Frames.{pull}
use audio_io.Converter.Write.{IsValid}
use audio_io.Converter.Refill.{refill_output_buffer-Refills, refill_output_buffer_lem, SameFormat}
use audio_io.Converter.Chunks.{write-pull}

-- A resampler has a delay, a number of blocks: it writes at most what it is asked for, it writes
-- something if it owes no block, and every block that it reads lowers what it owes.
pub record Productive {fl : Float} (lib : ResamplerLib fl) : Type 0 where
  pub owed : lib.Resampler → ℕ
  pub delay : ℕ
  pub owed-le : (r : lib.Resampler) → owed r ≤ delay
  pub write-le : (r : lib.Resampler) (b : Buffer fl) (p max : ℕ) → (lib.write r b p max).0 ≤ max
  pub write_some :
      (r : lib.Resampler) (b : Buffer fl) (p max : ℕ)
      → 0 < max
      → owed r ≡ 0
      → 0 < (lib.write r b p max).0
  pub write_none :
      (r : lib.Resampler) (b : Buffer fl) (p max : ℕ)
      → (lib.write r b p max).0 ≡ 0
      → owed (lib.write r b p max).2 ≤ owed r
  pub read_owed : (r : lib.Resampler) (b : Buffer fl) → owed (lib.read r b) ≤ owed r - 1

module _ (fl : Float) (client : Client fl) (lib : ResamplerLib fl) (good : Productive lib) where
  open good use {owed, delay}

  abbrev Conv : Type 0
  Conv = Converter fl client lib

  -- the rounds that the resampling loop may take for `n` frames
  abbrev pub enough : ℕ → ℕ
  enough n = n * (delay + 1) + delay + 2

  rounds-le : (n m : ℕ) → suc n ≤ m → n * (delay + 1) + delay + 1 ≤ m * (delay + 1)
  rounds-le n m h = grind arith

  resample_ends :
      (fuel ic required got : ℕ) (c : Conv) (r : lib.Resampler)
      → got ≤ required
      → (required - got) * (delay + 1) + owed r + 1 ≤ fuel
      → (x : Conv × lib.Resampler) × (resample fl client lib fuel ic required got c r ≡ some x)
  unfolding resample
  resample_ends zero ic required got c r le f = absurd (omega arith)
  resample_ends (suc fuel) ic required got c r le f = elim (Bool-cases (ltb got required)) [
    | inl go_on ↦ elim (Bool-cases (ltb (got + n) required)) [
      | inl short ↦
          rw (go_on, resample, short)
            (resample_ends fuel ic required (got + n) _ _ fits (elim (ℕ_discrete n 0) [
              | yes nothing ↦ quiet nothing (ltb→lt got required go_on) _
              | no something ↦ moved something (ltb→lt got required go_on) _
            ]))
      | inr whole ↦
          rw (go_on, resample, whole)
            (resample_ends fuel ic required (got + n) _ _ fits
              (over whole (ltb→lt got required go_on)))
    ]
    | inr stop ↦ ((c, r), rw (stop, resample))
  ]
    where
      written : ℕ × Buffer fl × lib.Resampler
      written = lib.write r c.resampler_workspace (got * ic) (required - got)

      n : ℕ
      n = written.0

      fits : got + n ≤ required
      fits = omega (arith, good.write-le r c.resampler_workspace (got * ic) (required - got))

      quiet :
          n ≡ 0
          → got < required
          → (b : Buffer fl)
          → (required - (got + n)) * (delay + 1) + owed (lib.read written.2 b) + 1 ≤ fuel
      quiet nothing lt b =
          let same : required - (got + n) ≡ required - got = omega arith in
          let owes : owed r ≢ 0 = λ none_owed. omega (
            arith,
            good.write_some r c.resampler_workspace (got * ic) (required - got) (omega arith)
                none_owed,
          ) in
          rw same (
            omega (
              arith,
              owes,
              good.read_owed written.2 b,
              good.write_none r c.resampler_workspace (got * ic) (required - got) nothing,
            ))

      moved :
          n ≢ 0
          → got < required
          → (b : Buffer fl)
          → (required - (got + n)) * (delay + 1) + owed (lib.read written.2 b) + 1 ≤ fuel
      moved something lt b = omega (
        arith,
        good.owed-le (lib.read written.2 b),
        rounds-le (required - (got + n)) (required - got) (omega arith),
      )

      over :
          ltb (got + n) required ≡ false
          → got < required
          → (required - (got + n)) * (delay + 1) + owed written.2 + 1 ≤ fuel
      over whole lt =
          let none_left : required - (got + n) ≡ 0 = ground arith in
          rw none_left
            (omega (arith, good.owed-le written.2, rounds-le 0 (required - got) (omega arith)))

  -- What a call of write needs: a valid converter, and a resampler if the sample rates differ.
  pub record Runs (frames : ℕ) (c : Conv) : Type 0 where
    pub valid : IsValid fl client lib c
    pub block : c.output_frames ≡ frames
    pub resampled : (c.input_sr ≡ c.output_sr) ⊎ ((r : lib.Resampler) × (c.resampler ≡ some r))

  module _ (resample_fuel frames : ℕ) (fuel : enough frames ≤ resample_fuel) where
    abbrev refill : Conv → Option Conv
    refill = refill_output_buffer fl client lib resample_fuel

    resampler-refill_resampled :
        (c : Conv) → (refill_resampled fl client lib c).resampler ≡ c.resampler
    unfolding refill_resampled
    resampler-refill_resampled c = ground arith

    refill-Runs :
        (c c' : Conv)
        → Runs frames c
        → refill c ≡ some c'
        → (c.input_sr ≡ c.output_sr) ⊎ ((r : lib.Resampler) × (c'.resampler ≡ some r))
        → Runs frames c'
    refill-Runs c c' runs e res =
        let (same, start) =
          OnSome-elim (λ c'. SameFormat fl client lib c c' × (c'.consumed_output_frames ≡ 0)) _
            (refill_output_buffer_lem fl client lib resample_fuel c) e in
        record {
          valid = record { some_frames = omega arith; within = omega arith };
          block = omega arith;
          resampled = elim res [ inl h ↦ inl (omega arith) | inr h ↦ inr h ];
        }

    refill_equal_rates :
        (c : Conv)
        → c.input_sr ≡ c.output_sr
        → refill c ≡ some (record (refill_same_rate fl client lib c) { consumed_output_frames = 0 })
    unfolding refill_output_buffer
    refill_equal_rates c same =
        let test : (c.input_sr == c.output_sr) ≡ true = ground arith in rw test

    refill_other_rates :
        (c : Conv)
        → c.input_sr ≢ c.output_sr
        → c.output_frames ≡ frames
        → (r : lib.Resampler) → c.resampler ≡ some r
        → (c' : Conv) × (refill c ≡ some c') × ((r : lib.Resampler) × (c'.resampler ≡ some r))
    unfolding refill_output_buffer
    refill_other_rates c differ block r present =
        let test : (c.input_sr == c.output_sr) ≡ false = ground arith in
        let (x, filled) =
          resample_ends resample_fuel c.input_channels c.output_frames 0 c r (omega arith) room in
        let c' = refill_resampled fl client lib (record (x.0) { resampler = some x.1 }) in
        (
          record c' { consumed_output_frames = 0 },
          simp (test, present, filled),
          (x.1, resampler-refill_resampled _),
        )
      where
        room : (c.output_frames - 0) * (delay + 1) + owed r + 1 ≤ resample_fuel
        room =
            let same : c.output_frames - 0 ≡ frames = omega arith in
            rw same (omega (arith, good.owed-le r))

    refill_ends : (c : Conv) → Runs frames c → (c' : Conv) × (refill c ≡ some c') × Runs frames c'
    refill_ends c runs = elim (ℕ_discrete c.input_sr c.output_sr) [
      | yes same ↦ let e = refill_equal_rates c same in (_, e, refill-Runs c _ runs e (inl same))
      | no differ ↦ elim runs.resampled [
        | inl same ↦ absurd (differ same)
        | inr (r, present) ↦
            let (c', e, res) = refill_other_rates c differ runs.block r present in
            (c', e, refill-Runs c c' runs e (inr res))
      ]
    ]

    next :
        (c : Conv)
        → Runs frames c
        → c.consumed_output_frames < c.output_frames
        → Runs frames (record c { consumed_output_frames = c.consumed_output_frames + 1 })
    next c runs lt = record {
      valid = record { some_frames = runs.valid.some_frames; within = omega arith };
      block = runs.block;
      resampled = runs.resampled;
    }

    pull_ends :
        (n pos : ℕ) (c : Conv) (buffer : Buffer fl)
        → Runs frames c
        → (x : Conv × Buffer fl) × (pull fl client lib refill n pos c buffer ≡ some x)
          × Runs frames x.0
    unfolding pull
    pull_ends zero pos c buffer runs = ((c, buffer), refl, runs)
    pull_ends (suc n) pos c buffer runs =
        elim (ℕ_discrete (c.output_frames - c.consumed_output_frames) 0) [
          | yes empty ↦
              let test : (c.output_frames - c.consumed_output_frames == 0) ≡ true = ground arith in
              let (c', e, runs') = refill_ends c runs in
              let new = refill_output_buffer-Refills fl client lib resample_fuel c c' e in
              rw (test, e) (pull_ends n _ _ _ (next c' runs' (omega arith)))
          | no more ↦
              let test : (c.output_frames - c.consumed_output_frames == 0) ≡ false = ground arith in
              rw test (pull_ends n _ _ _ (next c runs (omega arith)))
        ]

    pub write_ends :
        (count base : ℕ) (c : Conv) (buffer : Buffer fl)
        → Runs frames c
        → (x : Conv × Buffer fl) × (write fl client lib resample_fuel count base c buffer ≡ some x)
          × Runs frames x.0
    write_ends count base c buffer runs =
        let (x, e, runs') = pull_ends count base c buffer runs in
        (x, write-pull fl client lib resample_fuel count base c buffer runs.valid ∙ e, runs')
