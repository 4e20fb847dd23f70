-- ===== src/Converter/SameRate.antt =====
-- What src/audio_io/format_conversion/sample_format_converter.cpp writes at equal sample rates, in
-- terms of the callback's blocks.
use audio_io.Prelude.{
  leb, ltb, ◌&&◌, ℕ, zero, suc, ◌+◌, ◌-◌, ◌*◌, ◌<◌, ◌≡◌, refl, sym, ap, ◌∙◌, arith, true, false,
  some, ◌==◌, if◌then◌else◌, Bool-cases, inl, inr, subst,
}
use audio_io.Sample.{Float, Buffer}
use audio_io.Mixing.Remix.{choose_interleaved, remix_audio_interleaved}
use audio_io.Mixing.Cells.{place, place-lt, mixed}
use audio_io.Mixing.Interleaved.{remix_audio_interleaved-mixed}
use audio_io.Converter.{
  Client, ResamplerLib, Converter, copy, refill_same_rate, refill_output_buffer, write, create,
}
use audio_io.Converter.Frames.{pull, pull_run}
use audio_io.Converter.Write.{IsValid, pull_refilled}
use audio_io.Converter.Chunks.{write-pull}

module _ (fl : Float) (client : Client fl) (lib : ResamplerLib fl) where
  open fl use {F, lit}
  open client use {World, callback}

  abbrev Conv : Type 0
  Conv = Converter fl client lib

  module _ (world : World) (frames ic oc : ℕ) where
    -- The program and its buffer after `n` blocks; every block is mixed into the same buffer.
    pub called : ℕ → World × Buffer fl
    called zero = (world, λ _. lit 0)
    called (suc n) = callback (called n).0 (called n).1 ic

    -- The sample of channel `r` in frame `i` of block `n`, in the channels of the output.
    pub block_sample : ℕ → ℕ → ℕ → F
    block_sample n i r =
        if ic == oc
        then (called (suc n)).1 (place oc i r)
        else mixed fl (choose_interleaved ic oc) ic (λ c. (called (suc n)).1 (place ic i c)) r
            (lit 0)

    -- A converter at equal sample rates from which `n` blocks were taken, and the last one is used up.
    pub record After (n : ℕ) (c : Conv) : Type 0 where
      pub rates : c.input_sr ≡ c.output_sr
      pub inputs : c.input_channels ≡ ic
      pub outputs : c.output_channels ≡ oc
      pub input_size : c.input_frames ≡ frames
      pub size : c.output_frames ≡ frames
      pub at : c.world ≡ (called n).0
      pub memory : (if ic == oc then c.output_buffer else c.input_buffer) ≡ (called n).1
      pub used : c.consumed_output_frames ≡ frames

    -- The same behind a refill, with the new block.
    record Fresh (n : ℕ) (c : Conv) : Type 0 where
      rates : c.input_sr ≡ c.output_sr
      inputs : c.input_channels ≡ ic
      outputs : c.output_channels ≡ oc
      input_size : c.input_frames ≡ frames
      size : c.output_frames ≡ frames
      at : c.world ≡ (called (suc n)).0
      memory : (if ic == oc then c.output_buffer else c.input_buffer) ≡ (called (suc n)).1
      samples :
          (i r : ℕ) → i < frames → r < oc → c.output_buffer (place oc i r) ≡ block_sample n i r

    refill_same :
        (n : ℕ) (c : Conv)
        → (ic == oc) ≡ true
        → After n c
        → Fresh n (refill_same_rate fl client lib c)
    unfolding refill_same_rate called block_sample
    refill_same n c same v =
        let test : (c.input_channels == c.output_channels) ≡ true =
          (λ i. v.inputs i == v.outputs i) ∙ same in
        let mine : c.output_buffer ≡ (called n).1 =
          subst (λ b. (if b then c.output_buffer else c.input_buffer) ≡ (called n).1) same
            v.memory in
        let next : Path (World × Buffer fl) (callback c.world c.output_buffer c.input_channels)
            (called (suc n)) =
          λ i. callback (v.at i) (mine i) (v.inputs i) in
        let new : Conv = record c {
          world = (callback c.world c.output_buffer c.input_channels).0;
          output_buffer = (callback c.world c.output_buffer c.input_channels).1;
        } in
        let done : refill_same_rate fl client lib c ≡ new = rw test refl in
        subst (Fresh n) (sym done) (record {
          rates = v.rates;
          inputs = v.inputs;
          outputs = v.outputs;
          input_size = v.input_size;
          size = v.size;
          at = ap (λ (x : World × Buffer fl). x.0) next;
          memory = rw same (ap (λ (x : World × Buffer fl). x.1) next);
          samples = λ i r li lr.
              rw (block_sample, same) (ap (λ (x : World × Buffer fl). x.1 (place oc i r)) next);
        })

    refill_remixed :
        (n : ℕ) (c : Conv)
        → (ic == oc) ≡ false
        → After n c
        → Fresh n (refill_same_rate fl client lib c)
    unfolding refill_same_rate called block_sample
    refill_remixed n c differ v =
        let test : (c.input_channels == c.output_channels) ≡ false =
          (λ i. v.inputs i == v.outputs i) ∙ differ in
        let mine : c.input_buffer ≡ (called n).1 =
          subst (λ b. (if b then c.output_buffer else c.input_buffer) ≡ (called n).1) differ
            v.memory in
        let next : Path (World × Buffer fl) (callback c.world c.input_buffer c.input_channels)
            (called (suc n)) =
          λ i. callback (v.at i) (mine i) (v.inputs i) in
        let mixes : Buffer fl → Buffer fl =
          λ input. remix_audio_interleaved fl frames ic input oc c.output_buffer true in
        let new : Conv = record c {
          world = (callback c.world c.input_buffer c.input_channels).0;
          input_buffer = (callback c.world c.input_buffer c.input_channels).1;
          output_buffer =
              remix_audio_interleaved fl c.input_frames c.input_channels
                (callback c.world c.input_buffer c.input_channels).1 c.output_channels
                c.output_buffer true;
        } in
        let done : refill_same_rate fl client lib c ≡ new = rw test refl in
        let output : new.output_buffer ≡ mixes (called (suc n)).1 = λ i.
          remix_audio_interleaved fl (v.input_size i) (v.inputs i) (next i).1 (v.outputs i)
            c.output_buffer true in
        subst (Fresh n) (sym done) (record {
          rates = v.rates;
          inputs = v.inputs;
          outputs = v.outputs;
          input_size = v.input_size;
          size = v.size;
          at = ap (λ (x : World × Buffer fl). x.0) next;
          memory = rw differ (ap (λ (x : World × Buffer fl). x.1) next);
          samples = λ i r li lr.
              ap (λ (p : Buffer fl). p (place oc i r)) output
              ∙ remix_audio_interleaved-mixed fl frames ic (called (suc n)).1 oc c.output_buffer
                  true i r li lr
              ∙ rw (block_sample, differ) refl;
        })

    refill-Fresh :
        (fuel n : ℕ) (c : Conv)
        → After n c
        → (c' : Conv) × (refill_output_buffer fl client lib fuel c ≡ some c')
          × Fresh n c'
          × (c'.consumed_output_frames ≡ 0)
    unfolding refill_output_buffer
    refill-Fresh fuel n c v =
        let test : (c.input_sr == c.output_sr) ≡ true = ground arith in
        let fresh : Fresh n (refill_same_rate fl client lib c) = elim (Bool-cases (ic == oc)) [
          | inl same ↦ refill_same n c same v
          | inr differ ↦ refill_remixed n c differ v
        ] in
        (
          record (refill_same_rate fl client lib c) { consumed_output_frames = 0 },
          rw test refl,
          record {
            rates = fresh.rates;
            inputs = fresh.inputs;
            outputs = fresh.outputs;
            input_size = fresh.input_size;
            size = fresh.size;
            at = fresh.at;
            memory = fresh.memory;
            samples = fresh.samples;
          },
          refl,
        )

    copied_lem :
        (source dest : Buffer fl) (from i r : ℕ)
        → from ≡ 0
        → i < frames
        → r < oc
        → copy source from (frames * oc) dest 0 (place oc i r) ≡ source (place oc i r)
    copied_lem source dest from i r start li lr =
        let inside = place-lt oc frames i r li lr in
        let at : from + (place oc i r - 0) ≡ place oc i r = omega arith in
        let test : (leb 0 (place oc i r) && ltb (place oc i r) (0 + frames * oc)) ≡ true =
          ground arith in
        rw test (ap source at)

    -- A request for one block, when the last one is used up, is one call of the program: what is written
    -- is its block, in the channels of the output.
    pub write_block :
        (fuel n : ℕ) (c : Conv) (buffer : Buffer fl)
        → 0 < frames
        → After n c
        → (x : Conv × Buffer fl) × (write fl client lib fuel frames 0 c buffer ≡ some x)
          × After (suc n) x.0
          × ((i r : ℕ) → i < frames → r < oc → x.1 (place oc i r) ≡ block_sample n i r)
    unfolding pull
    write_block fuel n c buffer pos v =
        let (c', refilled, fresh, start) = refill-Fresh fuel n c v in
        let refill = refill_output_buffer fl client lib fuel in
        let valid : IsValid fl client lib c = record {
          some_frames = omega (arith, v.size);
          within = omega (arith, v.size, v.used);
        } in
        (
          _,
          write-pull fl client lib fuel frames 0 c buffer valid
              ∙ pull_refilled fl client lib refill frames 0 c c' buffer
                  (omega (arith, v.size, v.used)) refilled
                  (λ e. omega (arith, e, fresh.size, start)) (λ e. omega (arith, e))
              ∙ pull_run fl client lib refill frames frames 0 0 c' buffer (omega arith)
                  (omega (arith, fresh.size, start)),
          record {
            rates = fresh.rates;
            inputs = fresh.inputs;
            outputs = fresh.outputs;
            input_size = fresh.input_size;
            size = fresh.size;
            at = fresh.at;
            memory = fresh.memory;
            used = omega (arith, start);
          },
          λ i r li lr.
              (λ j.
                copy c'.output_buffer (c'.consumed_output_frames * c'.output_channels)
                  (frames * fresh.outputs j) buffer 0 (place oc i r))
              ∙ copied_lem c'.output_buffer buffer _ i r (rw start (omega arith)) li lr
              ∙ fresh.samples i r li lr,
        )

    -- A converter that was made for equal sample rates.
    pub create-After :
        (rate : ℕ) (c : Conv)
        → create fl client lib world frames ic rate oc rate ≡ some c
        → After 0 c
    unfolding create called
    create-After rate c e = ground arith
