-- ===== src/Programs/Generator.antt =====
-- SineGen of src/tests/output.cpp, the callback of that program.
use audio_io.Prelude.{ℕ, ◌+◌, ◌*◌, for_below}
use audio_io.Sample.{Float, Buffer, modify}
use audio_io.Converter.{Client}

-- The arithmetic of the program, where `float` becomes `double` and back; `double n` is the double
-- nearest to n / 100000.
pub record Maths (fl : Float) : Type 1 where
  pub D : Type 0
  pub widen : fl.F → D
  pub narrow : D → fl.F
  pub mul_double : D → D → D
  pub double : ℕ → D
  pub of_int : ℕ → fl.F
  pub div : fl.F → fl.F → fl.F
  pub sub : fl.F → fl.F → fl.F
  pub sinf : fl.F → fl.F
  pub floorf : fl.F → fl.F

module _ (fl : Float) (m : Maths fl) where
  open fl use {F, add, lit}
  open m use {widen, narrow, mul_double, double, of_int, div, sub, sinf, floorf}

  pub record SineGen : Type 0 where
    pub phase : F
    pub delta : F
    pub frequency : F

  unfoldable pub create : ℕ → F → SineGen
  create sr freq = record { phase = lit 0; delta = div freq (of_int sr); frequency = freq }

  -- 0.3*sinf(2*PI*phase)
  unfoldable pub value : F → F
  value phase = narrow (
      mul_double (double 30000) (
        widen
          (sinf (narrow (mul_double (mul_double (double 200000) (double 314159)) (widen phase))))))

  -- operator(), with the global block_size.
  unfoldable pub call : ℕ → SineGen → Buffer fl → ℕ → SineGen × Buffer fl
  unfolding value
  call block_size gen block channels =
      let (played, phase) =
        for_below block_size
          (λ i s. (
            for_below channels (λ j b. modify b (i * channels + j) (λ _. value s.1)) s.0,
            add s.1 gen.delta,
          ))
          (block, gen.phase) in
      (record gen { phase = sub phase (floorf phase) }, played)

  -- The program as the library calls it back.
  abbrev pub sine_client : Client fl
  sine_client = record {
    World = ℕ × SineGen;
    callback =
        λ w block channels. let (gen, played) = call w.0 w.1 block channels in ((w.0, gen), played);
  }
