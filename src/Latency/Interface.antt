-- ===== src/Latency/Interface.antt =====
-- The class LatencyPredictor as include/audio_io/private/latency_predictor.hpp declares it, with the
-- order in which its functions are to be called.
use audio_io.Prelude.{
  ℕ, zero, suc, ◌≤◌, ◌<◌, ◌≡◌, arith, true, false, Option, some, List, [], ◌∷◌, ◌>>=◌,
}
use audio_io.Latency.{
  Double, LatencyPredictor, create, do_prediction, begin_pass, end_pass, had_underrun,
  predict_latency, predict_latency_in_blocks, Call, began, ended, underran,
}

module _ (d : Double) where
  open d use {D, lt, Time}

  -- An object cannot be copied; doPrediction is private. The clock's time is an argument.
  pub record LatencyPredictorClass : Type 1 where
    pub Object : Type 0
    pub create : ℕ → D → D → D → Object
    pub begin_pass : Time → Object → Object
    pub end_pass : Time → Object → Option Object
    pub had_underrun : Object → Option Object
    pub predict_latency : Object → D
    pub predict_latency_in_blocks : ℕ → ℕ → Object → ℕ
    pub do_prediction : Object → Option Object

  abbrev pub latency_predictor : LatencyPredictorClass
  latency_predictor = record {
    Object = LatencyPredictor d;
    create = create d;
    begin_pass = begin_pass d;
    end_pass = end_pass d;
    had_underrun = had_underrun d;
    predict_latency = predict_latency d;
    predict_latency_in_blocks = predict_latency_in_blocks d;
    do_prediction = do_prediction d;
  }

  -- beginPass before a chunk of audio is processed and endPass after it; hadUnderrun on an underrun,
  -- but not during a pass.
  pub data Use : Type 0 where
    pass : Time → Time → Use
    underrun : Use

  -- The calls of a program that keeps to this; the latest use is the head of the list.
  unfoldable pub run : (c : LatencyPredictorClass) → List Use → c.Object → Option c.Object
  run c [] o = some o
  run c (pass begin end ∷ us) o = run c us o >>= λ p. c.end_pass end (c.begin_pass begin p)
  run c (underrun ∷ us) o = run c us o >>= c.had_underrun

  -- How long the k-th last pass took, and `start` where there were not so many.
  abbrev pub duration : D → List Use → ℕ → D
  duration start [] k = start
  duration start (pass begin end ∷ us) zero = d.seconds begin end
  duration start (pass begin end ∷ us) (suc k) = duration start us k
  duration start (underrun ∷ us) k = duration start us k

  abbrev calls_of : List Use → List (Call d)
  calls_of [] = []
  calls_of (pass begin end ∷ us) = ended end ∷ began begin ∷ calls_of us
  calls_of (underrun ∷ us) = underran ∷ calls_of us

  two_blocks :
      (block_frames sr : ℕ) (p : LatencyPredictor d)
      → 2 ≤ predict_latency_in_blocks d block_frames sr p
  unfolding predict_latency_in_blocks
  two_blocks block_frames sr p = ground arith

  -- What the class promises of an object that was made with a history of `n` passes and these latencies
  -- and has been used since.
  pub record Promises (c : LatencyPredictorClass) (n : ℕ) (low start high : D) (us : List Use)
      (o : c.Object) : Type 0 where
    pub covers :
        (k : ℕ)
        → k < n
        → lt (c.predict_latency o) (duration start us k) ≡ true
        → c.predict_latency o ≡ high
    pub at_least : lt (c.predict_latency o) low ≡ false
    pub at_most : lt high (c.predict_latency o) ≡ false
    pub two_blocks : (block_frames sr : ℕ) → 2 ≤ c.predict_latency_in_blocks block_frames sr o
