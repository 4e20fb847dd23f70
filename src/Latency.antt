-- ===== src/Latency.antt =====
-- LatencyPredictor: include/audio_io/private/latency_predictor.hpp and
-- src/audio_io/common/latency_predictor.cpp. `double` and the clock are parameters; `none` is
-- undefined behaviour: a history of length 0 has no largest element, and its index is taken
-- modulo 0.
pub mod Numbers
pub mod Bounds
pub mod Window
pub mod Interface
mod Tests
use audio_io.Prelude.{
  ℕ, zero, suc, ◌+◌, ◌-◌, ◌%◌, ◌≡◌, ◌⊎◌, Bool, true, false, Option, none, some, List, [], ◌∷◌, ◌==◌,
  ltb, if◌then◌else◌, ◌>>=◌,
}
use audio_io.Sample.{modify}
use audio_io.Memory.{Memory, new_array, delete_array}

-- `double`, except for NaN, and `high_resolution_clock`: `seconds` is the time between two points.
pub record Double : Type 1 where
  pub D : Type 0
  pub lt : D → D → Bool
  pub add : D → D → D
  pub mul : D → D → D
  pub div : D → D → D
  pub of_int : ℕ → D
  -- the constant n / 1000
  pub thousandths : ℕ → D
  -- `(int)round(x)`, and 0 for a negative number of blocks
  pub round : D → ℕ
  pub Time : Type 0
  pub epoch : Time
  pub seconds : Time → Time → D

-- 5 milliseconds.
abbrev pub latency_increment_for_underrun : (d : Double) → d.D
latency_increment_for_underrun d = d.thousandths 5

-- The order of the numbers, and that adding the increment makes no number smaller.
pub record Ordered (d : Double) : Type 0 where
  pub asym : (a b : d.D) → d.lt a b ≡ true → d.lt b a ≡ false
  pub compare_with : (a b c : d.D) → d.lt a c ≡ true → (d.lt a b ≡ true) ⊎ (d.lt b c ≡ true)
  pub increment_up : (a : d.D) → d.lt (d.add (latency_increment_for_underrun d) a) a ≡ false

-- The allocation of the constructor, and ~LatencyPredictor.
unfoldable pub allocate : Memory → ℕ × Memory
unfolding new_array
allocate m = new_array m

unfoldable pub destroy : ℕ → Memory → Option Memory
unfolding delete_array
destroy history m = delete_array history m

module _ (d : Double) where
  open d use {D, lt, add, mul, div, of_int, round, Time, epoch, seconds}

  pub record LatencyPredictor : Type 0 where
    pub history : ℕ → D
    pub history_length : ℕ
    pub write_pointer : ℕ
    pub min_allowed_latency : D
    pub max_allowed_latency : D
    pub last_predicted_latency : D
    pub pass_start_time : Time

  -- The constructor.
  unfoldable pub create : ℕ → D → D → D → LatencyPredictor
  create history_length min_allowed start_latency max_allowed = record {
    history = λ _. start_latency;
    history_length = history_length;
    write_pointer = 0;
    min_allowed_latency = min_allowed;
    max_allowed_latency = max_allowed;
    last_predicted_latency = start_latency;
    pass_start_time = epoch;
  }

  -- `*std::max_element(history, history + n + 1)`
  unfoldable pub max_element : (ℕ → D) → ℕ → D
  max_element history zero = history 0
  max_element history (suc n) =
      let largest = max_element history n in
      if lt largest (history (suc n)) then history (suc n) else largest

  unfoldable pub do_prediction : LatencyPredictor → Option LatencyPredictor
  unfolding max_element
  do_prediction p =
      if p.history_length == 0
      then none
      else (let largest = max_element p.history (p.history_length - 1) in
          let raised =
            if lt largest p.min_allowed_latency then p.min_allowed_latency else largest in
          let predicted =
            if lt p.max_allowed_latency raised then p.max_allowed_latency else raised in
          some (record p { last_predicted_latency = predicted }))

  unfoldable pub begin_pass : Time → LatencyPredictor → LatencyPredictor
  begin_pass now p = record p { pass_start_time = now }

  unfoldable pub end_pass : Time → LatencyPredictor → Option LatencyPredictor
  unfolding do_prediction
  end_pass now p = do_prediction (record p {
    history = modify p.history p.write_pointer (λ _. seconds p.pass_start_time now);
    write_pointer = (p.write_pointer + 1) % p.history_length;
  })

  unfoldable pub had_underrun : LatencyPredictor → Option LatencyPredictor
  unfolding do_prediction
  had_underrun p =
      let proposed = add (latency_increment_for_underrun d) p.last_predicted_latency in
      let capped = if lt p.max_allowed_latency proposed then p.max_allowed_latency else proposed in
      do_prediction (record p { min_allowed_latency = capped })

  unfoldable pub predict_latency : LatencyPredictor → D
  predict_latency p = p.last_predicted_latency

  unfoldable pub predict_latency_in_blocks : ℕ → ℕ → LatencyPredictor → ℕ
  unfolding predict_latency
  predict_latency_in_blocks block_frames sr p =
      let block_duration = div (of_int block_frames) (of_int sr) in
      let blocks = round (div (predict_latency p) block_duration) in
      let adjusted =
        if lt p.max_allowed_latency (mul (of_int blocks) block_duration)
        then blocks - 1
        else if lt (mul (of_int blocks) block_duration) p.min_allowed_latency
        then blocks + 1
        else blocks in
      if ltb adjusted 2 then 2 else adjusted

  -- What the object's owner calls.
  pub data Call : Type 0 where
    began ended : Time → Call
    underran : Call

  unfoldable pub call : Call → LatencyPredictor → Option LatencyPredictor
  call (began now) p = some (begin_pass now p)
  call (ended now) p = end_pass now p
  call underran p = had_underrun p

  -- The latest call is the head of the list.
  unfoldable pub calls : List Call → LatencyPredictor → Option LatencyPredictor
  unfolding call
  calls [] p = some p
  calls (c ∷ cs) p = calls cs p >>= call c
