-- ===== src/Latency/Bounds.antt =====
-- The predicted latency between the bounds, and what an underrun does to it.
use audio_io.Prelude.{
  ℕ, ◌+◌, ◌-◌, ◌%◌, ◌<◌, ◌≡◌, ◌⊎◌, inl, inr, refl, ap, ◌∙◌, arith, true, false, some, List, [], ◌∷◌,
  ◌==◌, if◌then◌else◌, ◌>>=◌,
}
use native.Mathlib.Nat.{mod-lt}
use audio_io.Sample.{modify}
use audio_io.Latency.{
  latency_increment_for_underrun, Double, Ordered, LatencyPredictor, create, max_element,
  do_prediction, begin_pass, end_pass, had_underrun, Call, began, ended, underran, call, calls,
}
use audio_io.Latency.Numbers.{irreflexive, not_below, max_element_lem, clamp, clamp_lem}

module _ (d : Double) (laws : Ordered d) where
  open d use {D, lt, Time}

  -- What holds of the object between two calls.
  pub record IsValid (p : LatencyPredictor d) : Type 0 where
    pub some_history : 0 < p.history_length
    pub pointer : p.write_pointer < p.history_length
    pub above_min : lt p.last_predicted_latency p.min_allowed_latency ≡ false
    pub below_max : lt p.max_allowed_latency p.last_predicted_latency ≡ false

  pub ordered :
      (p : LatencyPredictor d) → IsValid p → lt p.max_allowed_latency p.min_allowed_latency ≡ false
  ordered p v =
      not_below d laws p.max_allowed_latency p.last_predicted_latency p.min_allowed_latency
        v.below_max v.above_min

  pub do_prediction_lem :
      (p : LatencyPredictor d)
      → 0 < p.history_length
      → do_prediction d p
        ≡ some (record p {
          last_predicted_latency =
              clamp d laws p.min_allowed_latency p.max_allowed_latency
                (max_element d p.history (p.history_length - 1));
        })
  unfolding do_prediction
  do_prediction_lem p some_history =
      let test : (p.history_length == 0) ≡ false = ground arith in rw test

  capped_reaches :
      (high x v : D)
      → lt v (if lt high x then high else x) ≡ false
      → (lt v x ≡ false) ⊎ (lt v high ≡ false)
  capped_reaches high x v e = ground arith

  pub create-IsValid :
      (n : ℕ) (low start high : D)
      → 0 < n
      → lt start low ≡ false
      → lt high start ≡ false
      → IsValid (create d n low start high)
  unfolding create
  create-IsValid n low start high pos above below = record {
    some_history = pos;
    pointer = pos;
    above_min = above;
    below_max = below;
  }

  -- What every call keeps: a valid object, the maximum, and that the minimum does not sink.
  pub record Follows (p q : LatencyPredictor d) : Type 0 where
    pub valid : IsValid q
    pub same_max : q.max_allowed_latency ≡ p.max_allowed_latency
    pub risen : lt q.min_allowed_latency p.min_allowed_latency ≡ false

  -- For a valid predictor, a pass that ends puts its time into the history, at the pointer, and the
  -- new prediction is below no time of the history, unless it is the greatest that is allowed.
  pub end_pass_lem :
      (now : Time) (p : LatencyPredictor d)
      → IsValid p
      → (q : LatencyPredictor d) × (end_pass d now p ≡ some q)
        × Follows p q
        × (q.history p.write_pointer ≡ d.seconds p.pass_start_time now)
        × ((i : ℕ)
            → i < q.history_length
            → lt q.last_predicted_latency (q.history i) ≡ true
            → q.last_predicted_latency ≡ q.max_allowed_latency)
  unfolding end_pass
  end_pass_lem now p v =
      let stored = modify p.history p.write_pointer (λ _. d.seconds p.pass_start_time now) in
      let largest = max_element d stored (p.history_length - 1) in
      let (above, below, covers) =
        clamp_lem d laws p.min_allowed_latency p.max_allowed_latency largest (ordered p v) in
      (
        record p {
          history = stored;
          write_pointer = (p.write_pointer + 1) % p.history_length;
          last_predicted_latency = clamp d laws p.min_allowed_latency p.max_allowed_latency largest;
        },
        do_prediction_lem
            (record p {
              history = stored;
              write_pointer = (p.write_pointer + 1) % p.history_length;
            })
            v.some_history,
        record {
          valid = record {
            some_history = v.some_history;
            pointer = mod-lt (p.write_pointer + 1) v.some_history;
            above_min = above;
            below_max = below;
          };
          same_max = refl;
          risen = irreflexive d laws p.min_allowed_latency;
        },
        ground arith,
        λ i li less. elim covers [
          | inl over ↦ absurd (
              cc (
                less,
                not_below d laws (clamp d laws p.min_allowed_latency p.max_allowed_latency largest)
                    largest (stored i) over
                    (max_element_lem d laws stored (p.history_length - 1) i (omega arith)),
              ))
          | inr capped ↦ capped
        ],
      )

  -- For a valid predictor, an underrun does not lower the prediction, and raises it by at least the
  -- increment or to the greatest that is allowed.
  pub had_underrun_lem :
      (p : LatencyPredictor d)
      → IsValid p
      → (q : LatencyPredictor d) × (had_underrun d p ≡ some q)
        × Follows p q
        × (lt q.last_predicted_latency p.last_predicted_latency ≡ false)
        × ((lt q.last_predicted_latency
                (d.add (latency_increment_for_underrun d) p.last_predicted_latency)
              ≡ false)
            ⊎ (lt q.last_predicted_latency q.max_allowed_latency ≡ false))
  unfolding had_underrun
  had_underrun_lem p v =
      let proposed = d.add (latency_increment_for_underrun d) p.last_predicted_latency in
      let capped = if lt p.max_allowed_latency proposed then p.max_allowed_latency else proposed in
      let largest = max_element d p.history (p.history_length - 1) in
      let fits : lt p.max_allowed_latency capped ≡ false =
        ground (arith, irreflexive d laws p.max_allowed_latency) in
      let rises : lt capped p.last_predicted_latency ≡ false =
        ground (arith, laws.increment_up p.last_predicted_latency, v.below_max) in
      let (above, below, _) = clamp_lem d laws capped p.max_allowed_latency largest fits in
      (
        record p {
          min_allowed_latency = capped;
          last_predicted_latency = clamp d laws capped p.max_allowed_latency largest;
        },
        do_prediction_lem (record p { min_allowed_latency = capped }) v.some_history,
        record {
          valid = record {
            some_history = v.some_history;
            pointer = v.pointer;
            above_min = above;
            below_max = below;
          };
          same_max = refl;
          risen =
              not_below d laws capped p.last_predicted_latency p.min_allowed_latency rises
                v.above_min;
        },
        not_below d laws _ capped p.last_predicted_latency above rises,
        capped_reaches p.max_allowed_latency proposed _ above,
      )

  pub call-Follows :
      (c : Call d) (p : LatencyPredictor d)
      → IsValid p
      → (q : LatencyPredictor d) × (call d c p ≡ some q) × Follows p q
  unfolding call begin_pass
  call-Follows (began now) p v = (
    record p { pass_start_time = now },
    refl,
    record {
      valid = record {
        some_history = v.some_history;
        pointer = v.pointer;
        above_min = v.above_min;
        below_max = v.below_max;
      };
      same_max = refl;
      risen = irreflexive d laws p.min_allowed_latency;
    },
  )
  call-Follows (ended now) p v = let (q, e, f, _, _) = end_pass_lem now p v in (q, e, f)
  call-Follows underran p v = let (q, e, f, _, _) = had_underrun_lem p v in (q, e, f)

  pub Follows-refl : (p : LatencyPredictor d) → IsValid p → Follows p p
  Follows-refl p v = record {
    valid = v;
    same_max = refl;
    risen = irreflexive d laws p.min_allowed_latency;
  }

  pub Follows-trans : (p q r : LatencyPredictor d) → Follows p q → Follows q r → Follows p r
  Follows-trans p q r f g = record {
    valid = g.valid;
    same_max = g.same_max ∙ f.same_max;
    risen =
        not_below d laws r.min_allowed_latency q.min_allowed_latency p.min_allowed_latency g.risen
          f.risen;
  }

  -- A valid predictor never fails, whatever calls are made and in whatever order: it stays valid, so
  -- its prediction lies between its least and its greatest allowed latency and its pointer inside
  -- the history; the greatest stays as it was, and the least does not sink.
  pub calls_lem :
      (cs : List (Call d)) (p : LatencyPredictor d)
      → IsValid p
      → (q : LatencyPredictor d) × (calls d cs p ≡ some q) × Follows p q
  unfolding calls
  calls_lem [] p v = (p, refl, Follows-refl p v)
  calls_lem (c ∷ cs) p v =
      let (q, e, f) = calls_lem cs p v in
      let (r, e', g) = call-Follows c q f.valid in
      (r, ap (λ o. o >>= call d c) e ∙ e', Follows-trans p q r f g)
