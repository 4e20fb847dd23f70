-- ===== src/Latency/Tests.antt =====
-- The latency theorems at a history of three passes, with times and latencies in natural numbers.
use audio_io.Prelude.{
  ℕ, ◌+◌, ◌-◌, ◌*◌, ◌/◌, ◌<◌, ◌≡◌, ◌⊎◌, refl, arith, true, false, some, List, [], ◌∷◌, ltb,
}
use audio_io.Latency.{
  Double, Ordered, LatencyPredictor, create, Call, began, ended, underran, calls, predict_latency,
}
use audio_io.Latency.Interface.{Use, pass, underrun}
use audio_io.Latency.Window.{pass_time, predict_latency_lem}
use audio_io.Latency.Bounds.{IsValid, create-IsValid}

abbrev naturals : Double
naturals = record {
  D = ℕ;
  lt = ltb;
  add = ◌+◌;
  mul = ◌*◌;
  div = ◌/◌;
  of_int = λ n. n;
  thousandths = λ n. n;
  round = λ n. n;
  Time = ℕ;
  epoch = 0;
  seconds = λ a b. b - a;
}

ltb_asym : (a b : ℕ) → ltb a b ≡ true → ltb b a ≡ false
ltb_asym a b e = ground arith

ltb_compare_with : (a b c : ℕ) → ltb a c ≡ true → (ltb a b ≡ true) ⊎ (ltb b c ≡ true)
ltb_compare_with a b c e = ground arith

ltb_increment_up : (a : ℕ) → ltb (5 + a) a ≡ false
ltb_increment_up a = ground arith

abbrev naturals-Ordered : Ordered naturals
naturals-Ordered = record {
  asym = ltb_asym;
  compare_with = ltb_compare_with;
  increment_up = ltb_increment_up;
}

-- Latencies from 10 to 40, at first 20.
abbrev fresh : LatencyPredictor naturals
unfolding create
fresh = create naturals 3 10 20 40

fresh-IsValid : IsValid naturals naturals-Ordered fresh
unfolding fresh
fresh-IsValid = create-IsValid naturals naturals-Ordered 3 10 20 40 (omega arith) refl refl

-- A pass of 50 is cut to the maximum, and an underrun follows.
abbrev history : List (Call naturals)
history = underran ∷ ended 57 ∷ began 7 ∷ []

predict_latency_lem_example :
    (q : LatencyPredictor naturals) × (calls naturals history (create naturals 3 10 20 40) ≡ some q)
    × ((k : ℕ)
        → k < 3
        → ltb (predict_latency naturals q) (pass_time naturals 20 history k) ≡ true
        → predict_latency naturals q ≡ 40)
    × ((predict_latency naturals q ≡ q.min_allowed_latency)
        ⊎ (predict_latency naturals q ≡ 40)
        ⊎ ((k : ℕ) × (k < 3) × (predict_latency naturals q ≡ pass_time naturals 20 history k)))
predict_latency_lem_example =
    predict_latency_lem naturals naturals-Ordered 3 10 20 40 history (omega arith) refl refl

-- Passes of 50 and 12, and an underrun before the last one.
abbrev uses : List (Use naturals)
uses = pass 90 102 ∷ underrun ∷ pass 7 57 ∷ []
