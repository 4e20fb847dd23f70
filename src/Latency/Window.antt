-- ===== src/Latency/Window.antt =====
-- The history of a LatencyPredictor as the times of its last passes.
use audio_io.Prelude.{
  ℕ, zero, suc, ◌+◌, ◌-◌, ◌%◌, ◌<◌, ◌≡◌, ◌≢◌, ◌⊎◌, inl, inr, refl, sym, subst, ap, ◌∙◌, arith, true,
  false, some, List, [], ◌∷◌, ltb, ◌==◌, if◌then◌else◌, ◌>>=◌, ℕ_discrete, some_inj,
}
use native.Mathlib.Nat.{mod_self, mod-eq_of_lt}
use audio_io.Sample.{modify}
use audio_io.Latency.{
  Double, Ordered, LatencyPredictor, create, max_element, begin_pass, end_pass, had_underrun,
  latency_increment_for_underrun, Call, began, ended, underran, call, calls, predict_latency,
}
use audio_io.Latency.Numbers.{
  irreflexive, not_below, max_element_lem, max_element_attained, clamp, clamp_lem, clamp_attained,
}
use audio_io.Latency.Bounds.{
  IsValid, Follows, ordered, do_prediction_lem, call-Follows, create-IsValid, Follows-refl,
  Follows-trans,
}

module _ (d : Double) where
  open d use {D, lt, Time}

  -- When the pass that runs after these calls began.
  abbrev pub started : List (Call d) → Time
  started [] = d.epoch
  started (began now ∷ earlier) = now
  started (ended now ∷ earlier) = started earlier
  started (underran ∷ earlier) = started earlier

  -- The time that the k-th last pass took, and `start` where there were not so many.
  abbrev pub pass_time : D → List (Call d) → ℕ → D
  pass_time start [] k = start
  pass_time start (began now ∷ earlier) k = pass_time start earlier k
  pass_time start (ended now ∷ earlier) zero = d.seconds (started earlier) now
  pass_time start (ended now ∷ earlier) (suc k) = pass_time start earlier k
  pass_time start (underran ∷ earlier) k = pass_time start earlier k

  -- How many passes ago the history was written at `i`, if the next time goes to `pointer`.
  abbrev age : ℕ → ℕ → ℕ → ℕ
  age n pointer i = if ltb i pointer then pointer - 1 - i else pointer + n - 1 - i

  age-age :
      (n pointer k : ℕ)
      → pointer < n
      → k < n
      → (age n pointer k < n) × (age n pointer (age n pointer k) ≡ k)
  age-age n pointer k lt' lk = ground arith

  -- The prediction for a history: below no time of it unless it is cut, and taken from it unless it
  -- is one of the two bounds.
  record Predicted (n : ℕ) (history : ℕ → D) (low high x : D) : Type 0 where
    covers : (i : ℕ) → i < n → lt x (history i) ≡ true → x ≡ high
    attained : (x ≡ low) ⊎ (x ≡ high) ⊎ ((i : ℕ) × (i < n) × (x ≡ history i))

module _ (d : Double) (laws : Ordered d) where
  open d use {D, lt, Time}

  clamp-Predicted :
      (n : ℕ) (history : ℕ → D) (low high : D)
      → 0 < n
      → lt high low ≡ false
      → Predicted d n history low high (clamp d laws low high (max_element d history (n - 1)))
  clamp-Predicted n history low high pos fits =
      let largest = max_element d history (n - 1) in
      let (i, li, e) = max_element_attained d laws history (n - 1) in
      let (_, _, over) = clamp_lem d laws low high largest fits in
      record {
        covers = λ j lj less. elim over [
          | inl above ↦ absurd (
              cc (
                less,
                not_below d laws _ largest (history j) above
                    (max_element_lem d laws history (n - 1) j (omega arith)),
              ))
          | inr cut ↦ cut
        ];
        attained = elim (clamp_attained d laws low high largest) [
          | inl least ↦ inl least
          | inr (inl greatest) ↦ inr (inl greatest)
          | inr (inr same) ↦ inr (inr (i, omega arith, same ∙ e))
        ];
      }

  -- What the object holds after the calls.
  record Windowed (n : ℕ) (start : D) (cs : List (Call d)) (p : LatencyPredictor d) : Type 0 where
    length_kept : p.history_length ≡ n
    stored : (i : ℕ) → i < n → p.history i ≡ pass_time d start cs (age d n p.write_pointer i)
    begun : p.pass_start_time ≡ started d cs
    predicted :
        Predicted d n p.history p.min_allowed_latency p.max_allowed_latency p.last_predicted_latency

  next_pointer :
      (n pointer : ℕ)
      → pointer < n
      → ((pointer + 1 < n) × ((pointer + 1) % n ≡ pointer + 1))
        ⊎ ((pointer + 1 ≡ n) × ((pointer + 1) % n ≡ 0))
  next_pointer n pointer lt' = elim (ℕ_discrete (pointer + 1) n) [
    | yes last ↦ inr (last, rw last (mod_self n))
    | no more ↦ inl (omega arith, mod-eq_of_lt (omega arith))
  ]

  -- The new time has the age 0, and the others are one pass older.
  next_age :
      (n pointer i : ℕ)
      → pointer < n
      → i < n
      → ((i ≡ pointer) × (age d n ((pointer + 1) % n) i ≡ 0))
        ⊎ ((i ≢ pointer) × (age d n ((pointer + 1) % n) i ≡ suc (age d n pointer i)))
  next_age n pointer i lt' li = elim (next_pointer n pointer lt') [
    | inl (room, e) ↦ rw e (ground arith)
    | inr (last, e) ↦ rw e (ground arith)
  ]

  end_pass-stored :
      (now : Time) (n : ℕ) (start : D) (cs : List (Call d)) (p : LatencyPredictor d)
      → p.write_pointer < n
      → Windowed n start cs p
      → (i : ℕ) → i < n
      → modify p.history p.write_pointer (λ _. d.seconds p.pass_start_time now) i
        ≡ pass_time d start (ended now ∷ cs) (age d n ((p.write_pointer + 1) % n) i)
  end_pass-stored now n start cs p lt' w i li = elim (next_age n p.write_pointer i lt' li) [
    | inl (here, e) ↦
        let test : (i == p.write_pointer) ≡ true = ground arith in
        rw (e, test) (ap (λ t. d.seconds t now) w.begun)
    | inr (other, e) ↦
        let test : (i == p.write_pointer) ≡ false = ground arith in rw (e, test) (w.stored i li)
  ]

  raised_fits : (high x : D) → lt high (if lt high x then high else x) ≡ false
  raised_fits high x = ground (arith, irreflexive d laws high)

  -- The object before the prediction is made.
  abbrev passed : Time → LatencyPredictor d → LatencyPredictor d
  passed now p = record p {
    history = modify p.history p.write_pointer (λ _. d.seconds p.pass_start_time now);
    write_pointer = (p.write_pointer + 1) % p.history_length;
  }

  abbrev underrun : LatencyPredictor d → LatencyPredictor d
  underrun p =
      let proposed = d.add (latency_increment_for_underrun d) p.last_predicted_latency in
      record p {
        min_allowed_latency =
            if lt p.max_allowed_latency proposed then p.max_allowed_latency else proposed;
      }

  call-Windowed :
      (c : Call d) (n : ℕ) (start : D) (cs : List (Call d)) (p q : LatencyPredictor d)
      → IsValid d laws p
      → Windowed n start cs p
      → call d c p ≡ some q
      → Windowed n start (c ∷ cs) q
  unfolding call begin_pass end_pass had_underrun
  call-Windowed (began now) n start cs p q v w e =
      subst (Windowed n start (began now ∷ cs)) (some_inj e) (record {
        length_kept = w.length_kept;
        stored = w.stored;
        begun = refl;
        predicted = w.predicted;
      })
  call-Windowed (ended now) n start cs p q v w e =
      subst (Windowed n start (ended now ∷ cs))
        (some_inj (sym (do_prediction_lem d laws (passed now p) v.some_history) ∙ e))
        (record {
          length_kept = w.length_kept;
          stored =
              rw w.length_kept
                (end_pass-stored now n start cs p (omega (arith, v.pointer, w.length_kept)) w);
          begun = w.begun;
          predicted = rw w.length_kept (
              clamp-Predicted n _ _ _ (omega (arith, v.some_history, w.length_kept))
                (ordered d laws p v));
        })
  call-Windowed underran n start cs p q v w e =
      subst (Windowed n start (underran ∷ cs))
        (some_inj (sym (do_prediction_lem d laws (underrun p) v.some_history) ∙ e))
        (record {
          length_kept = w.length_kept;
          stored = w.stored;
          begun = w.begun;
          predicted = rw w.length_kept (
              clamp-Predicted n p.history _ _ (omega (arith, v.some_history, w.length_kept))
                (raised_fits p.max_allowed_latency _));
        })

  create-Windowed :
      (n : ℕ) (low start high : D) → 0 < n → Windowed n start [] (create d n low start high)
  unfolding create
  create-Windowed n low start high pos = record {
    length_kept = refl;
    stored = λ i li. refl;
    begun = refl;
    predicted = record {
      covers = λ i li less. absurd (cc (less, irreflexive d laws start));
      attained = inr (inr (0, pos, refl));
    };
  }

  calls-Windowed :
      (n : ℕ) (low start high : D) (cs : List (Call d))
      → 0 < n
      → lt start low ≡ false
      → lt high start ≡ false
      → (q : LatencyPredictor d) × (calls d cs (create d n low start high) ≡ some q)
        × Follows d laws (create d n low start high) q
        × Windowed n start cs q
  unfolding calls
  calls-Windowed n low start high [] pos above below = (
    _,
    refl,
    Follows-refl d laws _ (create-IsValid d laws n low start high pos above below),
    create-Windowed n low start high pos,
  )
  calls-Windowed n low start high (c ∷ cs) pos above below =
      let (q, e, f, w) = calls-Windowed n low start high cs pos above below in
      let (r, e', g) = call-Follows d laws c q f.valid in
      (
        r,
        ap (λ o. o >>= call d c) e ∙ e',
        Follows-trans d laws _ q r f g,
        call-Windowed c n start cs q r f.valid w e',
      )

  -- For a history of at least one pass and a starting latency between the least and the greatest one
  -- that are allowed: a new predictor never fails, whatever calls are made. Its prediction is then
  -- below none of the times of the last passes, as many as the history has room for, unless it is the
  -- greatest that is allowed; and it is the least or the greatest that is allowed, or one of these
  -- times. Where there were fewer passes, the starting latency stands for the others.
  pub predict_latency_lem :
      (n : ℕ) (low start high : D) (cs : List (Call d))
      → 0 < n
      → lt start low ≡ false
      → lt high start ≡ false
      → (q : LatencyPredictor d) × (calls d cs (create d n low start high) ≡ some q)
        × ((k : ℕ)
            → k < n
            → lt (predict_latency d q) (pass_time d start cs k) ≡ true
            → predict_latency d q ≡ high)
        × ((predict_latency d q ≡ q.min_allowed_latency)
            ⊎ (predict_latency d q ≡ high)
            ⊎ ((k : ℕ) × (k < n) × (predict_latency d q ≡ pass_time d start cs k)))
  unfolding predict_latency create
  predict_latency_lem n low start high cs pos above below =
      let (q, e, f, w) = calls-Windowed n low start high cs pos above below in
      let inside = subst (λ m. q.write_pointer < m) w.length_kept f.valid.pointer in
      (
        q,
        e,
        λ k lk less.
            let (here, same) = age-age d n q.write_pointer k inside lk in
            w.predicted.covers (age d n q.write_pointer k) here (
              ap (lt q.last_predicted_latency) (w.stored _ here ∙ ap (pass_time d start cs) same)
              ∙ less)
            ∙ f.same_max,
        elim w.predicted.attained [
          | inl least ↦ inl least
          | inr (inl greatest) ↦ inr (inl (greatest ∙ f.same_max))
          | inr (inr (i, li, taken)) ↦ inr (
              inr (
                age d n q.write_pointer i,
                (age-age d n q.write_pointer i inside li).0,
                taken ∙ w.stored i li,
              ))
        ],
      )
