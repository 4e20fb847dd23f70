-- ===== src/Apartment/Thread.antt =====
-- The steps of the apartment's thread keep the invariant.
use audio_io.Prelude.{ℕ, ◌≡◌, arith, ap, refl, some, none, Option, subst, List, [], ◌∷◌}
use audio_io.Prelude.Threads.{total-update, total-le}
use audio_io.Apartment.{
  Message, sta_task, sta_quit, window, waiting, fulfilled, ApartmentAt, starting, receiving,
  clearing, left, crashed, running, Apartment, take_task, receive, apartment_step,
}
use audio_io.Apartment.Invariant.{
  tasks, posts, has_run, busy, held, Inv, is_waiting, of_some, of_running, held-le,
}

take_task-Inv :
    {n : ℕ} (task : Option ℕ) (later : List Message) (a : Apartment)
    → a.current_task ≡ task
    → a.messages ≡ sta_task ∷ later
    → a.apartment_at ≡ receiving
    → Inv n a
    → Inv n (take_task task later a)
unfolding take_task
take_task-Inv none later a nothing same now v =
    absurd (omega (arith, v.one_task, ap tasks same, ap held nothing))
take_task-Inv {n} (some i) later a current same now v =
    let (lt, mine) = v.owned i current (λ c. cc (now, c)) in
    let all_sent : posts (a.caller_at i) ≡ 0 =
      omega
        (arith, v.one_task, ap tasks same, ap held current, total-le posts n a.caller_at i lt) in
    record {
      one_task = omega (arith, v.one_task, ap tasks same, ap busy now);
      owned = λ j c nc. v.owned j c (λ c'. cc (now, c'));
      right = λ j r.
          subst (λ k. (a.current_task ≡ some k) × (a.caller_at k ≡ waiting)) (of_running i r)
            (current, is_waiting (a.caller_at i) mine all_sent);
      early = λ c. absurd (cc c);
      alive = λ c. absurd (cc c);
      counted = v.counted;
    }

receive-Inv :
    {n : ℕ} (messages : List Message) (a b : Apartment)
    → a.messages ≡ messages
    → a.apartment_at ≡ receiving
    → receive messages a ≡ some b
    → Inv n a
    → Inv n b
unfolding receive
receive-Inv {n} [] a b same now e v = absurd (cc e)
receive-Inv {n} (sta_quit ∷ later) a b same now e v = subst (Inv n) (of_some e) (record {
  one_task = omega (arith, v.one_task, ap tasks same, ap busy now);
  owned = λ i c nc. v.owned i c (λ c'. cc (now, c'));
  right = λ i r. absurd (cc r);
  early = λ c. absurd (cc c);
  alive = λ c. absurd (cc c);
  counted = v.counted;
})
receive-Inv {n} (window ∷ later) a b same now e v = subst (Inv n) (of_some e) (record {
  one_task = omega (arith, v.one_task, ap tasks same);
  owned = v.owned;
  right = v.right;
  early = λ c. absurd (cc (now, c));
  alive = v.alive;
  counted = v.counted;
})
receive-Inv {n} (sta_task ∷ later) a b same now e v =
    subst (Inv n) (of_some e) (take_task-Inv a.current_task later a refl same now v)

pub apartment_step-Inv :
    {n : ℕ} (at : ApartmentAt) (a b : Apartment)
    → a.apartment_at ≡ at
    → apartment_step at a ≡ some b
    → Inv n a
    → Inv n b
unfolding apartment_step
apartment_step-Inv {n} starting a b now e v = subst (Inv n) (of_some e) (record {
  one_task = omega (arith, v.one_task, ap busy now);
  owned = λ i c nc. v.owned i c (λ c'. cc (now, c'));
  right = λ i r. absurd (cc r);
  early = λ c. absurd (cc c);
  alive = λ c. absurd (cc c);
  counted = v.counted;
})
apartment_step-Inv receiving a b now e v = receive-Inv a.messages a b refl now e v
apartment_step-Inv {n} (running i) a b now e v =
    let (current, waits) = v.right i now in
    let (lt, mine) = v.owned i current (λ c. cc (now, c)) in
    subst (Inv n) (of_some e) (record {
      one_task = omega (
        arith,
        v.one_task,
        ap busy now,
        ap posts waits,
        total-update posts n a.caller_at i fulfilled lt,
      );
      owned = λ j c nc. absurd (nc refl);
      right = λ j r. absurd (cc r);
      early = λ c. absurd (cc c);
      alive = λ c. absurd (cc c);
      counted =
          omega
            (arith, v.counted, ap has_run waits, total-update has_run n a.caller_at i fulfilled lt);
    })
apartment_step-Inv {n} clearing a b now e v = subst (Inv n) (of_some e) (record {
  one_task = omega (arith, v.one_task, ap busy now, held-le a.current_task);
  owned = λ i c nc. absurd (cc c);
  right = λ i r. absurd (cc r);
  early = λ c. absurd (cc c);
  alive = λ c. absurd (cc c);
  counted = v.counted;
})
apartment_step-Inv left a b now e v = absurd (cc e)
apartment_step-Inv crashed a b now e v = absurd (cc e)
