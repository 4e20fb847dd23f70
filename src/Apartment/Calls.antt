-- ===== src/Apartment/Calls.antt =====
-- The steps of the callers keep the invariant.
use audio_io.Prelude.{
  ◌&&◌, not, ℕ, ◌≡◌, ◌≢◌, ◌<◌, arith, ap, refl, some, none, Option, Bool, true, false, subst, sym,
  ◌∙◌, [], ◌∷◌, ◌==◌, ℕ_discrete,
}
use audio_io.Prelude.Threads.{total-update, update}
use audio_io.Apartment.{
  sta_task, CallerAt, outside, posting, waiting, fulfilled, Apartment, exchange_task, begin_call,
  send_message, call_step,
}
use audio_io.Apartment.Invariant.{tasks-append, posts, owes, has_run, held, Inv, of_some}

elsewhere :
    (pc : ℕ → CallerAt) (i j : ℕ) (p : CallerAt)
    → owes p ≡ owes (pc i)
    → owes (update pc i p j) ≡ owes (pc j)
elsewhere pc i j p same = ground arith

still_waiting :
    (pc : ℕ → CallerAt) (i j : ℕ) (p : CallerAt)
    → pc j ≡ waiting
    → pc i ≢ waiting
    → update pc i p j ≡ waiting
still_waiting pc i j p waits other = elim (ℕ_discrete j i) [
  | yes same ↦ absurd (other (ap pc (sym same) ∙ waits))
  | no apart ↦ let test : (j == i) ≡ false = ground arith in rw test waits
]

here_now : (pc : ℕ → CallerAt) (i : ℕ) (p : CallerAt) → update pc i p i ≡ p
here_now pc i p = ground arith

of_task : {i j : ℕ} → some i ≡ some j → i ≡ j
of_task e = of_some e

exchange_task-Inv :
    {n : ℕ} (task : Option ℕ) (i : ℕ) (a : Apartment)
    → a.current_task ≡ task
    → a.caller_at i ≡ outside
    → a.ready ≡ true
    → i < n
    → Inv n a
    → Inv n (exchange_task task i a)
unfolding exchange_task
exchange_task-Inv (some other) i a current now ready lt v = v
exchange_task-Inv {n} none i a nothing now ready lt v = record {
  one_task = omega (
    arith,
    v.one_task,
    ap held nothing,
    ap posts now,
    total-update posts n a.caller_at i posting lt,
  );
  owned = λ j c nc.
      subst (λ k. (k < n) × (owes (update a.caller_at i posting k) ≡ 1)) (of_task c)
        (lt, ap owes (here_now a.caller_at i posting));
  right = λ j r. absurd (cc (nothing, (v.right j r).0));
  early = λ s. absurd (cc (ready, (v.early s).0));
  alive = v.alive;
  counted =
      omega (arith, v.counted, ap has_run now, total-update has_run n a.caller_at i posting lt);
}

begin_call-Inv :
    {n : ℕ} (open_now : Bool) (i : ℕ) (a b : Apartment)
    → a.caller_at i ≡ outside
    → (open_now ≡ true → a.ready ≡ true)
    → i < n
    → begin_call open_now i a ≡ some b
    → Inv n a
    → Inv n b
unfolding begin_call
begin_call-Inv false i a b now ready lt e v = absurd (cc e)
begin_call-Inv {n} true i a b now ready lt e v =
    subst (Inv n) (of_some e) (exchange_task-Inv a.current_task i a refl now (ready refl) lt v)

is_ready : (ready closing : Bool) → (ready && not closing) ≡ true → ready ≡ true
is_ready ready closing e = ground arith

pub call_step-Inv :
    {n : ℕ} (at : CallerAt) (i : ℕ) (a b : Apartment)
    → a.caller_at i ≡ at
    → i < n
    → call_step at i a ≡ some b
    → Inv n a
    → Inv n b
unfolding call_step send_message
call_step-Inv outside i a b now lt e v =
    begin_call-Inv (a.ready && not a.closing) i a b now (is_ready a.ready a.closing) lt e v
call_step-Inv {n} posting i a b now lt e v = subst (Inv n) (of_some e) (record {
  one_task = omega (
    arith,
    v.one_task,
    ap posts now,
    tasks-append a.messages (sta_task ∷ []),
    total-update posts n a.caller_at i waiting lt,
  );
  owned = λ j c nc.
      let (lt', mine) = v.owned j c nc in
      (lt', elsewhere a.caller_at i j waiting (ap owes (sym now)) ∙ mine);
  right = λ j r.
      let (current, waits) = v.right j r in
      (current, still_waiting a.caller_at i j waiting waits (λ w. cc (now, w)));
  early = λ s. absurd (cc (now, (v.early s).2 i));
  alive = v.alive;
  counted =
      omega (arith, v.counted, ap has_run now, total-update has_run n a.caller_at i waiting lt);
})
call_step-Inv waiting i a b now lt e v = absurd (cc e)
call_step-Inv {n} fulfilled i a b now lt e v = subst (Inv n) (of_some e) (record {
  one_task = omega (arith, v.one_task, ap posts now, total-update posts n a.caller_at i outside lt);
  owned = λ j c nc.
      let (lt', mine) = v.owned j c nc in
      (lt', elsewhere a.caller_at i j outside (ap owes (sym now)) ∙ mine);
  right = λ j r.
      let (current, waits) = v.right j r in
      (current, still_waiting a.caller_at i j outside waits (λ w. cc (now, w)));
  early = λ s. absurd (cc (now, (v.early s).2 i));
  alive = v.alive;
  counted =
      omega (arith, v.counted, ap has_run now, total-update has_run n a.caller_at i outside lt);
})
