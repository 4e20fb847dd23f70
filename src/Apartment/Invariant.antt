-- ===== src/Apartment/Invariant.antt =====
-- How many tasks are under way, and whose.
use audio_io.Prelude.{
  ℕ, ◌+◌, ◌≡◌, ◌≢◌, ◌<◌, ◌≤◌, arith, ap, refl, some, none, Option, false, List, [], ◌∷◌, ◌++◌,
}
use audio_io.Prelude.Threads.{total, total_zero}
use audio_io.Apartment.{
  Message, sta_task, sta_quit, window, CallerAt, outside, posting, waiting, fulfilled, ApartmentAt,
  starting, clearing, crashed, running, Apartment, create,
}

abbrev pub tasks : List Message → ℕ
tasks [] = 0
tasks (sta_task ∷ later) = 1 + tasks later
tasks (sta_quit ∷ later) = tasks later
tasks (window ∷ later) = tasks later

pub tasks-append : (xs ys : List Message) → tasks (xs ++ ys) ≡ tasks xs + tasks ys
tasks-append [] ys = omega arith
tasks-append (sta_task ∷ xs) ys = omega (arith, tasks-append xs ys)
tasks-append (sta_quit ∷ xs) ys = tasks-append xs ys
tasks-append (window ∷ xs) ys = tasks-append xs ys

abbrev pub posts : CallerAt → ℕ
posts posting = 1
posts _ = 0

-- A call whose task has not run.
abbrev pub owes : CallerAt → ℕ
owes posting = 1
owes waiting = 1
owes _ = 0

abbrev pub has_run : CallerAt → ℕ
has_run fulfilled = 1
has_run _ = 0

abbrev pub busy : ApartmentAt → ℕ
busy clearing = 1
busy (running i) = 1
busy crashed = 1
busy _ = 0

abbrev pub held : Option ℕ → ℕ
held none = 0
held (some i) = 1

-- Before there is a queue nothing is sent, and no call has begun.
abbrev pub Silent : Apartment → Type 0
Silent a = (a.ready ≡ false) × (a.messages ≡ []) × ((i : ℕ) → a.caller_at i ≡ outside)

-- At most one task is under way: its caller is about to send the message, or its message is there, or
-- the apartment's thread has it.
pub record Inv (n : ℕ) (a : Apartment) : Type 0 where
  pub one_task :
      tasks a.messages + total posts n a.caller_at + busy a.apartment_at ≡ held a.current_task
  pub owned :
      (i : ℕ)
      → a.current_task ≡ some i
      → a.apartment_at ≢ clearing
      → (i < n) × (owes (a.caller_at i) ≡ 1)
  pub right :
      (i : ℕ) → a.apartment_at ≡ running i → (a.current_task ≡ some i) × (a.caller_at i ≡ waiting)
  pub early : a.apartment_at ≡ starting → Silent a
  pub alive : a.apartment_at ≢ crashed
  pub counted : a.ran ≡ a.returned + total has_run n a.caller_at

abbrev index_of : ℕ → ApartmentAt → ℕ
index_of i (running j) = j
index_of i _ = i

pub is_waiting : (p : CallerAt) → owes p ≡ 1 → posts p ≡ 0 → p ≡ waiting
is_waiting outside o z = absurd (omega arith)
is_waiting posting o z = absurd (omega arith)
is_waiting waiting o z = refl
is_waiting fulfilled o z = absurd (omega arith)

pub of_some : {A : Type 0} {x y : A} → some x ≡ some y → x ≡ y
of_some {x} e = ap (λ o. elim o [ none ↦ x | some z ↦ z ]) e

pub of_running : {j : ℕ} (i : ℕ) → running i ≡ running j → i ≡ j
of_running i e = ap (λ at. index_of i at) e

pub held-le : (current : Option ℕ) → held current ≤ 1
held-le none = omega arith
held-le (some i) = omega arith

pub create-Inv : (n : ℕ) → Inv n create
unfolding create
create-Inv n = record {
  one_task = omega (arith, total_zero posts n (λ _. outside) (λ i lt. refl));
  owned = λ i c nc. absurd (cc c);
  right = λ i r. absurd (cc r);
  early = λ c. (refl, refl, λ i. refl);
  alive = λ c. absurd (cc c);
  counted = omega (arith, total_zero has_run n (λ _. outside) (λ i lt. refl));
}
