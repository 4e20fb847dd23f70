-- ===== src/Apartment.antt =====
-- SingleThreadedApartment of include/audio_io/private/com.hpp and
-- src/audio_io/helpers/windows/single_threaded_apartment.cpp: threads that call into the apartment, and
-- the apartment's thread, with a step for each access to what they share. A task is known by its
-- caller; what it computes is left out.
pub mod Invariant
pub mod Thread
pub mod Calls
pub mod Safety
mod Tests
use audio_io.Prelude.{
  ℕ, ◌+◌, ◌≡◌, ◌<◌, Bool, true, false, Option, none, some, List, [], ◌∷◌, ◌++◌, ◌&&◌, not,
}
use audio_io.Prelude.Threads.{update}

-- sta_task_message, sta_quit_message, and messages for windows.
pub data Message : Type 0 where
  sta_task sta_quit window : Message

-- A caller of callInApartment: outside, before the message, before its promise is set, and after.
pub data CallerAt : Type 0 where
  outside posting waiting fulfilled : CallerAt

-- The apartment's thread: before its loop, before GetMessage, with the task of a caller, before the store of nullptr,
-- past the loop, and in a call through a null pointer.
pub data ApartmentAt : Type 0 where
  starting receiving clearing left crashed : ApartmentAt
  running : ℕ → ApartmentAt

-- `ready` is set when the thread has a queue for messages; the constructor returns then. `ran` counts
-- the tasks that have run, `returned` the calls that have returned; `closing` is set
-- when the destructor has begun.
pub record Apartment : Type 0 where
  pub current_task : Option ℕ
  pub messages : List Message
  pub ready : Bool
  pub closing : Bool
  pub caller_at : ℕ → CallerAt
  pub apartment_at : ApartmentAt
  pub ran : ℕ
  pub returned : ℕ

unfoldable pub create : Apartment
create = record {
  current_task = none;
  messages = [];
  ready = false;
  closing = false;
  caller_at = λ _. outside;
  apartment_at = starting;
  ran = 0;
  returned = 0;
}

-- compare_exchange_weak in submitTask, on what current_task is; a failure goes round the loop.
unfoldable pub exchange_task : Option ℕ → ℕ → Apartment → Apartment
exchange_task (some other) i a = a
exchange_task none i a = record a {
  current_task = some i;
  caller_at = update a.caller_at i posting;
}

-- PostThreadMessage.
unfoldable pub send_message : Message → Apartment → Apartment
send_message message a = record a { messages = a.messages ++ (message ∷ []) }

-- A call begins between the constructor and the destructor only.
unfoldable pub begin_call : Bool → ℕ → Apartment → Option Apartment
unfolding exchange_task
begin_call false i a = none
begin_call true i a = some (exchange_task a.current_task i a)

-- callInApartment, by where caller `i` is: the exchange, PostThreadMessage, future.wait, and the
-- return.
unfoldable pub call_step : CallerAt → ℕ → Apartment → Option Apartment
unfolding begin_call send_message
call_step outside i a = begin_call (a.ready && not a.closing) i a
call_step posting i a =
    some (record (send_message sta_task a) { caller_at = update a.caller_at i waiting })
call_step waiting i a = none
call_step fulfilled i a =
    some (record a { caller_at = update a.caller_at i outside; returned = a.returned + 1 })

-- current_task.load() and the call of what it is, with the messages behind this one.
unfoldable pub take_task : Option ℕ → List Message → Apartment → Apartment
take_task none later a = record a { messages = later; apartment_at = crashed }
take_task (some i) later a = record a { messages = later; apartment_at = running i }

-- GetMessage and what the thread does with the message.
unfoldable pub receive : List Message → Apartment → Option Apartment
unfolding take_task
receive [] a = none
receive (sta_quit ∷ later) a = some (record a { messages = later; apartment_at = left })
receive (window ∷ later) a = some (record a { messages = later })
receive (sta_task ∷ later) a = some (take_task a.current_task later a)

-- apartmentThreadFunction, by where it is.
unfoldable pub apartment_step : ApartmentAt → Apartment → Option Apartment
unfolding receive
apartment_step starting a = some (record a { ready = true; apartment_at = receiving })
apartment_step receiving a = receive a.messages a
apartment_step (running i) a = some (record a {
  caller_at = update a.caller_at i fulfilled;
  apartment_at = clearing;
  ran = a.ran + 1;
})
apartment_step clearing a = some (record a { current_task = none; apartment_at = receiving })
apartment_step left a = none
apartment_step crashed a = none

-- The destructor sends its message.
unfoldable pub destroy : Apartment → Apartment
unfolding send_message
destroy a = record (send_message sta_quit a) { closing = true }

-- A step with `n` callers, or of another program that sends a message for a window, when there is a
-- queue. The destructor begins behind the constructor, when no call is under way.
pub data Step (n : ℕ) (a b : Apartment) : Type 0 where
  caller : (i : ℕ) → i < n → call_step (a.caller_at i) i a ≡ some b → Step n a b
  apartment : apartment_step a.apartment_at a ≡ some b → Step n a b
  destructor :
      a.ready ≡ true → ((i : ℕ) → i < n → a.caller_at i ≡ outside) → b ≡ destroy a → Step n a b
  foreign : a.ready ≡ true → b ≡ record a { messages = a.messages ++ (window ∷ []) } → Step n a b

pub data Reach (n : ℕ) (a : Apartment) : Apartment → Type 0 where
  here : Reach n a a
  next : {b c : Apartment} → Reach n a b → Step n b c → Reach n a c
