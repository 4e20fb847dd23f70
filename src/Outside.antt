-- ===== src/Outside.antt =====
-- Code outside this program as a parameter, and the code that calls it: it can throw, and `undefined`
-- stands for undefined behaviour and for a loop that does not end. The log of the calls is what the
-- theorems speak of, and steers nothing.
pub mod Chains
pub mod Results
use Prim.Native.String.{String}
use audio_io.Prelude.{Bool, Option, none, some, List, ◌∷◌, if◌then◌else◌}
use audio_io.Device.{AudioIoError, audio_io_error}

-- Something that answers calls, and may change by it.
pub record Service (Call Reply : Type 0) : Type 1 where
  pub World : Type 0
  pub answer : Call → World → World × Reply

module _ (Call Reply : Type 0) (succeeded : Call → Reply → Bool)
    (service : Service Call Reply) where
  open service use {World, answer}

  -- Each call with whether it succeeded, the latest first.
  pub record Driver : Type 0 where
    pub world : World
    pub log : List (Call × Bool)

  pub data Outcome (A : Type 0) : Type 0 where
    done : A → Driver → Outcome A
    thrown : AudioIoError → Driver → Outcome A
    undefined : Outcome A

  abbrev pub M : Type 0 → Type 0
  M A = Driver → Outcome A

  abbrev pub pure : {A : Type 0} → A → M A
  pure a s = done a s

  abbrev pub then_do : {A B : Type 0} → Outcome A → (A → M B) → Outcome B
  then_do (done a s) f = f a s
  then_do (thrown e s) f = thrown e s
  then_do undefined f = undefined

  abbrev pub bind : {A B : Type 0} → M A → (A → M B) → M B
  bind m f s = then_do (m s) f

  abbrev pub or_undefined : {A : Type 0} → Option A → M A
  or_undefined none s = undefined
  or_undefined (some a) s = done a s

  -- A call, and what it replies.
  abbrev pub request : Call → Driver → Reply × Driver
  request call s =
      let (world, reply) = answer call s.world in
      (reply, record { world = world; log = (call, succeeded call reply) ∷ s.log })

  -- A call of which the result is not looked at.
  abbrev pub call_only : Call → Driver → Driver
  call_only call s = (request call s).1

  -- res = call; if(fails(res)) throw AudioIOError(message);
  abbrev pub attempt : (Reply → Bool) → Call → String → M Reply
  attempt fails call message s =
      let (reply, s') = request call s in
      if fails reply then thrown (audio_io_error message) s' else done reply s'
