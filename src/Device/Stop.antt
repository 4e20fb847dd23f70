-- ===== src/Device/Stop.antt =====
-- `stop` of the two backends, which their destructors call, beside the thread that plays: stop of
-- src/audio_io/alsa/output_device.cpp and of src/audio_io/wasapi/output_device.cpp, and the loops there
-- as far as the flag goes.
use audio_io.Prelude.{
  ◌≡◌, ◌⊎◌, inl, arith, refl, Bool, true, false, not, ◌&&◌, Option, none, some, if◌then◌else◌,
}

-- Before test_and_set, in a round, and past the loop.
pub data ThreadAt : Type 0 where
  testing working over : ThreadAt

-- The flag is worker_running or should_continue.
pub record Playback : Type 0 where
  pub flag : Bool
  pub thread_at : ThreadAt
  pub joinable : Bool
  pub stopped : Bool

pub data StopAt : Type 0 where
  outside joining returned : StopAt

-- while(flag.test_and_set())
unfoldable pub test_and_set : Playback → Playback
test_and_set s = record s { flag = true; thread_at = if s.flag then working else over }

unfoldable pub thread_step : ThreadAt → Playback → Option Playback
unfolding test_and_set
thread_step testing s = some (test_and_set s)
thread_step working s = some (record s { thread_at = testing })
thread_step over s = none

-- AlsaOutputDevice::stop, up to join.
unfoldable pub alsa_stop : Playback → StopAt × Playback
alsa_stop s =
    if not s.stopped && s.joinable
    then (joining, record s { flag = false })
    else (returned, record s { stopped = true })

-- WasapiOutputDevice::stop, up to join.
unfoldable pub wasapi_stop : Playback → StopAt × Playback
wasapi_stop s = if s.stopped then (returned, s) else (joining, record s { flag = false })

-- The return of join, and the rest of stop.
unfoldable pub join_step : ThreadAt → Playback → Option Playback
join_step testing s = none
join_step working s = none
join_step over s = some (record s { joinable = false; stopped = true })

unfoldable pub started : Playback
started = record { flag = true; thread_at = testing; joinable = true; stopped = false }

-- `gives_up` is a round that ends the thread, `stops` a call of stop or of the destructor.
pub data Step (stop : Playback → StopAt × Playback)
    : StopAt → Playback → StopAt → Playback → Type 0 where
  runs : {at : StopAt} {s t : Playback} → thread_step s.thread_at s ≡ some t → Step stop at s at t
  gives_up :
      {at : StopAt} {s : Playback}
      → s.thread_at ≡ working
      → Step stop at s at (record s { thread_at = over })
  stops : {s : Playback} → Step stop outside s (stop s).0 (stop s).1
  joins : {s t : Playback} → join_step s.thread_at s ≡ some t → Step stop joining s returned t
  leaves : {s : Playback} → Step stop returned s outside s

pub data Reach (stop : Playback → StopAt × Playback) : StopAt → Playback → Type 0 where
  here : Reach stop outside started
  next :
      {at at' : StopAt} {s t : Playback} → Reach stop at s → Step stop at s at' t → Reach stop at' t

-- What holds where a call of stop is.
abbrev Settled : StopAt → Playback → Type 0
Settled outside s = Unit
Settled joining s = (s.stopped ≡ false) × ((s.thread_at ≡ over) ⊎ (s.flag ≡ false))
Settled returned s = (s.thread_at ≡ over) × (s.joinable ≡ false) × (s.stopped ≡ true)

record Inv (at : StopAt) (s : Playback) : Type 0 where
  once : (s.stopped ≡ false) ⊎ ((s.thread_at ≡ over) × (s.joinable ≡ false))
  threads : (s.joinable ≡ true) ⊎ (s.stopped ≡ true)
  settled : Settled at s

thread_step-Inv :
    (at : StopAt) (p : ThreadAt) (s t : Playback)
    → s.thread_at ≡ p
    → thread_step p s ≡ some t
    → Inv at s
    → Inv at t
unfolding thread_step test_and_set
thread_step-Inv outside testing s t now e v = ground arith
thread_step-Inv outside working s t now e v = ground arith
thread_step-Inv joining testing s t now e v = ground arith
thread_step-Inv joining working s t now e v = ground arith
thread_step-Inv returned testing s t now e v = ground arith
thread_step-Inv returned working s t now e v = ground arith
thread_step-Inv at over s t now e v = absurd (cc e)

alsa_stop-Inv : (s : Playback) → Inv outside s → Inv (alsa_stop s).0 (alsa_stop s).1
unfolding alsa_stop
alsa_stop-Inv s v = ground arith

wasapi_stop-Inv : (s : Playback) → Inv outside s → Inv (wasapi_stop s).0 (wasapi_stop s).1
unfolding wasapi_stop
wasapi_stop-Inv s v = ground arith

join_step-Inv :
    (p : ThreadAt) (s t : Playback)
    → s.thread_at ≡ p
    → join_step p s ≡ some t
    → Inv joining s
    → Inv returned t
unfolding join_step
join_step-Inv testing s t now e v = absurd (cc e)
join_step-Inv working s t now e v = absurd (cc e)
join_step-Inv over s t now e v = ground arith

given_up-Inv : (at : StopAt) (s : Playback) → Inv at s → Inv at (record s { thread_at = over })
given_up-Inv outside s v = ground arith
given_up-Inv joining s v = ground arith
given_up-Inv returned s v = ground arith

started-Inv : Inv outside started
unfolding started
started-Inv = record { once = inl refl; threads = inl refl; settled = tt }

pub data Backend : Type 0 where
  alsa wasapi : Backend

abbrev pub stop_of : Backend → Playback → StopAt × Playback
stop_of alsa = alsa_stop
stop_of wasapi = wasapi_stop

stop_of-Inv : (b : Backend) (s : Playback) → Inv outside s → Inv (stop_of b s).0 (stop_of b s).1
stop_of-Inv alsa s v = alsa_stop-Inv s v
stop_of-Inv wasapi s v = wasapi_stop-Inv s v

Step-Inv :
    (b : Backend) {at at' : StopAt} {s t : Playback}
    → Step (stop_of b) at s at' t
    → Inv at s
    → Inv at' t
Step-Inv b {at} {s} {t} (runs e) v = thread_step-Inv at s.thread_at s t refl e v
Step-Inv b {at} {s} (gives_up now) v = given_up-Inv at s v
Step-Inv b {s} stops v = stop_of-Inv b s v
Step-Inv b {s} {t} (joins e) v = join_step-Inv s.thread_at s t refl e v
Step-Inv b leaves v = record { once = v.once; threads = v.threads; settled = tt }

Reach-Inv : (b : Backend) {at : StopAt} {s : Playback} → Reach (stop_of b) at s → Inv at s
Reach-Inv b here = started-Inv
Reach-Inv b (next r step) = Step-Inv b step (Reach-Inv b r)

-- What a caller of stop relies on.
abbrev pub Ends : StopAt → Playback → Type 0
Ends outside s = Unit
Ends joining s = (s.joinable ≡ true) × ((s.thread_at ≡ over) ⊎ ((test_and_set s).thread_at ≡ over))
Ends returned s = (s.thread_at ≡ over) × (s.joinable ≡ false) × (s.stopped ≡ true)

Inv-Ends : (at : StopAt) (s : Playback) → Inv at s → Ends at s
unfolding test_and_set
Inv-Ends outside s v = tt
Inv-Ends joining s v = ground arith
Inv-Ends returned s v = v.settled

-- For both backends, however often stop is called and whatever the thread does: while stop waits, the
-- thread can be joined, and is over or will be at its next test of the flag; when stop has returned,
-- the thread is over and has been joined.
pub stop_lem : (b : Backend) (at : StopAt) (s : Playback) → Reach (stop_of b) at s → Ends at s
stop_lem b at s r = Inv-Ends at s (Reach-Inv b r)
