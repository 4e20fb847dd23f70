-- ===== src/Wasapi/Calls.antt =====
-- COM and WASAPI as a parameter: the calls that src/audio_io/wasapi/ makes, what they are given and
-- what they reply. An interface pointer is a number.
use Prim.Native.String.{String}
use audio_io.Prelude.{ℕ, Bool, not, ltb, ◌||◌, Option}
use audio_io.Prelude.Int.{ℤ, pos_part, neg_part}
use audio_io.Outside
use audio_io.Outside.{Service}
use audio_io.Wasapi.{WaveFormat}

pub data ComCall (F : Type 0) : Type 0 where
  create_enumerator : ComCall F
  enum_audio_endpoints get_default_audio_endpoint : ℕ → ComCall F
  get_device : ℕ → String → ComCall F
  get_count open_property_store get_device_format get_id get_friendly_name : ℕ → ComCall F
  item : ℕ → ℕ → ComCall F
  activate get_mix_format get_device_period get_buffer_size get_service : ℕ → ComCall F
  is_format_supported initialize : ℕ → WaveFormat → ComCall F
  set_event_handle start stop reset get_current_padding : ℕ → ComCall F
  get_buffer : ℕ → ℕ → ComCall F
  release_buffer : ℕ → (ℕ → F) → ℕ → ComCall F
  co_initialize co_uninitialize create_event : ComCall F
  wait_for close_handle : ℕ → ComCall F

-- The HRESULT, and what the call leaves behind its last argument.
pub record Reply : Type 0 where
  pub result : ℤ
  pub value : ℕ
  pub text : String
  pub format : WaveFormat

abbrev pub Com : Type 0 → Type 1
Com F = Service (ComCall F) Reply

-- IS_ERROR(res)
abbrev pub is_error : Reply → Bool
is_error reply = ltb 0 (neg_part reply.result)

-- res != S_OK
abbrev pub not_ok : Reply → Bool
not_ok reply = ltb 0 (neg_part reply.result) || ltb 0 (pos_part reply.result)

-- Initialize and GetBuffer succeed with S_OK alone, the others with what is no error.
abbrev pub succeeded : {F : Type 0} → ComCall F → Reply → Bool
succeeded (initialize client format) reply = not (not_ok reply)
succeeded (get_buffer client n) reply = not (not_ok reply)
succeeded _ reply = not (is_error reply)

module _ (F : Type 0) (win : Com F) where
  abbrev pub Driver : Type 0
  Driver = Outside.Driver (ComCall F) Reply succeeded win

  abbrev pub M : Type 0 → Type 0
  M A = Outside.M (ComCall F) Reply succeeded win A

  abbrev pub pure : {A : Type 0} → A → M A
  pure a = Outside.pure (ComCall F) Reply succeeded win a

  abbrev pub bind : {A B : Type 0} → M A → (A → M B) → M B
  bind m f = Outside.bind (ComCall F) Reply succeeded win m f

  abbrev pub or_undefined : {A : Type 0} → Option A → M A
  or_undefined o = Outside.or_undefined (ComCall F) Reply succeeded win o

  abbrev pub request : ComCall F → Driver → Reply × Driver
  request call s = Outside.request (ComCall F) Reply succeeded win call s

  abbrev pub call_only : ComCall F → Driver → Driver
  call_only call s = Outside.call_only (ComCall F) Reply succeeded win call s

  -- A call that throws if `fails` of its reply.
  abbrev pub attempt : (Reply → Bool) → ComCall F → String → M Reply
  attempt fails call message = Outside.attempt (ComCall F) Reply succeeded win fails call message
