-- ===== src/Alsa/Calls.antt =====
-- libasound as a parameter.
use Prim.Native.String.{String}
use audio_io.Prelude.{ℕ, Bool, Option, ◌||◌, not, ltb}
use audio_io.Prelude.Int.{ℤ, pos_part, neg_part}
use audio_io.Outside
use audio_io.Outside.{Service}

-- The calls, with what they are given. `F` is the type of a sample.
pub data AlsaCall (F : Type 0) : Type 0 where
  open_pcm : String → AlsaCall F
  hw_params_any set_format set_access hw_params sw_params_current sw_params : AlsaCall F
  set_channels_near set_rate_near set_period_size_near set_buffer_size_first : ℕ → AlsaCall F
  set_start_threshold set_silence_threshold set_silence_size set_avail_min : ℕ → AlsaCall F
  avail_update drain close_pcm : AlsaCall F
  recover : ℤ → AlsaCall F
  writei : (ℕ → F) → ℕ → AlsaCall F
  wait : ℕ → AlsaCall F

-- What a call returns, and what it leaves behind its pointer argument.
pub record Reply : Type 0 where
  pub result : ℤ
  pub value : ℕ

abbrev pub Libasound : Type 0 → Type 1
Libasound F = Service (AlsaCall F) Reply

abbrev pub negative : ℤ → Bool
negative z = ltb 0 (neg_part z)

abbrev pub nonzero : ℤ → Bool
nonzero z = ltb 0 (neg_part z) || ltb 0 (pos_part z)

-- Whether a call that returns this has succeeded: snd_pcm_open returns 0 then, the others nothing
-- negative.
abbrev pub succeeded : {F : Type 0} → AlsaCall F → Reply → Bool
succeeded (open_pcm name) reply = not (nonzero reply.result)
succeeded _ reply = not (negative reply.result)

module _ (F : Type 0) (alsa : Libasound F) where
  abbrev pub Driver : Type 0
  Driver = Outside.Driver (AlsaCall F) Reply succeeded alsa

  abbrev pub M : Type 0 → Type 0
  M A = Outside.M (AlsaCall F) Reply succeeded alsa A

  abbrev pub pure : {A : Type 0} → A → M A
  pure a = Outside.pure (AlsaCall F) Reply succeeded alsa a

  abbrev pub bind : {A B : Type 0} → M A → (A → M B) → M B
  bind m f = Outside.bind (AlsaCall F) Reply succeeded alsa m f

  abbrev pub or_undefined : {A : Type 0} → Option A → M A
  or_undefined o = Outside.or_undefined (AlsaCall F) Reply succeeded alsa o

  abbrev pub request : AlsaCall F → Driver → Reply × Driver
  request call s = Outside.request (AlsaCall F) Reply succeeded alsa call s

  -- A call that throws if `fails` of its result, and the value that it leaves.
  abbrev pub attempt : (ℤ → Bool) → AlsaCall F → String → M ℕ
  attempt fails call message =
      bind
        (Outside.attempt (AlsaCall F) Reply succeeded alsa (λ reply. fails reply.result) call
          message)
        (λ reply. pure reply.value)
