-- ===== src/Mixing/Agree.antt =====
-- The two public remix functions against one another, and what they read.
use audio_io.Prelude.{
  Bool, ℕ, ◌+◌, ◌*◌, ◌<◌, ◌≤◌, ◌⊎◌, ◌≡◌, sym, ap, ◌∙◌, arith, for_below_cong, if◌then◌else◌, dec_lt,
  lt→ltb,
}
use audio_io.Sample.{Float, Buffer, Buffers, MulComm}
use audio_io.Mixing.Remix.{
  Helper, matrix, mono, unrecognized, choose_interleaved, remix_audio_interleaved,
  remix_audio_uninterleaved,
}
use audio_io.Mixing.Kernels.{entry}
use audio_io.Mixing.Cells.{place, mixed}
use audio_io.Mixing.Interleaved.{
  Fits, choose_interleaved-Fits, remix_audio_interleaved-mixed, remix_audio_interleaved-bounds,
}
use audio_io.Mixing.Uninterleaved.{
  remix_audio_uninterleaved-mixed, remix_audio_uninterleaved-bounds,
}

-- A frame is read in its input channels only.
pub mixed_cong :
    (fl : Float) (h : Helper) (ic oc : ℕ) (f g : ℕ → fl.F) (r : ℕ) (x : fl.F)
    → Fits h ic oc
    → ((c : ℕ) → c < ic → f c ≡ g c)
    → mixed fl h ic f r x ≡ mixed fl h ic g r x
unfolding mixed
mixed_cong fl (matrix m a b) ic oc f g r x (ea, eb) same =
    for_below_cong a _ _ x (λ c t lc.
      ap (λ v. fl.add t (fl.mul (fl.lit (entry m (r * a + c))) v)) (same c (omega arith)))
mixed_cong fl mono ic oc f g r x one same = ap (fl.add x) (same 0 (omega arith))
mixed_cong fl unrecognized ic oc f g r x fits same = elim (dec_lt r ic) [
  | yes lt ↦ rw (lt→ltb _ _ lt) (ap (fl.add x) (same r lt))
  | no nlt ↦ ground arith
]

-- remixAudioInterleaved and remixAudioUninterleaved leave the same sample in channel `r` of frame
-- `i` if they are given the same audio: the same input samples in every input channel of every
-- frame, and the same earlier output samples. This needs only that multiplication is commutative.
pub remix_agree :
    (fl : Float) (frames ic : ℕ) (input : Buffer fl) (inputs : Buffers fl) (oc : ℕ)
    (output : Buffer fl) (outputs : Buffers fl) (zero_first : Bool)
    → MulComm fl
    → ((i c : ℕ) → i < frames → c < ic → input (place ic i c) ≡ inputs c i)
    → ((i r : ℕ) → i < frames → r < oc → output (place oc i r) ≡ outputs r i)
    → (i r : ℕ) → i < frames
    → r < oc
    → remix_audio_interleaved fl frames ic input oc output zero_first (place oc i r)
      ≡ remix_audio_uninterleaved fl frames ic inputs oc outputs zero_first r i
remix_agree fl frames ic input inputs oc output outputs z mc same_in same_out i r li lr =
    remix_audio_interleaved-mixed fl frames ic input oc output z i r li lr
    ∙ mixed_cong fl (choose_interleaved ic oc) ic oc _ _ r _ (choose_interleaved-Fits ic oc)
        (λ c lc. same_in i c li lc)
    ∙ ap
        (λ o.
          mixed fl (choose_interleaved ic oc) ic (λ c. inputs c i) r (if z then fl.lit 0 else o))
        (same_out i r li lr)
    ∙ sym (remix_audio_uninterleaved-mixed fl frames ic inputs oc outputs z mc i r li lr)

-- Neither function writes beyond its output: not the interleaved one from index `frames * oc` on, and
-- not the other one beyond the first `oc` channels and the first `frames` frames.
pub remix_bounds :
    (fl : Float) (frames ic : ℕ) (input : Buffer fl) (inputs : Buffers fl) (oc : ℕ)
    (output : Buffer fl) (outputs : Buffers fl) (zero_first : Bool)
    → ((k : ℕ)
        → frames * oc ≤ k
        → remix_audio_interleaved fl frames ic input oc output zero_first k ≡ output k)
      × ((r i : ℕ)
          → (oc ≤ r) ⊎ (frames ≤ i)
          → remix_audio_uninterleaved fl frames ic inputs oc outputs zero_first r i ≡ outputs r i)
remix_bounds fl frames ic input inputs oc output outputs z = (
  remix_audio_interleaved-bounds fl frames ic input oc output z,
  remix_audio_uninterleaved-bounds fl frames ic inputs oc outputs z,
)
