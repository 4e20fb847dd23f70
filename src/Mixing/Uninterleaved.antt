-- ===== src/Mixing/Uninterleaved.antt =====
-- remixAudioUninterleaved channel by channel, and which cells it leaves alone.
use audio_io.Prelude.{
  Bool, ℕ, ◌+◌, ◌*◌, ◌≤◌, ◌<◌, ◌≡◌, refl, ap, ◌∙◌, arith, List, min, for_below, ltb, if◌then◌else◌,
  dec_lt, lt→ltb, ◌&&◌, ◌⊎◌, for_below_cong,
}
use audio_io.Sample.{Float, Buffer, Buffers, modify}
use audio_io.Mixing.Walk.{stay-IsAt, walk_hit, walk_miss, table_hit, table_miss}
use audio_io.Mixing.Kernels.{
  entry, upmix_mono_uninterleaved, mix_unrecognized_uninterleaved,
  apply_mixing_matrix_uninterleaved,
}
use audio_io.Mixing.Remix.{
  Helper, matrix, mono, unrecognized, choose_interleaved, choose_uninterleaved, run_uninterleaved,
  fill, remix_audio_uninterleaved,
}
use audio_io.Mixing.Cells.{read, read₂, modify-IsAt, modify₂-IsAt, mixed}
use audio_io.Mixing.Interleaved.{Fits, choose_interleaved-Fits, fill_lem}
use audio_io.Sample.{MulComm}

-- The two functions choose the same helper.
pub choose_uninterleaved-interleaved :
    (ic oc : ℕ) → choose_uninterleaved ic oc ≡ choose_interleaved ic oc
unfolding choose_uninterleaved choose_interleaved
choose_uninterleaved-interleaved ic oc = refl

pair_inj : (i r j q : ℕ) → ◌≡◌ {A = ℕ × ℕ} (r, i) (q, j) → (i ≡ j) × (r ≡ q)
pair_inj i r j q e = (ap (λ (x : ℕ × ℕ). x.1) e, ap (λ (x : ℕ × ℕ). x.0) e)

module _ (fl : Float) where
  open fl use {F, add, mul, lit}

  mix_column₂ : List ℕ → ℕ → (ℕ → F) → ℕ → ℕ → F → F
  mix_column₂ m a frame r column t = add t (mul (frame column) (lit (entry m (r * a + column))))

  run_uninterleaved_hit :
      (h : Helper) (frames ic : ℕ) (inputs : Buffers fl) (oc : ℕ) (outputs : Buffers fl)
      → MulComm fl
      → Fits h ic oc
      → (i r : ℕ) → i < frames
      → r < oc
      → run_uninterleaved fl h frames ic inputs oc outputs r i
        ≡ mixed fl h ic (λ c. inputs c i) r (outputs r i)
  unfolding run_uninterleaved mixed upmix_mono_uninterleaved mix_unrecognized_uninterleaved
      apply_mixing_matrix_uninterleaved mix_column₂
  run_uninterleaved_hit (matrix m a b) frames ic inputs oc outputs mc (ea, eb) i r li lr =
      table_hit read₂ b (λ i r. (r, i)) (λ i r. for_below a (mix_column₂ m a (λ c. inputs c i) r)) _
        (λ i r.
          stay-IsAt read₂ a (r, i) (mix_column₂ m a (λ c. inputs c i) r) _
            (λ column. modify₂-IsAt r i _))
        frames outputs (λ i r j q hr hq e. pair_inj i r j q e) i r li (omega arith)
      ∙ for_below_cong a _ _ (outputs r i) (λ c x lc. ap (add x) (mc _ _))
  run_uninterleaved_hit mono frames ic inputs oc outputs mc one i r li lr =
      table_hit read₂ oc (λ i r. (r, i)) (λ i r x. add x (inputs 0 i)) _ (λ i r. modify₂-IsAt r i _)
        frames outputs (λ i r j q hr hq e. pair_inj i r j q e) i r li lr
  run_uninterleaved_hit unrecognized frames ic inputs oc outputs mc fits i r li lr =
      elim (dec_lt r ic) [
        | yes lt ↦ rw (lt→ltb _ _ lt) (
            table_hit read₂ frames (λ i r. (i, r)) (λ i r x. add x (inputs i r)) _
              (λ i r. modify₂-IsAt i r _) (min ic oc) outputs
              (λ i r j q hr hq e. let p = pair_inj r i q j e in (p.1, p.0)) r i (omega arith) li)
        | no nlt ↦ ground (
          arith,
          table_miss read₂ frames (λ i r. (i, r)) (λ i r x. add x (inputs i r)) _
              (λ i r. modify₂-IsAt i r _) (min ic oc) outputs (r, i)
              (λ j q hj hq e. absurd (omega (arith, pair_inj i r q j e))),
        )
      ]

  -- No cell beyond the first `oc` channels or the first `frames` frames is written.
  run_uninterleaved_miss :
      (h : Helper) (frames ic : ℕ) (inputs : Buffers fl) (oc : ℕ) (outputs : Buffers fl)
      → Fits h ic oc
      → (r i : ℕ) → (oc ≤ r) ⊎ (frames ≤ i)
      → run_uninterleaved fl h frames ic inputs oc outputs r i ≡ outputs r i
  unfolding run_uninterleaved upmix_mono_uninterleaved mix_unrecognized_uninterleaved
      apply_mixing_matrix_uninterleaved for_below mix_column₂
  run_uninterleaved_miss (matrix m a b) frames ic inputs oc outputs (ea, eb) r i far =
      table_miss read₂ b (λ i r. (r, i)) _ _
        (λ i r.
          stay-IsAt read₂ a (r, i) (mix_column₂ m a (λ c. inputs c i) r) _
            (λ column. modify₂-IsAt r i _))
        frames outputs (r, i) (λ j q lj lq e. omega (arith, pair_inj i r j q e))
  run_uninterleaved_miss mono frames ic inputs oc outputs one r i far =
      table_miss read₂ oc (λ i r. (r, i)) (λ i r x. add x (inputs 0 i)) _
        (λ i r. modify₂-IsAt r i _) frames outputs (r, i)
        (λ j q lj lq e. omega (arith, pair_inj i r j q e))
  run_uninterleaved_miss unrecognized frames ic inputs oc outputs fits r i far =
      table_miss read₂ frames (λ i r. (i, r)) (λ i r x. add x (inputs i r)) _
        (λ i r. modify₂-IsAt i r _) (min ic oc) outputs (r, i)
        (λ j q lj lq e. omega (arith, pair_inj i r q j e))

  clear_lem :
      (frames oc : ℕ) (ps : Buffers fl) (r i : ℕ)
      → for_below oc (λ c qs. modify qs c (fill fl frames (lit 0))) ps r i
        ≡ (if ltb r oc && ltb i frames then lit 0 else ps r i)
  clear_lem frames oc ps r i = elim (dec_lt r oc) [
    | yes lt ↦ rw (lt→ltb _ _ lt) (
        ap (λ (p : Buffer fl). p i)
          (walk_hit read (λ c. c) (λ _. fill fl frames (lit 0)) _ (λ c. modify-IsAt c _) oc ps
            (λ i j _ _ e. e) r lt)
        ∙ fill_lem fl frames (lit 0) (ps r) i)
    | no nlt ↦ ground (
      arith,
      ap (λ (p : Buffer fl). p i)
          (walk_miss read (λ c. c) (λ _. fill fl frames (lit 0)) _ (λ c. modify-IsAt c _) oc ps r
            (λ c lt e. nlt (rw e lt))),
    )
  ]

module _ (fl : Float) (frames ic : ℕ) (inputs : Buffers fl) (oc : ℕ) (outputs : Buffers fl)
    (zero_first : Bool) where
  open fl use {lit}

  abbrev before : Buffers fl
  before =
      if zero_first
      then for_below oc (λ c qs. modify qs c (fill fl frames (lit 0))) outputs
      else outputs

  pub remix_audio_uninterleaved-mixed :
      MulComm fl
      → (i r : ℕ) → i < frames
      → r < oc
      → remix_audio_uninterleaved fl frames ic inputs oc outputs zero_first r i
        ≡ mixed fl
            (choose_interleaved ic oc)
            ic
            (λ c. inputs c i)
            r
            (if zero_first then lit 0 else outputs r i)
  unfolding remix_audio_uninterleaved
  remix_audio_uninterleaved-mixed mc i r li lr = rw choose_uninterleaved-interleaved (
      run_uninterleaved_hit fl (choose_interleaved ic oc) frames ic inputs oc before mc
        (choose_interleaved-Fits ic oc) i r li lr
      ∙ ap (mixed fl (choose_interleaved ic oc) ic (λ c. inputs c i) r)
          (ground (arith, clear_lem fl frames oc outputs r i)))

  -- Nothing is written beyond the first `oc` channels and the first `frames` frames.
  pub remix_audio_uninterleaved-bounds :
      (r i : ℕ)
      → (oc ≤ r) ⊎ (frames ≤ i)
      → remix_audio_uninterleaved fl frames ic inputs oc outputs zero_first r i ≡ outputs r i
  unfolding remix_audio_uninterleaved
  remix_audio_uninterleaved-bounds r i far = rw choose_uninterleaved-interleaved (
      run_uninterleaved_miss fl (choose_interleaved ic oc) frames ic inputs oc before
        (choose_interleaved-Fits ic oc) r i far
      ∙ ground (arith, clear_lem fl frames oc outputs r i))
