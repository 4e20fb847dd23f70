-- ===== src/Mixing/Interleaved.antt =====
-- remixAudioInterleaved frame by frame, and which cells it leaves alone.
use audio_io.Prelude.{
  Bool, ℕ, ◌+◌, ◌*◌, ◌≤◌, ◌<◌, ◌≡◌, sym, ap, ◌∙◌, arith, List, min, for_below, ltb, if◌then◌else◌,
  dec_lt, lt→ltb,
}
use audio_io.Sample.{Float, Buffer}
use audio_io.Mixing.Walk.{stay-IsAt, walk_hit, walk_miss, table_hit, table_miss}
use audio_io.Mixing.Kernels.{
  entry, upmix_mono_interleaved, mix_unrecognized_interleaved, apply_mixing_matrix_interleaved,
}
use audio_io.Mixing.Remix.{
  Helper, matrix, mono, unrecognized, choose_interleaved, run_interleaved, fill,
  remix_audio_interleaved,
}
use audio_io.Mixing.Cells.{place, place_inj, place-lt, read, modify-IsAt, mixed}

-- A matrix stands in the branch of its own channel counts.
abbrev pub Fits : Helper → ℕ → ℕ → Type 0
Fits (matrix m a b) ic oc = (a ≡ ic) × (b ≡ oc)
Fits mono ic oc = ic ≡ 1
Fits unrecognized ic oc = Unit {0}

module _ (fl : Float) where
  open fl use {F, add, mul, lit}

  mix_column : List ℕ → ℕ → (ℕ → F) → ℕ → ℕ → F → F
  mix_column m a frame r column t = add t (mul (lit (entry m (r * a + column))) (frame column))

  apply_mixing_matrix_interleaved_hit :
      (m : List ℕ) (a b frames : ℕ) (input output : Buffer fl) (i r : ℕ)
      → i < frames
      → r < b
      → apply_mixing_matrix_interleaved fl m a b frames input output (place b i r)
        ≡ for_below a (mix_column m a (λ c. input (place a i c)) r) (output (place b i r))
  unfolding apply_mixing_matrix_interleaved mix_column
  apply_mixing_matrix_interleaved_hit m a b frames input output i r li lr =
      table_hit read b (place b) (λ i r. for_below a (mix_column m a (λ c. input (place a i c)) r))
        _
        (λ i r.
          stay-IsAt read a (place b i r) (mix_column m a (λ c. input (place a i c)) r) _
            (λ column. modify-IsAt (place b i r) _))
        frames output (λ i r j q hr hq e. place_inj b b i r j q (omega arith) hr hq e) i r li lr

  mix_unrecognized_interleaved_hit :
      (frames ic : ℕ) (input : Buffer fl) (oc : ℕ) (output : Buffer fl) (i r : ℕ)
      → i < frames
      → r < oc
      → mix_unrecognized_interleaved fl frames ic input oc output (place oc i r)
        ≡ mixed fl unrecognized ic (λ c. input (place ic i c)) r (output (place oc i r))
  unfolding mix_unrecognized_interleaved mixed
  mix_unrecognized_interleaved_hit frames ic input oc output i r li lr = elim (dec_lt r ic) [
    | yes lt ↦ rw (lt→ltb _ _ lt) (
        table_hit read (min ic oc) (place oc) (λ i r x. add x (input (place ic i r))) _
          (λ i r. modify-IsAt (place oc i r) _) frames output
          (λ i r j q hr hq e. place_inj oc (min ic oc) i r j q (omega arith) hr hq e) i r li
          (omega arith))
    | no nlt ↦ ground (
      arith,
      (table_miss read (min ic oc) (place oc) (λ i r x. add x (input (place ic i r))) _
          (λ i r. modify-IsAt (place oc i r) _) frames output (place oc i r)
          (λ j q hj hq e.
            absurd (omega (arith, place_inj oc oc i r j q (omega arith) lr (omega arith) e)))),
    )
  ]

  run_interleaved_hit :
      (h : Helper) (frames ic : ℕ) (input : Buffer fl) (oc : ℕ) (output : Buffer fl)
      → Fits h ic oc
      → (i r : ℕ) → i < frames
      → r < oc
      → run_interleaved fl h frames ic input oc output (place oc i r)
        ≡ mixed fl h ic (λ c. input (place ic i c)) r (output (place oc i r))
  unfolding run_interleaved mixed upmix_mono_interleaved mix_column
  run_interleaved_hit (matrix m a b) frames ic input oc output (ea, eb) i r li lr =
      rw (← ea, ← eb)
        (apply_mixing_matrix_interleaved_hit m a b frames input output i r li (omega arith))
  run_interleaved_hit mono frames ic input oc output one i r li lr =
      let e : place ic i 0 ≡ i = rw one (omega arith) in
      table_hit read oc (place oc) (λ i r x. add x (input i)) _
        (λ i r. modify-IsAt (place oc i r) (λ x. add x (input i))) frames output
        (λ i r j q hr hq e. place_inj oc oc i r j q (omega arith) hr hq e) i r li lr
      ∙ ap (λ k. add (output (place oc i r)) (input k)) (sym e)
  run_interleaved_hit unrecognized frames ic input oc output fits i r li lr =
      mix_unrecognized_interleaved_hit frames ic input oc output i r li lr

  -- No cell from `frames * oc` on is written.
  run_interleaved_miss :
      (h : Helper) (frames ic : ℕ) (input : Buffer fl) (oc : ℕ) (output : Buffer fl)
      → Fits h ic oc
      → (k : ℕ) → frames * oc ≤ k
      → run_interleaved fl h frames ic input oc output k ≡ output k
  unfolding run_interleaved upmix_mono_interleaved apply_mixing_matrix_interleaved
      mix_unrecognized_interleaved for_below mix_column
  run_interleaved_miss (matrix m a b) frames ic input oc output (ea, eb) k hk =
      table_miss read b (place b) (λ i r. for_below a (mix_column m a (λ c. input (place a i c)) r))
        _ (λ i r. stay-IsAt read a (place b i r) _ _ (λ column. modify-IsAt (place b i r) _)) frames
        output k
        (λ i r li lr e. omega (arith, place-lt b frames i r li lr, ap (λ t. frames * t) eb))
  run_interleaved_miss mono frames ic input oc output one k hk =
      table_miss read oc (place oc) (λ i r x. add x (input i)) _
        (λ i r. modify-IsAt (place oc i r) _) frames output k
        (λ i r li lr e. omega (arith, place-lt oc frames i r li lr))
  run_interleaved_miss unrecognized frames ic input oc output fits k hk =
      table_miss read (min ic oc) (place oc) (λ i r x. add x (input (place ic i r))) _
        (λ i r. modify-IsAt (place oc i r) _) frames output k
        (λ i r li lr e. omega (arith, place-lt oc frames i r li (omega arith)))

  pub fill_lem :
      (n : ℕ) (v : F) (p : Buffer fl) (k : ℕ) → fill fl n v p k ≡ (if ltb k n then v else p k)
  unfolding fill
  fill_lem n v p k = elim (dec_lt k n) [
    | yes lt ↦
        rw (lt→ltb _ _ lt)
          (walk_hit read (λ i. i) (λ _ _. v) _ (λ i. modify-IsAt i _) n p (λ i j _ _ e. e) k lt)
    | no nlt ↦ ground (
      arith,
      walk_miss read (λ i. i) (λ _ _. v) _ (λ i. modify-IsAt i _) n p k (λ i lt e. nlt (rw e lt)),
    )
  ]

pub choose_interleaved-Fits : (ic oc : ℕ) → Fits (choose_interleaved ic oc) ic oc
unfolding choose_interleaved
choose_interleaved-Fits ic oc = ground arith

module _ (fl : Float) (frames ic : ℕ) (input : Buffer fl) (oc : ℕ) (output : Buffer fl)
    (zero_first : Bool) where
  open fl use {lit}

  abbrev before : Buffer fl
  before = if zero_first then fill fl (frames * oc) (lit 0) output else output

  -- Each output sample of each frame is the frame remixed by the helper for the channel counts,
  -- starting from silence if `zero_first` is set and from what the output held if it is not.
  pub remix_audio_interleaved-mixed :
      (i r : ℕ)
      → i < frames
      → r < oc
      → remix_audio_interleaved fl frames ic input oc output zero_first (place oc i r)
        ≡ mixed fl
            (choose_interleaved ic oc)
            ic
            (λ c. input (place ic i c))
            r
            (if zero_first then lit 0 else output (place oc i r))
  unfolding remix_audio_interleaved
  remix_audio_interleaved-mixed i r li lr =
      run_interleaved_hit fl (choose_interleaved ic oc) frames ic input oc before
        (choose_interleaved-Fits ic oc) i r li lr
      ∙ ap (mixed fl (choose_interleaved ic oc) ic (λ c. input (place ic i c)) r) (
          ground (
            arith,
            fill_lem fl (frames * oc) (lit 0) output (place oc i r),
            place-lt oc frames i r li lr,
          ))

  -- Nothing is written from index `frames * oc` on.
  pub remix_audio_interleaved-bounds :
      (k : ℕ)
      → frames * oc ≤ k
      → remix_audio_interleaved fl frames ic input oc output zero_first k ≡ output k
  unfolding remix_audio_interleaved
  remix_audio_interleaved-bounds k hk =
      run_interleaved_miss fl (choose_interleaved ic oc) frames ic input oc before
        (choose_interleaved-Fits ic oc) k hk
      ∙ ground (arith, fill_lem fl (frames * oc) (lit 0) output k)
