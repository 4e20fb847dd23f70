-- ===== src/Programs/Blocks.antt =====
-- What SineGen of src/tests/output.cpp writes into a block.
use audio_io.Prelude.{ℕ, zero, suc, ◌+◌, ◌*◌, ◌≤◌, ◌<◌, ◌≡◌, refl, ap, ◌∙◌, arith, for_below}
use audio_io.Sample.{Float, Buffer, modify}
use audio_io.Mixing.Walk.{table_hit, table_miss}
use audio_io.Mixing.Cells.{place, place_inj, place-lt, read, modify-IsAt}
use audio_io.Programs.Generator.{Maths, SineGen, value, call}

module _ (fl : Float) (m : Maths fl) where
  open fl use {F, add}

  -- The phase of frame `n` of the block.
  pub phase_at : SineGen fl m → ℕ → F
  phase_at gen zero = gen.phase
  phase_at gen (suc n) = add (phase_at gen n) gen.delta

  -- The two loops, with the phase known beforehand.
  abbrev written : SineGen fl m → ℕ → ℕ → Buffer fl → Buffer fl
  written gen channels n block =
      for_below n
        (λ i t.
          for_below channels
            (λ j b. modify b (place channels i j) (λ _. value fl m (phase_at gen i))) t)
        block

  loop_lem :
      (gen : SineGen fl m) (channels n : ℕ) (block : Buffer fl)
      → Path
          (Buffer fl × F)
          (for_below n
            (λ i s. (
              for_below channels (λ j b. modify b (i * channels + j) (λ _. value fl m s.1)) s.0,
              add s.1 gen.delta,
            ))
            (block, gen.phase))
          (written gen channels n block, phase_at gen n)
  unfolding for_below phase_at
  loop_lem gen channels zero block = refl
  loop_lem gen channels (suc n) block =
      ap
        (λ (s : Buffer fl × F). (
          for_below channels (λ j b. modify b (n * channels + j) (λ _. value fl m s.1)) s.0,
          add s.1 gen.delta,
        ))
        (loop_lem gen channels n block)

  -- A block of SineGen holds the sine of its frame's phase in every channel of each frame, and nothing
  -- is written behind it; the phase goes on by `delta` for each frame, and loses its floor at
  -- the end.
  pub call_lem :
      (block_size : ℕ) (gen : SineGen fl m) (block : Buffer fl) (channels : ℕ)
      → ((i j : ℕ)
          → i < block_size
          → j < channels
          → (call fl m block_size gen block channels).1 (place channels i j)
            ≡ value fl m (phase_at gen i))
        × ((k : ℕ)
            → block_size * channels ≤ k
            → (call fl m block_size gen block channels).1 k ≡ block k)
        × ((call fl m block_size gen block channels).0 ≡ record gen {
          phase = m.sub (phase_at gen block_size) (m.floorf (phase_at gen block_size));
        })
  unfolding call
  call_lem block_size gen block channels =
      let both = loop_lem gen channels block_size block in
      (
        λ i j li lj.
            ap (λ (s : Buffer fl × F). s.0 (place channels i j)) both
            ∙ table_hit read channels (place channels) (λ i r _. value fl m (phase_at gen i)) _
                (λ i r. modify-IsAt (place channels i r) _) block_size block
                (λ i r j q hr hq e. place_inj channels channels i r j q (omega arith) hr hq e) i j
                li lj,
        λ k le.
            ap (λ (s : Buffer fl × F). s.0 k) both
            ∙ table_miss read channels (place channels) (λ i r _. value fl m (phase_at gen i)) _
                (λ i r. modify-IsAt (place channels i r) _) block_size block k
                (λ i r li lr e. absurd (omega (arith, place-lt channels block_size i r li lr))),
        ap (λ (s : Buffer fl × F). record gen { phase = m.sub s.1 (m.floorf s.1) }) both,
      )
