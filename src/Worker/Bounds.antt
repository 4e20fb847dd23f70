-- ===== src/Worker/Bounds.antt =====
-- What OutputWorkerThread::write leaves as it was: the samples outside the frames that it returns, and
-- the number of buffers.
use audio_io.Prelude.{
  ℕ, zero, suc, ◌+◌, ◌-◌, ◌*◌, ◌≤◌, ◌<◌, ◌≡◌, ◌⊎◌, inl, inr, arith, subst, ap, true, some, length,
  Option-cases, ltb, ℕ_discrete, ◌∙◌, if◌then◌else◌,
}
use audio_io.Sample.{Float, Buffer}
use audio_io.Converter.{Client, ResamplerLib}
use audio_io.Worker.Queue.{AudioCommand, SpscQueue}
use audio_io.Worker.{
  OutputWorkerThread, acquire_buffer, release_buffer, fetch, copy_out, write_helper, write_loop,
  write,
}
use audio_io.Worker.Invariant.{current_held, push_counts, pop_counts, pop_nothing}

module _ (fl : Float) (client : Client fl) (lib : ResamplerLib fl)
    (spsc : SpscQueue (AudioCommand fl)) where
  open spsc use {Queue as Commands, push, pop, items, capacity}

  abbrev Object : Type 0
  Object = OutputWorkerThread fl client lib spsc

  abbrev Result : Type 0
  Result = ℕ × Object × Buffer fl

  abbrev pub buffers : Object → ℕ
  buffers w =
      length (items w.returned_buffers)
      + length (items w.prepared_buffers)
      + current_held w.current_buffer

  pub record Kept (base total : ℕ) (w : Object) (destination : Buffer fl) (x : Result)
      : Type 0 where
    pub frames : x.1.destination_frames ≡ w.destination_frames
    pub channels : x.1.destination_channels ≡ w.destination_channels
    pub held : buffers x.1 ≡ buffers w
    pub room : capacity x.1.returned_buffers ≡ capacity w.returned_buffers
    pub further : total ≤ x.0
    pub outside :
        (k : ℕ)
        → (k < base) ⊎ (base + w.destination_channels * (x.0 - total) ≤ k)
        → x.2 k ≡ destination k

  copy_out-Kept :
      (count base : ℕ) (cmd : AudioCommand fl) (w : Object) (destination : Buffer fl) (x : Result)
      → copy_out fl client lib spsc count base cmd w destination ≡ some x
      → Kept base 0 (record w { current_buffer = some cmd }) destination x
  unfolding copy_out release_buffer
  copy_out-Kept count base cmd w destination x e = record {
    frames = ground arith;
    channels = ground arith;
    held = ground (arith, returned);
    room = ground (arith, returned);
    further = omega arith;
    outside = λ k far. ground arith;
  }
    where
      remaining : ℕ
      remaining = w.destination_frames - cmd.used

      copied : AudioCommand fl
      copied = record cmd { used = cmd.used + (if ltb remaining count then remaining else count) }

      returned :
          (push copied w.returned_buffers).0 ≡ true
          → (length (items (push copied w.returned_buffers).1)
              ≡ length (items w.returned_buffers) + 1)
            × (capacity (push copied w.returned_buffers).1 ≡ capacity w.returned_buffers)
      returned done =
          let (more, _, same) = push_counts fl client lib spsc 0 copied w.returned_buffers done in
          (more, same)

  write_helper-Kept :
      (count base : ℕ) (w : Object) (destination : Buffer fl) (x : Result)
      → write_helper fl client lib spsc count base w destination ≡ some x
      → Kept base 0 w destination x
  unfolding write_helper fetch acquire_buffer
  write_helper-Kept count base w destination x e = elim (Option-cases w.current_buffer) [
    | inr (cmd, present) ↦
        let k = copy_out-Kept count base cmd w destination x (ground arith) in
        record {
          frames = k.frames;
          channels = k.channels;
          held = omega (arith, k.held, ap current_held present);
          room = k.room;
          further = k.further;
          outside = k.outside;
        }
    | inl missing ↦ elim (Option-cases (pop w.prepared_buffers).0) [
      | inl empty ↦
          let (kept, nothing) = pop_nothing fl client lib spsc 0 w.prepared_buffers empty in
          record {
            frames = ground arith;
            channels = ground arith;
            held = ground arith;
            room = ground arith;
            further = omega arith;
            outside = λ k far. ground arith;
          }
      | inr (cmd, got) ↦
          let (fewer, _, _) = pop_counts fl client lib spsc 0 w.prepared_buffers cmd got in
          let k =
            copy_out-Kept count base cmd
              (record w {
                prepared_buffers = (pop w.prepared_buffers).1;
                current_buffer = some cmd;
              })
              destination x (ground arith) in
          record {
            frames = k.frames;
            channels = k.channels;
            held = omega (arith, k.held, fewer, ap current_held missing);
            room = k.room;
            further = k.further;
            outside = k.outside;
          }
    ]
  ]

  split : (ch a b c : ℕ) → c ≡ a + b → ch * c ≡ ch * a + ch * b
  split ch a b c e = grind arith

  minus_zero : (n : ℕ) → n - 0 ≡ n
  minus_zero n = omega arith

  -- The samples outside two stretches, one behind the other.
  apart :
      (base ch ch' n more total j : ℕ)
      → ch' ≡ ch
      → total + n ≤ more
      → (j < base) ⊎ (base + ch * (more - total) ≤ j)
      → ((j < base + ch * n) ⊎ (base + ch * n + ch' * (more - (total + n)) ≤ j))
        × ((j < base) ⊎ (base + ch * (n - 0) ≤ j))
  apart base ch ch' n more total j same le (inl before) = (inl (omega arith), inl before)
  apart base ch ch' n more total j same le (inr behind) =
      let whole = split ch n (more - (total + n)) (more - total) (omega arith) in
      let part = ap (λ c. c * (more - (total + n))) same in
      let all = ap (λ c. ch * c) (minus_zero n) in (inr (omega arith), inr (omega arith))

  last_round :
      (base total : ℕ) (w : Object) (destination : Buffer fl) (x : Result)
      → x.0 ≡ 0
      → Kept base 0 w destination x
      → Kept base total w destination (total, x.1, x.2)
  last_round base total w destination x none_more k = record {
    frames = k.frames;
    channels = k.channels;
    held = k.held;
    room = k.room;
    further = omega arith;
    outside = λ j far. k.outside j (
        let nothing = ap (λ n. w.destination_channels * (n - 0)) none_more in
        elim far [ inl before ↦ inl before | inr behind ↦ inr (omega arith) ]);
  }

  write_loop-Kept :
      (fuel count total base : ℕ) (w : Object) (destination : Buffer fl) (x : Result)
      → write_loop fl client lib spsc fuel count total base w destination ≡ some x
      → Kept base total w destination x
  unfolding write_loop
  write_loop-Kept zero count total base w destination x e = absurd (cc e)
  write_loop-Kept (suc fuel) count total base w destination x e =
      elim (Option-cases (write_helper fl client lib spsc count base w destination)) [
        | inl fails ↦ absurd (ground arith)
        | inr (y, did) ↦
            let k = write_helper-Kept count base w destination y did in
            elim (ℕ_discrete y.0 0) [
              | yes last ↦
                  subst (Kept base total w destination) (ground arith)
                    (last_round base total w destination y last k)
              | no more ↦
                  let l =
                    write_loop-Kept fuel (count - y.0) (total + y.0)
                      (base + w.destination_channels * y.0) y.1 y.2 x (ground arith) in
                  record {
                    frames = l.frames ∙ k.frames;
                    channels = l.channels ∙ k.channels;
                    held = l.held ∙ k.held;
                    room = l.room ∙ k.room;
                    further = omega (arith, l.further);
                    outside = λ j far.
                        let (later, now) =
                          apart base w.destination_channels y.1.destination_channels y.0 x.0 total j
                            k.channels l.further far in
                        l.outside j later ∙ k.outside j now;
                  }
            ]
      ]

  pub write-Kept :
      (count base : ℕ) (w : Object) (destination : Buffer fl) (x : Result)
      → write fl client lib spsc count base w destination ≡ some x
      → Kept base 0 w destination x
  unfolding write
  write-Kept count base w destination x e =
      write_loop-Kept (count + 1) count 0 base w destination x e
