-- ===== src/Worker/WriteHelper.antt =====
-- OutputWorkerThread::writeHelper while the worker thread stands still.
use audio_io.Prelude.{
  ℕ, ◌+◌, ◌-◌, ◌*◌, ◌≤◌, ◌<◌, ◌≡◌, ◌⊎◌, inl, inr, refl, arith, Option, none, some, length, ◌==◌,
  Option-cases, ltb, ℕ_discrete, true, false, if◌then◌else◌, sym, subst, ap, ◌∙◌,
}
use audio_io.Sample.{Float, Buffer}
use audio_io.Converter.{Client, ResamplerLib}
use audio_io.Worker.Queue.{AudioCommand, SpscQueue, Unused}
use audio_io.Worker.{
  OutputWorkerThread, acquire_buffer, release_buffer, fetch, copy_out, write_helper,
}
use audio_io.Worker.Invariant.{current_held, push_counts, pop_counts, pop_nothing}
use audio_io.Worker.Stream.{pop_items}

module _ (fl : Float) (client : Client fl) (lib : ResamplerLib fl)
    (spsc : SpscQueue (AudioCommand fl)) where
  open spsc use {Queue as Commands, push, pop, items, capacity}

  abbrev Object : Type 0
  Object = OutputWorkerThread fl client lib spsc

  abbrev pub Result : Type 0
  Result = ℕ × Object × Buffer fl

  -- The frames of the current buffer that are not copied yet.
  abbrev left : ℕ → Option (AudioCommand fl) → ℕ
  left frames none = 0
  left frames (some cmd) = frames - cmd.used

  abbrev pub used_of : Option (AudioCommand fl) → ℕ
  used_of none = 0
  used_of (some cmd) = cmd.used

  -- The frames that are mixed and not copied yet.
  abbrev pub available : Object → ℕ
  available w =
      left w.destination_frames w.current_buffer
      + length (items w.prepared_buffers) * w.destination_frames

  -- Between two calls: a block has frames, the current buffer has some left, no prepared buffer has
  -- been begun, and there is room to return them all.
  pub record Ready (w : Object) : Type 0 where
    pub short : used_of w.current_buffer < w.destination_frames
    pub unused : Unused (items w.prepared_buffers)
    pub room :
        length (items w.returned_buffers)
          + length (items w.prepared_buffers)
          + current_held w.current_buffer
        ≤ capacity w.returned_buffers

  -- What a call with `count` frames asked for has done.
  pub record Wrote (count : ℕ) (w : Object) (x : Result) : Type 0 where
    pub no_more : x.0 ≤ count
    pub ready : Ready x.1
    pub rest : x.0 + available x.1 ≡ available w
    pub stops : x.0 ≡ 0 → (count ≡ 0) ⊎ (available w ≡ 0)

  released :
      (cmd : AudioCommand fl) (w : Object)
      → length (items w.returned_buffers) < capacity w.returned_buffers
      → release_buffer fl client lib spsc cmd w
        ≡ some (record w {
          returned_buffers = (push cmd w.returned_buffers).1;
          semaphore = w.semaphore + 1;
        })
  unfolding release_buffer
  released cmd w room = rw (spsc.push_room cmd w.returned_buffers room).0

  will_write_bounds :
      (remaining count n : ℕ)
      → 0 < remaining
      → n ≡ (if ltb remaining count then remaining else count)
      → (n ≤ count) × (n ≤ remaining) × (n ≡ 0 → count ≡ 0)
  will_write_bounds remaining count n pos e = ground arith

  -- A buffer that is used up goes back, and one that is not stays.
  copied :
      (n count base : ℕ) (cmd : AudioCommand fl) (w : Object) (destination : Buffer fl)
      → n ≡ (
          if ltb (w.destination_frames - cmd.used) count
          then w.destination_frames - cmd.used
          else count)
      → cmd.used < w.destination_frames
      → Unused (items w.prepared_buffers)
      → length (items w.returned_buffers) + length (items w.prepared_buffers) + 1
        ≤ capacity w.returned_buffers
      → (x : Result) × (copy_out fl client lib spsc count base cmd w destination ≡ some x)
        × Wrote count (record w { current_buffer = some cmd }) x
  unfolding copy_out
  copied n count base cmd w destination e begun fresh room =
      let (no_more, fits, stops) =
        will_write_bounds (w.destination_frames - cmd.used) count n (omega arith) e in
      rw (sym e) (elim (ℕ_discrete (cmd.used + n) w.destination_frames) [
        | yes full ↦
            let test : (cmd.used + n == w.destination_frames) ≡ true = ground arith in
            rw (test, released (record cmd { used = cmd.used + n }) w (omega arith))
              (
                _,
                refl,
                record {
                  no_more = no_more;
                  ready = record {
                    short = omega arith;
                    unused = fresh;
                    room = omega (
                      arith,
                      push_counts fl client lib spsc 0 (record cmd { used = cmd.used + n })
                          w.returned_buffers (spsc.push_room _ w.returned_buffers (omega arith)).0,
                    );
                  };
                  rest = omega arith;
                  stops = λ z. inl (stops z);
                },
              )
        | no more ↦
            let test : (cmd.used + n == w.destination_frames) ≡ false = ground arith in
            rw test (
              _,
              refl,
              record {
                no_more = no_more;
                ready = record { short = omega arith; unused = fresh; room = room };
                rest = omega arith;
                stops = λ z. inl (stops z);
              },
            )
      ])

  -- What copying needs of the buffer that was fetched and of the object `v` afterwards.
  pub record Fetched (w v : Object) (cmd : AudioCommand fl) : Type 0 where
    pub frames : v.destination_frames ≡ w.destination_frames
    pub begun : cmd.used < v.destination_frames
    pub unused : Unused (items v.prepared_buffers)
    room :
        length (items v.returned_buffers) + length (items v.prepared_buffers) + 1
        ≤ capacity v.returned_buffers
    pub same : available (record v { current_buffer = some cmd }) ≡ available w

  one_more : (k f : ℕ) → (k + 1) * f ≡ k * f + f
  one_more k f = grind arith

  pub fetched :
      (w : Object)
      → Ready w
      → (((fetch fl client lib spsc w).0 ≡ none)
          × Ready (fetch fl client lib spsc w).1
          × (available (fetch fl client lib spsc w).1 ≡ 0)
          × (available w ≡ 0))
        ⊎ ((cmd : AudioCommand fl) × ((fetch fl client lib spsc w).0 ≡ some cmd)
            × Fetched w (fetch fl client lib spsc w).1 cmd)
  unfolding fetch acquire_buffer
  fetched w ready = elim (Option-cases w.current_buffer) [
    | inr (cmd, present) ↦ rw present (
        inr (
          cmd,
          refl,
          record {
            frames = refl;
            begun = subst (λ c. used_of c < w.destination_frames) present ready.short;
            unused = ready.unused;
            room = omega (arith, ready.room, ap current_held present);
            same = refl;
          },
        ))
    | inl missing ↦ elim (Option-cases (pop w.prepared_buffers).0) [
      | inl empty ↦
          let (kept, nothing) = pop_nothing fl client lib spsc 0 w.prepared_buffers empty in
          rw (missing, empty, kept)
            (inl (
              refl,
              record {
                short = omega (arith, ready.short);
                unused = ready.unused;
                room = omega (arith, ready.room, ap current_held missing);
              },
              rw nothing (omega arith),
              rw nothing (omega arith),
            ))
      | inr (cmd, got) ↦
          let (fewer, _, _) = pop_counts fl client lib spsc 0 w.prepared_buffers cmd got in
          let fresh =
            subst Unused (pop_items fl client lib spsc 0 w.prepared_buffers cmd got) ready.unused in
          rw (missing, got)
            (inr (
              cmd,
              refl,
              record {
                frames = refl;
                begun = omega (arith, fresh.0, ready.short);
                unused = fresh.1;
                room = omega (arith, fewer, ready.room, ap current_held missing);
                same = omega (
                  arith,
                  fresh.0,
                  one_more (length (items (pop w.prepared_buffers).1)) w.destination_frames,
                  ap (λ k. k * w.destination_frames) fewer,
                );
              },
            ))
    ]
  ]

  -- writeHelper returns, and takes from what is available.
  pub write_helper_lem :
      (count base : ℕ) (w : Object) (destination : Buffer fl)
      → Ready w
      → (x : Result) × (write_helper fl client lib spsc count base w destination ≡ some x)
        × Wrote count w x
  unfolding write_helper
  write_helper_lem count base w destination ready = elim (fetched w ready) [
    | inl (missing, still, gone, nothing) ↦
        rw (missing, write_helper)
          (
            _,
            refl,
            record {
              no_more = omega arith;
              ready = still;
              rest = omega (arith, gone, nothing);
              stops = λ z. inr nothing;
            },
          )
    | inr (cmd, got, f) ↦
        let (x, e, wrote) =
          copied _ count base cmd (fetch fl client lib spsc w).1 destination refl f.begun f.unused
            f.room in
        rw (got, write_helper)
          (
            x,
            e,
            record {
              no_more = wrote.no_more;
              ready = wrote.ready;
              rest = wrote.rest ∙ f.same;
              stops = λ z. elim (wrote.stops z) [
                | inl none_left ↦ inl none_left
                | inr nothing ↦ inr (sym f.same ∙ nothing)
              ];
            },
          )
  ]
