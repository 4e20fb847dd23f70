-- ===== src/Worker/Plays.antt =====
-- What a call of OutputWorkerThread::write gives the backend of what the program has mixed.
use native.Mathlib.Nat.{mul-div_cancel}
use audio_io.Prelude.{
  ℕ, ◌+◌, ◌*◌, ◌≤◌, ◌<◌, ◌≡◌, ◌⊎◌, sym, ap, ◌∙◌, arith, some, min, List, ◌++◌, length, map,
}
use audio_io.Sample.{Float, Buffer}
use audio_io.Converter.{Client, ResamplerLib}
use audio_io.Worker.Queue.{AudioCommand, SpscQueue}
use audio_io.Worker.{OutputWorkerThread, create, write}
use audio_io.Worker.System.{Frame, System, start, Reach, idle}
use audio_io.Worker.WriteHelper.{available}
use audio_io.Worker.Sounds.{Sounds}
use audio_io.Worker.Continues.{write-Continues}
use audio_io.Worker.Played.{cut, stream, create_lem, program_heard}

module _ (fl : Float) (client : Client fl) (lib : ResamplerLib fl)
    (spsc : SpscQueue (AudioCommand fl)) (resample_fuel : ℕ) where
  abbrev Object : Type 0
  Object = OutputWorkerThread fl client lib spsc

  abbrev State : Type 0
  State = System fl client lib spsc resample_fuel

  module _ (world : client.World) (frames ic oc rate mixahead : ℕ) (w : Object)
      (made : create fl client lib spsc world frames ic rate oc rate mixahead ≡ some w) where
    abbrev Reached : State → Type 0
    Reached = Reach fl client lib spsc resample_fuel (start fl client lib spsc resample_fuel w)

    -- What a call in the state `s` has done that has returned `n` and left `after` and the object `v`.
    pub record Plays (s : State) (count base n : ℕ) (before after : Buffer fl) (v : Object)
        : Type 0 where
      pub state : State
      pub reached : Reached state
      pub idle_again : state.io_at ≡ idle
      pub object : state.object ≡ v
      pub returned : n ≡ min count (available fl client lib spsc s.object)
      pub played : List (Frame fl)
      pub counted : length played ≡ n
      pub heard : state.heard ≡ s.heard ++ played
      pub sounds : Sounds fl oc played after base
      pub outside : (k : ℕ) → (k < base) ⊎ (base + oc * n ≤ k) → after k ≡ before k
      pub blocks : ℕ
      pub rest : List (Frame fl)
      pub continued :
          map
            (cut fl client lib spsc resample_fuel world frames ic oc)
            ((s.heard ++ played) ++ rest)
          ≡ stream fl client lib spsc resample_fuel world frames ic oc blocks

    -- At equal sample rates and for blocks with frames: in every state that an OutputWorkerThread can
    -- reach, under every interleaving, between two calls of the I/O thread, a call of `write` during
    -- which the worker thread stands still returns. It returns as many frames as are asked for or, if
    -- they are fewer, all that are mixed and not copied yet. These frames stand in the destination, one
    -- behind the other, in all channels of the device, and nothing else of it is written. What the I/O
    -- thread was given before, these frames, and those still on their way are the first blocks of the
    -- program's callback, one behind the other and remixed to the device's channels. The state is then
    -- again one that can be reached, between two calls.
    pub write-Plays :
        (s : State) (count base : ℕ) (destination : Buffer fl)
        → Reached s
        → 0 < frames
        → s.io_at ≡ idle
        → (x : ℕ × Object × Buffer fl) × (write fl client lib spsc count base s.object destination
            ≡ some x)
          × Plays s count base x.0 destination x.2 x.1
    write-Plays s count base destination r pos now =
        let (some_rate, _, size, _) =
          create_lem fl client lib spsc resample_fuel world frames ic oc rate mixahead w made in
        let whole : 0 < w.destination_frames =
          omega (arith, size ∙ mul-div_cancel frames some_rate) in
        let (x, e, f) =
          write-Continues fl client lib spsc resample_fuel world frames ic rate oc rate mixahead w
            made s count base destination r pos whole now in
        let (blocks, rest, continued) =
          program_heard fl client lib spsc resample_fuel world frames ic oc rate mixahead w made
            f.state f.reached pos in
        (
          x,
          e,
          record {
            state = f.state;
            reached = f.reached;
            idle_again = f.idle_again;
            object = f.object;
            returned = f.returned;
            played = f.played;
            counted = f.counted;
            heard = f.heard;
            sounds = f.sounds;
            outside = f.outside;
            blocks = blocks;
            rest = rest;
            continued =
                ap (λ l. map (cut fl client lib spsc resample_fuel world frames ic oc) (l ++ rest))
                  (sym f.heard)
                ∙ continued;
          },
        )
