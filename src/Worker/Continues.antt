-- ===== src/Worker/Continues.antt =====
-- What a call of OutputWorkerThread::write gives the backend at any sample rates.
use audio_io.Prelude.{
  ℕ, ◌+◌, ◌*◌, ◌≤◌, ◌<◌, ◌≡◌, ◌⊎◌, sym, subst, ap, ◌∙◌, some, min, List, ◌++◌, length,
}
use audio_io.Sample.{Float, Buffer}
use audio_io.Converter.{Client, ResamplerLib, Converter}
use audio_io.Converter
use audio_io.Worker.Queue.{AudioCommand, SpscQueue}
use audio_io.Worker.{OutputWorkerThread, create, write}
use audio_io.Worker.System.{Frame, System, start, Reach, idle}
use audio_io.Worker.WriteHelper.{available}
use audio_io.Worker.Between.{Reach-Ready, write_returns}
use audio_io.Worker.Sounds.{Sounds}
use audio_io.Worker.Ran.{Leads-trans}
use audio_io.Worker.WriteSteps.{write_steps}
use audio_io.Worker.Converted.{silence, converter_heard}

module _ (fl : Float) (client : Client fl) (lib : ResamplerLib fl)
    (spsc : SpscQueue (AudioCommand fl)) (resample_fuel : ℕ) where
  abbrev Object : Type 0
  Object = OutputWorkerThread fl client lib spsc

  abbrev State : Type 0
  State = System fl client lib spsc resample_fuel

  module _ (world : client.World) (frames ic isr oc osr mixahead : ℕ) (w : Object)
      (made : create fl client lib spsc world frames ic isr oc osr mixahead ≡ some w) where
    abbrev Reached : State → Type 0
    Reached = Reach fl client lib spsc resample_fuel (start fl client lib spsc resample_fuel w)

    -- What a call in the state `s` has done that has returned `n` and left `after` and the object `v`.
    pub record Continues (s : State) (count base n : ℕ) (before after : Buffer fl) (v : Object)
        : Type 0 where
      pub state : State
      pub reached : Reached state
      pub idle_again : state.io_at ≡ idle
      pub object : state.object ≡ v
      pub returned : n ≡ min count (available fl client lib spsc s.object)
      pub played : List (Frame fl)
      pub counted : length played ≡ n
      pub heard : state.heard ≡ s.heard ++ played
      pub sounds : Sounds fl oc played after base
      pub outside : (k : ℕ) → (k < base) ⊎ (base + oc * n ≤ k) → after k ≡ before k
      pub blocks : ℕ
      pub rest : List (Frame fl)
      pub converter : Converter fl client lib
      pub buffer : Buffer fl
      pub converted :
          Converter.write fl client lib resample_fuel
            (blocks * w.destination_frames)
            0
            w.converter
            (silence fl client lib spsc resample_fuel)
          ≡ some (converter, buffer)
      pub size : length ((s.heard ++ played) ++ rest) ≡ blocks * w.destination_frames
      pub continued : Sounds fl oc ((s.heard ++ played) ++ rest) buffer 0

    -- For blocks with frames, at any sample rates: in every state that an OutputWorkerThread can reach,
    -- under every interleaving, between two calls of the I/O thread, a call of `write` during which the
    -- worker thread stands still returns. It returns as many frames as are asked for or, if they are
    -- fewer, all that are mixed and not copied yet. These frames stand in the destination, one behind
    -- the other, in all channels of the device, and nothing else of it is written. What the I/O thread
    -- was given before, these frames, and those still on their way stand, one behind the other, in the
    -- buffer that a single request for that many frames to the new SampleFormatConverter fills. The
    -- state is then again one that can be reached, between two calls.
    pub write-Continues :
        (s : State) (count base : ℕ) (destination : Buffer fl)
        → Reached s
        → 0 < frames
        → 0 < w.destination_frames
        → s.io_at ≡ idle
        → (x : ℕ × Object × Buffer fl) × (write fl client lib spsc count base s.object destination
            ≡ some x)
          × Continues s count base x.0 destination x.2 x.1
    write-Continues s count base destination r some_frames whole now =
        let (x, e, n, _, _) =
          write_returns fl client lib spsc resample_fuel world frames ic isr oc osr mixahead w s
            count base destination made r whole now in
        let ready =
          Reach-Ready fl client lib spsc resample_fuel world frames ic isr oc osr mixahead w s made
            r whole now in
        let (t, f) =
          write_steps fl client lib spsc resample_fuel count base s destination x now ready e in
        let (_, _, _, _, _, _, _, channels, _) =
          converter_heard fl client lib spsc resample_fuel world frames ic isr oc osr mixahead w
            made s r some_frames in
        let reached = Leads-trans fl client lib spsc resample_fuel r f.leads in
        let (blocks, rest, converter, buffer, converted, sounds, size, _, _) =
          converter_heard fl client lib spsc resample_fuel world frames ic isr oc osr mixahead w
            made t reached some_frames in
        (
          x,
          e,
          record {
            state = t;
            reached = reached;
            idle_again = f.idle_again;
            object = f.object;
            returned = n;
            played = f.played;
            counted = f.counted;
            heard = f.heard;
            sounds = subst (λ c. Sounds fl c f.played x.2 base) channels f.sounds;
            outside =
                subst (λ c. (k : ℕ) → (k < base) ⊎ (base + c * x.0 ≤ k) → x.2 k ≡ destination k)
                  channels f.outside;
            blocks = blocks;
            rest = rest;
            converter = converter;
            buffer = buffer;
            converted = converted;
            size = ap (λ l. length (l ++ rest)) (sym f.heard) ∙ size;
            continued = subst (λ l. Sounds fl oc (l ++ rest) buffer 0) f.heard sounds;
          },
        )
