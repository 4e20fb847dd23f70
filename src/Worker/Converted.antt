-- ===== src/Worker/Converted.antt =====
-- What the I/O thread of src/audio_io/output_worker_thread.cpp is given, in terms of one long request to
-- the SampleFormatConverter.
use audio_io.Prelude.{
  ℕ, suc, ◌+◌, ◌*◌, ◌<◌, ◌≡◌, inl, inr, refl, sym, ap, ◌∙◌, arith, some, some_inj, Option-cases,
  List, ◌++◌, subst, length, length-append, mul_comm, ltb, if◌then◌else◌, ◌>>=◌,
}
use audio_io.Sample.{Float, Buffer}
use audio_io.Converter.{Client, ResamplerLib, Converter}
use audio_io.Converter
use audio_io.Converter.Write.{IsValid}
use audio_io.Converter.Chunks.{write-add, write_bounds}
use audio_io.Converter.Anywhere.{write_anywhere, write_keeps, write_nothing}
use audio_io.Worker.Queue.{AudioCommand, SpscQueue}
use audio_io.Worker.{OutputWorkerThread, create}
use audio_io.Worker.System.{
  Frame, frames_at, WorkerAt, waiting, popping, exited, mixing, pushing, System, start, mix,
  worker_do, worker_step, io_step, worker, io, Reach, here, next,
}
use audio_io.Worker.Safety.{heard_in_order}
use audio_io.Worker.Sounds.{Sounds, Sounds-append, Sounds-kept, frames_at-Sounds, length-frames_at}
use audio_io.Worker.Played.{Still, io_do-Still, worker_do-Still}

module _ (fl : Float) (client : Client fl) (lib : ResamplerLib fl)
    (spsc : SpscQueue (AudioCommand fl)) (resample_fuel : ℕ) where
  abbrev State : Type 0
  State = System fl client lib spsc resample_fuel

  abbrev Conv : Type 0
  Conv = Converter fl client lib

  abbrev pub silence : Buffer fl
  silence k = fl.lit 0

  -- The frames that have been made, in the buffer that one request for `n` blocks to the converter `c`
  -- would have filled.
  record Converted (c : Conv) (frames oc n : ℕ) (s : State) : Type 0 where
    buffer : Buffer fl
    whole :
        Converter.write fl client lib resample_fuel (n * frames) 0 c silence
        ≡ some (s.object.converter, buffer)
    size : s.object.destination_frames ≡ frames
    channels : s.object.destination_channels ≡ oc
    sounds : Sounds fl oc s.made buffer 0
    counted : length s.made ≡ n * frames

  Still-Converted :
      (c : Conv) (frames oc n : ℕ) (s t : State)
      → Still fl client lib spsc resample_fuel s t
      → Converted c frames oc n s
      → Converted c frames oc n t
  Still-Converted c frames oc n s t k v = record {
    buffer = v.buffer;
    whole = v.whole ∙ ap (λ d. some (d, v.buffer)) (sym k.converter);
    size = k.size ∙ v.size;
    channels = k.channels ∙ v.channels;
    sounds = subst (λ fs. Sounds fl oc fs v.buffer 0) (sym k.made) v.sounds;
    counted = ap length k.made ∙ v.counted;
  }

  next_block : (n frames : ℕ) → suc n * frames ≡ n * frames + frames
  next_block n frames = grind arith

  -- A further block, written anywhere, is the end of a longer request.
  added :
      (c : Conv) (frames oc n : ℕ) (s : State) (cleared samples : Buffer fl) (c' : Conv)
      → IsValid fl client lib c
      → c.output_channels ≡ oc
      → Converted c frames oc n s
      → Converter.write fl client lib resample_fuel frames 0 s.object.converter cleared
        ≡ some (c', samples)
      → (buffer : Buffer fl) × (Converter.write fl client lib resample_fuel
            (suc n * frames)
            0
            c
            silence
          ≡ some (c', buffer))
        × Sounds fl oc (s.made ++ frames_at fl samples oc 0 frames) buffer 0
  added c frames oc n s cleared samples c' valid same v e =
      let d = s.object.converter in
      let behind = 0 + n * frames * c.output_channels in
      let (valid', same') =
        write_keeps fl client lib resample_fuel (n * frames) 0 c silence (d, v.buffer) valid
          v.whole in
      let (y, e', (left, alike)) =
        write_anywhere fl client lib resample_fuel frames 0 behind d cleared v.buffer (c', samples)
          valid' e in
      let end : 0 + oc * length s.made ≡ behind =
        ap (λ l. 0 + oc * l) v.counted
        ∙ ap (λ l. 0 + l) (mul_comm oc (n * frames))
        ∙ ap (λ o. 0 + n * frames * o) (sym same) in
      (
        y.1,
        ap (λ m. Converter.write fl client lib resample_fuel m 0 c silence) (next_block n frames)
            ∙ write-add fl client lib resample_fuel (n * frames) frames 0 c silence valid
            ∙ ap (λ o. o >>= λ x. Converter.write fl client lib resample_fuel frames behind x.0 x.1)
                v.whole
            ∙ e'
            ∙ ap (λ o. some (o, y.1)) left,
        Sounds-append fl oc s.made (frames_at fl samples oc 0 frames) y.1 0
            (Sounds-kept fl oc s.made v.buffer y.1 0
              (λ k lk.
                write_bounds fl client lib resample_fuel frames behind d y.0 v.buffer y.1 valid' e'
                  k (inl (omega (arith, lk, end))))
              v.sounds)
            (frames_at-Sounds fl samples oc 0 frames y.1 (0 + oc * length s.made) (λ k lk.
              let at : 0 + oc * length s.made + k ≡ behind + k = ap (λ b. b + k) end in
              let from : 0 + k ≡ oc * 0 + k = grind arith in
              ap y.1 at
              ∙ alike k (omega (arith, lk, ap (λ o. frames * o) (same' ∙ same), mul_comm oc frames))
              ∙ ap samples from)),
      )

  mixing-Converted :
      (c : Conv) (frames oc n : ℕ) (cmd : AudioCommand fl) (s t : State)
      → IsValid fl client lib c
      → c.output_channels ≡ oc
      → worker_do fl client lib spsc resample_fuel (mixing cmd) s ≡ some t
      → Converted c frames oc n s
      → Converted c frames oc (suc n) t
  unfolding worker_do mix
  mixing-Converted c frames oc n cmd s t valid same e v =
      let w = s.object in
      let cleared : Buffer fl = λ k.
        if ltb k (w.destination_frames * w.destination_channels) then fl.lit 0 else cmd.samples k in
      elim (Option-cases
        (Converter.write fl client lib resample_fuel w.destination_frames 0 w.converter cleared)) [
          | inl fails ↦ absurd (cc (rw fails at e))
          | inr (x, wrote) ↦
              let (buffer, whole, sounds) = added c frames oc n s cleared x.1 x.0 valid same v (
                ap (λ m. Converter.write fl client lib resample_fuel m 0 w.converter cleared)
                  (sym v.size)
                ∙ wrote) in
              let full : AudioCommand fl = record cmd { samples = x.1; used = 0 } in
              let next_state : State = record s {
                object = record w { converter = x.0 };
                worker_at = pushing full;
                made = s.made ++ frames_at fl x.1 w.destination_channels 0 w.destination_frames;
              } in
              let moved : worker_do fl client lib spsc resample_fuel (mixing cmd) s
                  ≡ some next_state =
                rw wrote refl in
              let shape : next_state.made ≡ s.made ++ frames_at fl x.1 oc 0 frames =
                λ i. s.made ++ frames_at fl x.1 (v.channels i) 0 (v.size i) in
              subst (Converted c frames oc (suc n)) (some_inj (sym moved ∙ e)) (record {
                buffer = buffer;
                whole = whole;
                size = v.size;
                channels = v.channels;
                sounds = subst (λ fs. Sounds fl oc fs buffer 0) (sym shape) sounds;
                counted =
                    length-append s.made
                      (frames_at fl x.1 w.destination_channels 0 w.destination_frames)
                    ∙ omega (
                      arith,
                      v.counted,
                      v.size,
                      length-frames_at fl x.1 w.destination_channels 0 w.destination_frames,
                      next_block n frames,
                    );
              })
        ]

  worker_do-Converted :
      (c : Conv) (frames oc n : ℕ) (at : WorkerAt fl) (s t : State)
      → IsValid fl client lib c
      → c.output_channels ≡ oc
      → worker_do fl client lib spsc resample_fuel at s ≡ some t
      → Converted c frames oc n s
      → (m : ℕ) × Converted c frames oc m t
  worker_do-Converted c frames oc n (mixing cmd) s t valid same e v =
      (suc n, mixing-Converted c frames oc n cmd s t valid same e v)
  worker_do-Converted c frames oc n waiting s t valid same e v = (
    n,
    Still-Converted c frames oc n s t
        (worker_do-Still fl client lib spsc resample_fuel waiting s t (λ cmd q. cc q) e) v,
  )
  worker_do-Converted c frames oc n popping s t valid same e v = (
    n,
    Still-Converted c frames oc n s t
        (worker_do-Still fl client lib spsc resample_fuel popping s t (λ cmd q. cc q) e) v,
  )
  worker_do-Converted c frames oc n (pushing full) s t valid same e v = (
    n,
    Still-Converted c frames oc n s t
        (worker_do-Still fl client lib spsc resample_fuel (pushing full) s t (λ cmd q. cc q) e) v,
  )
  worker_do-Converted c frames oc n exited s t valid same e v = (
    n,
    Still-Converted c frames oc n s t
        (worker_do-Still fl client lib spsc resample_fuel exited s t (λ cmd q. cc q) e) v,
  )

  Reach-Converted :
      (c : Conv) (frames oc : ℕ) {s t : State}
      → IsValid fl client lib c
      → c.output_channels ≡ oc
      → Reach fl client lib spsc resample_fuel s t
      → Converted c frames oc 0 s
      → (n : ℕ) × Converted c frames oc n t
  unfolding worker_step io_step
  Reach-Converted c frames oc valid same here v = (0, v)
  Reach-Converted c frames oc valid same (next {t} {u} r (worker e)) v =
      let (n, before) = Reach-Converted c frames oc valid same r v in
      worker_do-Converted c frames oc n t.worker_at t u valid same e before
  Reach-Converted c frames oc valid same (next {t} {u} r (io request e)) v =
      let (n, before) = Reach-Converted c frames oc valid same r v in
      (
        n,
        Still-Converted c frames oc n t u
            (io_do-Still fl client lib spsc resample_fuel t.io_at request t u e) before,
      )

  module _ (world : client.World) (frames ic isr oc osr mixahead : ℕ)
      (w : OutputWorkerThread fl client lib spsc)
      (made : create fl client lib spsc world frames ic isr oc osr mixahead ≡ some w) where
    pub created :
        (w.destination_channels ≡ oc)
        × (Converter.create fl client lib world frames ic isr oc osr ≡ some w.converter)
    unfolding create
    created = ground arith

    created_converter :
        0 < frames
        → (w.converter.output_channels ≡ oc)
          × (0 < w.converter.output_frames)
          × (w.converter.consumed_output_frames ≡ w.converter.output_frames)
    unfolding Converter.create
    created_converter pos = ground (arith, created.1)

    -- The frames that the I/O thread has been given and those that are on their way, in every reachable
    -- state, are what one request to the new converter gives.
    pub converter_heard :
        (s : State)
        → Reach fl client lib spsc resample_fuel (start fl client lib spsc resample_fuel w) s
        → 0 < frames
        → (n : ℕ) × (rest : List (Frame fl)) × (c : Conv) × (buffer : Buffer fl) × (Converter.write
              fl client lib resample_fuel
              (n * w.destination_frames)
              0
              w.converter
              silence
            ≡ some (c, buffer))
          × Sounds fl oc (s.heard ++ rest) buffer 0
          × (length (s.heard ++ rest) ≡ n * w.destination_frames)
          × (s.object.destination_channels ≡ oc)
          × (s.object.destination_frames ≡ w.destination_frames)
    unfolding start
    converter_heard s reach pos =
        let (channels, some_frames, used) = created_converter pos in
        let none_yet : 0 * w.destination_frames ≡ 0 = omega arith in
        let valid : IsValid fl client lib w.converter = record {
          some_frames = some_frames;
          within = omega arith;
        } in
        let (n, v) =
          Reach-Converted w.converter w.destination_frames oc valid channels reach (record {
            buffer = silence;
            whole =
                ap (λ m. Converter.write fl client lib resample_fuel m 0 w.converter silence)
                  none_yet
                ∙ write_nothing fl client lib resample_fuel 0 w.converter silence valid;
            size = refl;
            channels = created.0;
            sounds = tt;
            counted = sym none_yet;
          }) in
        let (rest, whole) =
          heard_in_order fl client lib spsc resample_fuel world frames ic isr oc osr mixahead w made
            s reach in
        (
          n,
          rest,
          s.object.converter,
          v.buffer,
          v.whole,
          subst (λ fs. Sounds fl oc fs v.buffer 0) whole v.sounds,
          ap length (sym whole) ∙ v.counted,
          v.channels,
          v.size,
        )
