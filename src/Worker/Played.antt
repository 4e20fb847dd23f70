-- ===== src/Worker/Played.antt =====
-- What the I/O thread of src/audio_io/output_worker_thread.cpp is given at equal sample rates, in terms
-- of the blocks of the program's callback.
use mathlib.Core.List.{map-append}
use native.Mathlib.Nat.{mul-div_cancel}
use audio_io.Prelude.{
  some_inj, ℕ, zero, suc, ◌+◌, ◌*◌, ◌/◌, ◌≤◌, ◌<◌, ◌≡◌, refl, sym, ap, ◌∙◌, arith, some, List, [],
  ◌∷◌, ◌++◌, subst, mul_comm, map, ltb, if◌then◌else◌, dec_lt, fun_ext, ap₂, true, false, ◌≢◌,
}
use audio_io.Sample.{Float, Buffer}
use audio_io.Mixing.Cells.{place}
use audio_io.Converter.{Client, ResamplerLib, Converter}
use audio_io.Converter
use audio_io.Converter.SameRate.{block_sample, After, write_block, create-After}
use audio_io.Worker.Queue.{AudioCommand, SpscQueue}
use audio_io.Worker.{OutputWorkerThread, create}
use audio_io.Worker.System.{
  Frame, frames_at, WorkerAt, waiting, popping, exited, mixing, pushing, IoAt, idle, Request,
  proceed, System, start, mix, count_mixed, worker_pop, worker_do, worker_step, io_copy, io_idle,
  io_return, io_signal, io_join, io_do, io_step, worker, io, Reach, here, next,
}
use audio_io.Worker.Safety.{heard_in_order}

module _ (fl : Float) (client : Client fl) (lib : ResamplerLib fl)
    (spsc : SpscQueue (AudioCommand fl)) (resample_fuel : ℕ) where
  abbrev State : Type 0
  State = System fl client lib spsc resample_fuel

  -- What steps other than a mix keep.
  pub record Still (s t : State) : Type 0 where
    pub converter : t.object.converter ≡ s.object.converter
    pub size : t.object.destination_frames ≡ s.object.destination_frames
    pub channels : t.object.destination_channels ≡ s.object.destination_channels
    pub made : t.made ≡ s.made

  pub io_do-Still :
      (at : IoAt fl) (request : Request) (s t : State)
      → io_do fl client lib spsc resample_fuel at request s ≡ some t
      → Still s t
  unfolding io_do io_idle io_copy io_return io_signal io_join
  io_do-Still idle proceed s t e = absurd (cc e)
  io_do-Still idle request s t e = ground arith
  io_do-Still at request s t e = ground arith

  pub worker_do-Still :
      (at : WorkerAt fl) (s t : State)
      → ((cmd : AudioCommand fl) → at ≢ mixing cmd)
      → worker_do fl client lib spsc resample_fuel at s ≡ some t
      → Still s t
  unfolding worker_do worker_pop count_mixed
  worker_do-Still (mixing cmd) s t other e = absurd (other cmd refl)
  worker_do-Still at s t other e = ground arith

  module _ (world : client.World) (frames ic oc : ℕ) where
    -- A frame as far as the device's channels go.
    pub cut : Frame fl → Frame fl
    cut frame r = if ltb r oc then frame r else fl.lit 0

    -- The frames of block `n` from frame `i` on.
    pub block_frames : ℕ → ℕ → ℕ → List (Frame fl)
    unfolding cut
    block_frames n i zero = []
    block_frames n i (suc k) =
        cut (block_sample fl client lib world frames ic oc n i) ∷ block_frames n (i + 1) k

    -- The first `n` blocks of the program, in the channels of the device.
    pub stream : ℕ → List (Frame fl)
    stream zero = []
    stream (suc n) = stream n ++ block_frames n 0 frames

    frames_at_block :
        (samples : Buffer fl) (n i k : ℕ)
        → ((i r : ℕ)
            → i < frames
            → r < oc
            → samples (place oc i r) ≡ block_sample fl client lib world frames ic oc n i r)
        → i + k ≤ frames
        → map cut (frames_at fl samples oc i k) ≡ block_frames n i k
    unfolding frames_at block_frames cut
    frames_at_block samples n i zero same le = refl
    frames_at_block samples n i (suc k) same le =
        ap₂ (λ (f : Frame fl) (fs : List (Frame fl)). f ∷ fs)
          (fun_ext λ r. elim (dec_lt r oc) [
            | yes lt ↦
                let test : ltb r oc ≡ true = ground arith in
                rw test (ap (λ m. samples (m + r)) (mul_comm oc i) ∙ same i r (omega arith) lt)
            | no far ↦ let test : ltb r oc ≡ false = ground arith in rw test refl
          ])
          (frames_at_block samples n (i + 1) k same (omega arith))

    pub record Playing (n : ℕ) (s : State) : Type 0 where
      pub after : After fl client lib world frames ic oc n s.object.converter
      pub size : s.object.destination_frames ≡ frames
      pub channels : s.object.destination_channels ≡ oc
      pub shown : map cut s.made ≡ stream n

    Still-Playing : (n : ℕ) (s t : State) → Still s t → Playing n s → Playing n t
    Still-Playing n s t k p = record {
      after = subst (After fl client lib world frames ic oc n) (sym k.converter) p.after;
      size = k.size ∙ p.size;
      channels = k.channels ∙ p.channels;
      shown = ap (map cut) k.made ∙ p.shown;
    }

    mixing-Playing :
        (n : ℕ) (cmd : AudioCommand fl) (s t : State)
        → 0 < frames
        → worker_do fl client lib spsc resample_fuel (mixing cmd) s ≡ some t
        → Playing n s
        → Playing (suc n) t
    unfolding worker_do mix stream
    mixing-Playing n cmd s t pos e p =
        let w = s.object in
        let cleared : Buffer fl = λ k.
          if ltb k (w.destination_frames * w.destination_channels)
          then fl.lit 0
          else cmd.samples k in
        let (x, wrote, after, samples) =
          write_block fl client lib world frames ic oc resample_fuel n w.converter cleared pos
            p.after in
        let whole =
          ap (λ m. Converter.write fl client lib resample_fuel m 0 w.converter cleared) p.size
          ∙ wrote in
        let full : AudioCommand fl = record cmd { samples = x.1; used = 0 } in
        let next_state : State = record s {
          object = record w { converter = x.0 };
          worker_at = pushing full;
          made = s.made ++ frames_at fl x.1 w.destination_channels 0 w.destination_frames;
        } in
        let moved : worker_do fl client lib spsc resample_fuel (mixing cmd) s ≡ some next_state =
          rw whole refl in
        subst (Playing (suc n)) (some_inj (sym moved ∙ e)) (record {
          after = after;
          size = p.size;
          channels = p.channels;
          shown =
              map-append cut s.made (frames_at fl x.1 w.destination_channels 0 w.destination_frames)
              ∙ ap₂ (λ (xs ys : List (Frame fl)). xs ++ ys) p.shown
                  ((λ i. map cut (frames_at fl x.1 (p.channels i) 0 (p.size i)))
                    ∙ frames_at_block x.1 n 0 frames samples (omega arith));
        })

    worker_do-Playing :
        (n : ℕ) (at : WorkerAt fl) (s t : State)
        → 0 < frames
        → worker_do fl client lib spsc resample_fuel at s ≡ some t
        → Playing n s
        → (m : ℕ) × Playing m t
    worker_do-Playing n (mixing cmd) s t pos e p = (suc n, mixing-Playing n cmd s t pos e p)
    worker_do-Playing n waiting s t pos e p =
        (n, Still-Playing n s t (worker_do-Still waiting s t (λ cmd same. cc same) e) p)
    worker_do-Playing n popping s t pos e p =
        (n, Still-Playing n s t (worker_do-Still popping s t (λ cmd same. cc same) e) p)
    worker_do-Playing n (pushing full) s t pos e p =
        (n, Still-Playing n s t (worker_do-Still (pushing full) s t (λ cmd same. cc same) e) p)
    worker_do-Playing n exited s t pos e p =
        (n, Still-Playing n s t (worker_do-Still exited s t (λ cmd same. cc same) e) p)

    pub Reach-Playing :
        {s t : State}
        → 0 < frames
        → Reach fl client lib spsc resample_fuel s t
        → Playing 0 s
        → (n : ℕ) × Playing n t
    unfolding worker_step io_step
    Reach-Playing pos here p = (0, p)
    Reach-Playing pos (next {t} {u} r (worker e)) p =
        let (n, before) = Reach-Playing pos r p in worker_do-Playing n t.worker_at t u pos e before
    Reach-Playing pos (next {t} {u} r (io request e)) p =
        let (n, before) = Reach-Playing pos r p in
        (n, Still-Playing n t u (io_do-Still t.io_at request t u e) before)

  module _ (world : client.World) (frames ic oc rate mixahead : ℕ)
      (w : OutputWorkerThread fl client lib spsc)
      (made : create fl client lib spsc world frames ic rate oc rate mixahead ≡ some w) where
    pub create_lem :
        (0 < rate)
        × (w.destination_channels ≡ oc)
        × (w.destination_frames ≡ frames * rate / rate)
        × (Converter.create fl client lib world frames ic rate oc rate ≡ some w.converter)
    unfolding create
    create_lem = ground arith

    pub create-Playing : Playing world frames ic oc 0 (start fl client lib spsc resample_fuel w)
    unfolding start stream
    create-Playing =
        let (pos, channels, size, converter) = create_lem in
        record {
          after = create-After fl client lib world frames ic oc rate w.converter converter;
          size = size ∙ mul-div_cancel frames pos;
          channels = channels;
          shown = refl;
        }

    -- At equal sample rates and for blocks with frames: in every state that an OutputWorkerThread can
    -- reach, under every interleaving, the frames that the I/O thread has been given, with those that
    -- are still on their way, are the first blocks of the program's callback, one behind the other and
    -- remixed to the device's channels.
    pub program_heard :
        (s : State)
        → Reach fl client lib spsc resample_fuel (start fl client lib spsc resample_fuel w) s
        → 0 < frames
        → (n : ℕ) × (rest : List (Frame fl)) × (map (cut world frames ic oc) (s.heard ++ rest)
            ≡ stream world frames ic oc n)
    program_heard s reach pos =
        let (n, p) = Reach-Playing world frames ic oc pos reach create-Playing in
        let (rest, whole) =
          heard_in_order fl client lib spsc resample_fuel world frames ic rate oc rate mixahead w
            made s reach in
        (n, rest, ap (map (cut world frames ic oc)) (sym whole) ∙ p.shown)
