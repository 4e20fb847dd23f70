-- ===== src/Worker/Stream.antt =====
-- Where the frames are that the worker thread has mixed and the I/O thread has not copied: in the
-- current buffer, in the prepared buffers and on their way there, in this order.
use audio_io.Prelude.{
  ℕ, zero, suc, ◌+◌, ◌-◌, ◌*◌, ◌≡◌, inl, inr, refl, sym, ap, ◌∙◌, arith, true, Option, none, some,
  List, [], ◌∷◌, ◌++◌, append_assoc, append-nil, length, dec_lt, Option-cases,
}
use audio_io.Sample.{Float, Buffer}
use audio_io.Converter.{Client, ResamplerLib}
use audio_io.Worker.Queue.{AudioCommand, SpscQueue, Unused}
use audio_io.Worker.{OutputWorkerThread}
use audio_io.Worker.System.{
  Frame, frames_at, WorkerAt, waiting, popping, exited, mixing, pushing, IoAt, idle, signalling,
  stopping, stop_signalling, joining, joined, releasing, Request, acquire, destroy, proceed, copy,
  System, mix, count_mixed, worker_pop, worker_do, worker_step, io_copy, io_idle, io_return,
  io_signal, io_join, io_do, io_step, Step, worker, io, Reach, here, next,
}
use audio_io.Worker.Invariant.{pop_nothing}
use audio_io.Worker.Steps.{mix_keeps}

module _ (fl : Float) (client : Client fl) (lib : ResamplerLib fl)
    (spsc : SpscQueue (AudioCommand fl)) (resample_fuel : ℕ) where
  open spsc use {Queue as Commands, push, pop, items, capacity}

  abbrev State : Type 0
  State = System fl client lib spsc resample_fuel

  abbrev Object : Type 0
  Object = OutputWorkerThread fl client lib spsc

  abbrev Frames : Type 0
  Frames = List (Frame fl)

  pub push_items :
      (cmd : AudioCommand fl) (q : Commands)
      → (push cmd q).0 ≡ true
      → items (push cmd q).1 ≡ items q ++ (cmd ∷ [])
  push_items cmd q done = elim (dec_lt (length (items q)) (capacity q)) [
    | yes room ↦ (spsc.push_room cmd q room).1
    | no full ↦ absurd (cc (spsc.push_full cmd q (omega arith)))
  ]

  pub pop_items :
      (q : Commands) (cmd : AudioCommand fl)
      → (pop q).0 ≡ some cmd
      → items q ≡ cmd ∷ items (pop q).1
  pop_items q cmd got = go (items q) refl
    where
      go : (l : List (AudioCommand fl)) → items q ≡ l → items q ≡ cmd ∷ items (pop q).1
      go [] e = absurd (cc (spsc.pop_empty q e))
      go (a ∷ rest) e = ground (arith, spsc.pop_first q a rest e)

  frames_at-split :
      (samples : Buffer fl) (channels n k total i : ℕ)
      → total ≡ n + k
      → frames_at fl samples channels i n ++ frames_at fl samples channels (i + n) k
        ≡ frames_at fl samples channels i total
  unfolding frames_at
  frames_at-split samples ch zero k total i e = λ j. frames_at fl samples ch (first j) (same j)
    where
      first : i + zero ≡ i
      first = omega arith

      same : k ≡ total
      same = omega arith
  frames_at-split samples ch (suc n) k zero i e = absurd (omega arith)
  frames_at-split samples ch (suc n) k (suc total) i e =
      ap (λ fs. (λ c. samples (ch * i + c)) ∷ fs)
        ((λ j. frames_at fl samples ch (i + 1) n ++ frames_at fl samples ch (shift j) k)
          ∙ frames_at-split samples ch n k total (i + 1) (omega arith))
    where
      shift : i + suc n ≡ i + 1 + n
      shift = omega arith

  -- Blocks of `n` frames with `ch` channels.
  abbrev blocks : ℕ → ℕ → List (AudioCommand fl) → Frames
  blocks ch n [] = []
  blocks ch n (cmd ∷ cmds) = frames_at fl cmd.samples ch 0 n ++ blocks ch n cmds

  blocks_last :
      (ch n : ℕ) (xs : List (AudioCommand fl)) (cmd : AudioCommand fl)
      → blocks ch n (xs ++ (cmd ∷ [])) ≡ blocks ch n xs ++ frames_at fl cmd.samples ch 0 n
  blocks_last ch n [] cmd = append-nil _
  blocks_last ch n (x ∷ xs) cmd =
      ap (λ fs. frames_at fl x.samples ch 0 n ++ fs) (blocks_last ch n xs cmd)
      ∙ sym (append_assoc _ (blocks ch n xs) _)

  -- The frames that the current buffer still holds, and those on their way into the queue.
  abbrev left : ℕ → ℕ → Option (AudioCommand fl) → Frames
  left ch n none = []
  left ch n (some cmd) = frames_at fl cmd.samples ch cmd.used (n - cmd.used)

  abbrev on_way : ℕ → ℕ → WorkerAt fl → Frames
  on_way ch n (pushing cmd) = frames_at fl cmd.samples ch 0 n
  on_way ch n _ = []

  left_unused :
      (ch n : ℕ) (cmd : AudioCommand fl)
      → cmd.used ≡ 0
      → frames_at fl cmd.samples ch cmd.used (n - cmd.used) ≡ frames_at fl cmd.samples ch 0 n
  left_unused ch n cmd e =
      let all : n - cmd.used ≡ n = omega arith in λ j. frames_at fl cmd.samples ch (e j) (all j)

  frames_at_none : (samples : Buffer fl) (ch i k : ℕ) → k ≡ 0 → frames_at fl samples ch i k ≡ []
  unfolding frames_at
  frames_at_none samples ch i zero e = refl
  frames_at_none samples ch i (suc k) e = absurd (omega arith)

  -- The same frames in each step's brackets.
  mixed_last :
      (made heard now queue new : Frames)
      → made ≡ heard ++ (now ++ (queue ++ []))
      → made ++ new ≡ heard ++ (now ++ (queue ++ new))
  mixed_last made heard now queue new e = ap (λ m. m ++ new) e ∙ simp (append_assoc, append-nil)

  heard_first :
      (made heard first rest later : Frames)
      → made ≡ heard ++ ((first ++ rest) ++ later)
      → made ≡ (heard ++ first) ++ (rest ++ later)
  heard_first made heard first rest later e = e ∙ simp (append_assoc)

  abbrev pub UnusedAt : WorkerAt fl → Type 0
  UnusedAt (pushing cmd) = cmd.used ≡ 0
  UnusedAt _ = Unit

  pub Unused-append :
      (xs : List (AudioCommand fl)) (cmd : AudioCommand fl)
      → Unused xs
      → cmd.used ≡ 0
      → Unused (xs ++ (cmd ∷ []))
  Unused-append [] cmd h e = (e, tt)
  Unused-append (x ∷ xs) cmd h e = (h.0, Unused-append xs cmd h.1 e)

  pub record InOrder (s : State) : Type 0 where
    pub stream :
        s.made
        ≡ s.heard
          ++ (left s.object.destination_channels s.object.destination_frames s.object.current_buffer
              ++ (blocks s.object.destination_channels s.object.destination_frames
                    (items s.object.prepared_buffers)
                  ++ on_way s.object.destination_channels s.object.destination_frames s.worker_at))
    pub unused : Unused (items s.object.prepared_buffers)
    pub unused_at : UnusedAt s.worker_at

  worker_do-InOrder :
      (at : WorkerAt fl) (s t : State)
      → s.worker_at ≡ at
      → worker_do fl client lib spsc resample_fuel at s ≡ some t
      → InOrder s
      → InOrder t
  unfolding worker_do worker_pop count_mixed
  worker_do-InOrder waiting s t now e v = ground arith
  worker_do-InOrder popping s t now e v = ground arith
  worker_do-InOrder (mixing cmd) s t now e v =
      elim (Option-cases (mix fl client lib spsc resample_fuel s.object cmd)) [
        | inl fails ↦ ground arith
        | inr (x, done) ↦ ground (
          arith,
          mix_keeps fl client lib spsc resample_fuel s.object x.1 cmd x.0 done,
          mixed_last s.made s.heard (left ch n s.object.current_buffer)
              (blocks ch n (items s.object.prepared_buffers)) (frames_at fl x.0.samples ch 0 n),
        )
      ]
    where
      ch : ℕ
      ch = s.object.destination_channels

      n : ℕ
      n = s.object.destination_frames
  worker_do-InOrder (pushing cmd) s t now e v = ground (
    arith,
    push_items cmd s.object.prepared_buffers,
    blocks_last s.object.destination_channels s.object.destination_frames
        (items s.object.prepared_buffers) cmd,
    Unused-append (items s.object.prepared_buffers) cmd,
    append-nil (
        blocks s.object.destination_channels s.object.destination_frames
          (items s.object.prepared_buffers ++ (cmd ∷ []))),
  )
  worker_do-InOrder exited s t now e v = absurd (cc e)

  io_do-InOrder :
      (at : IoAt fl) (request : Request) (s t : State)
      → s.io_at ≡ at
      → io_do fl client lib spsc resample_fuel at request s ≡ some t
      → InOrder s
      → InOrder t
  unfolding io_do io_idle io_copy io_return io_signal io_join
  io_do-InOrder idle proceed s t now e v = absurd (cc e)
  io_do-InOrder idle destroy s t now e v = ground arith
  io_do-InOrder idle acquire s t now e v = elim (Option-cases (pop s.object.prepared_buffers).0) [
    | inl empty ↦
        ground (arith, pop_nothing fl client lib spsc resample_fuel s.object.prepared_buffers empty)
    | inr (cmd, got) ↦ ground (
      arith,
      pop_items s.object.prepared_buffers cmd got,
      left_unused ch n cmd,
      append_assoc (frames_at fl cmd.samples ch 0 n)
          (blocks ch n (items (pop s.object.prepared_buffers).1)) (on_way ch n s.worker_at),
    )
  ]
    where
      ch : ℕ
      ch = s.object.destination_channels

      n : ℕ
      n = s.object.destination_frames
  io_do-InOrder idle (copy k) s t now e v = elim (Option-cases s.object.current_buffer) [
    | inl missing ↦ ground arith
    | inr (cmd, present) ↦ ground (
      arith,
      frames_at-split cmd.samples ch k (n - (cmd.used + k)) (n - cmd.used) cmd.used,
      frames_at_none cmd.samples ch (cmd.used + k) (n - (cmd.used + k)),
      heard_first s.made s.heard (frames_at fl cmd.samples ch cmd.used k)
          (frames_at fl cmd.samples ch (cmd.used + k) (n - (cmd.used + k)))
          (blocks ch n (items s.object.prepared_buffers) ++ on_way ch n s.worker_at),
    )
  ]
    where
      ch : ℕ
      ch = s.object.destination_channels

      n : ℕ
      n = s.object.destination_frames
  io_do-InOrder (releasing cmd) request s t now e v = ground arith
  io_do-InOrder signalling request s t now e v = ground arith
  io_do-InOrder stopping request s t now e v = ground arith
  io_do-InOrder stop_signalling request s t now e v = ground arith
  io_do-InOrder joining request s t now e v = ground arith
  io_do-InOrder joined request s t now e v = absurd (cc e)

  Step-InOrder : {s t : State} → Step fl client lib spsc resample_fuel s t → InOrder s → InOrder t
  unfolding worker_step io_step
  Step-InOrder {s} {t} (worker e) v = worker_do-InOrder s.worker_at s t refl e v
  Step-InOrder {s} {t} (io request e) v = io_do-InOrder s.io_at request s t refl e v

  pub Reach-InOrder :
      {s t : State} → Reach fl client lib spsc resample_fuel s t → InOrder s → InOrder t
  Reach-InOrder here v = v
  Reach-InOrder (next r st) v = Step-InOrder st (Reach-InOrder r v)
