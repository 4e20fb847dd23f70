-- ===== src/Worker/Invariant.antt =====
-- Who holds the buffers of an OutputWorkerThread, in every interleaving of its two threads: the
-- counts that the queues, the semaphore and the holders keep between them.
use audio_io.Prelude.{
  ℕ, ◌+◌, ◌≤◌, ◌≡◌, refl, ap, ◌∙◌, arith, true, Option, none, some, List, [], ◌∷◌, ◌++◌, length,
  length-append, dec_lt,
}
use audio_io.Sample.{Float}
use audio_io.Converter.{Client, ResamplerLib}
use audio_io.Worker.Queue.{AudioCommand, buffer, stop, SpscQueue}
use audio_io.Worker.System.{
  WorkerAt, popping, exited, mixing, pushing, IoAt, signalling, stop_signalling, joining, joined,
  releasing, System,
}

module _ {fl : Float} where
  abbrev pub is_stop : AudioCommand fl → ℕ
  is_stop cmd = elim cmd.command_type [ stop ↦ 1 | buffer ↦ 0 ]

  abbrev pub stops : List (AudioCommand fl) → ℕ
  stops [] = 0
  stops (cmd ∷ cmds) = is_stop cmd + stops cmds

  pub stops-append : (xs ys : List (AudioCommand fl)) → stops (xs ++ ys) ≡ stops xs + stops ys
  stops-append [] ys = omega arith
  stops-append (x ∷ xs) ys = omega (arith, stops-append xs ys)

  pub stops-le-length : (xs : List (AudioCommand fl)) → stops xs ≤ length xs
  stops-le-length [] = omega arith
  stops-le-length (x ∷ xs) = ground (arith, stops-le-length xs)

  -- buffers and stops in the hands of a thread, and where it is counted
  abbrev pub worker_held : WorkerAt fl → ℕ
  worker_held (mixing cmd) = 1
  worker_held (pushing cmd) = 1
  worker_held _ = 0

  abbrev pub worker_popping : WorkerAt fl → ℕ
  worker_popping popping = 1
  worker_popping _ = 0

  abbrev pub worker_exited : WorkerAt fl → ℕ
  worker_exited exited = 1
  worker_exited _ = 0

  abbrev pub worker_stops : WorkerAt fl → ℕ
  worker_stops (mixing cmd) = is_stop cmd
  worker_stops (pushing cmd) = is_stop cmd
  worker_stops _ = 0

  abbrev pub io_held : IoAt fl → ℕ
  io_held (releasing cmd) = 1
  io_held _ = 0

  abbrev pub io_stops : IoAt fl → ℕ
  io_stops (releasing cmd) = is_stop cmd
  io_stops _ = 0

  abbrev pub io_signals : IoAt fl → ℕ
  io_signals signalling = 1
  io_signals stop_signalling = 1
  io_signals _ = 0

  abbrev pub io_stopped : IoAt fl → ℕ
  io_stopped stop_signalling = 1
  io_stopped joining = 1
  io_stopped joined = 1
  io_stopped _ = 0

  abbrev pub io_joined : IoAt fl → ℕ
  io_joined joined = 1
  io_joined _ = 0

  abbrev pub current_held : Option (AudioCommand fl) → ℕ
  current_held none = 0
  current_held (some cmd) = 1

  abbrev pub current_stops : Option (AudioCommand fl) → ℕ
  current_stops none = 0
  current_stops (some cmd) = is_stop cmd

module _ (fl : Float) (client : Client fl) (lib : ResamplerLib fl)
    (spsc : SpscQueue (AudioCommand fl)) (resample_fuel : ℕ) where
  open spsc use {Queue as Commands, push, pop, items, capacity}

  abbrev pub State : Type 0
  State = System fl client lib spsc resample_fuel

  -- `kept`: the buffers in the queues, in the threads' hands and in `current_buffer` are `mixahead`.
  pub record Inv (s : State) : Type 0 where
    pub kept :
        length (items s.object.returned_buffers)
          + length (items s.object.prepared_buffers)
          + worker_held s.worker_at
          + io_held s.io_at
          + current_held s.object.current_buffer
        ≡ s.object.mixahead + stops (items s.object.returned_buffers)
    pub permits :
        s.object.semaphore + worker_popping s.worker_at + io_signals s.io_at
        ≡ length (items s.object.returned_buffers)
    pub one_stop :
        stops (items s.object.returned_buffers) + worker_exited s.worker_at ≡ io_stopped s.io_at
    pub only_buffers :
        stops (items s.object.prepared_buffers)
          + worker_stops s.worker_at
          + io_stops s.io_at
          + current_stops s.object.current_buffer
        ≡ 0
    pub returned_room : capacity s.object.returned_buffers ≡ s.object.mixahead
    pub prepared_room : capacity s.object.prepared_buffers ≡ s.object.mixahead
    pub ended : io_joined s.io_at ≤ worker_exited s.worker_at

  -- What a push that succeeds does, and what a pop that succeeds does.
  pub push_counts :
      (cmd : AudioCommand fl) (q : Commands)
      → (push cmd q).0 ≡ true
      → (length (items (push cmd q).1) ≡ length (items q) + 1)
        × (stops (items (push cmd q).1) ≡ stops (items q) + is_stop cmd)
        × (capacity (push cmd q).1 ≡ capacity q)
  push_counts cmd q done = elim (dec_lt (length (items q)) (capacity q)) [
    | yes room ↦
        let (_, new, same) = spsc.push_room cmd q room in
        (
          ap length new ∙ length-append (items q) (cmd ∷ []),
          ap stops new ∙ stops-append (items q) (cmd ∷ []) ∙ omega arith,
          same,
        )
    | no full ↦ absurd (cc (spsc.push_full cmd q (omega arith)))
  ]

  pub pop_counts :
      (q : Commands) (cmd : AudioCommand fl)
      → (pop q).0 ≡ some cmd
      → (length (items q) ≡ length (items (pop q).1) + 1)
        × (stops (items q) ≡ stops (items (pop q).1) + is_stop cmd)
        × (capacity (pop q).1 ≡ capacity q)
  pop_counts q cmd got = go (items q) refl
    where
      go :
          (l : List (AudioCommand fl))
          → items q ≡ l
          → (length (items q) ≡ length (items (pop q).1) + 1)
            × (stops (items q) ≡ stops (items (pop q).1) + is_stop cmd)
            × (capacity (pop q).1 ≡ capacity q)
      go [] e = absurd (cc (spsc.pop_empty q e))
      go (a ∷ rest) e = ground (arith, spsc.pop_first q a rest e)

  -- A pop that fails has found the queue empty, and leaves it as it was.
  pub pop_nothing : (q : Commands) → (pop q).0 ≡ none → ((pop q).1 ≡ q) × (items q ≡ [])
  pop_nothing q got = go (items q) refl
    where
      go : (l : List (AudioCommand fl)) → items q ≡ l → ((pop q).1 ≡ q) × (items q ≡ [])
      go [] e = (ap (λ (x : Option (AudioCommand fl) × Commands). x.1) (spsc.pop_empty q e), e)
      go (a ∷ rest) e = absurd (cc ((spsc.pop_first q a rest e).0))
