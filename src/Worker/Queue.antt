-- ===== src/Worker/Queue.antt =====
-- AudioCommand of include/audio_io/private/output_worker_thread.hpp, and the interface of
-- boost::lockfree::spsc_queue that OutputWorkerThread relies on.
use audio_io.Prelude.{
  ℕ, ◌≤◌, ◌<◌, ◌≡◌, Bool, true, false, Option, none, some, List, [], ◌∷◌, ◌++◌, length,
}
use audio_io.Sample.{Float, Buffer}

pub data AudioCommandType : Type 0 where
  buffer stop : AudioCommandType

-- `samples` is what `data` points at. A command is owned by one holder at a time.
pub record AudioCommand (fl : Float) : Type 0 where
  pub command_type : AudioCommandType
  pub samples : Buffer fl
  pub used : ℕ

-- boost::lockfree::spsc_queue<A>(capacity): `push` fails exactly when the queue is full, `pop` fails
-- exactly when it is empty, and elements come out in the order in which they went in.
pub record SpscQueue (A : Type 0) : Type 1 where
  pub Queue : Type 0
  pub make : ℕ → Queue
  pub push : A → Queue → Bool × Queue
  pub pop : Queue → Option A × Queue
  pub items : Queue → List A
  pub capacity : Queue → ℕ
  pub make_lem : (n : ℕ) → (items (make n) ≡ []) × (capacity (make n) ≡ n)
  pub push_room :
      (a : A) (q : Queue)
      → length (items q) < capacity q
      → ((push a q).0 ≡ true)
        × (items (push a q).1 ≡ items q ++ (a ∷ []))
        × (capacity (push a q).1 ≡ capacity q)
  pub push_full : (a : A) (q : Queue) → capacity q ≤ length (items q) → push a q ≡ (false, q)
  pub pop_empty : (q : Queue) → items q ≡ [] → pop q ≡ (none, q)
  pub pop_first :
      (q : Queue) (a : A) (rest : List A)
      → items q ≡ a ∷ rest
      → ((pop q).0 ≡ some a) × (items (pop q).1 ≡ rest) × (capacity (pop q).1 ≡ capacity q)

-- Buffers of which no frame has been copied out.
abbrev pub Unused : {fl : Float} → List (AudioCommand fl) → Type 0
Unused [] = Unit
Unused (cmd ∷ cmds) = (cmd.used ≡ 0) × Unused cmds
