-- ===== src/Fixtures.antt =====
-- Small concrete stand-ins for the code that is not modelled: a program that is called back, a
-- resampler, and a queue. The tests evaluate the models on them.
use audio_io.Prelude.{
  ℕ, ◌+◌, ◌-◌, ◌*◌, ◌≤◌, ◌<◌, ◌≡◌, refl, arith, Bool, true, false, Option, none, some, List, [],
  ◌∷◌, ◌++◌, length, min, ltb, ◌==◌, if◌then◌else◌,
}
use audio_io.Sample.{exact}
use audio_io.Converter.{Client, ResamplerLib}
use audio_io.Converter.Ends.{Productive}
use audio_io.Converter
use audio_io.Converter.{set_up_resampler}
use audio_io.Worker
use audio_io.Worker.{OutputWorkerThread, fill_returned, frames_of_block}
use audio_io.Worker.Queue.{AudioCommand, buffer, SpscQueue}
use audio_io.Wasapi.{WaveFormat, given}

-- Block number `w` holds 100 * w + k at index k.
abbrev pub counting : Client exact
counting = record { World = ℕ; callback = λ w b ic. (w + 1, λ k. 100 * w + k) }

-- A resampler that holds a number of frames, gains two with each block, and writes sevens.
abbrev pub sevens : ResamplerLib exact
sevens = record {
  Resampler = ℕ;
  create_resampler = λ frames ic isr osr. 0;
  write = λ held b p max. (min held max, λ k. 7, held - min held max);
  read = λ held b. held + 2;
}

abbrev pub sevens_owed : ℕ → ℕ
sevens_owed held = if held == 0 then 1 else 0

pub sevens_owed-le : (held : ℕ) → sevens_owed held ≤ 1
sevens_owed-le held = ground arith

pub sevens_write_some : (held max : ℕ) → 0 < max → sevens_owed held ≡ 0 → 0 < min held max
sevens_write_some held max pos e = ground arith

pub sevens_write_none :
    (held max : ℕ) → min held max ≡ 0 → sevens_owed (held - min held max) ≤ sevens_owed held
sevens_write_none held max e = ground arith

pub sevens_read : (held : ℕ) → sevens_owed (held + 2) ≤ sevens_owed held - 1
sevens_read held = ground arith

pub sevens_write-le : (held max : ℕ) → min held max ≤ max
sevens_write-le held max = omega arith

abbrev pub sevens-Productive : Productive sevens
sevens-Productive = record {
  owed = sevens_owed;
  delay = 1;
  owed-le = sevens_owed-le;
  write-le = λ held b p max. sevens_write-le held max;
  write_some = λ held b p max. sevens_write_some held max;
  write_none = λ held b p max. sevens_write_none held max;
  read_owed = λ held b. sevens_read held;
}

module _ {A : Type 0} where
  abbrev pub list_push : A → List A × ℕ → Bool × (List A × ℕ)
  list_push a q = if ltb (length (q.0)) q.1 then (true, (q.0 ++ (a ∷ []), q.1)) else (false, q)

  abbrev pub list_pop : List A × ℕ → Option A × (List A × ℕ)
  list_pop q = elim q.0 [ [] ↦ (none, q) | a ∷ rest ↦ (some a, (rest, q.1)) ]

  pub list_push_room :
      (a : A) (q : List A × ℕ)
      → length q.0 < q.1
      → ((list_push a q).0 ≡ true)
        × ((list_push a q).1.0 ≡ q.0 ++ (a ∷ []))
        × ((list_push a q).1.1 ≡ q.1)
  list_push_room a q room = ground arith

  pub list_push_full : (a : A) (q : List A × ℕ) → q.1 ≤ length q.0 → list_push a q ≡ (false, q)
  list_push_full a q full = ground arith

  pub list_pop_empty : (q : List A × ℕ) → q.0 ≡ [] → list_pop q ≡ (none, q)
  list_pop_empty q e = ground arith

  pub list_pop_first :
      (q : List A × ℕ) (a : A) (rest : List A)
      → q.0 ≡ a ∷ rest
      → ((list_pop q).0 ≡ some a) × ((list_pop q).1.0 ≡ rest) × ((list_pop q).1.1 ≡ q.1)
  list_pop_first q a rest e = ground arith

-- A list with a capacity.
abbrev pub list_queue : (A : Type 0) → SpscQueue A
list_queue A = record {
  Queue = List A × ℕ;
  make = λ n. ([], n);
  push = list_push;
  pop = list_pop;
  items = λ q. q.0;
  capacity = λ q. q.1;
  make_lem = λ n. (refl, refl);
  push_room = list_push_room;
  push_full = list_push_full;
  pop_empty = list_pop_empty;
  pop_first = list_pop_first;
}

abbrev pub queue : SpscQueue (AudioCommand exact)
queue = list_queue (AudioCommand exact)

-- Blocks of two frames of two channels.
abbrev pub made : OutputWorkerThread exact counting sevens queue
made = record {
  converter = record {
    world = 0;
    input_buffer = λ k. 0;
    output_buffer = λ k. 0;
    resampler_workspace = λ k. 0;
    input_sr = 8;
    output_sr = 8;
    input_channels = 1;
    output_channels = 2;
    input_frames = 2;
    output_frames = 2;
    consumed_output_frames = 2;
    resampler = none;
  };
  prepared_buffers = ([], 1);
  returned_buffers = (record { command_type = buffer; samples = λ k. 0; used = 0 } ∷ [], 1);
  current_buffer = none;
  semaphore = 1;
  finished_initial_mix = false;
  destination_channels = 2;
  destination_frames = 2;
  mixahead = 1;
}

pub made-create : Worker.create exact counting sevens queue 0 2 1 8 2 8 1 ≡ some made
unfolding Worker.create Converter.create set_up_resampler fill_returned frames_of_block
made-create = refl

-- Sixteen bits, three channels.
abbrev pub plain : WaveFormat
plain = record {
  extensible = false;
  channels = 3;
  samples_per_sec = 8;
  avg_bytes_per_sec = 48;
  block_align = 6;
  bits_per_sample = 16;
  cb_size = 0;
  valid_bits_per_sample = 0;
  channel_mask = given 0;
  ieee_float = false;
}
