-- ===== src/Worker/Tests.antt =====
-- One buffer of two mono frames, mixed and partly played before the destructor runs, with and without
-- resampling.
use audio_io.Prelude.{
  arith, ℕ, ◌+◌, ◌≡◌, refl, false, none, some, List, [], ◌∷◌, ◌++◌, length, some_or,
}
use audio_io.Sample.{exact, Buffer}
use audio_io.Converter
use audio_io.Worker.Queue.{AudioCommand, buffer, SpscQueue}
use audio_io.Worker.{OutputWorkerThread, create, fill_returned, frames_of_block, write}
use audio_io.Worker.System.{
  Frame, idle, exited, joined, joining, acquire, destroy, proceed, copy, System, start, Reach,
  worker_step, worker_do, worker_pop, count_mixed, io_step, io_do, io_idle, io_copy, io_return,
  io_signal, io_join, frames_at, mix, mixed_by,
}
use audio_io.Worker.Invariant.{current_held}
use audio_io.Worker.Schedule.{Move, work, play, move, run, run-Reach}
use audio_io.Worker.Safety.{spins, never_spins, heard_in_order}
use audio_io.Worker.Join.{join_ends}
use audio_io.Worker.Mixahead.{never_short}
use audio_io.Worker.Destroy.{delete_all}
use audio_io.Worker.WriteHelper.{available}
use audio_io.Worker.Continues.{Continues, write-Continues}
use audio_io.Worker.Plays.{Plays, write-Plays}
use audio_io.Fixtures.{counting, sevens, sevens-Productive, list_queue}

abbrev queue : SpscQueue (AudioCommand exact)
queue = list_queue (AudioCommand exact)

abbrev Object : Type 0
Object = OutputWorkerThread exact counting sevens queue

abbrev State : Type 0
State = System exact counting sevens queue 0

-- A new object: blocks of two mono frames, no resampling, one buffer.
abbrev fresh : Object
fresh = record {
  converter = record {
    world = 0;
    input_buffer = λ k. 0;
    output_buffer = λ k. 0;
    resampler_workspace = λ k. 0;
    input_sr = 8;
    output_sr = 8;
    input_channels = 1;
    output_channels = 1;
    input_frames = 2;
    output_frames = 2;
    consumed_output_frames = 2;
    resampler = none;
  };
  prepared_buffers = ([], 1);
  returned_buffers = (record { command_type = buffer; samples = λ k. 0; used = 0 } ∷ [], 1);
  current_buffer = none;
  semaphore = 1;
  finished_initial_mix = false;
  destination_channels = 1;
  destination_frames = 2;
  mixahead = 1;
}

-- The worker mixes the buffer, the I/O thread copies one frame of it, and the destructor runs. The
-- latest move stands first.
abbrev to_join : List Move
to_join =
    play proceed
    ∷ play proceed
    ∷ play destroy
    ∷ play (copy 1)
    ∷ play acquire
    ∷ work
    ∷ work
    ∷ work
    ∷ work
    ∷ []

abbrev to_idle : List Move
to_idle = play (copy 1) ∷ play acquire ∷ work ∷ work ∷ work ∷ work ∷ []

abbrev to_end : List Move
to_end = play proceed ∷ work ∷ work ∷ to_join

abbrev begin : State
unfolding start
begin = start exact counting sevens queue 0 fresh

abbrev at_idle : State
unfolding run start
at_idle = some_or begin (run exact counting sevens queue 0 to_idle begin)

abbrev at_end : State
unfolding run start
at_end = some_or begin (run exact counting sevens queue 0 to_end begin)

fresh-create : create exact counting sevens queue 0 2 1 8 1 8 1 ≡ some fresh
unfolding create Converter.create Converter.set_up_resampler fill_returned frames_of_block
fresh-create = refl

ran_end : run exact counting sevens queue 0 to_end begin ≡ some at_end
unfolding begin at_end run start move worker_step worker_do worker_pop mix count_mixed io_step io_do
    io_idle io_copy io_return io_signal io_join frames_at Converter.write Converter.write_loop
    Converter.refill_output_buffer Converter.refill_same_rate
ran_end = refl

at_end-Reach :
    Reach exact counting sevens queue 0 (start exact counting sevens queue 0 fresh) at_end
unfolding begin
at_end-Reach = run-Reach exact counting sevens queue 0 to_end begin at_end ran_end

at_end_joined : at_end.io_at ≡ joined
unfolding begin at_end run start move worker_step worker_do worker_pop mix count_mixed io_step io_do
    io_idle io_copy io_return io_signal io_join frames_at Converter.write Converter.write_loop
    Converter.refill_output_buffer Converter.refill_same_rate
at_end_joined = refl

-- The I/O thread has had one frame of the two, and has the buffer still.
at_end_heard :
    (length at_end.made ≡ 2)
    × (length at_end.heard ≡ 1)
    × (current_held at_end.object.current_buffer ≡ 1)
unfolding begin at_end run start move worker_step worker_do worker_pop mix count_mixed io_step io_do
    io_idle io_copy io_return io_signal io_join frames_at Converter.write Converter.write_loop
    Converter.refill_output_buffer Converter.refill_same_rate
at_end_heard = (refl, refl, refl)

heard_in_order_example : (rest : List (Frame exact)) × (at_end.made ≡ at_end.heard ++ rest)
heard_in_order_example =
    heard_in_order exact counting sevens queue 0 0 2 1 8 1 8 1 fresh fresh-create at_end
      at_end-Reach

never_spins_example : spins exact counting sevens queue 0 at_end ≡ (false, false)
never_spins_example =
    never_spins exact counting sevens queue 0 0 2 1 8 1 8 1 fresh fresh-create at_end at_end-Reach

ran_idle : run exact counting sevens queue 0 to_idle begin ≡ some at_idle
unfolding begin at_idle run start move worker_step worker_do worker_pop mix count_mixed io_step
    io_do io_idle io_copy io_return io_signal io_join frames_at Converter.write Converter.write_loop
    Converter.refill_output_buffer Converter.refill_same_rate
ran_idle = refl

at_idle-Reach :
    Reach exact counting sevens queue 0 (start exact counting sevens queue 0 fresh) at_idle
unfolding begin
at_idle-Reach = run-Reach exact counting sevens queue 0 to_idle begin at_idle ran_idle

at_idle_idle : at_idle.io_at ≡ idle
unfolding begin at_idle run start move worker_step worker_do worker_pop mix count_mixed io_step
    io_do io_idle io_copy io_return io_signal io_join frames_at Converter.write Converter.write_loop
    Converter.refill_output_buffer Converter.refill_same_rate
at_idle_idle = refl

one_available : available exact counting sevens queue at_idle.object ≡ 1
unfolding begin at_idle run start move worker_step worker_do worker_pop mix count_mixed io_step
    io_do io_idle io_copy io_return io_signal io_join frames_at Converter.write Converter.write_loop
    Converter.refill_output_buffer Converter.refill_same_rate
one_available = refl

-- The rest of a block of the program is copied behind three samples.
write-Plays_example :
    (x : ℕ × Object × Buffer exact) × (write exact counting sevens queue 5 3 at_idle.object (λ k. 0)
      ≡ some x)
    × Plays exact counting sevens queue 0 0 2 1 1 8 1 fresh fresh-create at_idle 5 3 x.0
        (λ k. 0)
        x.2
        x.1
write-Plays_example =
    write-Plays exact counting sevens queue 0 0 2 1 1 8 1 fresh fresh-create at_idle 5 3 (λ k. 0)
      at_idle-Reach (omega arith) at_idle_idle

-- Blocks of four frames at 8 samples a second become blocks of two frames at 4.
abbrev slower : Object
slower = record fresh {
  converter = record fresh.converter { output_sr = 4; input_frames = 4; resampler = some 0 };
}

abbrev slower_begin : System exact counting sevens queue 9
unfolding start
slower_begin = start exact counting sevens queue 9 slower

abbrev slower_idle : System exact counting sevens queue 9
unfolding run start
slower_idle = some_or slower_begin (run exact counting sevens queue 9 to_idle slower_begin)

slower-create : create exact counting sevens queue 0 4 1 8 1 4 1 ≡ some slower
unfolding create Converter.create Converter.set_up_resampler fill_returned frames_of_block
slower-create = refl

ran_slower : run exact counting sevens queue 9 to_idle slower_begin ≡ some slower_idle
unfolding slower_begin slower_idle run start move worker_step worker_do worker_pop mix count_mixed
    io_step io_do io_idle io_copy io_return io_signal io_join frames_at Converter.write
    Converter.write_loop Converter.refill_output_buffer Converter.refill_resampled
    Converter.resample
ran_slower = refl

slower_idle_idle : slower_idle.io_at ≡ idle
unfolding slower_begin slower_idle run start move worker_step worker_do worker_pop mix count_mixed
    io_step io_do io_idle io_copy io_return io_signal io_join frames_at Converter.write
    Converter.write_loop Converter.refill_output_buffer Converter.refill_resampled
    Converter.resample
slower_idle_idle = refl

slower_idle-Reach :
    Reach exact counting sevens queue 9 (start exact counting sevens queue 9 slower) slower_idle
unfolding slower_begin
slower_idle-Reach =
    run-Reach exact counting sevens queue 9 to_idle slower_begin slower_idle ran_slower

-- Of the two frames that the resampler has given, one is left.
write-Continues_example :
    (x : ℕ × Object × Buffer exact) × (write exact counting sevens queue 5 3 slower_idle.object
        (λ k. 0)
      ≡ some x)
    × Continues exact counting sevens queue 9 0 4 1 8 1 4 1 slower slower-create slower_idle 5 3 x.0
        (λ k. 0)
        x.2
        x.1
write-Continues_example =
    write-Continues exact counting sevens queue 9 0 4 1 8 1 4 1 slower slower-create slower_idle 5 3
      (λ k. 0) slower_idle-Reach (omega arith) (omega arith) slower_idle_idle

-- The I/O thread of the same object is destroyed before it has had a buffer.
abbrev slower_to_join : List Move
slower_to_join = play proceed ∷ play proceed ∷ play destroy ∷ work ∷ work ∷ work ∷ []

abbrev slower_join : System exact counting sevens queue 9
unfolding run start
slower_join = some_or slower_begin (run exact counting sevens queue 9 slower_to_join slower_begin)

ran_slower_join : run exact counting sevens queue 9 slower_to_join slower_begin ≡ some slower_join
unfolding slower_begin slower_join run start move worker_step worker_do worker_pop mix count_mixed
    io_step io_do io_idle io_copy io_return io_signal io_join frames_at Converter.write
    Converter.write_loop Converter.refill_output_buffer Converter.refill_resampled
    Converter.resample
ran_slower_join = refl

slower_join_joining : slower_join.io_at ≡ joining
unfolding slower_begin slower_join run start move worker_step worker_do worker_pop mix count_mixed
    io_step io_do io_idle io_copy io_return io_signal io_join frames_at Converter.write
    Converter.write_loop Converter.refill_output_buffer Converter.refill_resampled
    Converter.resample
slower_join_joining = refl

slower_join-Reach :
    Reach exact counting sevens queue 9 (start exact counting sevens queue 9 slower) slower_join
unfolding slower_begin
slower_join-Reach =
    run-Reach exact counting sevens queue 9 slower_to_join slower_begin slower_join ran_slower_join

-- The worker thread is about to push the block that it has mixed.
join_ends_example :
    ((mixed_by exact counting sevens queue 9 9 slower_join).worker_at ≡ exited)
    × (t : System exact counting sevens queue 9) × (io_step exact counting sevens queue 9 proceed
          (mixed_by exact counting sevens queue 9 9 slower_join)
        ≡ some t)
    × (t.io_at ≡ joined)
    × (deleted : ℕ) × (delete_all exact counting sevens queue t.object ≡ some deleted)
    × (deleted + current_held t.object.current_buffer ≡ 1)
join_ends_example =
    join_ends exact counting sevens queue 9 0 4 1 8 1 4 1 slower slower-create sevens-Productive
      slower_join 9 slower_join-Reach (omega arith) (omega arith) slower_join_joining (omega arith)

-- There is one buffer, so one frame is certain.
never_short_example :
    (x : ℕ × Object × Buffer exact) × (write exact counting sevens queue 1 3
        (mixed_by exact counting sevens queue 9 5 slower_idle).object
        (λ k. 0)
      ≡ some x)
    × (x.0 ≡ 1)
never_short_example =
    never_short exact counting sevens queue 9 0 4 1 8 1 4 1 slower slower-create sevens-Productive
      slower_idle 5 1 3 (λ k. 0) slower_idle-Reach (omega arith) (omega arith) (omega arith)
      slower_idle_idle (omega arith) (omega arith)
