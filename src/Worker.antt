-- ===== src/Worker.antt =====
-- OutputWorkerThread: include/audio_io/private/output_worker_thread.hpp and
-- src/audio_io/output_worker_thread.cpp. These are the functions that run on the I/O thread, and
-- the constructor; the two threads together are in System. A spinning `while(push == false);` that
-- finds the queue full is `none`, like undefined behaviour: only the other thread could end it.
-- The semaphore is its number of permits.
pub mod Queue
pub mod System
pub mod Invariant
pub mod Steps
pub mod Progress
pub mod Stream
pub mod InitialMix
pub mod Await
pub mod Destroy
pub mod Rests
pub mod Join
pub mod Mixahead
pub mod Safety
pub mod Played
pub mod Schedule
pub mod WriteHelper
pub mod Write
pub mod Sounds
pub mod Ran
pub mod CopySteps
pub mod WriteSteps
pub mod Converted
pub mod Continues
pub mod Plays
pub mod Between
pub mod Bounds
pub mod Steady
mod Tests
use audio_io.Prelude.{
  ℕ, zero, suc, ◌+◌, ◌-◌, ◌*◌, ◌/◌, ◌^◌, Bool, true, false, Option, none, some, List, [], ◌∷◌, min,
  ◌==◌, ltb, if◌then◌else◌, ◌>>=◌,
}
use audio_io.Sample.{Float, Buffer}
use audio_io.Converter.{Client, ResamplerLib, Converter, copy, int_mul}
use audio_io.Converter
use Queue.{AudioCommand, AudioCommandType, buffer, stop, SpscQueue}

module _ (fl : Float) (client : Client fl) (lib : ResamplerLib fl)
    (spsc : SpscQueue (AudioCommand fl)) where
  open spsc use {Queue as Commands, make, push, pop}

  abbrev Command : Type 0
  Command = AudioCommand fl

  -- The fields of the class that both threads can reach, and the I/O thread's `current_buffer`.
  pub record OutputWorkerThread : Type 0 where
    pub converter : Converter fl client lib
    pub prepared_buffers : Commands
    pub returned_buffers : Commands
    pub current_buffer : Option Command
    pub semaphore : ℕ
    pub finished_initial_mix : Bool
    pub destination_channels : ℕ
    pub destination_frames : ℕ
    pub mixahead : ℕ

  -- while(queue.push(cmd) == false);
  abbrev pub spin_push : Command → Commands → Option Commands
  spin_push cmd q = if (push cmd q).0 then some (push cmd q).1 else none

  -- The constructor's loop: `n` new buffers in `returned_buffers`.
  unfoldable pub fill_returned : ℕ → Commands → Option Commands
  fill_returned zero q = some q
  fill_returned (suc n) q =
      fill_returned n q
      >>= spin_push (record { command_type = buffer; samples = λ _. fl.lit 0; used = 0 })

  -- `((int64_t)sourceFrames)*destinationSr/sourceSr`, which must fit an `int`.
  unfoldable pub frames_of_block : ℕ → ℕ → ℕ → Option ℕ
  frames_of_block source_frames destination_sr source_sr =
      if source_sr == 0
      then none
      else if ltb (source_frames * destination_sr / source_sr) (2 ^ 31)
      then some (source_frames * destination_sr / source_sr)
      else none

  -- The constructor, up to the start of the thread.
  unfoldable pub create : client.World → ℕ → ℕ → ℕ → ℕ → ℕ → ℕ → Option OutputWorkerThread
  unfolding fill_returned frames_of_block
  create world source_frames source_channels source_sr destination_channels destination_sr
        mixahead =
      do
        converter ←
            Converter.create fl client lib world source_frames source_channels source_sr
              destination_channels destination_sr
        destination_frames ← frames_of_block source_frames destination_sr source_sr
        buffer_size ← int_mul destination_channels destination_frames
        returned ← fill_returned mixahead (make mixahead)
        some (record {
          converter = converter;
          prepared_buffers = make mixahead;
          returned_buffers = returned;
          current_buffer = none;
          semaphore = mixahead;
          finished_initial_mix = false;
          destination_channels = destination_channels;
          destination_frames = destination_frames;
          mixahead = mixahead;
        })

  pub acquire_buffer : OutputWorkerThread → Option Command × OutputWorkerThread
  acquire_buffer w =
      let (got, q) = pop w.prepared_buffers in (got, record w { prepared_buffers = q })

  pub release_buffer : Command → OutputWorkerThread → Option OutputWorkerThread
  release_buffer cmd w = do
    q ← spin_push cmd w.returned_buffers
    some (record w { returned_buffers = q; semaphore = w.semaphore + 1 })

  -- writeHelper's first lines: `current_buffer`, fetched if there is none.
  pub fetch : OutputWorkerThread → Option Command × OutputWorkerThread
  unfolding acquire_buffer
  fetch w = elim w.current_buffer [
    | none ↦ let (got, w') = acquire_buffer w in (got, record w' { current_buffer = got })
    | some cmd ↦ (some cmd, w)
  ]

  -- The rest of writeHelper, with the current buffer: the number of frames, the destination (whose
  -- position is `base`) and the object afterwards.
  pub copy_out :
      ℕ → ℕ → Command → OutputWorkerThread → Buffer fl → Option (ℕ × OutputWorkerThread × Buffer fl)
  unfolding release_buffer
  copy_out count base cmd w destination =
      let remaining = w.destination_frames - cmd.used in
      let will_write = if ltb remaining count then remaining else count in
      let channels = w.destination_channels in
      let destination' =
        copy cmd.samples (channels * cmd.used) (channels * will_write) destination base in
      let cmd' = record cmd { used = cmd.used + will_write } in
      if cmd.used + will_write == w.destination_frames
      then (do
        w' ← release_buffer cmd' w
        some (will_write, record w' { current_buffer = none }, destination'))
      else some (will_write, record w { current_buffer = some cmd' }, destination')

  pub write_helper :
      ℕ → ℕ → OutputWorkerThread → Buffer fl → Option (ℕ × OutputWorkerThread × Buffer fl)
  unfolding fetch copy_out
  write_helper count base w destination = elim (fetch w).0 [
    | none ↦ some (0, (fetch w).1, destination)
    | some cmd ↦ copy_out count base cmd (fetch w).1 destination
  ]

  -- The do-while loop of `write`; `total` frames are written.
  pub write_loop :
      ℕ → ℕ → ℕ → ℕ → OutputWorkerThread → Buffer fl → Option (ℕ × OutputWorkerThread × Buffer fl)
  write_loop zero count total base w destination = none
  write_loop (suc fuel) count total base w destination =
      write_helper count base w destination >>= (λ x.
        let rest =
          write_loop fuel (count - x.0) (total + x.0) (base + w.destination_channels * x.0) x.1
            x.2 in
        elim (x.0 == 0) [ true ↦ some (total, x.1, x.2) | false ↦ rest ])

  -- Every round but the last takes at least one frame off `count`.
  pub write : ℕ → ℕ → OutputWorkerThread → Buffer fl → Option (ℕ × OutputWorkerThread × Buffer fl)
  unfolding write_loop write_helper
  write count base w destination = write_loop (count + 1) count 0 base w destination
