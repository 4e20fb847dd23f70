-- ===== src/Device/Blocks.antt =====
-- The three places that compute the number of frames of a block from the sample rates.
use native.Mathlib.Nat.{mul-div_cancel}
use audio_io.Prelude.{ℕ, ◌*◌, ◌/◌, ◌≡◌, ◌<◌, ◌⊎◌, inl, inr, arith, some, Option-cases}
use audio_io.Sample.{Float}
use audio_io.Converter.{Client, ResamplerLib, Converter, create}
use audio_io.Worker.Queue.{AudioCommand, SpscQueue}
use audio_io.Worker
use audio_io.Worker.{OutputWorkerThread, frames_of_block}
use audio_io.Device.{OutputDeviceImplementation, init}

module _ (fl : Float) (client : Client fl) (lib : ResamplerLib fl)
    (spsc : SpscQueue (AudioCommand fl)) where
  converter_rates :
      (world : client.World) (input_frames ic isr oc osr : ℕ) (c : Converter fl client lib)
      → create fl client lib world input_frames ic isr oc osr ≡ some c
      → (c.output_frames ≡ input_frames * osr / isr)
        ⊎ (isr ≡ osr)
        ⊎ ((input_frames * osr / isr ≡ 0) × (c.output_frames ≡ input_frames))
  unfolding create
  converter_rates world input_frames ic isr oc osr c e = ground arith

  converter_same :
      (world : client.World) (input_frames ic isr oc osr : ℕ) (c : Converter fl client lib)
      → create fl client lib world input_frames ic isr oc osr ≡ some c
      → isr ≡ osr
      → c.output_frames ≡ input_frames
  unfolding create
  converter_same world input_frames ic isr oc osr c e same = ground arith

  worker_frames :
      (world : client.World) (input_frames ic isr oc osr mixahead : ℕ)
      (w : OutputWorkerThread fl client lib spsc)
      → Worker.create fl client lib spsc world input_frames ic isr oc osr mixahead ≡ some w
      → (w.destination_frames ≡ input_frames * osr / isr) × (0 < isr)
  unfolding Worker.create
  worker_frames world input_frames ic isr oc osr mixahead w e = ground arith

  init_fields :
      (world : client.World) (input_frames ic isr oc osr mixahead : ℕ)
      (d : OutputDeviceImplementation fl client lib spsc) (c : Converter fl client lib)
      (w : OutputWorkerThread fl client lib spsc)
      → init fl client lib spsc world input_frames ic isr oc osr mixahead ≡ some d
      → create fl client lib world input_frames ic isr oc osr ≡ some c
      → Worker.create fl client lib spsc world input_frames ic isr oc osr mixahead ≡ some w
      → (d.output_frames ≡ input_frames * osr / isr)
        × (d.input_frames ≡ input_frames)
        × (d.sample_format_converter.output_frames ≡ c.output_frames)
        × (d.worker_thread.destination_frames ≡ w.destination_frames)
  unfolding init
  init_fields world input_frames ic isr oc osr mixahead d c w e made started = ground arith

  -- A device that was initialised: its estimate of the frames of a block is the worker thread's
  -- number, and the converter has the same number, unless that is none: then the converter's blocks
  -- have as many frames as the program's, and the worker thread's have none.
  pub init_blocks :
      (world : client.World) (input_frames ic isr oc osr mixahead : ℕ)
      (d : OutputDeviceImplementation fl client lib spsc)
      → init fl client lib spsc world input_frames ic isr oc osr mixahead ≡ some d
      → (d.output_frames ≡ d.worker_thread.destination_frames)
        × ((d.sample_format_converter.output_frames ≡ d.output_frames)
            ⊎ ((d.output_frames ≡ 0) × (d.sample_format_converter.output_frames ≡ d.input_frames)))
  unfolding init
  init_blocks world input_frames ic isr oc osr mixahead d e =
      elim (Option-cases (create fl client lib world input_frames ic isr oc osr)) [
        | inl failed ↦ absurd (cc (rw failed at e))
        | inr (c, made) ↦
            elim (Option-cases
              (Worker.create fl client lib spsc world input_frames ic isr oc osr mixahead)) [
                | inl failed ↦ absurd (cc (rw (made, failed) at e))
                | inr (w, started) ↦
                    let (frames, given, same_c, same_w) =
                      init_fields world input_frames ic isr oc osr mixahead d c w e made started in
                    let (block, pos) =
                      worker_frames world input_frames ic isr oc osr mixahead w started in
                    (
                      omega arith,
                      elim (converter_rates world input_frames ic isr oc osr c made) [
                        | inl scaled ↦ inl (omega arith)
                        | inr (inl same) ↦
                            let kept : input_frames * osr / isr ≡ input_frames =
                              rw (← same) (mul-div_cancel input_frames pos) in
                            inl (
                              omega (
                                arith,
                                converter_same world input_frames ic isr oc osr c made same,
                              ))
                        | inr (inr (nothing, kept)) ↦ inr (omega arith, omega arith)
                      ],
                    )
              ]
      ]
