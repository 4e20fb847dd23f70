-- ===== src/Converter/Tests.antt =====
-- The converter theorems at a converter from 8 to 4 samples a second, with blocks of two frames.
use audio_io.Prelude.{◌+◌, ◌*◌, ◌≡◌, arith, none, some, ◌>>=◌}
use audio_io.Sample.{exact, Buffer}
use audio_io.Converter.{Converter, copy, write, refill_output_buffer}
use audio_io.Converter.Frames.{pull}
use audio_io.Converter.Chunks.{write-add, write-pull}
use audio_io.Fixtures.{counting, sevens}

-- Two frames to a block, one of them used up; the resampler is needed.
abbrev halfway : Converter exact counting sevens
halfway = record {
  world = 1;
  input_buffer = λ k. 0;
  output_buffer = λ k. k;
  resampler_workspace = λ k. 0;
  input_sr = 8;
  output_sr = 4;
  input_channels = 1;
  output_channels = 1;
  input_frames = 4;
  output_frames = 2;
  consumed_output_frames = 1;
  resampler = some 0;
}

-- The same without resampling.
abbrev plain : Converter exact counting sevens
plain = record halfway { output_sr = 8; resampler = none }

abbrev blank : Buffer exact
blank k = 0

write-add_example : write exact counting sevens 9 (1 + 2) 0 halfway blank ≡ (
    write exact counting sevens 9 1 0 halfway blank
    >>= (λ x. write exact counting sevens 9 2 (0 + 1 * 1) x.0 x.1))
write-add_example =
    write-add exact counting sevens 9 1 2 0 halfway blank
      (record { some_frames = omega arith; within = omega arith })

write-pull_example :
    write exact counting sevens 9 3 0 halfway blank
    ≡ pull exact counting sevens (refill_output_buffer exact counting sevens 9) 3 0 halfway blank
write-pull_example =
    write-pull exact counting sevens 9 3 0 halfway blank
      (record { some_frames = omega arith; within = omega arith })

-- what one frame of `plain` leaves in `blank`
abbrev one_frame : Buffer exact
one_frame = copy plain.output_buffer 1 1 blank 0

-- Blocks of four frames at 8 samples a second are two frames at 4.
abbrev made : Converter exact counting sevens
made = record halfway {
  world = 0;
  output_buffer = λ k. 0;
  consumed_output_frames = 2;
  resampler = some 0;
}
