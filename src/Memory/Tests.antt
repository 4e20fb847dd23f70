-- ===== src/Memory/Tests.antt =====
-- The destructors at a converter that resamples and a history, of which one is deleted first.
use audio_io.Prelude.{ℕ, ◌≡◌, refl, arith, true, ◌==◌}
use audio_io.Memory.{Memory, empty, new_array, IsValid}
use audio_io.Memory.Destructors.{GivesBack, destructors_lem}
use audio_io.Converter.Memory as ConverterMemory
use audio_io.Converter.Memory.{owns}
use audio_io.Latency

empty-IsValid : IsValid empty
empty-IsValid k out = refl

-- Another array has been allocated in between.
abbrev crowded : Memory
crowded = (new_array (ConverterMemory.allocate 44100 48000 empty).1).1

still_there :
    (k : ℕ) → owns (ConverterMemory.allocate 44100 48000 empty).0 k ≡ true → crowded.live k ≡ true
unfolding ConverterMemory.allocate new_array
still_there k own = ground arith

history_there : (Latency.allocate empty).1.live (Latency.allocate empty).0 ≡ true
unfolding Latency.allocate new_array
history_there = refl

destructors_lem_example :
    GivesBack
      (owns (ConverterMemory.allocate 44100 48000 empty).0)
      (ConverterMemory.destroy (ConverterMemory.allocate 44100 48000 empty).0)
      empty
      (ConverterMemory.allocate 44100 48000 empty).1
      crowded
    × GivesBack
        (λ k. k == (Latency.allocate empty).0)
        (Latency.destroy (Latency.allocate empty).0)
        empty
        (Latency.allocate empty).1
        (Latency.allocate empty).1
destructors_lem_example =
    destructors_lem 44100 48000 empty crowded (Latency.allocate empty).1 empty-IsValid still_there
      history_there
