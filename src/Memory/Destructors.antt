-- ===== src/Memory/Destructors.antt =====
-- The destructors of SampleFormatConverter and LatencyPredictor against their constructors.
use audio_io.Prelude.{
  ℕ, ◌+◌, ◌≡◌, inr, Bool, true, false, not, Option, some, ◌==◌, ◌&&◌, ◌||◌, refl, arith,
}
use audio_io.Memory.{Memory, new_array, IsValid, delete_array_lem, without}
use audio_io.Converter.Memory as ConverterMemory
use audio_io.Converter.Memory.{owns, destroy-Holds, allocate-Holds, allocate_lem}
use audio_io.Latency

-- An object whose constructor has gone from `before` to `made`, and whose arrays are all there in
-- `later`: the destructor deletes what the constructor has allocated, and nothing else.
pub record GivesBack (owned : ℕ → Bool) (destroy : Memory → Option Memory)
    (before made later : Memory) : Type 0 where
  pub added : (k : ℕ) → made.live k ≡ (before.live k || owned k)
  pub new : (k : ℕ) → owned k ≡ true → before.live k ≡ false
  pub deleted :
      (end : Memory) × (destroy later ≡ some end)
      × ((k : ℕ) → end.live k ≡ (later.live k && not (owned k)))

-- The arrays of a SampleFormatConverter, and the history of a LatencyPredictor, are new when the
-- constructor has run, and it allocates nothing else. If they are all still there at the end, whatever
-- else has been allocated and deleted since, the destructor deletes each of them once, and nothing
-- else.
pub destructors_lem :
    (input_sr output_sr : ℕ) (m later later' : Memory)
    → IsValid m
    → ((k : ℕ)
        → owns (ConverterMemory.allocate input_sr output_sr m).0 k ≡ true
        → later.live k ≡ true)
    → later'.live (Latency.allocate m).0 ≡ true
    → GivesBack
        (owns (ConverterMemory.allocate input_sr output_sr m).0)
        (ConverterMemory.destroy (ConverterMemory.allocate input_sr output_sr m).0)
        m
        (ConverterMemory.allocate input_sr output_sr m).1
        later
      × GivesBack
          (λ k. k == (Latency.allocate m).0)
          (Latency.destroy (Latency.allocate m).0)
          m
          (Latency.allocate m).1
          later'
unfolding Latency.allocate Latency.destroy new_array
destructors_lem input_sr output_sr m later later' valid there there' = (
  record {
    added = λ k. (allocate_lem input_sr output_sr m valid k).0;
    new = λ k. (allocate_lem input_sr output_sr m valid k).1;
    deleted = destroy-Holds _ later (allocate-Holds input_sr output_sr m later there);
  },
  record {
    added = λ k. ground arith;
    new = λ k own. valid k (inr (ground arith));
    deleted = (without (m.last + 1) later', delete_array_lem (m.last + 1) later' there', λ k. refl);
  },
)
