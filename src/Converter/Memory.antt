-- ===== src/Converter/Memory.antt =====
-- The arrays that a SampleFormatConverter owns: what its constructor allocates and its destructor
-- deletes.
use audio_io.Prelude.{
  ℕ, ◌≡◌, ◌≢◌, inl, inr, refl, sym, arith, Bool, true, false, not, Option, some, ◌==◌, ◌&&◌, ◌||◌,
  if◌then◌else◌, ◌>>=◌, Bool-cases,
}
use audio_io.Memory.{
  Memory, new_array, delete_array, IsValid, delete_array_lem, without, without-other,
}

-- The three pointers; a converter that does not resample has no workspace.
pub record Arrays : Type 0 where
  pub input_buffer : ℕ
  pub output_buffer : ℕ
  pub resampler_workspace : ℕ

-- The allocations of the constructor.
unfoldable pub allocate : ℕ → ℕ → Memory → Arrays × Memory
unfolding new_array
allocate input_sr output_sr m =
    let (workspace, m₁) = if input_sr == output_sr then (0, m) else new_array m in
    let (input, m₂) = new_array m₁ in
    let (output, m₃) = new_array m₂ in
    (record { input_buffer = input; output_buffer = output; resampler_workspace = workspace }, m₃)

-- ~SampleFormatConverter
unfoldable pub destroy : Arrays → Memory → Option Memory
unfolding delete_array
destroy a m = do
  m₁ ← delete_array a.output_buffer m
  m₂ ← delete_array a.input_buffer m₁
  if a.resampler_workspace == 0 then some m₂ else delete_array a.resampler_workspace m₂

abbrev pub owns : Arrays → ℕ → Bool
owns a k =
    k == a.output_buffer
    || k == a.input_buffer
    || (not (a.resampler_workspace == 0) && k == a.resampler_workspace)

-- What a converter has of the memory.
pub record Holds (a : Arrays) (m : Memory) : Type 0 where
  apart : a.output_buffer ≢ a.input_buffer
  output_apart : a.resampler_workspace ≢ a.output_buffer
  input_apart : a.resampler_workspace ≢ a.input_buffer
  there : (k : ℕ) → owns a k ≡ true → m.live k ≡ true

pub destroy-Holds :
    (a : Arrays) (m : Memory)
    → Holds a m
    → (m' : Memory) × (destroy a m ≡ some m') × ((k : ℕ) → m'.live k ≡ (m.live k && not (owns a k)))
unfolding destroy
destroy-Holds a m h =
    let output = delete_array_lem a.output_buffer m (h.there a.output_buffer (ground arith)) in
    let input = delete_array_lem a.input_buffer (without a.output_buffer m) (
      without-other a.output_buffer a.input_buffer m (λ e. h.apart (sym e))
        (h.there a.input_buffer (ground arith))) in
    elim (Bool-cases (a.resampler_workspace == 0)) [
      | inl missing ↦ (
        without a.input_buffer (without a.output_buffer m),
        rw (output, input, missing) refl,
        λ k. rw missing (ground arith),
      )
      | inr there ↦
          let workspace =
            delete_array_lem a.resampler_workspace
              (without a.input_buffer (without a.output_buffer m))
              (without-other a.input_buffer a.resampler_workspace (without a.output_buffer m)
                h.input_apart
                (without-other a.output_buffer a.resampler_workspace m h.output_apart
                  (h.there a.resampler_workspace (ground arith)))) in
          (
            without a.resampler_workspace (without a.input_buffer (without a.output_buffer m)),
            rw (output, input, there, workspace) refl,
            λ k. rw there (ground arith),
          )
    ]

pub allocate-Holds :
    (input_sr output_sr : ℕ) (m m' : Memory)
    → ((k : ℕ) → owns (allocate input_sr output_sr m).0 k ≡ true → m'.live k ≡ true)
    → Holds (allocate input_sr output_sr m).0 m'
unfolding allocate new_array
allocate-Holds input_sr output_sr m m' there = record {
  apart = ground arith;
  output_apart = ground arith;
  input_apart = ground arith;
  there = there;
}

-- The arrays of a new converter are new, and with them nothing else has changed.
pub allocate_lem :
    (input_sr output_sr : ℕ) (m : Memory)
    → IsValid m
    → (k : ℕ)
    → ((allocate input_sr output_sr m).1.live k
        ≡ (m.live k || owns (allocate input_sr output_sr m).0 k))
      × (owns (allocate input_sr output_sr m).0 k ≡ true → m.live k ≡ false)
unfolding allocate new_array
allocate_lem input_sr output_sr m valid k = elim (Bool-cases (input_sr == output_sr)) [
  | inl same ↦ rw same (ground (arith, valid k))
  | inr differ ↦ rw differ (ground (arith, valid k))
]
