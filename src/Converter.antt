-- ===== src/Converter.antt =====
-- SampleFormatConverter: include/audio_io/private/sample_format_converter.hpp and
-- src/audio_io/format_conversion/sample_format_converter.cpp. The program's callback and the
-- resampler library are parameters. `none` is undefined behaviour (integer overflow, division by
-- zero, a null resampler) or a loop that has used up its fuel.
pub mod Create
pub mod Refill
pub mod Frames
pub mod Write
pub mod Chunks
pub mod Anywhere
pub mod SameRate
pub mod Memory
pub mod Ends
mod Tests
use audio_io.Prelude.{
  ℕ, zero, suc, ◌+◌, ◌-◌, ◌*◌, ◌/◌, ◌^◌, Bool, true, false, Option, none, some, min, ◌==◌, ltb, leb,
  ◌&&◌, if◌then◌else◌, ◌>>=◌,
}
use audio_io.Sample.{Float, Buffer}
use audio_io.Mixing.Remix.{remix_audio_interleaved}

-- The callback, with the state of the program behind it: it fills a buffer with one block of the
-- given number of channels.
pub record Client (fl : Float) : Type 1 where
  pub World : Type 0
  pub callback : World → Buffer fl → ℕ → World × Buffer fl

-- speex_resampler_cpp::Resampler. `write` is given the destination with the position to write at
-- and the greatest number of frames, and returns the number of frames written.
pub record ResamplerLib (fl : Float) : Type 1 where
  pub Resampler : Type 0
  pub create_resampler : ℕ → ℕ → ℕ → ℕ → Resampler
  pub write : Resampler → Buffer fl → ℕ → ℕ → ℕ × Buffer fl × Resampler
  pub read : Resampler → Buffer fl → Resampler

-- std::copy of `n` samples.
abbrev pub copy {ℓ} : {A : Type ℓ} → (ℕ → A) → ℕ → ℕ → (ℕ → A) → ℕ → ℕ → A
copy source from n dest to k =
    if leb to k && ltb k (to + n) then source (from + (k - to)) else dest k

-- The product of two `int`s, which must not overflow.
abbrev pub int_mul : ℕ → ℕ → Option ℕ
int_mul a b = if ltb (a * b) (2 ^ 31) then some (a * b) else none

abbrev pub int_div : ℕ → ℕ → Option ℕ
int_div a b = if b == 0 then none else some (a / b)

module _ (fl : Float) (client : Client fl) (lib : ResamplerLib fl) where
  open fl use {F, lit}
  open client use {World, callback}
  open lib use {Resampler, create_resampler, write as resampler_write, read as resampler_read}

  pub record Converter : Type 0 where
    pub world : World
    pub input_buffer : Buffer fl
    pub output_buffer : Buffer fl
    pub resampler_workspace : Buffer fl
    pub input_sr : ℕ
    pub output_sr : ℕ
    pub input_channels : ℕ
    pub output_channels : ℕ
    pub input_frames : ℕ
    pub output_frames : ℕ
    pub consumed_output_frames : ℕ
    pub resampler : Option Resampler

  -- The resampler that the constructor makes, and the number of output frames of a block.
  unfoldable pub set_up_resampler : ℕ → ℕ → ℕ → ℕ → Option (Option Resampler × ℕ)
  set_up_resampler input_frames input_channels input_sr output_sr =
      if input_sr == output_sr then some (none, input_frames) else do
        product ← int_mul input_frames output_sr
        quotient ← int_div product input_sr
        let resampler_length = if quotient == 0 then input_frames else quotient
        workspace_size ← int_mul resampler_length input_channels
        some (
          some (create_resampler input_frames input_channels input_sr output_sr),
          resampler_length,
        )

  -- The constructor. `new float[n]()` clears the buffers.
  unfoldable pub create : World → ℕ → ℕ → ℕ → ℕ → ℕ → Option Converter
  unfolding set_up_resampler
  create world input_frames input_channels input_sr output_channels output_sr = do
    (resampler, output_frames) ← set_up_resampler input_frames input_channels input_sr output_sr
    input_size ← int_mul input_frames input_channels
    output_size ← int_mul output_frames output_channels
    some (record {
      world = world;
      input_buffer = λ _. lit 0;
      output_buffer = λ _. lit 0;
      resampler_workspace = λ _. lit 0;
      input_sr = input_sr;
      output_sr = output_sr;
      input_channels = input_channels;
      output_channels = output_channels;
      input_frames = input_frames;
      output_frames = output_frames;
      consumed_output_frames = output_frames;
      resampler = resampler;
    })

  -- The loop of the slow path, over what it changes: `got` frames are in the workspace.
  unfoldable pub resample : ℕ → ℕ → ℕ → ℕ → Converter → Resampler → Option (Converter × Resampler)
  resample zero ic required got c r = none
  resample (suc fuel) ic required got c r =
      let (n, workspace, r₁) =
        resampler_write r c.resampler_workspace (got * ic) (required - got) in
      let (world, input) = callback c.world c.input_buffer ic in
      let r₂ = resampler_read r₁ input in
      let full = record c { resampler_workspace = workspace } in
      let more = record c {
        resampler_workspace = workspace;
        world = world;
        input_buffer = input;
      } in
      let rest = resample fuel ic required (got + n) more r₂ in
      let done = resample fuel ic required (got + n) full r₁ in
      elim (ltb got required) [
        | true ↦ elim (ltb (got + n) required) [ true ↦ rest | false ↦ done ]
        | false ↦ some (c, r)
      ]

  -- input_sr == output_sr
  unfoldable pub refill_same_rate : Converter → Converter
  refill_same_rate c =
      if c.input_channels == c.output_channels
      then (let (world, output) = callback c.world c.output_buffer c.input_channels in
          record c { world = world; output_buffer = output })
      else (let (world, input) = callback c.world c.input_buffer c.input_channels in
          record c {
            world = world;
            input_buffer = input;
            output_buffer =
                remix_audio_interleaved fl c.input_frames c.input_channels input c.output_channels
                  c.output_buffer true;
          })

  -- what follows the loop of the slow path
  unfoldable pub refill_resampled : Converter → Converter
  refill_resampled c =
      if c.input_channels == c.output_channels
      then record c {
        output_buffer =
            copy c.resampler_workspace 0 (c.output_frames * c.output_channels) c.output_buffer 0;
      }
      else record c {
        output_buffer =
            remix_audio_interleaved fl c.output_frames c.input_channels c.resampler_workspace
              c.output_channels c.output_buffer true;
      }

  -- refillOutputBuffer, with the fuel of its loop.
  unfoldable pub refill_output_buffer : ℕ → Converter → Option Converter
  refill_output_buffer fuel c = do
    c' ← if c.input_sr == c.output_sr then some (refill_same_rate c) else (do
      r ← c.resampler
      (filled, r') ← resample fuel c.input_channels c.output_frames 0 c r
      some (refill_resampled (record filled { resampler = some r' })))
    some (record c' { consumed_output_frames = 0 })

  -- The loop of `write`: `written` of `frames` frames stand in `buffer` from position `base` on.
  -- `refill` is refillOutputBuffer. A negative `willWrite` is 0 here, and the code treats both alike.
  unfoldable pub write_loop :
      (Converter → Option Converter)
      → ℕ
      → ℕ
      → ℕ
      → ℕ
      → Converter
      → Buffer fl
      → Option (Converter × Buffer fl)
  write_loop refill zero frames base written c buffer = none
  write_loop refill (suc fuel) frames base written c buffer =
      let oc = c.output_channels in
      let will_write = min (frames - written) (c.output_frames - c.consumed_output_frames) in
      let refilled = refill c >>= (λ c'. write_loop refill fuel frames base written c' buffer) in
      let copied =
        write_loop refill fuel frames base (written + will_write)
          (record c { consumed_output_frames = c.consumed_output_frames + will_write })
          (copy c.output_buffer (c.consumed_output_frames * oc) (will_write * oc) buffer
            (base + written * oc)) in
      elim (written == frames) [
        | true ↦ some (c, buffer)
        | false ↦ elim (will_write == 0) [ true ↦ refilled | false ↦ copied ]
      ]

  -- `write(frames, buffer + base)`; `resample_fuel` bounds the resampling loop of each refill, and
  -- the loop here needs at most two rounds for each frame (Write).
  unfoldable pub write : ℕ → ℕ → ℕ → Converter → Buffer fl → Option (Converter × Buffer fl)
  write resample_fuel frames base c buffer =
      write_loop (refill_output_buffer resample_fuel) (2 * frames + 2) frames base 0 c buffer
