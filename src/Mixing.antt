-- ===== src/Mixing.antt =====
-- Remixing between channel counts: src/audio_io/format_conversion/{mixing_matrices,remix}.cpp.
pub mod Matrices
pub mod Registry
pub mod Walk
pub mod Kernels
pub mod Remix
pub mod Cells
pub mod Interleaved
pub mod Uninterleaved
pub mod Documented
pub mod Trips
pub mod Agree
pub mod Chosen
pub mod Named
mod Tests
