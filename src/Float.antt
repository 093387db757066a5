-- ===== src/Float.antt =====
-- `f32`, as far as the orchestrator computes with it: numbers of at least zero, which arise from
-- a `u64` by conversion, division by `u32::MAX as f32` and one product.
mod Round
mod Threshold
mod Tests
unfoldable pub use Round.*
unfoldable pub use Threshold.*
