-- ===== src/Base.antt =====
-- Shared vocabulary: library names passed on, Go strings, Go maps, slices, and the outcome of a
-- Go call (value, error, run-time panic, or a wait that does not end).
pub mod Flat
pub mod Logic
pub mod Text
pub mod Slice
pub mod Dict
pub mod Outcome
