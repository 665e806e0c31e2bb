-- ===== src/Slice.antt =====
-- Slices of multi-dimensional variables.
pub mod Builder
