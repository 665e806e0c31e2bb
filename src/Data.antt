-- ===== src/Data.antt =====
-- Data arrays.
pub mod SliceCopy
pub mod Impl
pub mod Index
pub mod Indexed
