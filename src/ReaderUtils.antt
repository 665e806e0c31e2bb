-- ===== src/ReaderUtils.antt =====
-- The helpers of src/CDMReaderUtils.cc that only need the data model.
pub mod Shapes
pub mod UniqueNames
