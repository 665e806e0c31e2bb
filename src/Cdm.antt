-- ===== src/Cdm.antt =====
-- The common data model.
pub mod DataType
pub mod Model
pub mod Variables
pub mod Dimensions
pub mod Lookup
pub mod WellFormed
pub mod Rename
pub mod RenameDimension
pub mod Reachable
pub mod Find
