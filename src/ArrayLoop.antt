-- ===== src/ArrayLoop.antt =====
-- ArrayDims, ArrayGroup and Loop (include/fimex/ArrayLoop.h, src/ArrayLoop.cc): loops over several
-- arrays that share some of their dimensions.
pub mod Dims
pub mod Group
pub mod Counter
