-- ===== src/Dbm.antt =====
-- The interface `DBM` of tkrzw_dbm.h: record processors, and the operations that are built on
-- `Process` and `ProcessMulti`.
pub mod Processor
pub mod Interface
pub mod Methods
pub mod Fits
pub mod Laws
pub mod Multi
pub mod Sequences
