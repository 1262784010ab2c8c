-- ===== src/Tiny.antt =====
-- `TinyDBM`, the on-memory hash database of tkrzw_dbm_tiny.cc.
pub mod Record
pub mod Layout
pub mod Rewrite
pub mod Table
pub mod Chains
pub mod Buckets
pub mod Process
pub mod Implements
pub mod Append
pub mod Whole
pub mod Iterator
pub mod Store
pub mod Visits
pub mod Move
pub mod Rebuild
pub mod Load
pub mod Save
