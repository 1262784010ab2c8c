-- ===== src/HashDbm.antt =====
-- `HashDBM`, the hash database in a file: its records and its pool of free blocks
-- (tkrzw_dbm_hash_impl.cc), its table and its metadata (tkrzw_dbm_hash.cc).
pub mod Record
pub mod Access
pub mod Layout
pub mod Fields
pub mod Header
pub mod Padding
pub mod Reading
pub mod Writing
pub mod Pool
pub mod InOrder
pub mod BestFit
pub mod Zeros
pub mod PoolRound
pub mod Table
pub mod Update
pub mod Process
pub mod Patch
pub mod Chain
pub mod Walk
pub mod Locate
pub mod Buckets
pub mod Push
pub mod Append
pub mod Stepped
pub mod Appending
pub mod AppendingProcess
pub mod AppendingMulti
pub mod RecordBase
pub mod Create
pub mod Created
pub mod Metadata
pub mod Fieldwise
pub mod MetadataRound
pub mod MetadataLoad
pub mod MetadataKept
pub mod Opening
pub mod Closing
pub mod Reopening
