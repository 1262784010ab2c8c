-- ===== src/Tests.antt =====
-- Concrete runs of the model, the expectations of the repository's own tests among them, and the
-- theorems at concrete inputs.
mod Codecs
mod Methods
mod Tables
mod Files
mod Whole
mod Hashes
mod HashRecords
mod HashTables
mod Reopening
mod Pools
mod Strings
