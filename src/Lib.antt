-- ===== src/Lib.antt =====
-- Tkrzw, a library of key-value databases (C++), and its verification.
--
-- Parts of the program. `Status` (tkrzw_lib_common.h) is the result of every method. Numbers are
-- written as bytes by tkrzw_sys_config.h and tkrzw_str_util.cc. `DBM` (tkrzw_dbm.h) is the interface
-- of all databases: a database implements `Process`, which calls a `RecordProcessor` with the record
-- of a key and does what the processor answers, and most other methods are written once on top of it.
-- `TinyDBM` (tkrzw_dbm_tiny.cc) is a hash table in memory whose records are blocks of bytes. It
-- stores its records in a file as flat records (tkrzw_file_util.cc) and loads them again. `HashDBM`
-- (tkrzw_dbm_hash_impl.cc) is a hash table in a file: it writes and reads records there, links
-- them to chains behind buckets of offsets, and keeps a pool of the regions that are free again.
--
-- The files.
--   Status       Status::Code, Status, operator |=
--   Codec        VarNum: WriteVarNum, ReadVarNum, SizeVarNum; FixNum: WriteFixNum, ReadFixNum,
--                IntToStrBigEndian, StrToIntBigEndian; VarRound: what the first three promise
--   Hash         HashMurmur, HashFNV, PrimaryHash, SecondaryHash; Checksum: HashChecksum6Continuous,
--                HashChecksum8Continuous, MagicChecksum; Crc: HashCRC8Continuous, HashCRC16Continuous,
--                HashCRC32Continuous
--   Dbm          Processor: DBM::RecordProcessor and its subclasses; Methods: Get, Set, Remove, Append,
--                CompareExchange, Increment and those on several records; Interface: what Process
--                promises; Fits, Laws, Multi, Sequences: what the methods then do
--   Flat         File: File; Record: FlatRecord; Reader: FlatRecordReader; Window, Scan: what the reader
--                reads from a file of records
--   Tiny         Record: TinyRecord; Table: the state of TinyDBMImpl, Process, ProcessMulti, Append;
--                Layout, Rewrite: the blocks; Chains, Buckets, Process, Implements, Append: the table
--                as a map; Whole: the constructor, Clear, Rebuild, ProcessEach, Count, GetHashBucketSize;
--                Move, Rebuild: the table after Rebuild; Iterator, Visits: TinyDBMIteratorImpl; Store:
--                Open, Close, Synchronize, ImportRecords, ExportRecords; Load, Save: what the last two
--                read and write
--   HashDbm      Record: HashRecord and its bytes; Access: reading it and writing it; Layout, Fields,
--                Header, Padding, Writing, Reading: its bytes in a file; Pool: FreeBlockPool; InOrder,
--                BestFit, Zeros, PoolRound: its order and what the file keeps of it; Table: the state of
--                HashDBMImpl, GetBucketValue, SetBucketValue, CallRecordProcessFull and ...Empty, the
--                search along a chain; Update, Process: ProcessImpl, Process, ProcessMulti; Patch, Chain,
--                Buckets: the chains in the bytes of the file; Walk, Locate: the search; Push, Append,
--                Stepped, Appending, AppendingProcess, AppendingMulti: updating by appending;
--                RecordBase, Create, Created: InitializeBuckets; Metadata, Fieldwise, MetadataRound, MetadataLoad, MetadataKept:
--                SaveMetadata, LoadMetadata, ReadMetadata; Opening: OpenImpl, CloseImpl, SaveFBP, LoadFBP,
--                CheckZeroRegion; Closing, Reopening: a database that is closed and opened again
--   Str          Serial, SerialRound: SerializeStrPair, SerializeStrVector and their inverses; Search,
--                SearchFirst, SearchMemchr: StrSearchDoubleLoop, StrSearchMemchr, StrReplace; Split,
--                SplitJoin: StrSplit (tkrzw_str_util.cc)
--   Base         shared names, tests on numbers, lists, byte strings, int32_t
--   Tests        concrete runs and instances
--
-- `HashDBMImpl::ProcessImpl` is modelled in both update modes, on a file that may fail, as steps that end
-- the method with a status (`Run`). The theorem on it is on the appending mode: every record on a chain
-- lies before the record that points to it, so the offsets fall along a chain and as much fuel as the
-- file has bytes is enough for its loop. It asks for a file that can be written, no compressor, and room
-- in the file below 2 ^ 63 bytes and within the offsets of the format. The first record of a key on
-- the chain of its bucket says what the key has; the ones behind it are old and may stay.
-- The fields of the class stand in two records, `HashDbm` for the processing of records and `Store` for
-- opening and closing. The time, the version of the build, the compressors that it has, and what
-- `TuneFileAfterOpen` and `TruncateFakely` do with a file are arguments.
--
-- How the state corresponds. A string is a list of bytes; a null `std::string_view` or pointer is
-- `none`. `NOOP`, `REMOVE` and a value to store, which the source tells apart by address, are the
-- constructors of `Action`. A processor's pointers to outside variables are its state, which goes in
-- and comes out. A bucket's chain of blocks, linked by child pointers, is a list of blocks; a block is
-- what lies in memory behind the child pointer, with the stale bytes that a shorter value leaves.
-- The `IsValid` of the table says that there are as many chains as buckets, that each block can be read
-- back, that each key stands once and in the bucket of its hash, and that `num_records_` counts.
--
-- Bounds. The sizes of the key and the value of a `TinyRecord` are int32_t, and the model is of such
-- with less than 2 ^ 31 bytes. The size of a block is an int32_t and wraps around in the model; a
-- block that would have a negative size is empty there, where the source finds no memory and throws.
-- The theorems on the table ask that a key and the value that is stored with it fit in a block, that
-- is, that the block has less than 2 ^ 31 bytes. The results of the searches of a string are int32_t,
-- and so is the size that `DeserializeStrVector` counts down: the theorems on them are on strings of
-- less than 2 ^ 31 bytes. 64-bit arithmetic wraps around; the signed sum of `Increment` is modelled as
-- wrapping too, where the source leaves an overflow of `initial + increment` undefined. The loop of
-- `ImportRecords` runs on fuel, one unit for each pair of records and one for the end of the file, and
-- the result on it says how much is enough; the other loops follow the buckets, the chains or a bound
-- in the source. A record of a file is taken to be shorter than 2 ^ 32 bytes where it is read back.
--
-- The loops of the string utilities run on fuel too, which is the number of bytes; that of
-- `DeserializeStrVector` has its fuel as an argument, since it does not end on every input.
-- Sizes of records in the file of a `HashDBM` are taken to stay within the 32 bits of the source. The
-- cyclic checksums are those of the build with `_TKRZW_STDONLY`, which computes with one table. A
-- `std::set` is the list of its elements in order.
--
-- A file is any value with the operations of `File`; what the databases rely on is the record
-- `FileLaws`: a region inside the file is readable, the size is known, and a successful `Append`, `Write`
-- or `Truncate` leaves the bytes it should. An iterator is modelled by itself, apart from its place in the
-- table's list, and -1 for its bucket index is `none`.
--
-- What is not modelled: the locks (a method runs alone), the allocator (memory never runs out, and a
-- value that a processor answers does not lie in the block that is rewritten), and the other databases,
-- files and indices; see the manifest's component list.
pub mod Base
pub mod Status
pub mod Codec
pub mod Dbm
pub mod Hash
pub mod Flat
pub mod Tiny
pub mod HashDbm
pub mod Str
mod Tests
