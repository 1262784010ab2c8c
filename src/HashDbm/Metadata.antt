-- ===== src/HashDbm/Metadata.antt =====
-- The metadata at the front of the file of a `HashDBMImpl` (tkrzw_dbm_hash.cc): `SaveMetadata`,
-- `HashDBM::ReadMetadata`, `LoadMetadata`, and what the static flags say. Numbers of 32 and 64 bits are bit
-- patterns, but for the cyclic magic, which is `none` for -1.
use tkrzw.Base.{
  ℕ, ◌+◌, ◌^◌, ◌==◌, Bytes, List, [], ◌∷◌, if◌then◌else◌, Option, none, some, Bool, false, ◌&&◌,
  ◌||◌, not, ltb, leb, eqb, take, drop, replicate,
}
use Prim.Native.Nat.{bit_and}
use tkrzw.Status.{Status, status_of, is_success, success, broken_data_error, not_implemented_error}
use tkrzw.Codec.FixNum.{write_fix_num, read_fix_num}
use tkrzw.Flat.File.{File}
use tkrzw.HashDbm.Patch.{patch}
use tkrzw.HashDbm.Table.{metadata_size}

abbrev pub opaque_size : ℕ
opaque_size = 64

abbrev pub max_num_buckets : ℕ
max_num_buckets = 1099511627689

-- `META_MAGIC_DATA` without the byte 0 at its end.
abbrev pub meta_magic_data : Bytes
meta_magic_data = 84 ∷ 107 ∷ 114 ∷ 122 ∷ 119 ∷ 72 ∷ 68 ∷ 66 ∷ 10 ∷ []

pub record Metadata : Type 0 where
  pub cyclic_magic : Option ℕ
  pub pkg_major_version : ℕ
  pub pkg_minor_version : ℕ
  pub static_flags : ℕ
  pub offset_width : ℕ
  pub align_pow : ℕ
  pub closure_flags : ℕ
  pub num_buckets : ℕ
  pub num_records : ℕ
  pub eff_data_size : ℕ
  pub file_size : ℕ
  pub mod_time : ℕ
  pub db_type : ℕ
  pub opaque : Bytes

abbrev pub is_negative : ℕ → Bool
is_negative n = leb (2 ^ 63) n

-- `std::max<int64_t>(0, n)`.
abbrev pub at_least_zero : ℕ → ℕ
at_least_zero n = if is_negative n then 0 else n

-- `cyclic_magic_++`.
abbrev pub next_magic : Option ℕ → ℕ
next_magic none = 0
next_magic (some n) = n + 1

abbrev pub closes : Metadata → Bool
closes md = not (bit_and md.closure_flags 1 == 0)

-- Bytes that are copied into a buffer one after the other, each with its offset.
unfoldable pub put_all : Bytes → List (ℕ × Bytes) → Bytes
put_all buf [] = buf
put_all buf ((off, w) ∷ rest) = put_all (patch buf off w) rest

-- What `SaveMetadata` copies into its buffer.
abbrev pub meta_fields : Metadata → Bool → List (ℕ × Bytes)
meta_fields md finish =
    (0, meta_magic_data)
    ∷ (9, write_fix_num (next_magic md.cyclic_magic) 1)
    ∷ (10, write_fix_num md.pkg_major_version 1)
    ∷ (11, write_fix_num md.pkg_minor_version 1)
    ∷ (12, write_fix_num md.static_flags 1)
    ∷ (13, write_fix_num md.offset_width 1)
    ∷ (14, write_fix_num md.align_pow 1)
    ∷ (15, write_fix_num (if closes md && finish then 1 else 0) 1)
    ∷ (16, write_fix_num md.num_buckets 8)
    ∷ (24, write_fix_num (at_least_zero md.num_records) 8)
    ∷ (32, write_fix_num (at_least_zero md.eff_data_size) 8)
    ∷ (40, write_fix_num md.file_size 8)
    ∷ (48, write_fix_num md.mod_time 8)
    ∷ (56, write_fix_num md.db_type 4)
    ∷ (62, take opaque_size md.opaque)
    ∷ (127, write_fix_num (next_magic md.cyclic_magic) 1)
    ∷ []

unfoldable pub meta_bytes : Metadata → Bool → Bytes
meta_bytes md finish = put_all (replicate metadata_size 0) (meta_fields md finish)

-- The number of `width` bytes at an offset.
abbrev pub number_at : Bytes → ℕ → ℕ → ℕ
number_at buf off width = read_fix_num (take width (drop off buf)) width

-- The fields in the bytes of the metadata.
unfoldable pub parse_metadata : Bytes → Metadata
parse_metadata buf =
    let magic = number_at buf 9 1 in
    record {
      cyclic_magic = if magic == number_at buf 127 1 then some magic else none;
      pkg_major_version = number_at buf 10 1;
      pkg_minor_version = number_at buf 11 1;
      static_flags = number_at buf 12 1;
      offset_width = number_at buf 13 1;
      align_pow = number_at buf 14 1;
      closure_flags = number_at buf 15 1;
      num_buckets = number_at buf 16 8;
      num_records = number_at buf 24 8;
      eff_data_size = number_at buf 32 8;
      file_size = number_at buf 40 8;
      mod_time = number_at buf 48 8;
      db_type = number_at buf 56 4;
      opaque = take opaque_size (drop 62 buf);
    }

-- `HashDBM::GetCRCWidthFromStaticFlags`.
abbrev pub crc_width_from_static_flags : ℕ → ℕ
crc_width_from_static_flags flags =
    let kind = bit_and flags 12 in
    if kind == 4 then 1 else if kind == 8 then 2 else if kind == 12 then 4 else 0

-- The compressor of the static flags, by its class.
pub data CompressorClass : Type 0 where
  zlib zstd lz4 lzma : CompressorClass

abbrev pub compressor_from_static_flags : ℕ → Option CompressorClass
compressor_from_static_flags flags =
    let kind = bit_and flags 112 in
    if kind == 16
    then some zlib
    else if kind == 32
    then some zstd
    else if kind == 48
    then some lz4
    else if kind == 64
    then some lzma
    else none

-- `IsSupported` hangs on the build.
abbrev pub unsupported : (CompressorClass → Bool) → Metadata → Bool
unsupported supports md = elim (compressor_from_static_flags md.static_flags) [
  | none ↦ false
  | some c ↦ not (supports c)
]

-- The checks at the end of `LoadMetadata`.
unfoldable pub check_metadata : (CompressorClass → Bool) → Metadata → Status
check_metadata supports md =
    if ltb md.pkg_major_version 1 && ltb md.pkg_minor_version 1
    then status_of broken_data_error
    else if (bit_and md.static_flags 1 == 0) && (bit_and md.static_flags 2 == 0)
    then status_of broken_data_error
    else if unsupported supports md
    then status_of not_implemented_error
    else if ltb md.offset_width 3 || ltb 6 md.offset_width
    then status_of broken_data_error
    else if ltb 16 md.align_pow
    then status_of broken_data_error
    else if is_negative md.num_records
    then status_of broken_data_error
    else if is_negative md.eff_data_size
    then status_of broken_data_error
    else if is_negative md.file_size || ltb md.file_size metadata_size
    then status_of broken_data_error
    else if is_negative md.num_buckets
        || (ltb md.num_buckets 1 || ltb max_num_buckets md.num_buckets)
    then status_of broken_data_error
    else status_of success

module _ {F : Type 0} (file : File F) where
  -- `SaveMetadata`.
  unfoldable pub save_metadata : F → Metadata → Bool → Status × F × Metadata
  save_metadata f md finish =
      let r = file.write f 0 (meta_bytes md finish) in
      (r.0, r.1, record md { cyclic_magic = some (next_magic md.cyclic_magic) })

  -- `HashDBM::ReadMetadata` into the fields.
  unfoldable pub read_metadata : F → Metadata → Status × Metadata
  read_metadata f md =
      let size = file.get_size f in
      let buf = file.read f 0 metadata_size in
      if not (is_success size.0)
      then (size.0, md)
      else if ltb size.1 metadata_size
      then (status_of broken_data_error, md)
      else if not (is_success buf.0)
      then (buf.0, md)
      else if eqb (take 9 buf.1) meta_magic_data
      then (status_of success, parse_metadata buf.1)
      else (status_of broken_data_error, md)

  -- `LoadMetadata`; the widths and the compressor that it derives follow from the static flags.
  unfoldable pub load_metadata : (CompressorClass → Bool) → F → Metadata → Status × Metadata
  load_metadata supports f md =
      let r = read_metadata f md in if is_success r.0 then (check_metadata supports r.1, r.1) else r
