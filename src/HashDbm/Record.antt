-- ===== src/HashDbm/Record.antt =====
-- `HashRecord` of tkrzw_dbm_hash_impl.cc: a record in the file of a `HashDBM`. Sizes are taken not to
-- leave the 32 bits of the source.
use tkrzw.Base.{
  ℕ, ◌+◌, ◌-◌, ◌*◌, ◌/◌, ◌%◌, ◌^◌, ◌==◌, Bytes, [], ◌∷◌, ◌++◌, if◌then◌else◌, Option, none, some,
  Bool, true, false, ◌&&◌, ltb, leb, length, replicate, Result, ok, err, ◌>>◌, require,
}
use Prim.Native.Nat.{bit_or}
use tkrzw.Status.{Status, status_of, broken_data_error}
use tkrzw.Codec.VarNum.{write_var_num, read_var_num, size_var_num}
use tkrzw.Codec.FixNum.{write_fix_num}
use tkrzw.Hash.Checksum.{magic_checksum}
use tkrzw.Hash.Crc.{hash_crc8_continuous, hash_crc16_continuous, hash_crc32_continuous}

abbrev pub max_key_size : ℕ
max_key_size = 8 * 2 ^ 20 - 1

abbrev pub max_value_size : ℕ
max_value_size = 2 * 2 ^ 30 - 1

abbrev pub padding_top_magic : ℕ
padding_top_magic = 0xDD

pub data OperationType : Type 0 where
  op_void op_set op_remove op_add : OperationType

-- What the database fixes for all of its records.
pub record Format : Type 0 where
  pub crc_width : ℕ
  pub offset_width : ℕ
  pub align_pow : ℕ

-- The fields of a `HashRecord`; `none` is a value whose pointer is null.
pub record HashRecord : Type 0 where
  pub operation : OperationType
  pub key : Bytes
  pub value : Option Bytes
  pub key_size : ℕ
  pub value_size : ℕ
  pub padding_size : ℕ
  pub whole_size : ℕ
  pub header_size : ℕ
  pub body_offset : ℕ
  pub child_offset : ℕ
  pub checksum : ℕ
  pub crc_value : ℕ

-- `AlignNumber`.
unfoldable pub align_number : ℕ → ℕ → ℕ
align_number num alignment =
    let diff = num % alignment in if ltb 0 diff then num + (alignment - diff) else num

-- The switch over `crc_width_`, with the seeds that the declarations give.
unfoldable pub crc_of : ℕ → Bytes → Bytes → ℕ
crc_of width key value =
    if width == 1
    then hash_crc8_continuous value true (hash_crc8_continuous key false 0)
    else if width == 2
    then hash_crc16_continuous value true (hash_crc16_continuous key false 0)
    else if width == 4
    then hash_crc32_continuous value true (hash_crc32_continuous key false 0xFFFFFFFF)
    else 0

-- The header without padding has one byte for the size of the padding.
abbrev pub base_size : Format → ℕ → ℕ → ℕ
base_size fmt key_size value_size =
    1
    + fmt.offset_width
    + size_var_num key_size
    + size_var_num value_size
    + 1
    + fmt.crc_width
    + key_size
    + value_size

-- `HashRecord::SetData`.
unfoldable pub set_data : Format → OperationType → ℕ → Bytes → Bytes → ℕ → HashRecord
set_data fmt operation ideal_whole_size key value child_offset =
    let base = base_size fmt (length key) (length value) in
    let wanted = if ltb base ideal_whole_size then ideal_whole_size else base in
    let whole_size = align_number wanted (2 ^ fmt.align_pow) in
    record {
      operation = operation;
      key = key;
      value = some value;
      key_size = length key;
      value_size = length value;
      padding_size = whole_size - base;
      whole_size = whole_size;
      header_size = 0;
      body_offset = 0;
      child_offset = child_offset;
      checksum = magic_checksum key value;
      crc_value = crc_of fmt.crc_width key value;
    }

-- The first byte.
unfoldable pub magic_of : OperationType → ℕ → ℕ
magic_of op_void checksum = bit_or checksum 0xC0
magic_of op_set checksum = bit_or checksum 0x80
magic_of op_remove checksum = bit_or checksum 0x40
magic_of op_add checksum = checksum

-- The bytes behind the value.
unfoldable pub padding_bytes : ℕ → Bytes
padding_bytes padding_size =
    if ltb 0 padding_size
    then padding_top_magic ∷ replicate (padding_size - size_var_num padding_size) 0
    else []

abbrev pub crc_bytes : ℕ → ℕ → Bytes
crc_bytes width crc_value = if ltb 0 width then write_fix_num crc_value width else []

abbrev pub or_empty : Option Bytes → Bytes
or_empty none = []
or_empty (some s) = s

-- The buffer that `HashRecord::Write` fills.
unfoldable pub record_bytes : Format → HashRecord → Bytes
record_bytes fmt rec =
    magic_of rec.operation rec.checksum
    ∷ (write_fix_num (rec.child_offset / 2 ^ fmt.align_pow) fmt.offset_width
        ++ (write_var_num rec.key_size
            ++ (write_var_num rec.value_size
                ++ (write_var_num rec.padding_size
                    ++ (crc_bytes fmt.crc_width rec.crc_value
                        ++ (rec.key ++ (or_empty rec.value ++ padding_bytes rec.padding_size)))))))

abbrev pub broken : Status
broken = status_of broken_data_error

abbrev pub operation_of : ℕ → OperationType
operation_of magic =
    if magic == 0xC0
    then op_void
    else if magic == 0x80
    then op_set
    else if magic == 0x40
    then op_remove
    else op_add

-- A size in the metadata, and the bytes behind it.
unfoldable pub read_meta_size : Bytes → ℕ → ℕ → Result Status (ℕ × Bytes)
read_meta_size rp bound max_read_size = elim (read_var_num rp) [
  | none ↦ err broken
  | some (num, rest) ↦ if leb num bound && leb num max_read_size then ok (num, rest) else err broken
]

-- The checks of the padding that is in the buffer behind the value.
unfoldable pub padding_ok : ℕ → Bytes → Bool
padding_ok padding_size [] = true
padding_ok padding_size (c ∷ []) = if ltb 0 padding_size then c == padding_top_magic else true
padding_ok padding_size (c ∷ d ∷ rest) =
    if ltb 0 padding_size
    then (c == padding_top_magic) && (if ltb 1 padding_size then d == 0 else true)
    else true

-- The comparisons of `CheckCRC`.
unfoldable pub check_body : Format → HashRecord → Result Status HashRecord
check_body fmt rec = do
  let value = or_empty rec.value
  require (rec.checksum == magic_checksum rec.key value) broken
  require
      (if ltb 0 fmt.crc_width then rec.crc_value == crc_of fmt.crc_width rec.key value else true)
      broken
  ok rec
