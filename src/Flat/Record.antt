-- ===== src/Flat/Record.antt =====
-- `FlatRecord` of tkrzw_file_util.cc: one string in a file, behind a magic byte and its size.
use tkrzw.Base.{
  ℕ, ◌+◌, ◌-◌, ◌==◌, ◌^◌, min, Bytes, [], ◌∷◌, ◌++◌, length, take, ltb, leb, if◌then◌else◌, none,
  some,
}
use tkrzw.Status.{Status, status_of, success, broken_data_error, is_success}
use tkrzw.Codec.VarNum.{write_var_num, read_var_num, size_var_num}
use tkrzw.Flat.File.{File}

abbrev pub record_magic : ℕ
record_magic = 0xFF

abbrev pub read_buffer_size : ℕ
read_buffer_size = 48

abbrev pub max_memory_size : ℕ
max_memory_size = 2 ^ 40

-- The bytes that `FlatRecord::Write` puts together.
unfoldable pub flat_bytes : Bytes → Bytes
flat_bytes str = record_magic ∷ (write_var_num (length str) ++ str)

abbrev pub whole_size : Bytes → ℕ
whole_size str = 1 + size_var_num (length str) + length str

-- `FlatRecord::Write`: the status, the file and the offset of the record.
unfoldable pub write : {F : Type 0} → File F → F → Bytes → Status × F × ℕ
write file f str = file.append f (flat_bytes str)

-- The start of a record: a wrong magic byte, a size that does not end, or the size of the data, the
-- number of bytes the size takes, and the bytes behind it.
pub data Header : Type 0 where
  bad_magic bad_size : Header
  header : ℕ → ℕ → Bytes → Header

unfoldable pub read_size : Bytes → Header
read_size rest = elim (read_var_num rest) [
  | none ↦ bad_size
  | some (value_size, behind) ↦ header value_size (length rest - length behind) behind
]

unfoldable pub read_header : Bytes → Header
read_header [] = bad_magic
read_header (c ∷ rest) = if c == record_magic then read_size rest else bad_magic

abbrev pub broken : Status
broken = status_of broken_data_error

-- The fields of a `FlatRecord` after `Read`.
pub record Read : Type 0 where
  pub status : Status
  pub str : Bytes
  pub whole : ℕ

abbrev pub failed : Status → Read
failed st = record { status = st; str = []; whole = 0 }

-- The data is in the buffer, or is read by itself.
unfoldable pub read_body : {F : Type 0} → File F → F → ℕ → ℕ → Header → Read
read_body file f offset max_read_size bad_magic = failed broken
read_body file f offset max_read_size bad_size = failed broken
read_body file f offset max_read_size (header data_size step behind) =
    let body = file.read f (offset + (1 + step)) data_size in
    if ltb max_read_size data_size
    then failed broken
    else if leb data_size (length behind)
    then record {
      status = status_of success;
      str = take data_size behind;
      whole = 1 + step + data_size;
    }
    else if is_success body.0
    then record { status = status_of success; str = body.1; whole = 1 + step + data_size }
    else failed body.0

-- `FlatRecord::Read` at an offset inside the file.
unfoldable pub read : {F : Type 0} → File F → F → ℕ → Read
read file f offset =
    let max_read_size = min ((file.get_size f).1 - offset) max_memory_size in
    let start = file.read f offset (min max_read_size read_buffer_size) in
    if ltb max_read_size 2
    then failed broken
    else if is_success start.0
    then read_body file f offset max_read_size (read_header start.1)
    else failed start.0
