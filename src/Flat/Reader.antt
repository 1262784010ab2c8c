-- ===== src/Flat/Reader.antt =====
-- `FlatRecordReader` of tkrzw_file_util.cc: the records of a file in order, through a buffer that
-- grows when a record does not fit.
use tkrzw.Base.{ℕ, ◌+◌, ◌-◌, ◌%◌, ◌^◌, min, Bytes, [], length, take, drop, ltb, leb, if◌then◌else◌}
use tkrzw.Status.{Status, status_of, success, not_found_error, is_success}
use tkrzw.Flat.File.{File}
use tkrzw.Flat.Record.{Header, bad_magic, bad_size, header, read_header, broken}

abbrev pub default_buffer_size : ℕ
default_buffer_size = 32768

abbrev pub min_record_size : ℕ
min_record_size = 2

abbrev pub max_header_size : ℕ
max_header_size = 9

-- The buffer holds the bytes that the last read of the file gave.
pub record FlatRecordReader : Type 0 where
  pub offset : ℕ
  pub buffer : Bytes
  pub buffer_size : ℕ
  pub data_size : ℕ
  pub index : ℕ

-- The constructor, for a size of the buffer or 0.
unfoldable pub new_reader : ℕ → FlatRecordReader
new_reader buffer_size = record {
  offset = 0;
  buffer = [];
  buffer_size =
      if ltb buffer_size 1
      then default_buffer_size
      else if ltb buffer_size 8
      then 8
      else buffer_size;
  data_size = 0;
  index = 0;
}

-- The status, the string read, and the reader behind it.
pub record Next : Type 0 where
  pub status : Status
  pub str : Bytes
  pub reader : FlatRecordReader

abbrev pub stop : Status → FlatRecordReader → Next
stop st rd = record { status = st; str = []; reader = rd }

-- The second read, after the buffer has been enlarged: the buffer is used up by one record.
unfoldable pub read_enlarged : FlatRecordReader → Header → Next
read_enlarged rd bad_magic = stop broken rd
read_enlarged rd bad_size = stop broken rd
read_enlarged rd (header value_size step behind) =
    if ltb (length behind) value_size then stop broken rd else record {
      status = status_of success;
      str = take value_size behind;
      reader = record rd { offset = rd.offset + (1 + step + value_size) };
    }

unfoldable pub enlarge : {F : Type 0} → File F → F → FlatRecordReader → ℕ → Next
enlarge file f rd missing =
    let buffer_size = (rd.buffer_size + missing) % 2 ^ 64 in
    let rd' = record rd { data_size = 0; index = 0; buffer_size = buffer_size } in
    let got = file.read f rd.offset buffer_size in
    if is_success got.0
    then read_enlarged (record rd' { buffer = got.1 }) (read_header got.1)
    else stop got.0 rd'

-- The buffer has been filled from the offset on.
unfoldable pub read_filled : {F : Type 0} → File F → F → FlatRecordReader → Header → Next
read_filled file f rd bad_magic = stop broken rd
read_filled file f rd bad_size = stop broken rd
read_filled file f rd (header value_size step behind) =
    if leb value_size (length behind)
    then record {
      status = status_of success;
      str = take value_size behind;
      reader = record rd {
        index = 1 + step + value_size;
        offset = rd.offset + (1 + step + value_size);
      };
    }
    else enlarge file f rd (value_size - length behind)

unfoldable pub fill : {F : Type 0} → File F → F → FlatRecordReader → Next
fill file f rd =
    let size = file.get_size f in
    let data_size = min rd.buffer_size (size.1 - rd.offset) in
    let got = file.read f rd.offset data_size in
    if is_success size.0
    then (if leb size.1 (rd.offset + min_record_size)
        then stop (status_of not_found_error) rd
        else if ltb data_size min_record_size
        then stop (status_of not_found_error) (record rd { data_size = data_size })
        else if is_success got.0
        then read_filled file f (record rd { data_size = data_size; buffer = got.1 })
            (read_header got.1)
        else stop got.0 (record rd { data_size = data_size }))
    else stop size.0 rd

-- The next record from the buffer, and from the file if the buffer does not hold all of it.
unfoldable pub read_buffered : {F : Type 0} → File F → F → FlatRecordReader → Header → Next
read_buffered file f rd bad_magic = stop broken rd
read_buffered file f rd bad_size = stop broken rd
read_buffered file f rd (header value_size step behind) =
    if leb value_size (length behind)
    then record {
      status = status_of success;
      str = take value_size behind;
      reader = record rd {
        index = rd.index + (1 + step + value_size);
        offset = rd.offset + (1 + step + value_size);
      };
    }
    else fill file f rd

-- `FlatRecordReader::Read`.
unfoldable pub next : {F : Type 0} → File F → F → FlatRecordReader → Next
next file f rd =
    if leb (rd.index + max_header_size) rd.data_size
    then read_buffered file f rd (read_header (drop rd.index (take rd.data_size rd.buffer)))
    else fill file f rd
