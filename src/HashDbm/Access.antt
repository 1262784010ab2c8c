-- ===== src/HashDbm/Access.antt =====
-- How `HashRecord` (tkrzw_dbm_hash_impl.cc) writes a record to a file and reads it. Sizes are taken not
-- to leave the 32 bits of the source.
use tkrzw.Base.{
  ℕ, ◌+◌, ◌-◌, ◌*◌, ◌/◌, ◌%◌, ◌^◌, min, Bytes, [], ◌∷◌, if◌then◌else◌, Option, none, some, ltb, leb,
  length, take, drop, Result, ok, err, ◌>>=◌, ◌>>◌, require,
}
use Prim.Native.Nat.{bit_and}
use tkrzw.Status.{Status, is_success}
use tkrzw.Codec.FixNum.{write_fix_num, read_fix_num}
use tkrzw.Flat.File.{File}
use tkrzw.HashDbm.Record.{
  max_key_size, max_value_size, Format, HashRecord, record_bytes, broken, operation_of,
  read_meta_size, padding_ok, check_body,
}

module _ {F : Type 0} (file : File F) where
  -- `HashRecord::Write` at an offset, or at the end of the file for `none`, the negative offset: the
  -- status, the file and the offset of the record.
  unfoldable pub write : F → Format → HashRecord → Option ℕ → Status × F × ℕ
  write f fmt rec none = file.append f (record_bytes fmt rec)
  write f fmt rec (some offset) =
      let r = file.write f offset (record_bytes fmt rec) in (r.0, r.1, offset)

  -- `HashRecord::WriteChildOffset`.
  unfoldable pub write_child_offset : F → Format → ℕ → ℕ → Status × F
  write_child_offset f fmt offset child_offset =
      file.write f (offset + 1) (write_fix_num (child_offset / 2 ^ fmt.align_pow) fmt.offset_width)

  -- `file_->GetSizeSimple()`. Where the source has -1 and the model 0, both are too small for a record.
  abbrev pub size_simple : F → ℕ
  size_simple f = let size = file.get_size f in if is_success size.0 then size.1 else 0

  -- `file_->Read` with the early return.
  abbrev pub read_bytes : F → ℕ → ℕ → Result Status Bytes
  read_bytes f off size = let r = file.read f off size in if is_success r.0 then ok r.1 else err r.0

  -- `HashRecord::ReadBody`.
  unfoldable pub read_body : F → HashRecord → Result Status HashRecord
  read_body f rec = do
    let body = (← read_bytes f rec.body_offset (rec.key_size + rec.value_size))
    ok (record rec {
      key = take rec.key_size body;
      value = some (take rec.value_size (drop rec.key_size body));
    })

  -- The end of `ReadMetadataKey`: the key and perhaps the value are in the buffer, or the body is read
  -- by itself.
  unfoldable pub read_key : F → ℕ → HashRecord → Bytes → Result Status HashRecord
  read_key f offset rec rp =
      if leb rec.key_size (length rp)
      then (let behind = drop rec.key_size rp in
          let value =
            if leb rec.value_size (length behind)
            then some (take rec.value_size behind)
            else none in
          if padding_ok rec.padding_size (drop rec.value_size behind)
          then ok (record rec { key = take rec.key_size rp; value = value })
          else err broken)
      else if ltb (size_simple f) (offset + rec.whole_size)
      then err broken
      else read_body f rec

  -- The metadata behind the first byte of the buffer, in a file that has `max_read_size` bytes from the
  -- offset on.
  unfoldable pub read_meta : F → Format → ℕ → ℕ → ℕ → Bytes → Result Status HashRecord
  read_meta f fmt offset max_read_size magic rp = do
    let checksum = bit_and magic 0xFFFFFF3F
    require (leb 3 checksum) broken
    require (leb fmt.offset_width (length rp)) broken
    let child = read_fix_num rp fmt.offset_width * 2 ^ fmt.align_pow % 2 ^ 64
    let k = (← read_meta_size (drop fmt.offset_width rp) max_key_size max_read_size)
    let v = (← read_meta_size k.1 max_value_size max_read_size)
    let p = (← read_meta_size v.1 max_value_size max_read_size)
    require (leb fmt.crc_width (length p.1)) broken
    let extra_padding_size = length v.1 - length p.1 - 1
    let body = drop fmt.crc_width p.1
    let header_size = 1 + (length rp - length body)
    read_key f offset
        (record {
          operation = operation_of (bit_and magic 0xC0);
          key = [];
          value = none;
          key_size = k.0;
          value_size = v.0;
          padding_size = p.0;
          whole_size = header_size + k.0 + v.0 + p.0 - extra_padding_size;
          header_size = header_size;
          body_offset = offset + header_size;
          child_offset = child;
          checksum = checksum;
          crc_value = read_fix_num p.1 fmt.crc_width;
        })
        body

  abbrev pub read_first : F → Format → ℕ → ℕ → Bytes → Result Status HashRecord
  read_first f fmt offset max_read_size [] = err broken
  read_first f fmt offset max_read_size (magic ∷ rp) = read_meta f fmt offset max_read_size magic rp

  -- `HashRecord::ReadMetadataKey`.
  unfoldable pub read_metadata_key : F → Format → ℕ → ℕ → Result Status HashRecord
  read_metadata_key f fmt offset min_read_size =
      let max_read_size = size_simple f - offset in
      let record_size = min max_read_size min_read_size in
      if ltb max_read_size (1 + fmt.offset_width + 3 + fmt.crc_width)
      then err broken
      else read_bytes f offset record_size >>= read_first f fmt offset max_read_size

  -- `HashRecord::CheckCRC`, which reads the body if it is not there yet.
  unfoldable pub check_crc : F → Format → HashRecord → Result Status HashRecord
  check_crc f fmt rec = elim (rec.value) [
    | none ↦ read_body f rec >>= check_body fmt
    | some value ↦ check_body fmt rec
  ]
