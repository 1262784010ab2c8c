-- ===== src/HashDbm/Create.antt =====
-- `HashDBMImpl::InitializeBuckets` (tkrzw_dbm_hash.cc).
use tkrzw.Base.{ℕ, zero, suc, ◌+◌, ◌-◌, min, Bytes, [], ◌∷◌, if◌then◌else◌, ltb, replicate}
use tkrzw.Status.{Status, is_success, merge}
use tkrzw.Codec.FixNum.{write_fix_num}
use tkrzw.Flat.File.{File}
use tkrzw.HashDbm.Record.{Format}
use tkrzw.HashDbm.Table.{metadata_size}
use tkrzw.HashDbm.Buckets.{record_base}
use tkrzw.HashDbm.Metadata.{put_all}

abbrev pub record_base_header_size : ℕ
record_base_header_size = 16

-- `RECORD_BASE_MAGIC_DATA` without the byte 0 at its end.
abbrev pub record_base_magic_data : Bytes
record_base_magic_data = 84 ∷ 107 ∷ 114 ∷ 122 ∷ 119 ∷ 82 ∷ 69 ∷ 67 ∷ 10 ∷ []

-- The bytes in front of the records.
unfoldable pub head_bytes : Format → ℕ → Bytes
head_bytes fmt static_flags = put_all (replicate record_base_header_size 0) (
    (0, record_base_magic_data)
    ∷ (9, write_fix_num static_flags 1)
    ∷ (10, write_fix_num fmt.offset_width 1)
    ∷ (11, write_fix_num fmt.align_pow 1)
    ∷ [])

module _ {F : Type 0} (file : File F) where
  -- The loop that writes zeros, up to 8192 at once. Each pass takes away some of the size, so that the
  -- size is enough fuel.
  unfoldable pub zero_fill : ℕ → F → Status → ℕ → ℕ → Status × F
  zero_fill zero f status offset size = (status, f)
  zero_fill (suc fuel) f status offset size =
      let write_size = min size 8192 in
      let w = file.write f offset (replicate write_size 0) in
      let rest = zero_fill fuel w.1 status (offset + write_size) (size - write_size) in
      if ltb 0 size then (if is_success w.0 then rest else (merge status w.0, w.1)) else (status, f)

  unfoldable pub initialize_buckets : Format → ℕ → ℕ → F → Status × F
  initialize_buckets fmt num_buckets static_flags f =
      let base = record_base fmt num_buckets in
      let t = file.truncate f base in
      let size = base - metadata_size in
      let z = zero_fill size t.1 t.0 metadata_size size in
      let h = file.write z.1 (base - record_base_header_size) (head_bytes fmt static_flags) in
      (merge z.0 h.0, h.1)
