-- ===== src/HashDbm/Append.antt =====
-- What the steps of `HashDBMImpl::ProcessImpl` (tkrzw_dbm_hash.cc) do to the file in appending mode.
use tkrzw.Base.{
  ℕ, ◌+◌, ◌*◌, ◌/◌, ◌^◌, ◌≤◌, ◌≡◌, ◌==◌, refl, arith, Bytes, if◌then◌else◌, Option, some, Bool,
  true, false, length, ok,
}
use tkrzw.Status.{is_success}
use tkrzw.Codec.FixNum.{write_fix_num}
use tkrzw.Flat.File.{File, FileLaws}
use tkrzw.HashDbm.Record.{Format, HashRecord, record_bytes, set_data, op_add}
use tkrzw.HashDbm.Access
use tkrzw.HashDbm.Table.{HashDbm, write_record, set_bucket_value, metadata_size}
use tkrzw.HashDbm.Update.{
  with_value, stored_as, find_place, relocate_record, change_record, add_record, count_change,
}

-- Writing to the file succeeds.
pub record IsSteady {F : Type 0} (file : File F) : Type 0 where
  pub writes : (f : F) (off : ℕ) (buf : Bytes) → is_success (file.write f off buf).0 ≡ true
  pub appends : (f : F) (buf : Bytes) → is_success (file.append f buf).0 ≡ true

module _ {F : Type 0} (file : File F) (laws : FileLaws file) (steady : IsSteady file) where
  -- The file with a record at its end and its offset in a bucket.
  abbrev pub appended : F → Format → ℕ → HashRecord → F
  appended f fmt b rec =
      let r = file.append f (record_bytes fmt rec) in
      (file.write r.1 (metadata_size + b * fmt.offset_width)
        (write_fix_num (r.2 / 2 ^ fmt.align_pow) fmt.offset_width)).1

  module _ (db' : HashDbm F) (b : ℕ) (key : Bytes) where
    -- The database in appending mode.
    abbrev pub db : HashDbm F
    db = record db' { in_place = false }

    -- The database with a record at the end of its file.
    abbrev pub with_record : HashRecord → HashDbm F
    with_record rec = record db { file = appended db.file db.format b rec }

    relocate_record_lem :
        (is_set : Bool) (old : HashRecord) (top parent current : ℕ) (change : Option Bytes)
        → relocate_record file b key is_set old top parent current change db ≡ (
          ok tt,
          with_record (
              with_value db.format
                (stored_as is_set)
                0
                key
                change
                (if parent == 0 then old.child_offset else top)),
        )
    unfolding relocate_record find_place write_record set_bucket_value Access.write
    relocate_record_lem is_set old top parent current change =
        let child = if parent == 0 then old.child_offset else top in
        let fresh = with_value db.format (stored_as is_set) 0 key change child in
        rw (steady.appends db.file (record_bytes db.format fresh)) (rw (steady.writes _ _ _) refl)

    pub change_record_lem :
        (is_set : Bool) (old : HashRecord) (top parent current : ℕ) (change : Option Bytes)
        → 1 ≤ old.whole_size
        → change_record file b key is_set old top parent current change db
          ≡ count_change is_set (length key) old.value_size change (
              with_record (
                with_value db.format
                  (stored_as is_set)
                  0
                  key
                  change
                  (if parent == 0 then old.child_offset else top)))
    unfolding change_record
    change_record_lem is_set old top parent current change h =
        let moved : (0 == old.whole_size) ≡ false = ground arith in
        rw moved (rw (relocate_record_lem is_set old top parent current change) refl)

    pub add_record_lem :
        (top : ℕ) (v : Bytes)
        → add_record file b key top v db
          ≡ count_change false
              (length key)
              0
              (some v)
              (with_record (set_data db.format op_add 0 key v top))
    unfolding add_record find_place write_record set_bucket_value Access.write
    add_record_lem top v =
        let fresh = set_data db.format op_add 0 key v top in
        rw (steady.appends db.file (record_bytes db.format fresh)) (rw (steady.writes _ _ _) refl)
