-- ===== src/HashDbm/Table.antt =====
-- The state of `HashDBMImpl` (tkrzw_dbm_hash.cc) and its steps: `GetBucketValue`, `SetBucketValue`, the
-- calls of a processor of tkrzw_dbm_hash_impl.cc, and the search along the chain of a bucket.
use tkrzw.Base.{
  ℕ, zero, suc, ◌+◌, ◌*◌, ◌/◌, ◌%◌, ◌^◌, Bytes, [], if◌then◌else◌, ◌==◌, ◌||◌, leb, Option, none,
  some, Bool, true, false, Result, ok, err, eqb,
}
use tkrzw.Status.{Status, is_success}
use tkrzw.Codec.FixNum.{write_fix_num, read_fix_num}
use tkrzw.Dbm.Processor.{Action, noop, remove, put, Processor}
use tkrzw.Flat.File.{File}
use tkrzw.HashDbm.Record.{Format, HashRecord}
use tkrzw.HashDbm.Access
use tkrzw.HashDbm.Access.{read_bytes, read_body, read_metadata_key}
use tkrzw.HashDbm.Pool.{Pool}

abbrev pub metadata_size : ℕ
metadata_size = 128

abbrev pub meta_min_read_size : ℕ
meta_min_read_size = 48

-- `Compressor`, whose methods answer null when they fail.
pub record Compressor : Type 0 where
  pub compress : Bytes → Option Bytes
  pub decompress : Bytes → Option Bytes

-- The fields that the processing of records uses. The update mode is one of the static flags. The
-- counters are bit patterns of 64 bits.
pub record HashDbm (F : Type 0) : Type 0 where
  pub is_open : Bool
  pub writable : Bool
  pub healthy : Bool
  pub in_place : Bool
  pub format : Format
  pub compressor : Option Compressor
  pub num_buckets : ℕ
  pub num_records : ℕ
  pub eff_data_size : ℕ
  pub fbp : Pool
  pub min_read_size : ℕ
  pub file : F

-- A step that may end the method with a status, and the database after it.
abbrev pub Run : Type 0 → Type 0 → Type 0
Run F A = HashDbm F → Result Status A × HashDbm F

abbrev pub after : {F A B : Type 0} → Result Status A → (A → Run F B) → Run F B
after (ok a) f db = f a db
after (err e) f db = (err e, db)

infixl 5 ◌>>=◌ ◌>>◌
abbrev pub ◌>>=◌ : {F A B : Type 0} → Run F A → (A → Run F B) → Run F B
(m >>= f) db = after (m db).0 f (m db).1

abbrev pub ◌>>◌ : {F B : Type 0} → Run F (Unit {0}) → Run F B → Run F B
m >> k = m >>= λ _. k

-- `if (status != Status::SUCCESS) return status;` behind a step on the file.
abbrev on_file : {F : Type 0} → Status × F → Run F (Unit {0})
on_file (status, f) db = (if is_success status then ok tt else err status, record db { file = f })

abbrev compressed : Option Compressor → Action → Option Action
compressed none action = some action
compressed (some c) noop = some noop
compressed (some c) remove = some remove
compressed (some c) (put v) = elim (c.compress v) [ none ↦ none | some w ↦ some (put w) ]

-- A null view is taken for an empty value.
abbrev decompressed : Option Compressor → Option Bytes → Option Bytes
decompressed comp none = some []
decompressed none (some v) = some v
decompressed (some c) (some v) = c.decompress v

-- `CallRecordProcessFull`: no answer is a null view.
unfoldable pub call_record_process_full :
    {S : Type 0} → Processor S → S → Bytes → Option Bytes → Option Compressor → S × Option Action
call_record_process_full p s key old_value comp = elim (decompressed comp old_value) [
  | none ↦ (s, none)
  | some v ↦ (let r = p.process_full s key v in (r.0, compressed comp r.1))
]

-- `CallRecordProcessEmpty`.
unfoldable pub call_record_process_empty :
    {S : Type 0} → Processor S → S → Bytes → Option Compressor → S × Option Action
call_record_process_empty p s key comp = let r = p.process_empty s key in (r.0, compressed comp r.1)

-- How the search along a chain ends: with a status, behind the last record, at the record with its offset
-- and that of the record before it, or not within the fuel.
pub data Walked : Type 0 where
  failed : Status → Walked
  absent endless : Walked
  found : HashRecord → ℕ → ℕ → Walked

-- `current_offset > 0` fails: the offset is signed.
abbrev pub is_end : ℕ → Bool
is_end offset = (offset == 0) || leb (2 ^ 63) offset

module _ {F : Type 0} (file : File F) where
  abbrev pub bucket_offset : HashDbm F → ℕ → ℕ
  bucket_offset db bucket_index = metadata_size + bucket_index * db.format.offset_width

  -- `HashDBMImpl::GetBucketValue`.
  unfoldable pub get_bucket_value : HashDbm F → ℕ → Result Status ℕ
  get_bucket_value db bucket_index =
      elim (read_bytes file db.file (bucket_offset db bucket_index) db.format.offset_width) [
        | ok buf ↦ ok (read_fix_num buf db.format.offset_width * 2 ^ db.format.align_pow % 2 ^ 64)
        | err e ↦ err e
      ]

  -- `HashDBMImpl::SetBucketValue`.
  unfoldable pub set_bucket_value : ℕ → ℕ → Run F (Unit {0})
  set_bucket_value bucket_index value db =
      on_file
        (file.write db.file (bucket_offset db bucket_index)
          (write_fix_num (value / 2 ^ db.format.align_pow) db.format.offset_width))
        db

  -- `rec.WriteChildOffset`, with the early return.
  unfoldable pub write_child : ℕ → ℕ → Run F (Unit {0})
  write_child offset child_offset db =
      on_file (Access.write_child_offset file db.file db.format offset child_offset) db

  -- `rec.Write`, with the early return, and the offset of the record.
  unfoldable pub write_record : HashRecord → Option ℕ → Run F ℕ
  write_record rec offset db =
      let r = Access.write file db.file db.format rec offset in
      (if is_success r.0 then ok r.2 else err r.0, record db { file = r.1 })

  -- The loop of `ProcessImpl` up to the record of the key, from an offset and that of the record before.
  unfoldable pub walk : ℕ → HashDbm F → Bytes → Bool → ℕ → ℕ → Walked
  walk zero db key readable parent_offset current_offset =
      if is_end current_offset then absent else endless
  walk (suc fuel) db key readable parent_offset current_offset =
      let min_read_size = if readable then meta_min_read_size else db.min_read_size in
      if is_end current_offset
      then absent
      else elim (read_metadata_key file db.file db.format current_offset min_read_size) [
        | err e ↦ failed e
        | ok rec ↦
            (let later = walk fuel db key readable current_offset rec.child_offset in
              if eqb key rec.key then found rec current_offset parent_offset else later)
      ]

  -- The old value that the processor sees, `none` for a null view.
  unfoldable pub seen_value : HashDbm F → Bool → HashRecord → Result Status (Option Bytes)
  seen_value db false rec = ok none
  seen_value db true rec = elim (rec.value) [
    | some v ↦ ok (some v)
    | none ↦ elim (read_body file db.file rec) [ ok full ↦ ok (full.value) | err e ↦ err e ]
  ]
