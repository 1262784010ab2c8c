-- ===== src/HashDbm/Update.antt =====
-- How `HashDBMImpl::ProcessImpl` (tkrzw_dbm_hash.cc) changes the file and the counters once a processor
-- has answered with a new value or with a removal, in place and in appending mode.
use tkrzw.Base.{
  ℕ, ◌+◌, ◌-◌, ◌%◌, ◌^◌, ◌==◌, Bytes, [], if◌then◌else◌, Option, none, some, Bool, false, ◌&&◌,
  ◌||◌, ltb, length, ok,
}
use tkrzw.Flat.File.{File}
use tkrzw.HashDbm.Record.{
  Format, HashRecord, OperationType, op_void, op_set, op_remove, op_add, set_data,
}
use tkrzw.HashDbm.Pool.{insert_free_block, fetch_free_block}
use tkrzw.HashDbm.Table.{Run, ◌>>=◌, ◌>>◌, set_bucket_value, write_child, write_record}

-- The subtraction of the atomic 64-bit counters, and that of two sizes.
abbrev pub sub64 : ℕ → ℕ → ℕ
sub64 a b = (a + (2 ^ 64 - b % 2 ^ 64)) % 2 ^ 64

abbrev pub add64 : ℕ → ℕ → ℕ
add64 a b = (a + b) % 2 ^ 64

-- The operation of a record that keeps its value.
abbrev pub stored_as : Bool → OperationType
stored_as old_is_set = if old_is_set then op_set else op_add

-- The new value is `none` for a removal.
abbrev pub with_value : Format → OperationType → ℕ → Bytes → Option Bytes → ℕ → HashRecord
with_value fmt operation ideal key none child = set_data fmt op_remove ideal key [] child
with_value fmt operation ideal key (some v) child = set_data fmt operation ideal key v child

abbrev pub void_record : Format → ℕ → HashRecord
void_record fmt size = set_data fmt op_void size [] [] 0

-- The record that may take the place of the old one.
abbrev pub in_its_place : Format → Bool → Bytes → HashRecord → Option Bytes → HashRecord
in_its_place fmt old_is_set key old none = void_record fmt old.whole_size
in_its_place fmt old_is_set key old (some v) =
    set_data fmt (stored_as old_is_set) old.whole_size key v old.child_offset

-- The counters after a change of a record that was there.
unfoldable pub count_change : {F : Type 0} → Bool → ℕ → ℕ → Option Bytes → Run F (Unit {0})
count_change old_is_set key_size old_size none db = (
  ok tt,
  if old_is_set
      then record db {
        num_records = sub64 db.num_records 1;
        eff_data_size = sub64 db.eff_data_size (key_size + old_size);
      }
      else db,
)
count_change old_is_set key_size old_size (some v) db = (
  ok tt,
  if old_is_set
      then record db { eff_data_size = add64 db.eff_data_size (sub64 (length v) old_size) }
      else record db {
        num_records = add64 db.num_records 1;
        eff_data_size = add64 db.eff_data_size (key_size + length v);
      },
)

abbrev pub unchanged : {F : Type 0} → Run F (Unit {0})
unchanged db = (ok tt, db)

unfoldable pub free_block : {F : Type 0} → ℕ → ℕ → Run F (Unit {0})
free_block offset size db = (ok tt, record db { fbp = insert_free_block db.fbp offset size })

-- In place, a free block may be at hand for the record; the record is then made once more for its size.
unfoldable pub find_place :
    {F : Type 0} → HashRecord → (ℕ → HashRecord) → Run F (HashRecord × Option ℕ)
find_place fresh again db =
    if db.in_place
    then (let (block, pool) = fetch_free_block db.fbp fresh.whole_size in
        let place : HashRecord × Option ℕ = elim block [
          | none ↦ (fresh, none)
          | some b ↦ (again b.size, if b.offset == 0 then none else some b.offset)
        ] in
        (ok place, record db { fbp = pool }))
    else (ok (fresh, none), db)

module _ {F : Type 0} (file : File F) (bucket_index : ℕ) (key : Bytes) where
  abbrev link : Bool → ℕ → ℕ → Run F (Unit {0})
  link to_parent parent offset =
      if to_parent
      then write_child file parent offset
      else set_bucket_value file bucket_index offset

  -- The new record has the size of the old one.
  unfoldable pub rewrite_record : HashRecord → HashRecord → ℕ → ℕ → Option Bytes → Run F (Unit {0})
  rewrite_record rec old parent current none = do
    link (ltb 0 parent) parent old.child_offset
    _ ← write_record file rec (some current)
    free_block current old.whole_size
  rewrite_record rec old parent current (some v) = do
    _ ← write_record file rec (some current)
    unchanged

  -- The new record goes elsewhere.
  unfoldable pub relocate_record : Bool → HashRecord → ℕ → ℕ → ℕ → Option Bytes → Run F (Unit {0})
  relocate_record old_is_set old top parent current change db =
      let child = if db.in_place || (parent == 0) then old.child_offset else top in
      let fresh = with_value db.format (stored_as old_is_set) 0 key change child in
      let again : ℕ → HashRecord = λ size. with_value db.format op_set size key change child in
      (do
        placed ← find_place fresh again
        new_offset ← write_record file placed.0 placed.1
        link (db.in_place && ltb 0 parent) parent new_offset
        if db.in_place
            then (do
              _ ← write_record file (void_record db.format old.whole_size) (some current)
              free_block current old.whole_size)
            else unchanged)
        db

  -- The change of a record that was there.
  unfoldable pub change_record : Bool → HashRecord → ℕ → ℕ → ℕ → Option Bytes → Run F (Unit {0})
  change_record old_is_set old top parent current change db =
      let rec = in_its_place db.format old_is_set key old change in
      let new_rec_size = if db.in_place then rec.whole_size else 0 in
      (do
        if new_rec_size == old.whole_size
            then rewrite_record rec old parent current change
            else relocate_record old_is_set old top parent current change
        count_change old_is_set (length key) old.value_size change)
        db

  -- A record for a key that had none.
  unfoldable pub add_record : ℕ → Bytes → Run F (Unit {0})
  add_record top v db =
      (do
        placed ←
            find_place (set_data db.format op_add 0 key v top)
              (λ size. set_data db.format op_add size key v top)
        new_offset ← write_record file placed.0 placed.1
        set_bucket_value file bucket_index new_offset
        count_change false (length key) 0 (some v))
        db
