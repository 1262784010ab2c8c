-- ===== src/Tiny/Store.antt =====
-- How `TinyDBMImpl` (tkrzw_dbm_tiny.cc) loads its records from a file and stores them there.
use tkrzw.Base.{
  ℕ, zero, suc, Bytes, List, [], ◌∷◌, if◌then◌else◌, Option, none, some, Bool, true, false, not,
  ◌&&◌,
}
use tkrzw.Status.{
  Status, status_of, success, not_found_error, broken_data_error, precondition_error, is_success,
  is_code, merge,
}
use tkrzw.Dbm.Processor.{set_processor, report_to}
use tkrzw.Flat.File.{File}
use tkrzw.Flat.Record.{write}
use tkrzw.Flat.Reader.{FlatRecordReader, new_reader, next}
use tkrzw.Tiny.Record.{deserialize}
use tkrzw.Tiny.Table.{Chain, TinyDbm, bucket_of, process_impl}
use tkrzw.Tiny.Whole.{cancel_iterators, initialize_buckets}

abbrev pub odd_records : Status
odd_records = status_of broken_data_error

module _ {F : Type 0} (file : File F) where
  -- A status other than success ends the loop of `ImportRecords`.
  abbrev at_end : Status → Status → Status
  at_end st end_status = if is_code not_found_error st then end_status else st

  -- The loop of `ImportRecords` on fuel, which counts the pairs; `none` if it runs out.
  unfoldable pub import_loop : ℕ → F → FlatRecordReader → TinyDbm → Option (Status × TinyDbm)
  import_loop zero f rd db = none
  import_loop (suc fuel) f rd db =
      let key = next file f rd in
      let value = next file f key.reader in
      let db' =
        (process_impl db key.str (bucket_of db key.str) (set_processor value.str true)
          (report_to none) true).1 in
      let rest = import_loop fuel f value.reader db' in
      if not (is_success key.status)
      then some (at_end key.status (status_of success), db)
      else if not (is_success value.status)
      then some (at_end value.status odd_records, db)
      else rest

  -- `TinyDBMImpl::ImportRecords`.
  unfoldable pub import_records : ℕ → F → TinyDbm → Option (Status × TinyDbm)
  import_records fuel f db =
      let size = file.get_size f in
      if is_success size.0 then import_loop fuel f (new_reader 0) db else some (size.0, db)

  -- The inner loop of `ExportRecords`.
  unfoldable pub export_chain : Chain → F → Status × F
  export_chain [] f = (status_of success, f)
  export_chain (ptr ∷ child) f =
      let key = write file f (deserialize ptr).key in
      let value = write file key.1 (deserialize ptr).value in
      let rest = export_chain child value.1 in
      if not (is_success key.0)
      then (key.0, key.1)
      else if not (is_success value.0)
      then (value.0, value.1)
      else rest

  unfoldable pub export_chains : List Chain → F → Status × F
  export_chains [] f = (status_of success, f)
  export_chains (chain ∷ chains) f =
      let r = export_chain chain f in
      let rest = export_chains chains r.1 in if is_success r.0 then rest else r

  -- `TinyDBMImpl::ExportRecords`.
  unfoldable pub export_records : TinyDbm → F → Status × F
  export_records db f =
      let r = file.truncate f 0 in
      let rest = export_chains db.buckets r.1 in if is_success r.0 then rest else r

  -- `TinyDBMImpl::Open`, with the path that `NormalizePath` gives.
  unfoldable pub open_table : ℕ → TinyDbm → F → Bytes → Bool → ℕ → Option (Status × TinyDbm × F)
  open_table fuel db f norm_path writable options =
      let opened = file.open_file f norm_path writable options in
      if db.is_open
      then some (status_of precondition_error, db, f)
      else if not (is_success opened.0)
      then some (opened.0, db, opened.1)
      else elim (import_records fuel opened.1 db) [
        | none ↦ none
        | some (status, db') ↦
            if is_success status
            then some (
              status_of success,
              record db' { is_open = true; writable = writable; path = norm_path },
              opened.1,
            )
            else some (status, db', (file.close opened.1).1)
      ]

  -- `TinyDBMImpl::Close`.
  unfoldable pub close_table : TinyDbm → F → Status × TinyDbm × F
  close_table db f =
      let exported = if db.writable then export_records db f else (status_of success, f) in
      let closed = file.close exported.1 in
      if db.is_open
      then (
        merge (merge (status_of success) exported.0) closed.0,
        record db {
          buckets = initialize_buckets db.num_buckets;
          iterators = cancel_iterators db.iterators;
          is_open = false;
          writable = false;
          path = [];
          num_records = 0;
        },
        closed.1,
      )
      else (status_of precondition_error, db, f)

  -- `TinyDBMImpl::Synchronize` without a file processor.
  unfoldable pub synchronize_table : TinyDbm → F → Bool → Status × F
  synchronize_table db f hard =
      let exported = export_records db f in
      let synchronized = file.synchronize exported.1 hard in
      if db.is_open && db.writable
      then (merge (merge (status_of success) exported.0) synchronized.0, synchronized.1)
      else (status_of success, f)
