-- ===== src/HashDbm/Process.antt =====
-- `HashDBMImpl::ProcessImpl`, `Process` and `ProcessMulti` (tkrzw_dbm_hash.cc). The loop along a chain has
-- fuel; `none` is that it was not enough. The locks are left out.
use tkrzw.Base.{
  ℕ, Bytes, List, [], ◌∷◌, if◌then◌else◌, Option, none, some, Bool, true, false, not, ◌||◌, ◌&&◌,
  ok, err, Result,
}
use tkrzw.Status.{Status, status_of, success, precondition_error, is_success}
use tkrzw.Dbm.Processor.{Action, noop, remove, put, Processor}
use tkrzw.Flat.File.{File}
use tkrzw.Hash.{primary_hash}
use tkrzw.HashDbm.Record.{HashRecord, OperationType, op_void, op_set, op_remove, op_add, broken}
use tkrzw.HashDbm.Table.{
  HashDbm, Run, get_bucket_value, walk, failed, absent, endless, found, seen_value,
  call_record_process_full, call_record_process_empty,
}
use tkrzw.HashDbm.Update.{unchanged, change_record, add_record}

-- A status, the database and the state of the processor.
pub record Processed (F S : Type 0) : Type 0 where
  pub status : Status
  pub db : HashDbm F
  pub state : S

abbrev pub holds_value : OperationType → Bool
holds_value op_void = false
holds_value op_set = true
holds_value op_remove = false
holds_value op_add = true

abbrev pub bucket_of : {F : Type 0} → HashDbm F → Bytes → ℕ
bucket_of db key = primary_hash key db.num_buckets

abbrev pub status_in : {A : Type 0} → Result Status A → Status
status_in (ok a) = status_of success
status_in (err e) = e

abbrev pub finished : {F S : Type 0} → S → Result Status (Unit {0}) × HashDbm F → Processed F S
finished s (r, db) = record { status = status_in r; db = db; state = s }

-- What is done about the answer of a processor, with the step for a new value and that for a removal.
unfoldable pub act_on :
    {F S : Type 0}
    → Bool
    → (Option Bytes → Run F (Unit {0}))
    → HashDbm F
    → S × Option Action
    → Processed F S
act_on writable step db (s, none) = record { status = broken; db = db; state = s }
act_on writable step db (s, some noop) = finished s (ok tt, db)
act_on writable step db (s, some remove) =
    finished s (if writable then step none db else (ok tt, db))
act_on writable step db (s, some (put v)) =
    finished s (if writable then step (some v) db else (ok tt, db))

module _ {F S : Type 0} (file : File F) (p : Processor S) (key : Bytes) (bucket_index : ℕ) where
  -- The record was found.
  unfoldable pub process_found :
      HashDbm F → S → Bool → Bool → ℕ → HashRecord → ℕ → ℕ → Processed F S
  process_found db s readable writable top rec current parent =
      let is_set = holds_value rec.operation in
      let step = change_record file bucket_index key is_set rec top parent current in
      if is_set
      then elim (seen_value file db readable rec) [
        | err e ↦ record { status = e; db = db; state = s }
        | ok old_value ↦
            act_on writable step db (call_record_process_full p s key old_value db.compressor)
      ]
      else act_on writable step db (call_record_process_empty p s key db.compressor)

  -- A record is made for a new value.
  abbrev pub add_given : ℕ → Option Bytes → Run F (Unit {0})
  add_given top none = unchanged
  add_given top (some v) = add_record file bucket_index key top v

  -- No record was found.
  unfoldable pub process_absent : HashDbm F → S → Bool → ℕ → Processed F S
  process_absent db s writable top =
      act_on writable (add_given top) db (call_record_process_empty p s key db.compressor)

  unfoldable pub process_impl : ℕ → HashDbm F → S → Bool → Bool → Option (Processed F S)
  process_impl fuel db s readable writable = elim (get_bucket_value file db bucket_index) [
    | err e ↦ some (record { status = e; db = db; state = s })
    | ok top ↦ elim (walk file fuel db key readable 0 top) [
      | failed e ↦ some (record { status = e; db = db; state = s })
      | absent ↦ some (process_absent db s writable top)
      | endless ↦ none
      | found rec current parent ↦
          some (process_found db s readable writable top rec current parent)
    ]
  ]

-- The guards at the start of the methods.
abbrev pub is_refused : {F : Type 0} → HashDbm F → Bool → Bool
is_refused db writable =
    if db.is_open then writable && (not db.writable || not db.healthy) else true

abbrev pub refused : {F S : Type 0} → HashDbm F → S → Processed F S
refused db s = record { status = status_of precondition_error; db = db; state = s }

unfoldable pub process :
    {F S : Type 0}
    → File F
    → ℕ
    → HashDbm F
    → Bytes
    → Processor S
    → S
    → Bool
    → Bool
    → Option (Processed F S)
process file fuel db key p s readable writable =
    if is_refused db writable
    then some (refused db s)
    else process_impl file p key (bucket_of db key) fuel db s readable writable

-- The loop of `ProcessMulti` stops at the first error.
unfoldable pub process_all :
    {F S : Type 0}
    → File F
    → ℕ
    → HashDbm F
    → List (Bytes × Processor S)
    → S
    → Bool
    → Option (Processed F S)
process_all file fuel db [] s writable = some (finished s (ok tt, db))
process_all file fuel db ((key, p) ∷ rest) s writable =
    elim (process_impl file p key (bucket_of db key) fuel db s true writable) [
      | none ↦ none
      | some r ↦
          (let later = process_all file fuel r.db rest r.state writable in
            if is_success r.status then later else some r)
    ]

unfoldable pub process_multi :
    {F S : Type 0}
    → File F
    → ℕ
    → HashDbm F
    → List (Bytes × Processor S)
    → S
    → Bool
    → Option (Processed F S)
process_multi file fuel db pairs s writable =
    if is_refused db writable
    then some (refused db s)
    else process_all file fuel db pairs s writable
