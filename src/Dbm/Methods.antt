-- ===== src/Dbm/Methods.antt =====
-- The methods of `DBM` (tkrzw_dbm.h) that are written once for all databases, on top of `Process`
-- and `ProcessMulti`.
use tkrzw.Base.{
  ◌++◌, ◌||◌, eqb, ℕ, Bytes, List, [], ◌∷◌, Option, Bool, true, false, not, ◌==◌, if◌then◌else◌,
  some, none,
}
use tkrzw.Status.{
  Status, is_success, status_of, is_code, merge, success, infeasible_error, not_found_error,
  duplication_error,
}
use tkrzw.Dbm.Processor.{
  Processor, Report, report_to, get_processor, set_processor, remove_processor, append_processor,
  compare_exchange_processor, checker_processor, setter_processor, increment_processor, int64_min,
}
use tkrzw.Dbm.Interface.{Dbm, Done}

-- What a method returns, the database after it, and what it wrote to the caller's pointer.
pub record Outcome (D : Type 0) : Type 0 where
  pub status : Status
  pub db : D
  pub out : Option Bytes

-- `if (status != Status::SUCCESS) return status; return impl_status;`
abbrev outcome : {D : Type 0} → Done D Report → Outcome D
outcome r = record {
  status = if is_success r.status then r.state.status else r.status;
  db = r.db;
  out = r.state.out;
}

-- The two loops that fill `key_proc_pairs`.
unfoldable pub checkers : List (Bytes × Option Bytes) → List (Bytes × Processor Bool)
checkers [] = []
checkers ((key, value) ∷ rest) = (key, checker_processor value) ∷ checkers rest

unfoldable pub setters : List (Bytes × Option Bytes) → List (Bytes × Processor Bool)
setters [] = []
setters ((key, value) ∷ rest) = (key, setter_processor value) ∷ setters rest

-- `std::map::emplace`, which leaves a key that is there as it is. The records stand in the order in
-- which they came.
unfoldable pub emplace : Bytes → Option Bytes → List (Bytes × Bytes) → List (Bytes × Bytes)
emplace key none records = records
emplace key (some value) [] = (key, value) ∷ []
emplace key (some value) ((k, v) ∷ rest) =
    if eqb k key then (k, v) ∷ rest else (k, v) ∷ emplace key (some value) rest

module _ {D : Type 0} (dbm : Dbm D) where
  unfoldable pub get : D → Bytes → Option Bytes → Outcome D
  unfolding get_processor
  get d key out = outcome (dbm.process Report d key get_processor (report_to out) false)

  unfoldable pub set : D → Bytes → Bytes → Bool → Option Bytes → Outcome D
  unfolding set_processor
  set d key value overwrite out =
      outcome (dbm.process Report d key (set_processor value overwrite) (report_to out) true)

  unfoldable pub remove : D → Bytes → Option Bytes → Outcome D
  unfolding remove_processor
  remove d key out = outcome (dbm.process Report d key remove_processor (report_to out) true)

  unfoldable pub append : D → Bytes → Bytes → Bytes → Status × D
  unfolding append_processor
  append d key value delim =
      let r = dbm.process (Unit {0}) d key (append_processor value delim) tt true in
      (r.status, r.db)

  unfoldable pub compare_exchange :
      D → Bytes → Option Bytes → Option Bytes → Option Bytes → Outcome D
  unfolding compare_exchange_processor
  compare_exchange d key expected desired out =
      outcome (
        dbm.process Report d key (compare_exchange_processor expected desired) (report_to out) true)

  unfoldable pub increment : D → Bytes → ℕ → Option ℕ → ℕ → Done D (Option ℕ)
  unfolding increment_processor
  increment d key inc current initial =
      dbm.process (Option ℕ) d key (increment_processor inc initial) current
        (not (inc == int64_min))

  -- The flag is shared by all checkers and setters.
  unfoldable pub compare_exchange_multi :
      D → List (Bytes × Option Bytes) → List (Bytes × Option Bytes) → Status × D
  unfolding checkers setters
  compare_exchange_multi d expected desired =
      let r = dbm.process_multi Bool d (checkers expected ++ setters desired) false true in
      if is_success r.status
      then (if r.state then status_of infeasible_error else status_of success, r.db)
      else (r.status, r.db)

  -- `records->emplace` keeps the first value of a key; what is missing is told by the status.
  unfoldable pub get_multi :
      D → List Bytes → Status → List (Bytes × Bytes) → Status × D × List (Bytes × Bytes)
  unfolding get
  get_multi d [] status records = (status, d, records)
  get_multi d (key ∷ keys) status records =
      let r = get d key (some []) in
      get_multi r.db keys (if is_success r.status then status else merge status r.status)
        (if is_success r.status then emplace key r.out records else records)

  -- The loops of `SetMulti`, `RemoveMulti` and `AppendMulti`, with their `break`.
  unfoldable pub set_multi : D → List (Bytes × Bytes) → Bool → Status → Status × D
  unfolding set
  set_multi d [] overwrite status = (status, d)
  set_multi d ((key, value) ∷ rest) overwrite status =
      let r = set d key value overwrite none in
      let status' = merge status r.status in
      let more = set_multi r.db rest overwrite status' in
      if is_success status' || is_code duplication_error status' then more else (status', r.db)

  unfoldable pub remove_multi : D → List Bytes → Status → Status × D
  unfolding remove
  remove_multi d [] status = (status, d)
  remove_multi d (key ∷ rest) status =
      let r = remove d key none in
      let status' = merge status r.status in
      let more = remove_multi r.db rest status' in
      if is_success status' || is_code not_found_error status' then more else (status', r.db)

  unfoldable pub append_multi : D → List (Bytes × Bytes) → Bytes → Status → Status × D
  unfolding append
  append_multi d [] delim status = (status, d)
  append_multi d ((key, value) ∷ rest) delim status =
      let r = append d key value delim in
      let status' = merge status r.0 in
      let more = append_multi r.1 rest delim status' in
      if is_success status' then more else (status', r.1)
