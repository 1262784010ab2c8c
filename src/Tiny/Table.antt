-- ===== src/Tiny/Table.antt =====
-- The state of `TinyDBMImpl` (tkrzw_dbm_tiny.cc) and the methods on single records. The locks are
-- left out: a method runs alone.
use tkrzw.Base.{
  ℕ, ◌+◌, ◌-◌, Bytes, List, [], ◌∷◌, if◌then◌else◌, Option, none, some, Bool, true, false, eqb,
  length, get_or, set,
}
use tkrzw.Status.{Status, status_of, success}
use tkrzw.Dbm.Processor.{Action, noop, remove, put, Processor}
use tkrzw.Dbm.Interface.{Done}
use tkrzw.Hash.{primary_hash}
use tkrzw.Tiny.Record.{Block, TinyRecord, serialize, deserialize, reserialize, reserialize_append}

-- The blocks that hang on a bucket, the top first.
abbrev pub Chain : Type 0
Chain = List Block

-- An iterator: the next bucket to read, `none` for the -1 of a cancelled one, and the keys read.
pub record Iter : Type 0 where
  pub bucket_index : Option ℕ
  pub keys : List Bytes

pub record TinyDbm : Type 0 where
  pub is_open : Bool
  pub writable : Bool
  pub path : Bytes
  pub num_records : ℕ
  pub num_buckets : ℕ
  pub buckets : List Chain
  pub iterators : List Iter

-- `record_mutex_.GetBucketIndex(key)`.
abbrev pub bucket_of : TinyDbm → Bytes → ℕ
bucket_of db key = primary_hash key db.num_buckets

-- What becomes of the found record, whose block is `ptr`.
unfoldable pub process_hit : Bool → Action → TinyRecord → Block → Chain → Chain
process_hit false new_value r ptr child = ptr ∷ child
process_hit true noop r ptr child = ptr ∷ child
process_hit true remove r ptr child = child
process_hit true (put v) r ptr child =
    reserialize (record r { value = v }) ptr (length r.value) ∷ child

abbrev pub is_removal : Bool → Action → Bool
is_removal true remove = true
is_removal _ _ = false

abbrev pub prepend : {S : Type 0} → Block → Option (S × Chain × Bool) → Option (S × Chain × Bool)
prepend ptr none = none
prepend ptr (some (s, chain, removed)) = some (s, ptr ∷ chain, removed)

-- The loop of `ProcessImpl` from a record on: the state of the processor, the chain from there on,
-- and whether the record was removed. `none` if the key is not found.
unfoldable pub process_walk :
    {S : Type 0} → Processor S → S → Bytes → Bool → Chain → Option (S × Chain × Bool)
process_walk p s key writable [] = none
process_walk p s key writable (ptr ∷ child) =
    let r = deserialize ptr in
    let further = process_walk p s key writable child in
    let answer = p.process_full s key r.value in
    if eqb key r.key
    then some (answer.0, process_hit writable answer.1 r ptr child, is_removal writable answer.1)
    else prepend ptr further

-- The new record at the top of its bucket.
unfoldable pub process_miss : Bool → Action → TinyDbm → Bytes → ℕ → TinyDbm
process_miss true (put v) db key bucket_index = record db {
  buckets =
      set db.buckets bucket_index
        (serialize (record { key = key; value = v }) ∷ get_or db.buckets bucket_index []);
  num_records = db.num_records + 1;
}
process_miss _ _ db key bucket_index = db

unfoldable pub process_impl :
    {S : Type 0} → TinyDbm → Bytes → ℕ → Processor S → S → Bool → S × TinyDbm
process_impl db key bucket_index p s writable =
    elim (process_walk p s key writable (get_or db.buckets bucket_index [])) [
      | some (s', chain, removed) ↦ (
        s',
        record db {
          buckets = set db.buckets bucket_index chain;
          num_records = if removed then db.num_records - 1 else db.num_records;
        },
      )
      | none ↦
          let answer = p.process_empty s key in
          (answer.0, process_miss writable answer.1 db key bucket_index)
    ]

-- `TinyDBMImpl::Process`.
unfoldable pub process : (S : Type 0) → TinyDbm → Bytes → Processor S → S → Bool → Done TinyDbm S
process S db key p s writable =
    let r = process_impl db key (bucket_of db key) p s writable in
    record { status = status_of success; db = r.1; state = r.0 }

-- `TinyDBMImpl::ProcessMulti`: the bucket indices are taken before the first record is processed.
unfoldable pub process_all :
    {S : Type 0} → TinyDbm → ℕ → List (Bytes × Processor S) → S → Bool → S × TinyDbm
process_all db num_buckets [] s writable = (s, db)
process_all db num_buckets ((key, p) ∷ rest) s writable =
    let r = process_impl db key (primary_hash key num_buckets) p s writable in
    process_all r.1 num_buckets rest r.0 writable

unfoldable pub process_multi :
    (S : Type 0) → TinyDbm → List (Bytes × Processor S) → S → Bool → Done TinyDbm S
process_multi S db pairs s writable =
    let r = process_all db db.num_buckets pairs s writable in
    record { status = status_of success; db = r.1; state = r.0 }

-- The loop of `AppendImpl`.
unfoldable pub append_walk : Bytes → Bytes → Bytes → Chain → Option Chain
append_walk key value delim [] = none
append_walk key value delim (ptr ∷ child) =
    let r = deserialize ptr in
    let further = append_walk key value delim child in
    if eqb key r.key
    then some (reserialize_append r ptr value delim ∷ child)
    else elim further [ none ↦ none | some chain ↦ some (ptr ∷ chain) ]

unfoldable pub append_impl : TinyDbm → Bytes → ℕ → Bytes → Bytes → TinyDbm
append_impl db key bucket_index value delim =
    let top = get_or db.buckets bucket_index [] in
    elim (append_walk key value delim top) [
      | some chain ↦ record db { buckets = set db.buckets bucket_index chain }
      | none ↦ record db {
        buckets =
            set db.buckets bucket_index (serialize (record { key = key; value = value }) ∷ top);
        num_records = db.num_records + 1;
      }
    ]

-- `TinyDBMImpl::Append`, which takes the place of the method that `DBM` builds on `Process`.
unfoldable pub append : TinyDbm → Bytes → Bytes → Bytes → Status × TinyDbm
append db key value delim = (status_of success, append_impl db key (bucket_of db key) value delim)
