-- ===== src/Tiny/Iterator.antt =====
-- `TinyDBMIteratorImpl` and `TinyDBMImpl::ReadNextBucketRecords` (tkrzw_dbm_tiny.cc).
use tkrzw.Base.{
  ℕ, zero, suc, ◌+◌, ◌-◌, Bytes, List, [], ◌∷◌, ◌++◌, if◌then◌else◌, Option, none, some, Bool, true,
  false, eqb, get_or,
}
use tkrzw.Status.{Status, status_of, success, not_found_error, is_success}
use tkrzw.Dbm.Processor.{Action, noop, remove, Processor}
use tkrzw.Tiny.Record.{deserialize}
use tkrzw.Tiny.Table.{Chain, Iter, TinyDbm, bucket_of, process_impl}

-- The constructor.
abbrev pub new_iterator : Iter
new_iterator = record { bucket_index = none; keys = [] }

unfoldable pub chain_keys : Chain → List Bytes
chain_keys [] = []
chain_keys (ptr ∷ child) = (deserialize ptr).key ∷ chain_keys child

abbrev pub is_empty : List Bytes → Bool
is_empty [] = true
is_empty (key ∷ keys) = false

-- The loop of `ReadNextBucketRecords`, with the number of buckets from the index on.
unfoldable pub read_buckets : TinyDbm → ℕ → ℕ → List Bytes → Status × Iter
read_buckets db zero bucket_index keys =
    (status_of not_found_error, record { bucket_index = none; keys = keys })
read_buckets db (suc more) bucket_index keys =
    let keys' = keys ++ chain_keys (get_or db.buckets bucket_index []) in
    elim (is_empty keys') [
      | true ↦ read_buckets db more (bucket_index + 1) keys'
      | false ↦ (status_of success, record { bucket_index = some (bucket_index + 1); keys = keys' })
    ]

unfoldable pub read_next_bucket_records : TinyDbm → Iter → Status × Iter
read_next_bucket_records db it = elim (it.bucket_index) [
  | none ↦ (status_of not_found_error, it)
  | some bucket_index ↦ read_buckets db (db.num_buckets - bucket_index) bucket_index it.keys
]

-- What `ReadKeys` does with the outcome.
abbrev pub need_keys : Status × Iter → Status × Iter
need_keys (status, it) =
    if is_success status
    then (if is_empty it.keys then (status_of not_found_error, it) else (status_of success, it))
    else (status, it)

-- `TinyDBMIteratorImpl::ReadKeys`.
unfoldable pub read_keys : TinyDbm → Iter → Status × Iter
read_keys db it = elim (it.bucket_index) [
  | none ↦ (status_of not_found_error, it)
  | some bucket_index ↦
      if is_empty it.keys
      then need_keys (read_next_bucket_records db it)
      else (status_of success, it)
]

-- `TinyDBMIteratorImpl::First`.
unfoldable pub first : Iter → Status × Iter
first it = (status_of success, record { bucket_index = some 0; keys = [] })

-- `std::find`: the keys from the first one that is equal on.
unfoldable pub find_key : Bytes → List Bytes → List Bytes
find_key key [] = []
find_key key (k ∷ keys) = let further = find_key key keys in if eqb k key then k ∷ keys else further

-- `TinyDBMIteratorImpl::Jump`.
unfoldable pub jump : TinyDbm → Iter → Bytes → Status × Iter
jump db it key =
    let r =
      read_next_bucket_records db (record { bucket_index = some (bucket_of db key); keys = [] }) in
    let found = find_key key r.1.keys in
    if is_success r.0
    then (if is_empty found
        then (status_of not_found_error, record { bucket_index = none; keys = [] })
        else (status_of success, record r.1 { keys = found }))
    else r

abbrev pub erase_first : List Bytes → List Bytes
erase_first [] = []
erase_first (key ∷ keys) = keys

-- `TinyDBMIteratorImpl::Next`.
unfoldable pub next : TinyDbm → Iter → Status × Iter
next db it =
    let r = read_keys db it in
    if is_success r.0 then (status_of success, record r.1 { keys = erase_first r.1.keys }) else r

-- `ProcWrapper`, which keeps the answer; `none` is the null view.
unfoldable pub wrap_processor : {S : Type 0} → Processor S → Processor (S × Option Action)
wrap_processor p = record {
  process_full = λ s key value.
      let answer = p.process_full s.0 key value in ((answer.0, some answer.1), answer.1);
  process_empty = λ s key. (s, noop);
}

pub record IterDone (S : Type 0) : Type 0 where
  pub status : Status
  pub state : S
  pub db : TinyDbm
  pub iter : Iter

abbrev pub after_answer : Option Action → Iter → Status × Iter
after_answer none it = (status_of not_found_error, it)
after_answer (some remove) it = (status_of success, record it { keys = erase_first it.keys })
after_answer (some _) it = (status_of success, it)

-- The part of `Process` that has a first key.
unfoldable pub process_first :
    (S : Type 0) → TinyDbm → Iter → List Bytes → Processor S → S → Bool → IterDone S
process_first S db it [] p s writable = record {
  status = status_of not_found_error;
  state = s;
  db = db;
  iter = it;
}
process_first S db it (first_key ∷ keys) p s writable =
    let r =
      process_impl db first_key (bucket_of db first_key) (wrap_processor p) (s, none) writable in
    let after = after_answer r.0.1 it in
    record { status = after.0; state = r.0.0; db = r.1; iter = after.1 }

-- `TinyDBMIteratorImpl::Process`.
unfoldable pub process_at : (S : Type 0) → TinyDbm → Iter → Processor S → S → Bool → IterDone S
process_at S db it p s writable =
    let r = read_keys db it in
    if is_success r.0
    then process_first S db r.1 r.1.keys p s writable
    else record { status = r.0; state = s; db = db; iter = r.1 }
