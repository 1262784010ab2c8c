-- ===== src/Tiny/Whole.antt =====
-- The methods of `TinyDBMImpl` (tkrzw_dbm_tiny.cc) on the whole table, and the number of its buckets
-- (`GetHashBucketSize`, tkrzw_dbm_common_impl.cc).
use tkrzw.Base.{
  ℕ, zero, suc, ◌+◌, ◌-◌, ◌*◌, ◌%◌, ◌^◌, ◌==◌, min, Bytes, List, [], ◌∷◌, if◌then◌else◌, none, Bool,
  true, false, ltb, leb, get_or, set, replicate,
}
use tkrzw.Status.{Status, status_of, success}
use tkrzw.Dbm.Processor.{Processor}
use tkrzw.Dbm.Interface.{Done}
use tkrzw.Hash.{primary_hash}
use tkrzw.Tiny.Record.{deserialize}
use tkrzw.Tiny.Table.{Chain, Iter, TinyDbm, process_impl}

abbrev pub int64_max : ℕ
int64_max = 2 ^ 63 - 1

abbrev pub max_num_buckets : ℕ
max_num_buckets = 1099511627689

abbrev pub default_num_buckets : ℕ
default_num_buckets = 1048583

-- The loop of `IsPrimeNumber` from the divisor `d` on; the fuel is the last divisor.
unfoldable pub has_no_divisor : ℕ → ℕ → ℕ → ℕ → Bool
has_no_divisor zero num sq d = true
has_no_divisor (suc fuel) num sq d = elim (leb d sq) [
  | true ↦ elim (num % d == 0) [ true ↦ false | false ↦ has_no_divisor fuel num sq (d + 2) ]
  | false ↦ true
]

-- The numbers of buckets, with the `std::sqrt` of the C++ library.
module _ (sqrt : ℕ → ℕ) where
  unfoldable pub is_prime_number : ℕ → Bool
  is_prime_number num =
      if ltb num 2
      then false
      else if num == 2
      then true
      else if num % 2 == 0
      then false
      else has_no_divisor (sqrt num) num (sqrt num) 3

  -- The loop of `GetHashBucketSize`; the fuel is the distance to the greatest number.
  unfoldable pub find_prime : ℕ → ℕ → ℕ → ℕ
  find_prime zero min_size num = min_size
  find_prime (suc fuel) min_size num = elim (is_prime_number num) [
    | true ↦ num
    | false ↦ find_prime fuel min_size (num + 1)
  ]

  unfoldable pub get_hash_bucket_size : ℕ → ℕ
  get_hash_bucket_size min_size = elim (leb min_size 100) [
    | true ↦ if ltb min_size 1 then 1 else min_size
    | false ↦ find_prime (int64_max - min_size) min_size min_size
  ]

  -- The constructor; 0 stands for all that is not positive.
  unfoldable pub new_table : ℕ → TinyDbm
  new_table num_buckets =
      let n : ℕ = elim (ltb 0 num_buckets) [
        | true ↦ get_hash_bucket_size (min num_buckets max_num_buckets)
        | false ↦ default_num_buckets
      ] in
      record {
        is_open = false;
        writable = false;
        path = [];
        num_records = 0;
        num_buckets = n;
        buckets = replicate n [];
        iterators = [];
      }

-- `CancelIterators`.
unfoldable pub cancel_iterators : List Iter → List Iter
cancel_iterators [] = []
cancel_iterators (it ∷ its) = record it { bucket_index = none } ∷ cancel_iterators its

-- `InitializeBuckets`; the record mutex takes the same number of buckets.
abbrev pub initialize_buckets : ℕ → List Chain
initialize_buckets num_buckets = replicate num_buckets []

-- `TinyDBMImpl::Clear`.
unfoldable pub clear : TinyDbm → Status × TinyDbm
clear db = (
  status_of success,
  record db {
    buckets = initialize_buckets db.num_buckets;
    iterators = cancel_iterators db.iterators;
    num_records = 0;
  },
)

-- The inner loop of `Rebuild`: the blocks of an old chain go to the top of their new chains.
unfoldable pub move_chain : ℕ → Chain → List Chain → List Chain
move_chain n [] buckets = buckets
move_chain n (ptr ∷ child) buckets =
    let bucket_index = primary_hash (deserialize ptr).key n in
    move_chain n child (set buckets bucket_index (ptr ∷ get_or buckets bucket_index []))

unfoldable pub move_chains : ℕ → List Chain → List Chain → List Chain
move_chains n [] buckets = buckets
move_chains n (chain ∷ chains) buckets = move_chains n chains (move_chain n chain buckets)

abbrev pub rebuild_to : TinyDbm → ℕ → TinyDbm
rebuild_to db n = record db {
  num_buckets = n;
  buckets = move_chains n db.buckets (initialize_buckets n);
  iterators = cancel_iterators db.iterators;
}

-- `TinyDBMImpl::Rebuild`; 0 stands for all that is not positive.
unfoldable pub rebuild : (ℕ → ℕ) → TinyDbm → ℕ → Status × TinyDbm
rebuild sqrt db num_buckets =
    let wanted = if ltb 0 num_buckets then num_buckets else db.num_records * 2 + 1 in
    (status_of success, rebuild_to db (get_hash_bucket_size sqrt (min wanted max_num_buckets)))

-- `TinyDBMImpl::ShouldBeRebuilt`.
unfoldable pub should_be_rebuilt : TinyDbm → Status × Bool
should_be_rebuilt db = (status_of success, ltb db.num_buckets db.num_records)

-- `TinyDBMImpl::Count`.
unfoldable pub count : TinyDbm → Status × ℕ
count db = (status_of success, db.num_records)

-- The bytes of `DBM::RecordProcessor::NOOP`, which the first and the last call have for a key.
abbrev pub noop_key : Bytes
noop_key = 0x00 ∷ 0xBE ∷ 0xEF ∷ 0x02 ∷ 0x11 ∷ []

module _ {S : Type 0} (p : Processor S) where
  -- The records of a chain in order, for a writable call. `ProcessImpl` on one record leaves the
  -- blocks of the records behind it, so the walk is along the chain as it was.
  unfoldable pub process_chain : ℕ → Chain → S → TinyDbm → S × TinyDbm
  process_chain bucket_index [] s db = (s, db)
  process_chain bucket_index (ptr ∷ child) s db =
      let r = process_impl db (deserialize ptr).key bucket_index p s true in
      process_chain bucket_index child r.0 r.1

  unfoldable pub process_chains : ℕ → ℕ → S → TinyDbm → S × TinyDbm
  process_chains zero bucket_index s db = (s, db)
  process_chains (suc more) bucket_index s db =
      let r = process_chain bucket_index (get_or db.buckets bucket_index []) s db in
      process_chains more (bucket_index + 1) r.0 r.1

  -- The same for a call that is not writable, where the answers are dropped.
  unfoldable pub show_chain : Chain → S → S
  show_chain [] s = s
  show_chain (ptr ∷ child) s =
      show_chain child (p.process_full s (deserialize ptr).key (deserialize ptr).value).0

  unfoldable pub show_chains : List Chain → S → S
  show_chains [] s = s
  show_chains (chain ∷ chains) s = show_chains chains (show_chain chain s)

-- `TinyDBMImpl::ProcessEach`.
unfoldable pub process_each : (S : Type 0) → TinyDbm → Processor S → S → Bool → Done TinyDbm S
process_each S db p s writable =
    let s1 = (p.process_empty s noop_key).0 in
    let r =
      if writable
      then process_chains p db.num_buckets 0 s1 db
      else (show_chains p db.buckets s1, db) in
    record { status = status_of success; db = r.1; state = (p.process_empty r.0 noop_key).0 }
