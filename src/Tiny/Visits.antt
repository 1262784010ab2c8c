-- ===== src/Tiny/Visits.antt =====
-- The keys that an iterator of `TinyDBM` goes through while the table does not change.
use mathlib.Core.Path.{subst}
use tkrzw.Base.{
  true, false, if◌then◌else◌, ℕ, zero, suc, ◌+◌, ◌-◌, ◌≡◌, refl, sym, Bytes, List, [], ◌∷◌, ◌++◌,
  Option, none, some, arith, get_or,
}
use tkrzw.Status.{Status, status_of, success, not_found_error, is_success}
use tkrzw.Tiny.Table.{Iter, TinyDbm}
use tkrzw.Tiny.Iterator.{
  chain_keys, read_buckets, read_next_bucket_records, read_keys, first, next, is_empty, need_keys,
  erase_first,
}

-- The keys of the given number of buckets from an index on.
abbrev pub keys_from : TinyDbm → ℕ → ℕ → List Bytes
keys_from db zero bucket_index = []
keys_from db (suc more) bucket_index =
    chain_keys (get_or db.buckets bucket_index []) ++ keys_from db more (bucket_index + 1)

abbrev pub all_keys : TinyDbm → List Bytes
all_keys db = keys_from db db.num_buckets 0

-- The keys still to come: those read and those of the buckets not yet read. A cancelled iterator has
-- none.
abbrev pub remaining : TinyDbm → Iter → List Bytes
remaining db it = elim (it.bucket_index) [
  | none ↦ []
  | some bucket_index ↦ it.keys ++ keys_from db (db.num_buckets - bucket_index) bucket_index
]

-- The outcome of a step that uses up the first of the keys to come.
abbrev pub Steps : TinyDbm → List Bytes → Status × Iter → Type 0
Steps db [] (status, it) = status ≡ status_of not_found_error
Steps db (key ∷ keys) (status, it) = (status ≡ status_of success) × (remaining db it ≡ keys)

-- The outcome of reading keys: the first key to come is at hand.
abbrev Readies : TinyDbm → List Bytes → Status × Iter → Type 0
Readies db [] (status, it) = status ≡ status_of not_found_error
Readies db (key ∷ keys) (status, it) =
    (status ≡ status_of success)
    × (rest : List Bytes) × (it.keys ≡ key ∷ rest)
    × (remaining db it ≡ key ∷ keys)

read_bucket-Readies :
    (db : TinyDbm) (more next_index : ℕ) (keys : List Bytes) (r : Status × Iter)
    → db.num_buckets - next_index ≡ more
    → (keys ≡ [] → Readies db (keys_from db more next_index) r)
    → Readies db (keys ++ keys_from db more next_index) (elim (is_empty keys) [
      | true ↦ r
      | false ↦ (status_of success, record { bucket_index = some next_index; keys = keys })
    ])
read_bucket-Readies db more next_index [] r h rest = rest refl
read_bucket-Readies db more next_index (key ∷ keys) r h rest = (refl, keys, refl, rw h refl)

read_buckets-Readies :
    (db : TinyDbm) (more bucket_index : ℕ)
    → db.num_buckets - bucket_index ≡ more
    → Readies db (keys_from db more bucket_index) (read_buckets db more bucket_index [])
unfolding read_buckets
read_buckets-Readies db zero bucket_index h = refl
read_buckets-Readies db (suc more) bucket_index h =
    let keys = chain_keys (get_or db.buckets bucket_index []) in
    let h' : db.num_buckets - (bucket_index + 1) ≡ more = omega arith in
    read_bucket-Readies db more (bucket_index + 1) keys
      (read_buckets db more (bucket_index + 1) keys) h'
      (λ e. rw e (read_buckets-Readies db more (bucket_index + 1) h'))

at_hand_left :
    (db : TinyDbm) (it : Iter) (keys left : List Bytes)
    → it.keys ≡ keys
    → remaining db it ≡ left
    → remaining db (record { bucket_index = it.bucket_index; keys = keys }) ≡ left
at_hand_left db it keys left e h =
    subst (λ ks. remaining db (record { bucket_index = it.bucket_index; keys = ks }) ≡ left) e h

need_keys-Readies :
    (db : TinyDbm) (keys : List Bytes) (r : Status × Iter)
    → Readies db keys r
    → Readies db keys (need_keys r)
need_keys-Readies db [] (st, it) h = rw h refl
need_keys-Readies db (key ∷ keys) (st, it) (ok, rest, at_hand, left) =
    rw (ok, at_hand) (refl, rest, refl, at_hand_left db it (key ∷ rest) (key ∷ keys) at_hand left)

ready :
    (db : TinyDbm) (bucket_index : Option ℕ) (keys : List Bytes)
    → Readies db
        (remaining db (record { bucket_index = bucket_index; keys = keys }))
        (read_keys db (record { bucket_index = bucket_index; keys = keys }))
unfolding read_keys read_next_bucket_records
ready db none keys = refl
ready db (some i) [] =
    need_keys-Readies db (keys_from db (db.num_buckets - i) i)
      (read_buckets db (db.num_buckets - i) i [])
      (read_buckets-Readies db (db.num_buckets - i) i refl)
ready db (some i) (key ∷ keys) = (refl, keys, refl, refl)

-- The step after the keys were read.
abbrev after_keys : Status × Iter → Status × Iter
after_keys (st, it) =
    if is_success st
    then (status_of success, record it { keys = erase_first it.keys })
    else (st, it)

erase-remaining :
    (db : TinyDbm) (bucket_index : Option ℕ) (k key : Bytes) (rest keys : List Bytes)
    → remaining db (record { bucket_index = bucket_index; keys = k ∷ rest }) ≡ key ∷ keys
    → remaining db (record { bucket_index = bucket_index; keys = rest }) ≡ keys
erase-remaining db none k key rest keys h = cc
erase-remaining db (some i) k key rest keys h = cc

after_keys-Steps :
    (db : TinyDbm) (keys : List Bytes) (r : Status × Iter)
    → Readies db keys r
    → Steps db keys (after_keys r)
after_keys-Steps db [] (st, it) h = rw h refl
after_keys-Steps db (key ∷ keys) (st, it) (ok, rest, at_hand, left) = rw ok (
  refl,
  subst
      (λ ks. remaining db (record { bucket_index = it.bucket_index; keys = erase_first ks }) ≡ keys)
      (sym at_hand)
      (erase-remaining db it.bucket_index key key rest keys
        (at_hand_left db it (key ∷ rest) (key ∷ keys) at_hand left)),
)

-- While the table does not change, `Next` goes to the next of the keys still to come, and reports that
-- none is found exactly when there is none.
pub next-Steps : (db : TinyDbm) (it : Iter) → Steps db (remaining db it) (next db it)
unfolding next
next-Steps db it =
    after_keys-Steps db (remaining db it) (read_keys db it) (ready db it.bucket_index it.keys)

-- From `First` on, all keys of all buckets are to come.
pub remaining-first : (db : TinyDbm) (it : Iter) → remaining db (first it).1 ≡ all_keys db
unfolding first
remaining-first db it = let e : db.num_buckets - 0 ≡ db.num_buckets = omega arith in rw e refl
