-- ===== src/Tiny/Process.antt =====
-- `TinyDBM` keeps the promises of Dbm/Interface.antt: `Process` and `ProcessMulti` act on the map that
-- the table holds as the processors say.
use mathlib.Core.Path.{subst}
use tkrzw.Base.{
  ℕ, ◌+◌, ◌-◌, ◌<◌, ◌≤◌, Bytes, [], ◌∷◌, if◌then◌else◌, none, some, Bool, true, false, eqb, eqb_iff,
  eqb_comm, length, get_or, set, ◌≡◌, refl, sym, ap, ◌∙◌, arith, Bool-cases, Option-cases, inl, inr,
  length-set,
}
use tkrzw.Dbm.Processor.{Action, noop, remove, put, Processor}
use tkrzw.Dbm.Interface.{update, call, after_call, apply_action, ActionFits}
use tkrzw.Hash.{primary_hash-lt}
use tkrzw.Tiny.Record.{TinyRecord, serialize, deserialize}
use tkrzw.Tiny.Layout.{FitsBlock, deserialize-Holds, serialize-Holds}
use tkrzw.Tiny.Table.{
  Chain, TinyDbm, bucket_of, is_removal, process_walk, process_miss, process_impl, process_hit,
}
use tkrzw.Tiny.Chains.{
  lookup_chain, IsChain, IsRecord-of_Holds, process_walk_miss, process_walk_hit,
}
use tkrzw.Tiny.Buckets.{lookup, IsValid, IsTable-get, IsTable-set, total-set, lookup_table-set}

-- A valid table after the chain of a bucket was exchanged, with what the count gained and lost.
pub exchange-IsValid :
    (db : TinyDbm) (key : Bytes) (chain : Chain) (count : ℕ)
    → IsValid db
    → IsChain (bucket_of db key) db.num_buckets chain
    → count + length (get_or db.buckets (bucket_of db key) []) ≡ db.num_records + length chain
    → IsValid (record db { buckets = set db.buckets (bucket_of db key) chain; num_records = count })
exchange-IsValid db key chain count v c e =
    let i = bucket_of db key in
    let inside : i < length db.buckets =
      omega (arith, primary_hash-lt key db.num_buckets v.positive, v.sized) in
    record {
      positive = v.positive;
      sized = length-set db.buckets i chain ∙ v.sized;
      table = IsTable-set db.num_buckets 0 i i db.buckets chain v.table (omega arith) c;
      counted = omega (arith, total-set i db.buckets chain inside, v.counted, e);
    }

-- A new record at the top of the chain of its bucket.
pub serialize-IsChain :
    (db : TinyDbm) (key value : Bytes)
    → IsValid db
    → FitsBlock key value
    → lookup db key ≡ none
    → IsChain
        (bucket_of db key)
        db.num_buckets
        (serialize (record { key = key; value = value }) ∷ get_or db.buckets (bucket_of db key) [])
serialize-IsChain db key value v fv absent =
    let r : TinyRecord = record { key = key; value = value } in
    let h = serialize-Holds r fv in
    let e = deserialize-Holds (serialize r) key value h in
    (
      IsRecord-of_Holds (serialize r) key value h,
      rw e refl,
      rw e absent,
      IsTable-get db.num_buckets 0 (bucket_of db key) (bucket_of db key) db.buckets v.table
          (omega arith),
    )

pub inside_table : (db : TinyDbm) (key : Bytes) → IsValid db → bucket_of db key < length db.buckets
inside_table db key v = omega (arith, primary_hash-lt key db.num_buckets v.positive, v.sized)

pub lookup-top :
    (db : TinyDbm) (key value : Bytes) (j : Bytes)
    → IsValid db
    → FitsBlock key value
    → lookup
        (record db {
          buckets = set db.buckets (bucket_of db key) (
              serialize (record { key = key; value = value })
              ∷ get_or db.buckets (bucket_of db key) []);
        })
        j
      ≡ update (lookup db) key (some value) j
lookup-top db key value j v fv =
    let r : TinyRecord = record { key = key; value = value } in
    let e = deserialize-Holds (serialize r) key value (serialize-Holds r fv) in
    lookup_table-set db.num_buckets db.buckets key _ (some value) (inside_table db key v)
      (λ j'. rw e (ground (arith, eqb_comm j' key))) j

counted_above :
    (db : TinyDbm) (key : Bytes)
    → IsValid db
    → length (get_or db.buckets (bucket_of db key) []) ≤ db.num_records
counted_above db key v =
    omega (arith, total-set (bucket_of db key) db.buckets [] (inside_table db key v), v.counted)

count_after :
    (removed : Bool) (n top chain : ℕ)
    → top ≤ n
    → chain + (if removed then 1 else 0) ≡ top
    → (if removed then n - 1 else n) + top ≡ n + chain
count_after removed n top chain h e = ground arith

-- What `ProcessImpl` gives on a valid database.
pub record Processed {S : Type 0} (db : TinyDbm) (key : Bytes) (w : Bool) (p : Processor S) (s : S)
    (r : S × TinyDbm) : Type 0 where
  pub state : r.0 ≡ (call p s key (lookup db key)).0
  pub valid : IsValid r.1
  pub view : (j : Bytes) → lookup r.1 j ≡ after_call p s key w (lookup db) j
  pub same_size : r.1.num_buckets ≡ db.num_buckets

process_miss_lem :
    (w : Bool) (a : Action) (db : TinyDbm) (key : Bytes)
    → IsValid db
    → ActionFits (FitsBlock key) a
    → lookup db key ≡ none
    → IsValid (process_miss w a db key (bucket_of db key))
      × ((j : Bytes)
          → lookup (process_miss w a db key (bucket_of db key)) j
            ≡ update (lookup db) key (apply_action w a none) j)
      × ((process_miss w a db key (bucket_of db key)).num_buckets ≡ db.num_buckets)
unfolding process_miss
process_miss_lem true (put value) db key v f absent = (
  exchange-IsValid db key _ (db.num_records + 1) v (serialize-IsChain db key value v f absent)
      (omega arith),
  λ j. lookup-top db key value j v f,
  refl,
)
process_miss_lem true noop db key v f absent = (v, λ j. ground (arith, absent, eqb_iff key j), refl)
process_miss_lem true remove db key v f absent =
    (v, λ j. ground (arith, absent, eqb_iff key j), refl)
process_miss_lem false a db key v f absent = (v, λ j. ground (arith, absent, eqb_iff key j), refl)

module _ {S : Type 0} (db : TinyDbm) (key : Bytes) (p : Processor S) (s : S) (w : Bool) where
  process_impl_hit :
      (s' : S) (chain : Chain) (removed : Bool)
      → process_walk p s key w (get_or db.buckets (bucket_of db key) []) ≡ some (s', chain, removed)
      → process_impl db key (bucket_of db key) p s w ≡ (
        s',
        record db {
          buckets = set db.buckets (bucket_of db key) chain;
          num_records = if removed then db.num_records - 1 else db.num_records;
        },
      )
  unfolding process_impl
  process_impl_hit s' chain removed e = rw (e, process_impl)

  process_impl_miss :
      process_walk p s key w (get_or db.buckets (bucket_of db key) []) ≡ none
      → process_impl db key (bucket_of db key) p s w ≡ (
        (p.process_empty s key).0,
        process_miss w (p.process_empty s key).1 db key (bucket_of db key),
      )
  unfolding process_impl
  process_impl_miss e = rw (e, process_impl)

  pub process_impl_lem :
      IsValid db
      → ActionFits (FitsBlock key) (call p s key (lookup db key)).1
      → Processed db key w p s (process_impl db key (bucket_of db key) p s w)
  process_impl_lem v f = elim (Option-cases (lookup db key)) [
    | inl absent ↦
        let e = process_impl_miss (process_walk_miss p s key w _ absent) in
        let f' = subst (λ o. ActionFits (FitsBlock key) (call p s key o).1) absent f in
        let (valid, view, same) = process_miss_lem w (p.process_empty s key).1 db key v f' absent in
        subst (Processed db key w p s) (sym e) (record {
          state = rw absent;
          valid = valid;
          view = λ j. rw absent (view j);
          same_size = same;
        })
    | inr (old, found) ↦
        let f' = subst (λ o. ActionFits (FitsBlock key) (call p s key o).1) found f in
        let i = bucket_of db key in
        let c = IsTable-get db.num_buckets 0 i i db.buckets v.table (omega arith) in
        let (chain, walked, after) =
          process_walk_hit p s key old w i db.num_buckets (get_or db.buckets i []) c found f' in
        let e = process_impl_hit _ chain _ walked in
        subst (Processed db key w p s) (sym e) (record {
          state = rw found;
          valid = exchange-IsValid db key chain _ v after.valid (
              count_after (is_removal w (p.process_full s key old).1) db.num_records _ _
                (counted_above db key v) after.count);
          view = λ j.
              lookup_table-set db.num_buckets db.buckets key chain _ (inside_table db key v)
                after.view j
              ∙ rw found;
          same_size = refl;
        })
  ]

  -- The processor is called with what the map holds, whatever it answers.
  process_walk_state :
      (chain : Chain) (old : Bytes)
      → lookup_chain key chain ≡ some old
      → (r : Chain × Bool) × (process_walk p s key w chain
          ≡ some ((p.process_full s key old).0, r.0, r.1))
  unfolding process_walk
  process_walk_state [] old h = cc
  process_walk_state (ptr ∷ child) old h = elim (Bool-cases (eqb key (deserialize ptr).key)) [
    | inl e ↦
        let value : (deserialize ptr).value ≡ old = ground (arith, e, h) in
        let a = (p.process_full s key (deserialize ptr).value).1 in
        let chain = process_hit w a (deserialize ptr) ptr child in
        (
          (chain, is_removal w a),
          rw e (ap (λ x. some ((p.process_full s key x).0, chain, is_removal w a)) value),
        )
    | inr e ↦
        let (r, walked) = process_walk_state child old (ground (arith, e, h)) in
        ((ptr ∷ r.0, r.1), rw (e, walked))
  ]

  pub process_impl_state :
      (process_impl db key (bucket_of db key) p s w).0 ≡ (call p s key (lookup db key)).0
  process_impl_state = elim (Option-cases (lookup db key)) [
    | inl absent ↦
        rw absent (ap (λ r. r.0) (process_impl_miss (process_walk_miss p s key w _ absent)))
    | inr (old, found) ↦
        let (r, walked) = process_walk_state _ old found in
        rw found (ap (λ r. r.0) (process_impl_hit _ r.0 r.1 walked))
  ]
