-- ===== src/Tiny/Append.antt =====
-- `TinyDBMImpl::Append` (tkrzw_dbm_tiny.cc) against `DBM::Append`, which it overrides.
use mathlib.Core.Path.{subst, subst₂}
use tkrzw.Base.{
  ℕ, ◌+◌, Bytes, [], ◌∷◌, ◌++◌, none, some, true, false, eqb, eqb_iff, eqb_comm, get_or, set, ◌≡◌,
  refl, sym, ap, ◌∙◌, arith, Bool-cases, Option-cases, inl, inr,
}
use tkrzw.Status.{is_success}
use tkrzw.Dbm.Processor.{put}
use tkrzw.Dbm.Interface.{update}
use tkrzw.Dbm.Fits.{append_result}
use tkrzw.Tiny.Record.{Block, serialize, deserialize, reserialize_append}
use tkrzw.Tiny.Layout.{FitsBlock, deserialize-Holds}
use tkrzw.Tiny.Rewrite.{reserialize_append-Holds}
use tkrzw.Tiny.Table.{Chain, TinyDbm, bucket_of, append_walk, append_impl, append}
use tkrzw.Tiny.Chains.{lookup_chain, IsChain, IsRecord-of_Holds, After}
use tkrzw.Tiny.Buckets.{lookup, IsValid, IsTable-get, lookup_table-set}
use tkrzw.Tiny.Process.{exchange-IsValid, serialize-IsChain, lookup-top, inside_table}

module _ (key value delim : Bytes) where
  append_walk_miss :
      (chain : Chain) → lookup_chain key chain ≡ none → append_walk key value delim chain ≡ none
  unfolding append_walk
  append_walk_miss [] h = refl
  append_walk_miss (ptr ∷ child) h = ground (arith, append_walk_miss child)

  append_walk_further :
      (ptr : Block) (child chain : Chain)
      → eqb key (deserialize ptr).key ≡ false
      → append_walk key value delim child ≡ some chain
      → append_walk key value delim (ptr ∷ child) ≡ some (ptr ∷ chain)
  unfolding append_walk
  append_walk_further ptr child chain e h = rw (e, h)

  append_walk_here :
      (ptr : Block) (child : Chain)
      → eqb key (deserialize ptr).key ≡ true
      → append_walk key value delim (ptr ∷ child)
        ≡ some (reserialize_append (deserialize ptr) ptr value delim ∷ child)
  unfolding append_walk
  append_walk_here ptr child e = rw e

  module _ (old : Bytes) (i n : ℕ) where
    abbrev joined : Bytes
    joined = old ++ (delim ++ value)

    append_walk_hit :
        (chain : Chain)
        → IsChain i n chain
        → lookup_chain key chain ≡ some old
        → FitsBlock key joined
        → (chain' : Chain) × (append_walk key value delim chain ≡ some chain')
          × After i n true (put joined) key chain chain'
    append_walk_hit [] valid h f = cc
    append_walk_hit (ptr ∷ child) valid h f = elim (Bool-cases (eqb key (deserialize ptr).key)) [
      | inl e ↦
          let r = deserialize ptr in
          let same : key ≡ r.key = (eqb_iff key r.key).0 e in
          let here : r.value ≡ old = ground (arith, e, h) in
          let f' = subst₂ (λ k v. FitsBlock k (v ++ (delim ++ value))) same (sym here) f in
          let holds = reserialize_append-Holds ptr r.key r.value value delim valid.0 f' in
          let read = deserialize-Holds _ r.key _ holds in
          let grown = ap (λ v. v ++ (delim ++ value)) here in
          (
            reserialize_append r ptr value delim ∷ child,
            append_walk_here ptr child e,
            record {
              valid =
                  (IsRecord-of_Holds _ r.key _ holds, rw read valid.1, rw read valid.2, valid.3);
              view = λ j. ground (arith, read, grown, eqb_comm j r.key, ap (λ k. eqb k j) same);
              count = omega arith;
            },
          )
      | inr e ↦
          let (chain, walked, after) = append_walk_hit child valid.3 (ground (arith, e, h)) f in
          (
            ptr ∷ chain,
            append_walk_further ptr child chain e walked,
            record {
              valid = (
                valid.0,
                valid.1,
                ground (arith, after.view (deserialize ptr).key, e, valid.2),
                after.valid,
              );
              view = λ j. ground (arith, after.view j, e, eqb_iff key j);
              count = omega (arith, after.count);
            },
          )
    ]

module _ (db : TinyDbm) (key value delim : Bytes) where
  append_hit :
      (chain : Chain)
      → append_walk key value delim (get_or db.buckets (bucket_of db key) []) ≡ some chain
      → append_impl db key (bucket_of db key) value delim
        ≡ record db { buckets = set db.buckets (bucket_of db key) chain }
  unfolding append_impl
  append_hit chain e = rw (e, append_impl)

  append_miss :
      append_walk key value delim (get_or db.buckets (bucket_of db key) []) ≡ none
      → append_impl db key (bucket_of db key) value delim ≡ record db {
        buckets = set db.buckets (bucket_of db key) (
            serialize (record { key = key; value = value })
            ∷ get_or db.buckets (bucket_of db key) []);
        num_records = db.num_records + 1;
      }
  unfolding append_impl
  append_miss e = rw (e, append_impl)

  -- `Append` of the hash table stores what `DBM::Append` does, without a processor: the old value, the
  -- delimiter and the new part, or the new part alone. The table stays valid. The key and the value that comes of it must
  -- fit in a block, whose size is an int32_t.
  pub lookup-append :
      IsValid db
      → FitsBlock key (append_result value delim (lookup db key))
      → (is_success (append db key value delim).0 ≡ true)
        × IsValid (append db key value delim).1
        × ((j : Bytes)
            → lookup (append db key value delim).1 j
              ≡ update (lookup db) key (some (append_result value delim (lookup db key))) j)
  unfolding append
  lookup-append v f = elim (Option-cases (lookup db key)) [
    | inl absent ↦
        let f' = subst (λ o. FitsBlock key (append_result value delim o)) absent f in
        rw (append_miss (append_walk_miss key value delim _ absent)) (
          refl,
          exchange-IsValid db key _ (db.num_records + 1) v
              (serialize-IsChain db key value v f' absent) (omega arith),
          λ j. rw absent (lookup-top db key value j v f'),
        )
    | inr (old, found) ↦
        let f' = subst (λ o. FitsBlock key (append_result value delim o)) found f in
        let i = bucket_of db key in
        let c = IsTable-get db.num_buckets 0 i i db.buckets v.table (omega arith) in
        let (chain, walked, after) =
          append_walk_hit key value delim old i db.num_buckets _ c found f' in
        rw (append_hit chain walked) (
          refl,
          exchange-IsValid db key chain db.num_records v after.valid (omega (arith, after.count)),
          λ j.
              lookup_table-set db.num_buckets db.buckets key chain _ (inside_table db key v)
                after.view j
              ∙ rw found,
        )
  ]
