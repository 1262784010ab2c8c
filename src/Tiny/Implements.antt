-- ===== src/Tiny/Implements.antt =====
-- `TinyDBM` (tkrzw_dbm_tiny.cc) as an implementation of the interface of Dbm/Interface.antt.
use tkrzw.Base.{
  ℕ, ◌≤◌, Bytes, List, [], ◌∷◌, Bool, length, ◌≡◌, refl, sym, ap, ◌∙◌, arith, true, ap₂,
}
use mathlib.Core.Path.{fun_ext, subst₂}
use tkrzw.Status.{is_success}
use tkrzw.Dbm.Processor.{Processor}
use tkrzw.Dbm.Interface.{
  Dbm, call, call_all, after_call, ActionFits, CallsFit, update, apply_action,
}
use tkrzw.Hash.{primary_hash}
use tkrzw.Codec.VarRound.{size_var_num_mono}
use tkrzw.Tiny.Layout.{FitsBlock, FitsKey}
use tkrzw.Tiny.Table.{TinyDbm, bucket_of, process_impl, process, process_all, process_multi}
use tkrzw.Tiny.Buckets.{lookup, IsValid}
use tkrzw.Tiny.Process.{Processed, process_impl_lem, process_impl_state}

process_all_step :
    {S : Type 0} (db : TinyDbm) (n : ℕ) (key : Bytes) (p : Processor S)
    (rest : List (Bytes × Processor S)) (s : S) (w : Bool)
    → n ≡ db.num_buckets
    → process_all db n ((key, p) ∷ rest) s w
      ≡ process_all
          (process_impl db key (bucket_of db key) p s w).1
          n
          rest
          (process_impl db key (bucket_of db key) p s w).0
          w
unfolding process_all
process_all_step db n key p rest s w e =
    ap
      (λ m.
        process_all (process_impl db key (primary_hash key m) p s w).1 n rest
          (process_impl db key (primary_hash key m) p s w).0 w)
      e

process_all_lem :
    {S : Type 0} (pairs : List (Bytes × Processor S)) (db : TinyDbm) (n : ℕ) (s : S) (w : Bool)
    → n ≡ db.num_buckets
    → IsValid db
    → CallsFit FitsKey FitsBlock pairs s w (lookup db)
    → IsValid (process_all db n pairs s w).1
      × ((process_all db n pairs s w).0 ≡ (call_all pairs s w (lookup db)).0)
      × (lookup (process_all db n pairs s w).1 ≡ (call_all pairs s w (lookup db)).1)
process_all_lem [] db n s w e v fits = unfold process_all in (v, refl, refl)
process_all_lem {S} ((key, p) ∷ rest) db n s w e v (fk, f, fs) =
    let r = process_impl db key (bucket_of db key) p s w in
    let done = process_impl_lem db key p s w v f in
    let view : lookup r.1 ≡ after_call p s key w (lookup db) = fun_ext done.view in
    let fits : CallsFit FitsKey FitsBlock rest r.0 w (lookup r.1) =
      subst₂ (λ t m. CallsFit FitsKey FitsBlock rest t w m) (sym done.state) (sym view) fs in
    let (valid, state, map_after) =
      process_all_lem rest r.1 n r.0 w (e ∙ sym done.same_size) done.valid fits in
    let same = ap₂ (λ t m. call_all rest t w m) done.state view in
    rw (process_all_step {S = S} db n key p rest s w e)
      (valid, state ∙ ap (λ x. x.0) same, map_after ∙ ap (λ x. x.1) same)

-- `Process` on a valid table calls the processor with exactly what is stored for the key, makes of the
-- record what the answer says if `writable`, and leaves every other key alone. The table stays valid. A value that
-- the processor answers must fit in a block with the key, whose size is an int32_t.
pub process_lem :
    (S : Type 0) (db : TinyDbm) (key : Bytes) (p : Processor S) (s : S) (w : Bool)
    → IsValid db
    → ActionFits (FitsBlock key) (call p s key (lookup db key)).1
    → ((process S db key p s w).state ≡ (call p s key (lookup db key)).0)
      × IsValid (process S db key p s w).db
      × ((j : Bytes)
          → lookup (process S db key p s w).db j
            ≡ update
                (lookup db)
                key
                (apply_action w (call p s key (lookup db key)).1 (lookup db key))
                j)
unfolding process
process_lem S db key p s w v f =
    let done = process_impl_lem db key p s w v f in (done.state, done.valid, done.view)

module _ (S : Type 0) (db : TinyDbm) where
  pub process_impl_of :
      (key : Bytes) (p : Processor S) (s : S) (w : Bool)
      → IsValid db
      → ActionFits (FitsBlock key) (call p s key (lookup db key)).1
      → Processed db key w p s ((process S db key p s w).state, (process S db key p s w).db)
  unfolding process
  process_impl_of key p s w v f = process_impl_lem db key p s w v f

  pub process-status :
      (key : Bytes) (p : Processor S) (s : S) (w : Bool)
      → is_success (process S db key p s w).status ≡ true
  unfolding process
  process-status key p s w = refl

  pub process-state :
      (key : Bytes) (p : Processor S) (s : S) (w : Bool)
      → (process S db key p s w).state ≡ (call p s key (lookup db key)).0
  unfolding process
  process-state key p s w = process_impl_state db key p s w

  pub process_multi-status :
      (pairs : List (Bytes × Processor S)) (s : S) (w : Bool)
      → is_success (process_multi S db pairs s w).status ≡ true
  unfolding process_multi
  process_multi-status pairs s w = refl

  -- `ProcessMulti` on a valid table acts like the calls one after the other, each on what those before
  -- it left, with the state shared. The table stays valid. A value that one of the processors answers
  -- must fit in a block with its key, whose size is an int32_t, and each key must fit in one with a value
  -- of eight bytes.
  pub process_multi_lem :
      (pairs : List (Bytes × Processor S)) (s : S) (w : Bool)
      → IsValid db
      → CallsFit FitsKey FitsBlock pairs s w (lookup db)
      → IsValid (process_multi S db pairs s w).db
        × (((process_multi S db pairs s w).state ≡ (call_all pairs s w (lookup db)).0)
            × ((j : Bytes)
                → lookup (process_multi S db pairs s w).db j
                  ≡ (call_all pairs s w (lookup db)).1 j))
  unfolding process_multi
  process_multi_lem pairs s w v fs =
      let (valid, state, view) = process_all_lem pairs db db.num_buckets s w refl v fs in
      (valid, (state, λ j. ap (λ m. m j) view))

pub FitsBlock-int64 : (key v : Bytes) → FitsKey key → length v ≤ 8 → FitsBlock key v
FitsBlock-int64 key v h l = omega (arith, size_var_num_mono (length v) 8 l)

-- A database in memory takes every call.
unfoldable pub tiny_dbm : Dbm TinyDbm
tiny_dbm = record {
  IsValid = IsValid;
  Accepts = λ db w. Unit {0};
  FitsKey = FitsKey;
  Fits = FitsBlock;
  lookup = lookup;
  process = process;
  process_multi = process_multi;
  fits_int64 = λ key v fk h. FitsBlock-int64 key v fk h;
  process-success = λ S db key p s w v a. process-status S db key p s w;
  process-IsValid = λ S db key p s w v fk f. (process_impl_of S db key p s w v f).valid;
  process-Accepts = λ S db key p s w w' v a. a;
  process-state = λ S db key p s w v a. process-state S db key p s w;
  lookup-process = λ S db key p s w v a fk f. (process_impl_of S db key p s w v f).view;
  process_multi-success = λ S db pairs s w v a. process_multi-status S db pairs s w;
  process_multi-IsValid = λ S db pairs s w v fs. (process_multi_lem S db pairs s w v fs).0;
  process_multi-call_all = λ S db pairs s w v a fs. (process_multi_lem S db pairs s w v fs).1;
}
