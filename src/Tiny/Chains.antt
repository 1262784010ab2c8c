-- ===== src/Tiny/Chains.antt =====
-- A chain as the map that it holds, and what one step of `ProcessImpl` does to it.
use mathlib.Core.Path.{subst}
use tkrzw.Base.{
  ℕ, suc, ◌+◌, Bytes, [], ◌∷◌, if◌then◌else◌, Option, none, some, Bool, true, false, eqb, eqb_iff,
  eqb_comm, length, ◌≡◌, refl, ap, arith, Bool-cases, inl, inr,
}
use tkrzw.Dbm.Processor.{Action, noop, remove, put, Processor}
use tkrzw.Dbm.Interface.{apply_action, ActionFits}
use tkrzw.Hash.{primary_hash}
use tkrzw.Tiny.Record.{Block, deserialize}
use tkrzw.Tiny.Layout.{FitsBlock, Holds, deserialize-Holds}
use tkrzw.Tiny.Rewrite.{reserialize-Holds}
use tkrzw.Tiny.Table.{Chain, process_hit, is_removal, process_walk}

abbrev pub lookup_chain : Bytes → Chain → Option Bytes
lookup_chain key [] = none
lookup_chain key (ptr ∷ child) =
    if eqb key (deserialize ptr).key then some (deserialize ptr).value else lookup_chain key child

-- A block that holds the record that is read from it.
abbrev pub IsRecord : Block → Type 0
IsRecord ptr = Holds ptr (deserialize ptr).key (deserialize ptr).value

-- Every block holds a record whose key belongs to bucket `i` of `n` and stands only once.
abbrev pub IsChain : ℕ → ℕ → Chain → Type 0
IsChain i n [] = Unit {0}
IsChain i n (ptr ∷ child) =
    IsRecord ptr
    × (primary_hash (deserialize ptr).key n ≡ i)
    × (lookup_chain (deserialize ptr).key child ≡ none)
    × IsChain i n child

pub IsRecord-of_Holds : (b : Block) (key value : Bytes) → Holds b key value → IsRecord b
IsRecord-of_Holds b key value h = rw (deserialize-Holds b key value h) h

-- What the found record's part of the chain becomes.
record Hit (i n : ℕ) (w : Bool) (a : Action) (ptr : Block) (child chain : Chain) : Type 0 where
  valid : IsChain i n chain
  view :
      (j : Bytes)
      → lookup_chain j chain ≡ (
          if eqb (deserialize ptr).key j
          then apply_action w a (some (deserialize ptr).value)
          else lookup_chain j child)
  count : length chain + (if is_removal w a then 1 else 0) ≡ suc (length child)

process_hit_lem :
    (i n : ℕ) (w : Bool) (a : Action) (ptr : Block) (child : Chain)
    → IsChain i n (ptr ∷ child)
    → ActionFits (FitsBlock (deserialize ptr).key) a
    → Hit i n w a ptr child (process_hit w a (deserialize ptr) ptr child)
unfolding process_hit
process_hit_lem i n false a ptr child v f = record {
  valid = v;
  view = λ j. ground (arith, eqb_comm (deserialize ptr).key j);
  count = omega arith;
}
process_hit_lem i n true noop ptr child v f = record {
  valid = v;
  view = λ j. ground (arith, eqb_comm (deserialize ptr).key j);
  count = omega arith;
}
process_hit_lem i n true remove ptr child v f = record {
  valid = v.3;
  view = λ j. ground (arith, eqb_iff (deserialize ptr).key j, v.2);
  count = omega arith;
}
process_hit_lem i n true (put value) ptr child v f =
    let r = deserialize ptr in
    let h = reserialize-Holds ptr r.key r.value value v.0 f in
    let e = deserialize-Holds _ r.key value h in
    record {
      valid = (IsRecord-of_Holds _ r.key value h, rw e v.1, rw e v.2, v.3);
      view = λ j. ground (arith, eqb_comm r.key j, e);
      count = omega arith;
    }

-- What the whole chain becomes.
pub record After (i n : ℕ) (w : Bool) (a : Action) (key : Bytes) (old chain : Chain) : Type 0 where
  pub valid : IsChain i n chain
  pub view :
      (j : Bytes)
      → lookup_chain j chain
        ≡ (if eqb key j then apply_action w a (lookup_chain key old) else lookup_chain j old)
  pub count : length chain + (if is_removal w a then 1 else 0) ≡ length old

pub process_walk_miss :
    {S : Type 0} (p : Processor S) (s : S) (key : Bytes) (w : Bool) (chain : Chain)
    → lookup_chain key chain ≡ none
    → process_walk p s key w chain ≡ none
unfolding process_walk
process_walk_miss p s key w [] h = refl
process_walk_miss p s key w (ptr ∷ child) h = ground (arith, process_walk_miss p s key w child)

module _ {S : Type 0} (p : Processor S) (s : S) (key v : Bytes) (w : Bool) (i n : ℕ) where
  abbrev answer : S × Action
  answer = p.process_full s key v

  process_walk_here :
      (ptr : Block) (child : Chain)
      → IsChain i n (ptr ∷ child)
      → lookup_chain key (ptr ∷ child) ≡ some v
      → ActionFits (FitsBlock key) answer.1
      → eqb key (deserialize ptr).key ≡ true
      → (chain : Chain) × (process_walk p s key w (ptr ∷ child)
          ≡ some (answer.0, chain, is_removal w answer.1))
        × After i n w answer.1 key (ptr ∷ child) chain
  unfolding process_walk
  process_walk_here ptr child valid h f e =
      let r = deserialize ptr in
      let same : key ≡ r.key = (eqb_iff key r.key).0 e in
      let value : r.value ≡ v = ground (arith, e, h) in
      let hit =
        process_hit_lem i n w answer.1 ptr child valid
          (subst (λ k. ActionFits (FitsBlock k) answer.1) same f) in
      (
        process_hit w answer.1 r ptr child,
        rw e (
            ap
              (λ x. some (
                (p.process_full s key x).0,
                process_hit w (p.process_full s key x).1 r ptr child,
                is_removal w (p.process_full s key x).1,
              ))
              value),
        record {
          valid = hit.valid;
          view =
              λ j. ground (arith, hit.view j, e, value, ap (λ k. eqb k j) same, eqb_comm j r.key);
          count = hit.count;
        },
      )

  process_walk_further :
      (ptr : Block) (child chain : Chain) (s' : S) (removed : Bool)
      → eqb key (deserialize ptr).key ≡ false
      → process_walk p s key w child ≡ some (s', chain, removed)
      → process_walk p s key w (ptr ∷ child) ≡ some (s', ptr ∷ chain, removed)
  unfolding process_walk
  process_walk_further ptr child chain s' removed e h = rw (e, h)

  pub process_walk_hit :
      (chain : Chain)
      → IsChain i n chain
      → lookup_chain key chain ≡ some v
      → ActionFits (FitsBlock key) answer.1
      → (chain' : Chain) × (process_walk p s key w chain
          ≡ some (answer.0, chain', is_removal w answer.1))
        × After i n w answer.1 key chain chain'
  process_walk_hit [] valid h f = cc
  process_walk_hit (ptr ∷ child) valid h f = elim (Bool-cases (eqb key (deserialize ptr).key)) [
    | inl e ↦ process_walk_here ptr child valid h f e
    | inr e ↦
        let (chain, walked, after) = process_walk_hit child valid.3 (ground (arith, e, h)) f in
        (
          ptr ∷ chain,
          process_walk_further ptr child chain _ _ e walked,
          record {
            valid = (
              valid.0,
              valid.1,
              ground (arith, after.view (deserialize ptr).key, e, valid.2),
              after.valid,
            );
            view = λ j. ground (arith, after.view j, e, eqb_iff key j);
            count = omega (arith, after.count);
          },
        )
  ]
