-- ===== src/Tiny/Move.antt =====
-- The loops of `Rebuild` (tkrzw_dbm_tiny.cc) that move the blocks to their new chains.
use mathlib.Core.Path.{subst}
use tkrzw.Base.{
  ℕ, zero, suc, ◌+◌, ◌<◌, ◌≡◌, ◌≢◌, refl, ap, ◌∙◌, Bytes, List, [], ◌∷◌, if◌then◌else◌, Option,
  none, some, true, eqb, eqb_iff, eqb_comm, length, get_or, set, arith, ◌⊎◌, inl, inr, length-set,
  Bool-cases,
}
use native.Mathlib.Decide.{ℕ_discrete}
use tkrzw.Hash.{primary_hash, primary_hash-lt}
use tkrzw.Tiny.Record.{Block, deserialize}
use tkrzw.Tiny.Table.{Chain}
use tkrzw.Tiny.Chains.{lookup_chain, IsChain, IsRecord}
use tkrzw.Tiny.Buckets.{
  IsTable, total, lookup_table, IsTable-get, IsTable-set, total-set, lookup_table-set,
}
use tkrzw.Tiny.Whole.{move_chain, move_chains}

abbrev pub or_else : Option Bytes → Option Bytes → Option Bytes
or_else none y = y
or_else (some x) y = some x

pub or_else-none : (x : Option Bytes) → or_else x none ≡ x
or_else-none none = refl
or_else-none (some x) = refl

-- The first record with a key in a list of chains.
abbrev pub find_in : Bytes → List Chain → Option Bytes
find_in key [] = none
find_in key (chain ∷ chains) = or_else (lookup_chain key chain) (find_in key chains)

lookup_elsewhere :
    (key : Bytes) (i m : ℕ) (chain : Chain)
    → IsChain i m chain
    → primary_hash key m ≢ i
    → lookup_chain key chain ≡ none
lookup_elsewhere key i m [] v h = refl
lookup_elsewhere key i m (ptr ∷ child) v h =
    let k = (deserialize ptr).key in
    elim (Bool-cases (eqb key k)) [
      | inl e ↦ absurd (h (ap (λ s. primary_hash s m) ((eqb_iff key k).0 e) ∙ v.1))
      | inr e ↦ rw e (lookup_elsewhere key i m child v.3 h)
    ]

find_in-later :
    (key : Bytes) (m i : ℕ) (chains : List Chain)
    → IsTable m i chains
    → primary_hash key m < i
    → find_in key chains ≡ none
find_in-later key m i [] t h = refl
find_in-later key m i (chain ∷ chains) t h =
    let here = lookup_elsewhere key i m chain t.0 (λ e. absurd (omega arith)) in
    rw here (find_in-later key m (suc i) chains t.1 (omega arith))

pub find_in-get :
    (key : Bytes) (m i d : ℕ) (chains : List Chain)
    → IsTable m i chains
    → primary_hash key m ≡ i + d
    → find_in key chains ≡ lookup_chain key (get_or chains d [])
find_in-get key m i d [] t h = refl
find_in-get key m i zero (chain ∷ chains) t h =
    rw (find_in-later key m (suc i) chains t.1 (omega arith))
      (or_else-none (lookup_chain key chain))
find_in-get key m i (suc d) (chain ∷ chains) t h =
    let here = lookup_elsewhere key i m chain t.0 (λ e. absurd (omega arith)) in
    rw here (find_in-get key m (suc i) d chains t.1 (omega arith))

-- A key stands in one chain of a table only.
once_in_table :
    (key : Bytes) (m i : ℕ) (chain : Chain) (chains : List Chain)
    → IsTable m i (chain ∷ chains)
    → (lookup_chain key chain ≡ none) ⊎ (find_in key chains ≡ none)
once_in_table key m i chain chains t = elim (ℕ_discrete (primary_hash key m) i) [
  | yes e ↦ inr (find_in-later key m (suc i) chains t.1 (omega arith))
  | no h ↦ inl (lookup_elsewhere key i m chain t.0 h)
]

apart_here : (x y z : Option Bytes) → (or_else x y ≡ none) ⊎ (z ≡ none) → (x ≡ none) ⊎ (z ≡ none)
apart_here none y z h = inl refl
apart_here (some x) y z (inl h) = cc
apart_here (some x) y z (inr h) = inr h

apart_later :
    (x y z : Option Bytes)
    → (x ≡ none) ⊎ (y ≡ none)
    → (or_else x y ≡ none) ⊎ (z ≡ none)
    → (y ≡ none) ⊎ (or_else x z ≡ none)
apart_later none y z once h = h
apart_later (some x) y z (inl e) h = cc
apart_later (some x) y z (inr e) h = inl e

or_else_swap :
    (x y z : Option Bytes)
    → (x ≡ none) ⊎ (y ≡ none)
    → or_else y (or_else x z) ≡ or_else (or_else x y) z
or_else_swap none y z once = refl
or_else_swap (some x) y z (inl e) = cc
or_else_swap (some x) y z (inr e) = rw e refl

module _ (n : ℕ) (positive : 0 < n) where
  -- A table of `n` chains under construction.
  pub record IsBuilt (buckets : List Chain) : Type 0 where
    pub sized : length buckets ≡ n
    pub table : IsTable n 0 buckets

  -- After the records that `find` finds have come in.
  pub record Moved (find : Bytes → Option Bytes) (size : ℕ) (old buckets : List Chain)
      : Type 0 where
    pub built : IsBuilt buckets
    pub view : (j : Bytes) → lookup_table n buckets j ≡ or_else (find j) (lookup_table n old j)
    pub counted : total buckets ≡ total old + size

  abbrev pub Apart : (Bytes → Option Bytes) → List Chain → Type 0
  Apart find buckets = (j : Bytes) → (find j ≡ none) ⊎ (lookup_table n buckets j ≡ none)

  abbrev slot : Block → ℕ
  slot ptr = primary_hash (deserialize ptr).key n

  abbrev moved_one : Block → List Chain → List Chain
  moved_one ptr buckets = set buckets (slot ptr) (ptr ∷ get_or buckets (slot ptr) [])

  move_one_lem :
      (ptr : Block) (buckets : List Chain)
      → IsBuilt buckets
      → IsRecord ptr
      → lookup_table n buckets (deserialize ptr).key ≡ none
      → IsBuilt (moved_one ptr buckets)
        × ((j : Bytes)
            → lookup_table n (moved_one ptr buckets) j ≡ (
                if eqb (deserialize ptr).key j
                then some (deserialize ptr).value
                else lookup_table n buckets j))
        × (total (moved_one ptr buckets) ≡ total buckets + 1)
  move_one_lem ptr buckets b holds absent =
      let key = (deserialize ptr).key in
      let old = get_or buckets (slot ptr) [] in
      let inside : slot ptr < length buckets =
        omega (arith, primary_hash-lt key n positive, b.sized) in
      (
        record {
          sized = length-set buckets (slot ptr) (ptr ∷ old) ∙ b.sized;
          table = IsTable-set n 0 (slot ptr) (slot ptr) buckets (ptr ∷ old) b.table (omega arith) (
            holds,
            refl,
            absent,
            IsTable-get n 0 (slot ptr) (slot ptr) buckets b.table (omega arith),
          );
        },
        lookup_table-set n buckets key (ptr ∷ old) (some (deserialize ptr).value) inside
            (λ j. rw (eqb_comm j key) refl),
        omega (arith, total-set (slot ptr) buckets (ptr ∷ old) inside),
      )

  -- Whether `j` is the key that came in decides where it is found afterwards.
  apart_after :
      (j k : Bytes) (v : Bytes) (child x : Option Bytes)
      → (eqb k j ≡ true → child ≡ none)
      → ((if eqb j k then some v else child) ≡ none) ⊎ (x ≡ none)
      → (child ≡ none) ⊎ ((if eqb k j then some v else x) ≡ none)
  apart_after j k v child x once apart = elim (Bool-cases (eqb k j)) [
    | inl e ↦ inl (once e)
    | inr e ↦ rw e (elim apart [ inl h ↦ inl (ground (arith, eqb_comm j k)) | inr h ↦ inr h ])
  ]

  view_after :
      (j k : Bytes) (v : Bytes) (child x : Option Bytes)
      → (eqb k j ≡ true → child ≡ none)
      → or_else child (if eqb k j then some v else x)
        ≡ or_else (if eqb j k then some v else child) x
  view_after j k v child x once = elim (Bool-cases (eqb k j)) [
    | inl e ↦ rw (eqb_comm j k, e, once e) refl
    | inr e ↦ rw (eqb_comm j k, e) refl
  ]

  move_chain_lem :
      (i m : ℕ) (chain : Chain) (buckets : List Chain)
      → IsChain i m chain
      → IsBuilt buckets
      → Apart (λ j. lookup_chain j chain) buckets
      → Moved (λ j. lookup_chain j chain) (length chain) buckets (move_chain n chain buckets)
  unfolding move_chain
  move_chain_lem i m [] buckets v b apart = record {
    built = b;
    view = λ j. refl;
    counted = omega arith;
  }
  move_chain_lem i m (ptr ∷ child) buckets v b apart =
      let k = (deserialize ptr).key in
      let absent : lookup_table n buckets k ≡ none = ground (arith, apart k, eqb_iff k k) in
      let (b', view, grown) = move_one_lem ptr buckets b v.0 absent in
      let once : (j : Bytes) → eqb k j ≡ true → lookup_chain j child ≡ none =
        λ j e. subst (λ s. lookup_chain s child ≡ none) ((eqb_iff k j).0 e) v.2 in
      let apart' : Apart (λ j. lookup_chain j child) (moved_one ptr buckets) = λ j. rw (view j) (
        apart_after j k (deserialize ptr).value (lookup_chain j child) (lookup_table n buckets j)
          (once j) (apart j)) in
      let rest = move_chain_lem i m child (moved_one ptr buckets) v.3 b' apart' in
      record {
        built = rest.built;
        view = λ j.
            rest.view j
            ∙ rw (view j) (
                view_after j k (deserialize ptr).value (lookup_chain j child)
                  (lookup_table n buckets j) (once j));
        counted = omega (arith, rest.counted, grown);
      }

  pub move_chains_lem :
      (m i : ℕ) (chains buckets : List Chain)
      → IsTable m i chains
      → IsBuilt buckets
      → Apart (λ j. find_in j chains) buckets
      → Moved (λ j. find_in j chains) (total chains) buckets (move_chains n chains buckets)
  unfolding move_chains
  move_chains_lem m i [] buckets t b apart = record {
    built = b;
    view = λ j. refl;
    counted = omega arith;
  }
  move_chains_lem m i (chain ∷ chains) buckets t b apart =
      let here : Apart (λ j. lookup_chain j chain) buckets = λ j.
        apart_here (lookup_chain j chain) (find_in j chains) (lookup_table n buckets j) (apart j) in
      let first = move_chain_lem i m chain buckets t.0 b here in
      let later : Apart (λ j. find_in j chains) (move_chain n chain buckets) = λ j.
        rw (first.view j) (
          apart_later (lookup_chain j chain) (find_in j chains) (lookup_table n buckets j)
            (once_in_table j m i chain chains t) (apart j)) in
      let rest =
        move_chains_lem m (suc i) chains (move_chain n chain buckets) t.1 first.built later in
      record {
        built = rest.built;
        view = λ j.
            rest.view j
            ∙ rw (first.view j) (
                or_else_swap (lookup_chain j chain) (find_in j chains) (lookup_table n buckets j)
                  (once_in_table j m i chain chains t));
        counted = omega (arith, rest.counted, first.counted);
      }
