-- ===== src/Tiny/Buckets.antt =====
-- The table of chains as the map that the database holds, and its invariant.
use mathlib.Core.Path.{subst}
use tkrzw.Base.{
  ℕ, zero, suc, ◌+◌, ◌<◌, Bytes, List, [], ◌∷◌, if◌then◌else◌, Option, false, eqb, eqb_iff, length,
  get_or, set, ◌≡◌, sym, ap, ◌∙◌, arith, Bool-cases, inl, inr, get_or-set_self, get_or-set_ne,
}
use native.Mathlib.Decide.{ℕ_discrete}
use tkrzw.Hash.{primary_hash}
use tkrzw.Tiny.Table.{Chain, TinyDbm}
use tkrzw.Tiny.Chains.{lookup_chain, IsChain}

-- Chain number `j` of a part of the table that begins at bucket `i` is one of bucket `i + j`.
abbrev pub IsTable : ℕ → ℕ → List Chain → Type 0
IsTable n i [] = Unit {0}
IsTable n i (chain ∷ chains) = IsChain i n chain × IsTable n (suc i) chains

abbrev pub total : List Chain → ℕ
total [] = 0
total (chain ∷ chains) = length chain + total chains

abbrev pub lookup_table : ℕ → List Chain → Bytes → Option Bytes
lookup_table n buckets key = lookup_chain key (get_or buckets (primary_hash key n) [])

abbrev pub lookup : TinyDbm → Bytes → Option Bytes
lookup db key = lookup_table db.num_buckets db.buckets key

-- What every method keeps: as many chains as buckets, each record in its bucket, each key once, and
-- the count of the records.
pub record IsValid (db : TinyDbm) : Type 0 where
  pub positive : 0 < db.num_buckets
  pub sized : length db.buckets ≡ db.num_buckets
  pub table : IsTable db.num_buckets 0 db.buckets
  pub counted : db.num_records ≡ total db.buckets

pub IsTable-get :
    (n i j k : ℕ) (buckets : List Chain)
    → IsTable n i buckets
    → k ≡ i + j
    → IsChain k n (get_or buckets j [])
IsTable-get n i j k [] t e = tt
IsTable-get n i zero k (chain ∷ chains) t e =
    let e' : i ≡ k = omega arith in subst (λ m. IsChain m n chain) e' t.0
IsTable-get n i (suc j) k (chain ∷ chains) t e = IsTable-get n (suc i) j k chains t.1 (omega arith)

pub IsTable-set :
    (n i j k : ℕ) (buckets : List Chain) (chain : Chain)
    → IsTable n i buckets
    → k ≡ i + j
    → IsChain k n chain
    → IsTable n i (set buckets j chain)
IsTable-set n i j k [] chain t e c = tt
IsTable-set n i zero k (old ∷ chains) chain t e c =
    let e' : k ≡ i = omega arith in (subst (λ m. IsChain m n chain) e' c, t.1)
IsTable-set n i (suc j) k (old ∷ chains) chain t e c =
    (t.0, IsTable-set n (suc i) j k chains chain t.1 (omega arith) c)

pub total-set :
    (j : ℕ) (buckets : List Chain) (chain : Chain)
    → j < length buckets
    → total (set buckets j chain) + length (get_or buckets j []) ≡ total buckets + length chain
total-set j [] chain h = absurd (omega arith)
total-set zero (old ∷ chains) chain h = omega arith
total-set (suc j) (old ∷ chains) chain h = omega (arith, total-set j chains chain (omega arith))

-- The map after one chain was exchanged for one that differs at a key of its bucket.
pub lookup_table-set :
    (n : ℕ) (buckets : List Chain) (key : Bytes) (chain : Chain) (x : Option Bytes)
    → primary_hash key n < length buckets
    → ((j : Bytes)
        → lookup_chain j chain
          ≡ (if eqb key j then x else lookup_chain j (get_or buckets (primary_hash key n) [])))
    → (j : Bytes)
    → lookup_table n (set buckets (primary_hash key n) chain) j
      ≡ (if eqb key j then x else lookup_table n buckets j)
lookup_table-set n buckets key chain x h view j =
    elim (ℕ_discrete (primary_hash key n) (primary_hash j n)) [
      | yes same ↦
          ap (λ m. lookup_chain j (get_or (set buckets (primary_hash key n) chain) m [])) (sym same)
          ∙ ap (lookup_chain j) (get_or-set_self buckets (primary_hash key n) chain [] h)
          ∙ view j
          ∙ ap (λ m. if eqb key j then x else lookup_chain j (get_or buckets m [])) same
      | no other ↦
          let differs : eqb key j ≡ false = elim (Bool-cases (eqb key j)) [
            | inl e ↦ absurd (other (ap (λ k. primary_hash k n) ((eqb_iff key j).0 e)))
            | inr e ↦ e
          ] in
          rw differs (
            ap (lookup_chain j)
              (get_or-set_ne buckets (primary_hash key n) (primary_hash j n) chain [] other))
    ]
