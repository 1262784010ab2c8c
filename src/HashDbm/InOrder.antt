-- ===== src/HashDbm/InOrder.antt =====
-- The free block pool (tkrzw_dbm_hash_impl.cc) keeps its blocks in order and within its capacity.
use mathlib.Core.Path.{subst}
use tkrzw.Base.{
  ℕ, zero, suc, ◌≤◌, ◌≡◌, refl, arith, List, [], ◌∷◌, if◌then◌else◌, true, leb, length, drop, All,
  Bool-cases, inl, inr, leb→>,
}
use tkrzw.HashDbm.Pool.{FreeBlock, Pool, before, emplace, insert_free_block}

-- Strictly in order.
abbrev pub IsSorted : List FreeBlock → Type 0
IsSorted [] = Unit {0}
IsSorted (b ∷ bs) = All (λ x. before b x ≡ true) bs × IsSorted bs

pub record IsPool (pool : Pool) : Type 0 where
  pub positive : 1 ≤ pool.capacity
  pub bounded : length pool.blocks ≤ pool.capacity
  pub sorted : IsSorted pool.blocks

before_trans : (a b c : FreeBlock) → before a b ≡ true → before b c ≡ true → before a c ≡ true
unfolding before
before_trans a b c p q = ground arith

All-before :
    (a b : FreeBlock) (bs : List FreeBlock)
    → before a b ≡ true
    → All (λ x. before b x ≡ true) bs
    → All (λ x. before a x ≡ true) bs
All-before a b [] h hs = tt
All-before a b (x ∷ xs) h hs = (before_trans a b x h hs.0, All-before a b xs h hs.1)

emplace-All :
    (a b : FreeBlock) (bs : List FreeBlock)
    → before a b ≡ true
    → All (λ x. before a x ≡ true) bs
    → All (λ x. before a x ≡ true) (emplace b bs)
unfolding emplace
emplace-All a b [] h hs = (h, tt)
emplace-All a b (x ∷ xs) h hs = elim (Bool-cases (before b x)) [
  | inl e ↦ rw e (h, hs)
  | inr e ↦ rw e (elim (Bool-cases (before x b)) [
    | inl e' ↦ rw e' (hs.0, emplace-All a b xs h hs.1)
    | inr e' ↦ rw e' hs
  ])
]

emplace-IsSorted : (b : FreeBlock) (bs : List FreeBlock) → IsSorted bs → IsSorted (emplace b bs)
unfolding emplace
emplace-IsSorted b [] h = (tt, tt)
emplace-IsSorted b (x ∷ xs) h = elim (Bool-cases (before b x)) [
  | inl e ↦ rw e ((e, All-before b x xs e h.0), h)
  | inr e ↦ rw e (elim (Bool-cases (before x b)) [
    | inl e' ↦ rw e' (emplace-All x b xs e' h.0, emplace-IsSorted b xs h.1)
    | inr e' ↦ rw e' h
  ])
]

length-emplace : (b : FreeBlock) (bs : List FreeBlock) → length (emplace b bs) ≤ suc (length bs)
unfolding emplace
length-emplace b [] = omega arith
length-emplace b (x ∷ xs) = ground (arith, length-emplace b xs)

pub drop-IsSorted : (n : ℕ) (bs : List FreeBlock) → IsSorted bs → IsSorted (drop n bs)
drop-IsSorted zero bs h = h
drop-IsSorted (suc n) [] h = tt
drop-IsSorted (suc n) (b ∷ bs) h = drop-IsSorted n bs h.1

replaced_lem :
    (pool : Pool) (b least : FreeBlock) (rest : List FreeBlock)
    → 1 ≤ pool.capacity
    → length (least ∷ rest) ≤ pool.capacity
    → IsSorted (least ∷ rest)
    → IsPool (record pool { blocks = emplace b rest })
replaced_lem pool b least rest p h s = record {
  positive = p;
  bounded = omega (arith, length-emplace b rest);
  sorted = emplace-IsSorted b rest s.1;
}

-- With the pool full, its least block makes room for a greater one.
full_lem :
    (pool : Pool) (size : ℕ) (b : FreeBlock) (blocks : List FreeBlock)
    → pool.blocks ≡ blocks
    → IsPool pool
    → IsPool (elim blocks [
      | [] ↦ pool
      | least ∷ rest ↦ if leb size least.size then pool else record pool { blocks = emplace b rest }
    ])
full_lem pool size b [] e v = v
full_lem pool size b (least ∷ rest) e v = elim (Bool-cases (leb size least.size)) [
  | inl h ↦ rw h v
  | inr h ↦ rw h (
      replaced_lem pool b least rest (v.positive)
        (subst (λ bs. length bs ≤ pool.capacity) e v.bounded) (subst IsSorted e v.sorted))
]

-- Putting a block in keeps the pool in order and within its capacity, also when a block has to go.
pub insert_free_block-IsPool :
    (pool : Pool) (offset size : ℕ) → IsPool pool → IsPool (insert_free_block pool offset size)
unfolding insert_free_block
insert_free_block-IsPool pool offset size v =
    elim (Bool-cases (leb pool.capacity (length pool.blocks))) [
      | inl e ↦
          rw e (full_lem pool size (record { offset = offset; size = size }) pool.blocks refl v)
      | inr e ↦
          let room = leb→> pool.capacity (length pool.blocks) e in
          let b : FreeBlock = record { offset = offset; size = size } in
          rw e record {
            positive = v.positive;
            bounded = omega (arith, length-emplace b pool.blocks);
            sorted = emplace-IsSorted b pool.blocks v.sorted;
          }
    ]
