-- ===== src/HashDbm/BestFit.antt =====
-- The free block pool (tkrzw_dbm_hash_impl.cc) gives out the best fit.
use mathlib.Core.Path.{subst}
use tkrzw.Base.{
  ℕ, suc, ◌-◌, ◌≤◌, ◌<◌, ◌≡◌, refl, ap, sym, arith, List, [], ◌∷◌, Option, none, some, true, ltb,
  length, All, Bool-cases, inl, inr, length-drop, ◌++◌,
}
use tkrzw.HashDbm.Pool.{
  FreeBlock, Pool, before, take_lower_bound, fetched, fetch_free_block, set_capacity,
}
use tkrzw.HashDbm.InOrder.{IsSorted, IsPool, drop-IsSorted}

-- What a fetch gives: the least of the blocks that are large enough, which goes from the pool, or
-- nothing if all are too small.
abbrev pub BestFit : ℕ → List FreeBlock → Option FreeBlock × List FreeBlock → Type 0
BestFit min_size blocks (none, left) = All (λ x. x.size < min_size) blocks × (left ≡ blocks)
BestFit min_size blocks (some b, left) =
    (min_size ≤ b.size)
    × (small : List FreeBlock) × (large : List FreeBlock) × (blocks ≡ small ++ (b ∷ large))
    × (left ≡ small ++ large)
    × All (λ x. x.size < min_size) small
    × All (λ x. before b x ≡ true) large

before-bound :
    (x : FreeBlock) (min_size : ℕ)
    → before x (record { offset = 0; size = min_size }) ≡ ltb x.size min_size
unfolding before
before-bound x min_size = ground arith

-- The outcome of the search with the blocks that it leaves.
abbrev left_by :
    List FreeBlock → Option (FreeBlock × List FreeBlock) → Option FreeBlock × List FreeBlock
left_by blocks none = (none, blocks)
left_by blocks (some (b, rest)) = (some b, rest)

further_lem :
    (min_size : ℕ) (x : FreeBlock) (xs : List FreeBlock) (o : Option (FreeBlock × List FreeBlock))
    → x.size < min_size
    → BestFit min_size xs (left_by xs o)
    → BestFit min_size
        (x ∷ xs)
        (left_by (x ∷ xs) (elim o [ none ↦ none | some (b, rest) ↦ some (b, x ∷ rest) ]))
further_lem min_size x xs none h f = ((h, f.0), refl)
further_lem min_size x xs (some (b, rest)) h (fits, small, large, e, left, hs, hl) =
    (fits, x ∷ small, large, ap (◌∷◌ x) e, ap (◌∷◌ x) left, (h, hs), hl)

take_lower_bound-BestFit :
    (min_size : ℕ) (blocks : List FreeBlock)
    → IsSorted blocks
    → BestFit min_size blocks
        (left_by blocks (take_lower_bound (record { offset = 0; size = min_size }) blocks))
unfolding take_lower_bound
take_lower_bound-BestFit min_size [] s = (tt, refl)
take_lower_bound-BestFit min_size (x ∷ xs) s = elim (Bool-cases (ltb x.size min_size)) [
  | inl e ↦
      rw (before-bound x min_size, e)
        (further_lem min_size x xs _ (ground (arith, e)) (take_lower_bound-BestFit min_size xs s.1))
  | inr e ↦ rw (before-bound x min_size, e) (ground (arith, e), [], xs, refl, refl, tt, s.0)
]

fetched_lem :
    (pool : Pool) (min_size : ℕ) (o : Option (FreeBlock × List FreeBlock))
    → BestFit min_size pool.blocks (left_by pool.blocks o)
    → BestFit min_size pool.blocks ((fetched pool o).0, (fetched pool o).1.blocks)
unfolding fetched
fetched_lem pool min_size none h = h
fetched_lem pool min_size (some (b, rest)) h = h

-- A fetch gives out the least of the blocks that are large enough and takes only that one from the pool;
-- it gives none, and changes nothing, only when all blocks are too small.
pub fetch_free_block-BestFit :
    (pool : Pool) (min_size : ℕ)
    → IsPool pool
    → BestFit min_size pool.blocks
        ((fetch_free_block pool min_size).0, (fetch_free_block pool min_size).1.blocks)
unfolding fetch_free_block
fetch_free_block-BestFit pool min_size v =
    fetched_lem pool min_size _ (take_lower_bound-BestFit min_size pool.blocks v.sorted)

fetched-capacity :
    (pool : Pool) (o : Option (FreeBlock × List FreeBlock))
    → (fetched pool o).1.capacity ≡ pool.capacity
unfolding fetched
fetched-capacity pool none = refl
fetched-capacity pool (some (b, rest)) = refl

fetch_free_block-capacity :
    (pool : Pool) (min_size : ℕ) → (fetch_free_block pool min_size).1.capacity ≡ pool.capacity
unfolding fetch_free_block
fetch_free_block-capacity pool min_size = fetched-capacity pool _

All-remove {ℓ} :
    (P : FreeBlock → Type ℓ) (small : List FreeBlock) (b : FreeBlock) (large : List FreeBlock)
    → All P (small ++ (b ∷ large))
    → All P (small ++ large)
All-remove P [] b large h = h.1
All-remove P (x ∷ small) b large h = (h.0, All-remove P small b large h.1)

remove-IsSorted :
    (small : List FreeBlock) (b : FreeBlock) (large : List FreeBlock)
    → IsSorted (small ++ (b ∷ large))
    → IsSorted (small ++ large)
remove-IsSorted [] b large h = h.1
remove-IsSorted (x ∷ small) b large h =
    (All-remove (λ y. before x y ≡ true) small b large h.0, remove-IsSorted small b large h.1)

length-remove :
    (small : List FreeBlock) (b : FreeBlock) (large : List FreeBlock)
    → length (small ++ (b ∷ large)) ≡ suc (length (small ++ large))
length-remove [] b large = refl
length-remove (x ∷ small) b large = ap suc (length-remove small b large)

left_lem :
    (min_size : ℕ) (blocks left : List FreeBlock) (o : Option FreeBlock)
    → BestFit min_size blocks (o, left)
    → IsSorted blocks
    → IsSorted left × (length left ≤ length blocks)
left_lem min_size blocks left none (h, e) s = (subst IsSorted (sym e) s, omega (arith, ap length e))
left_lem min_size blocks left (some b) (fits, small, large, e, e', hs, hl) s = (
  subst IsSorted (sym e') (remove-IsSorted small b large (subst IsSorted e s)),
  omega (arith, ap length e, ap length e', length-remove small b large),
)

-- Fetching a block and setting a positive capacity keep the pool in order and within its capacity.
pub fetch_free_block-IsPool :
    (pool : Pool) (min_size capacity : ℕ)
    → IsPool pool
    → 1 ≤ capacity
    → IsPool (fetch_free_block pool min_size).1 × IsPool (set_capacity pool capacity)
unfolding set_capacity
fetch_free_block-IsPool pool min_size capacity v h =
    let left =
      left_lem min_size pool.blocks (fetch_free_block pool min_size).1.blocks
        (fetch_free_block pool min_size).0 (fetch_free_block-BestFit pool min_size v) v.sorted in
    let same = fetch_free_block-capacity pool min_size in
    (
      record {
        positive = omega (arith, v.positive, same);
        bounded = omega (arith, v.bounded, same, left.1);
        sorted = left.0;
      },
      record {
        positive = h;
        bounded = omega (arith, length-drop (length pool.blocks - capacity) pool.blocks);
        sorted = drop-IsSorted (length pool.blocks - capacity) pool.blocks v.sorted;
      },
    )
