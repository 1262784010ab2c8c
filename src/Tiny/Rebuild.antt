-- ===== src/Tiny/Rebuild.antt =====
-- `Rebuild` (tkrzw_dbm_tiny.cc) gives the table another number of buckets and keeps its map.
use tkrzw.Base.{
  ℕ, zero, suc, ◌+◌, ◌-◌, ◌*◌, ◌<◌, ◌≤◌, ◌≡◌, refl, ◌∙◌, Bytes, [], if◌then◌else◌, get_or,
  replicate, arith, inl, inr, length-replicate, Bool-cases, leb, ltb, min,
}
use tkrzw.Hash.{primary_hash}
use tkrzw.Tiny.Table.{Chain, TinyDbm}
use tkrzw.Tiny.Buckets.{IsTable, total, lookup, IsValid}
use tkrzw.Status.{status_of, success}
use tkrzw.Tiny.Whole.{
  is_prime_number, int64_max, cancel_iterators, move_chains, rebuild_to, rebuild,
  get_hash_bucket_size, find_prime, max_num_buckets,
}
use tkrzw.Tiny.Move.{or_else-none, find_in, find_in-get, Moved, move_chains_lem}

get_or-replicate : (k i : ℕ) → get_or {A = Chain} (replicate k []) i [] ≡ []
get_or-replicate zero i = refl
get_or-replicate (suc k) zero = refl
get_or-replicate (suc k) (suc i) = get_or-replicate k i

replicate-IsTable : (n i k : ℕ) → IsTable n i (replicate k [])
replicate-IsTable n i zero = tt
replicate-IsTable n i (suc k) = (tt, replicate-IsTable n (suc i) k)

total-replicate : (k : ℕ) → total (replicate k []) ≡ 0
total-replicate zero = refl
total-replicate (suc k) = omega (arith, total-replicate k)

move_chains-Moved :
    (db : TinyDbm) (n : ℕ) (positive : 0 < n)
    → IsValid db
    → Moved n positive
        (λ j. find_in j db.buckets)
        (total db.buckets)
        (replicate n [])
        (move_chains n db.buckets (replicate n []))
move_chains-Moved db n positive v =
    move_chains_lem n positive db.num_buckets 0 db.buckets (replicate n []) v.table
      (record { sized = length-replicate n []; table = replicate-IsTable n 0 n })
      (λ j. inr (rw (get_or-replicate n (primary_hash j n)) refl))

-- The table as it was is found again in the new number of buckets.
pub rebuild_to-IsValid :
    (db : TinyDbm) (n : ℕ)
    → 0 < n
    → IsValid db
    → IsValid (rebuild_to db n) × ((j : Bytes) → lookup (rebuild_to db n) j ≡ lookup db j)
rebuild_to-IsValid db n positive v =
    let moved = move_chains-Moved db n positive v in
    (
      record {
        positive = positive;
        sized = moved.built.sized;
        table = moved.built.table;
        counted = omega (arith, moved.counted, v.counted, total-replicate n);
      },
      λ j.
          moved.view j
          ∙ rw (get_or-replicate n (primary_hash j n)) (or_else-none (find_in j db.buckets))
          ∙ find_in-get j db.num_buckets 0 (primary_hash j db.num_buckets) db.buckets v.table
              (omega arith),
    )

find_prime-ge :
    (sqrt : ℕ → ℕ) (fuel min_size num : ℕ)
    → min_size ≤ num
    → min_size ≤ find_prime sqrt fuel min_size num
unfolding find_prime
find_prime-ge sqrt zero min_size num h = omega arith
find_prime-ge sqrt (suc fuel) min_size num h = elim (Bool-cases (is_prime_number sqrt num)) [
  | inl e ↦ rw (find_prime, e) h
  | inr e ↦ rw (find_prime, e) (find_prime-ge sqrt fuel min_size (num + 1) (omega arith))
]

-- The number of buckets is positive and at least what was asked for, whatever the square root is taken
-- to be.
pub get_hash_bucket_size-ge :
    (sqrt : ℕ → ℕ) (min_size : ℕ)
    → (0 < get_hash_bucket_size sqrt min_size) × (min_size ≤ get_hash_bucket_size sqrt min_size)
unfolding get_hash_bucket_size
get_hash_bucket_size-ge sqrt min_size = elim (Bool-cases (leb min_size 100)) [
  | inl e ↦ rw (get_hash_bucket_size, e) (ground arith)
  | inr e ↦
      let large : 100 < min_size = ground (arith, e) in
      let h = find_prime-ge sqrt (int64_max - min_size) min_size min_size (omega arith) in
      rw (get_hash_bucket_size, e) (omega arith, h)
]

-- `Rebuild` succeeds, leaves a valid table that holds the same map, and cancels every iterator, for any
-- number of buckets that is asked for.
pub rebuild_lem :
    (sqrt : ℕ → ℕ) (db : TinyDbm) (num_buckets : ℕ)
    → IsValid db
    → ((rebuild sqrt db num_buckets).0 ≡ status_of success)
      × IsValid (rebuild sqrt db num_buckets).1
      × ((j : Bytes) → lookup (rebuild sqrt db num_buckets).1 j ≡ lookup db j)
      × ((rebuild sqrt db num_buckets).1.iterators ≡ cancel_iterators db.iterators)
unfolding rebuild
rebuild_lem sqrt db num_buckets v =
    let wanted = if ltb 0 num_buckets then num_buckets else db.num_records * 2 + 1 in
    let size = min wanted max_num_buckets in
    let kept =
      rebuild_to-IsValid db (get_hash_bucket_size sqrt size) (get_hash_bucket_size-ge sqrt size).0
        v in
    (refl, kept.0, kept.1, refl)
