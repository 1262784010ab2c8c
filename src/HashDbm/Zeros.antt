-- ===== src/HashDbm/Zeros.antt =====
-- The zeros behind the blocks of a serialized free block pool (tkrzw_dbm_hash_impl.cc).
use native.Mathlib.Nat.{zero-div}
use tkrzw.Base.{
  ◌-◌, ◌*◌, ◌^◌, ℕ, zero, suc, ◌≡◌, refl, Bytes, [], ◌∷◌, ◌++◌, take, drop, replicate, All,
}
use tkrzw.Codec.FixNum.{read_fix_num, from_net}

abbrev pub AllZero : Bytes → Type 0
AllZero = All (λ c. c ≡ 0)

pub replicate-AllZero : (n : ℕ) → AllZero (replicate n 0)
replicate-AllZero zero = tt
replicate-AllZero (suc n) = (refl, replicate-AllZero n)

pub drop-AllZero : (n : ℕ) (xs : Bytes) → AllZero xs → AllZero (drop n xs)
drop-AllZero zero xs h = h
drop-AllZero (suc n) [] h = tt
drop-AllZero (suc n) (x ∷ xs) h = drop-AllZero n xs h.1

take-AllZero : (n : ℕ) (xs : Bytes) → AllZero xs → AllZero (take n xs)
take-AllZero zero xs h = tt
take-AllZero (suc n) [] h = tt
take-AllZero (suc n) (x ∷ xs) h = (h.0, take-AllZero n xs h.1)

append-AllZero : (xs ys : Bytes) → AllZero xs → AllZero ys → AllZero (xs ++ ys)
append-AllZero [] ys hx hy = hy
append-AllZero (x ∷ xs) ys hx hy = (hx.0, append-AllZero xs ys hx.1 hy)

from_net-AllZero : (xs : Bytes) → AllZero xs → from_net 0 xs ≡ 0
unfolding from_net
from_net-AllZero [] h = refl
from_net-AllZero (x ∷ xs) h = rw h.0 (from_net-AllZero xs h.1)

-- The zeros behind the blocks are read as the size 0.
pub read_zeros : (xs : Bytes) → AllZero xs → read_fix_num xs 4 ≡ 0
unfolding read_fix_num
read_zeros xs h =
    let z =
      from_net-AllZero (take 4 xs ++ replicate 4 0)
        (append-AllZero (take 4 xs) (replicate 4 0) (take-AllZero 4 xs h) (replicate-AllZero 4)) in
    rw z refl

-- A number of zeros is 0.
pub read_zeros_width : (width : ℕ) → read_fix_num (replicate width 0) width ≡ 0
unfolding read_fix_num
read_zeros_width width =
    let rest = replicate (8 - width) 0 in
    let z = from_net-AllZero (take width (replicate width 0) ++ rest) (
      append-AllZero (take width (replicate width 0)) rest
        (take-AllZero width (replicate width 0) (replicate-AllZero width))
        (replicate-AllZero (8 - width))) in
    rw z (zero-div (2 ^ ((8 - width) * 8)))
