-- ===== src/HashDbm/Padding.antt =====
-- The check of the padding in `ReadMetadataKey` accepts what `Write` puts behind the value.
use tkrzw.Base.{
  ℕ, zero, suc, ◌+◌, ◌-◌, ◌≤◌, ◌<◌, ◌≡◌, refl, arith, Bytes, [], ◌∷◌, ◌++◌, true, length, take,
  replicate, ltb, length-replicate,
}
use tkrzw.Codec.VarNum.{size_var_num}
use tkrzw.HashDbm.Record.{padding_bytes, padding_ok, padding_top_magic, max_value_size}

padding_ok-zero : (buf : Bytes) → padding_ok 0 buf ≡ true
unfolding padding_ok
padding_ok-zero [] = refl
padding_ok-zero (c ∷ []) = refl
padding_ok-zero (c ∷ d ∷ rest) = refl

size_var_num-lt : (n : ℕ) → 2 ≤ n → n ≤ max_value_size → size_var_num n < n
unfolding size_var_num
size_var_num-lt n h hm = ground arith

-- The magic byte, and a zero behind it if there is room for one.
padding_bytes-suc :
    (padding : ℕ)
    → padding_bytes (suc padding)
      ≡ padding_top_magic ∷ replicate (suc padding - size_var_num (suc padding)) 0
unfolding padding_bytes
padding_bytes-suc padding = let e : ltb 0 (suc padding) ≡ true = ground arith in rw e refl

padding_ok-two :
    (padding : ℕ) (rest : Bytes) → padding_ok padding (padding_top_magic ∷ 0 ∷ rest) ≡ true
unfolding padding_ok
padding_ok-two padding rest = ground arith

padding_ok-one : (padding : ℕ) → padding_ok padding (padding_top_magic ∷ []) ≡ true
unfolding padding_ok
padding_ok-one padding = ground arith

padding_ok-single : (buf : Bytes) → padding_ok 1 (padding_top_magic ∷ buf) ≡ true
unfolding padding_ok
padding_ok-single [] = refl
padding_ok-single (c ∷ buf) = refl

-- However much of the padding and of what follows is in the buffer.
pub padding_ok-padding_bytes :
    (n padding : ℕ) (rest : Bytes)
    → padding ≤ max_value_size
    → padding_ok padding (take n (padding_bytes padding ++ rest)) ≡ true
padding_ok-padding_bytes zero padding rest h = unfold padding_ok in refl
padding_ok-padding_bytes (suc n) zero rest h = padding_ok-zero _
padding_ok-padding_bytes (suc zero) (suc padding) rest h =
    rw (padding_bytes-suc padding) (padding_ok-one (suc padding))
padding_ok-padding_bytes (suc (suc n)) (suc zero) rest h =
    rw (padding_bytes-suc 0) (padding_ok-single _)
padding_ok-padding_bytes (suc (suc n)) (suc (suc padding)) rest h =
    let p = suc (suc padding) in
    let e : p - size_var_num p ≡ suc (p - size_var_num p - 1) =
      omega (arith, size_var_num-lt p (omega arith) h) in
    rw (padding_bytes-suc (suc padding)) (rw e (padding_ok-two p _))

-- The size field and the padding together are one byte longer than the size says.
pub length-padding_bytes :
    (padding : ℕ)
    → padding ≤ max_value_size
    → length (padding_bytes padding) + size_var_num padding ≡ padding + 1
length-padding_bytes zero h = unfold padding_bytes in unfold size_var_num in refl
length-padding_bytes (suc zero) h = unfold padding_bytes in unfold size_var_num in refl
length-padding_bytes (suc (suc padding)) h =
    let p = suc (suc padding) in
    let fill = p - size_var_num p in
    rw (padding_bytes-suc (suc padding))
      (omega (arith, size_var_num-lt p (omega arith) h, length-replicate {A = ℕ} fill 0))
