-- ===== src/Hash/Checksum.antt =====
-- `HashChecksum6Continuous`, `HashChecksum8Continuous` (tkrzw_hash_util.cc), `HashChecksum6Pair`
-- (tkrzw_hash_util.h) and `MagicChecksum` (tkrzw_dbm_hash_impl.h).
use native.Mathlib.Nat.{mod-lt, mod-eq_of_lt, mod-add-mod}
use tkrzw.Base.{
  ℕ, zero, suc, ◌+◌, ◌*◌, ◌%◌, ◌^◌, ◌≤◌, ◌<◌, min, ◌≡◌, refl, ap, ◌∙◌, sym, arith, Bytes, [], ◌∷◌,
  ◌++◌, if◌then◌else◌, ltb, length, take, drop, All, IsByte, Bool-cases, inl, inr, length-take,
  length-drop, append-take-drop,
}

abbrev pub batch_cap : ℕ
batch_cap = 2 ^ 23

-- The inner loop: a uint32_t to which bytes are added.
unfoldable pub add_bytes : ℕ → Bytes → ℕ
add_bytes seed [] = seed
add_bytes seed (c ∷ cs) = add_bytes ((seed + c) % 2 ^ 32) cs

-- The outer loop, one batch after the other; the fuel is the number of bytes.
unfoldable pub checksum_loop : ℕ → ℕ → ℕ → Bytes → ℕ
checksum_loop modulo zero seed buf = seed
checksum_loop modulo (suc fuel) seed buf =
    let batch_size = min batch_cap (length buf) in
    elim buf [
      | [] ↦ seed
      | c ∷ cs ↦
          checksum_loop modulo fuel (add_bytes seed (take batch_size (c ∷ cs)) % modulo)
            (drop batch_size (c ∷ cs))
    ]

unfoldable pub hash_checksum6_continuous : Bytes → ℕ → ℕ
hash_checksum6_continuous buf seed = checksum_loop 61 (length buf) seed buf

unfoldable pub hash_checksum8_continuous : Bytes → ℕ → ℕ
hash_checksum8_continuous buf seed = checksum_loop 251 (length buf) seed buf

unfoldable pub hash_checksum6_pair : Bytes → Bytes → ℕ → ℕ
hash_checksum6_pair first second seed =
    if ltb (length first + length second) batch_cap
    then add_bytes (add_bytes seed first) second % 61
    else hash_checksum6_continuous second (hash_checksum6_continuous first seed)

unfoldable pub magic_checksum : Bytes → Bytes → ℕ
magic_checksum key value = hash_checksum6_pair key value 11 + 3

-- The plain sum of the bytes.
abbrev pub sum : Bytes → ℕ
sum [] = 0
sum (c ∷ cs) = c + sum cs

abbrev pub AllBytes : Bytes → Type 0
AllBytes = All IsByte

sum-append : (xs ys : Bytes) → sum (xs ++ ys) ≡ sum xs + sum ys
sum-append [] ys = omega arith
sum-append (x ∷ xs) ys = omega (arith, sum-append xs ys)

sum-le : (xs : Bytes) → AllBytes xs → sum xs ≤ length xs * 255
sum-le [] h = omega arith
sum-le (x ∷ xs) h = omega (arith, sum-le xs h.1)

AllBytes-take : (n : ℕ) (xs : Bytes) → AllBytes xs → AllBytes (take n xs)
AllBytes-take zero xs h = tt
AllBytes-take (suc n) [] h = tt
AllBytes-take (suc n) (x ∷ xs) h = (h.0, AllBytes-take n xs h.1)

AllBytes-drop : (n : ℕ) (xs : Bytes) → AllBytes xs → AllBytes (drop n xs)
AllBytes-drop zero xs h = h
AllBytes-drop (suc n) [] h = tt
AllBytes-drop (suc n) (x ∷ xs) h = AllBytes-drop n xs h.1

-- The 32 bits hold the sum of a batch.
add_bytes-sum :
    (xs : Bytes) (seed : ℕ)
    → AllBytes xs
    → seed + sum xs < 2 ^ 32
    → add_bytes seed xs ≡ seed + sum xs
unfolding add_bytes
add_bytes-sum [] seed h b = omega arith
add_bytes-sum (x ∷ xs) seed h b =
    let e : (seed + x) % 2 ^ 32 ≡ seed + x = omega arith in
    rw e (add_bytes-sum xs (seed + x) h.1 (omega arith) ∙ omega arith)

module _ (modulo : ℕ) (small : modulo < 256) (positive : 0 < modulo) where
  checksum_loop-sum :
      (fuel seed : ℕ) (xs : Bytes)
      → length xs ≤ fuel
      → AllBytes xs
      → seed < modulo
      → checksum_loop modulo fuel seed xs ≡ (seed + sum xs) % modulo
  unfolding checksum_loop
  checksum_loop-sum zero seed [] hf h hs =
      let e : seed + 0 ≡ seed = omega arith in rw e (sym (mod-eq_of_lt hs))
  checksum_loop-sum zero seed (x ∷ xs) hf h hs = absurd (omega arith)
  checksum_loop-sum (suc fuel) seed [] hf h hs =
      let e : seed + 0 ≡ seed = omega arith in rw e (sym (mod-eq_of_lt hs))
  checksum_loop-sum (suc fuel) seed (x ∷ xs) hf h hs =
      let buf = x ∷ xs in
      let n = min batch_cap (length buf) in
      let batch = take n buf in
      let size = length-take n buf in
      let bound = sum-le batch (AllBytes-take n buf h) in
      let e = add_bytes-sum batch seed (AllBytes-take n buf h) (omega (arith, size, bound)) in
      let cut = ap sum (append-take-drop n buf) in
      let whole = sum-append batch (drop n buf) in
      let rest =
        checksum_loop-sum fuel ((seed + sum batch) % modulo) (drop n buf)
          (omega (arith, length-drop n buf)) (AllBytes-drop n buf h)
          (mod-lt (seed + sum batch) positive) in
      let total : seed + sum batch + sum (drop n buf) ≡ seed + sum buf =
        omega (arith, cut, whole) in
      rw e (
        rest
        ∙ mod-add-mod (seed + sum batch) modulo (sum (drop n buf))
        ∙ ap (λ t. t % modulo) total)

-- The checksum of a pair is the sum of the bytes of both and of the seed, modulo 61, for data of any
-- size and a seed below 61: splitting it into batches never lets the 32 bits overflow.
pub hash_checksum6_pair-sum :
    (first second : Bytes) (seed : ℕ)
    → AllBytes first
    → AllBytes second
    → seed < 61
    → hash_checksum6_pair first second seed ≡ (seed + sum first + sum second) % 61
unfolding hash_checksum6_pair hash_checksum6_continuous
hash_checksum6_pair-sum first second seed hf hs h =
    elim (Bool-cases (ltb (length first + length second) batch_cap)) [
      | inl e ↦
          let small : length first + length second < batch_cap = ground arith in
          let bf = sum-le first hf in
          let bs = sum-le second hs in
          rw (e, add_bytes-sum first seed hf (omega arith))
            (rw (add_bytes-sum second (seed + sum first) hs (omega arith)) refl)
      | inr e ↦
          rw
            (
              e,
              checksum_loop-sum 61 (omega arith) (omega arith) (length first) seed first
                  (omega arith) hf h,
            )
            (checksum_loop-sum 61 (omega arith) (omega arith) (length second)
                ((seed + sum first) % 61) second (omega arith) hs (omega arith)
              ∙ omega arith)
    ]

-- The first byte of a record keeps six bits for it.
pub magic_checksum_bounds :
    (key value : Bytes)
    → AllBytes key
    → AllBytes value
    → (3 ≤ magic_checksum key value) × (magic_checksum key value < 64)
unfolding magic_checksum
magic_checksum_bounds key value hk hv =
    omega (arith, hash_checksum6_pair-sum key value 11 hk hv (omega arith))
