-- ===== src/Hash/Crc.antt =====
-- The cyclic checksums of tkrzw_hash_util.cc in the portable form, for builds with `_TKRZW_STDONLY`:
-- `HashCRC8Continuous`, `HashCRC16Continuous` and `HashCRC32Continuous`. A table's entry is computed
-- where it is read.
use tkrzw.Base.{
  ℕ, zero, suc, ◌*◌, ◌/◌, ◌%◌, ◌^◌, ◌==◌, ◌≡◌, refl, Bytes, [], ◌∷◌, ◌++◌, Bool, false,
  if◌then◌else◌, bit_xor-lt, bit_and-le, All, IsByte, arith, ◌<◌,
}
use Prim.Native.Nat.{bit_and, bit_xor}

-- A loop that changes a number `n` times.
abbrev iterate : ℕ → (ℕ → ℕ) → ℕ → ℕ
iterate zero f c = c
iterate (suc n) f c = iterate n f (f c)

-- The eight steps that make an entry of a table.
unfoldable pub crc8_entry : ℕ → ℕ
crc8_entry i = iterate 8 (λ c. bit_xor (c * 2 % 256) (if bit_and c 0x80 == 0 then 0 else 0x07)) i

unfoldable pub crc16_entry : ℕ → ℕ
crc16_entry i =
    iterate 8
      (λ c. let c' = c * 2 % 2 ^ 16 in if bit_and c 0x8000 == 0 then c' else bit_xor 0x1021 c')
      (i * 2 ^ 8)

abbrev crc32_step : ℕ → ℕ
crc32_step c = if bit_and c 1 == 0 then c / 2 else bit_xor 0xEDB88320 (c / 2)

unfoldable pub crc32_entry : ℕ → ℕ
crc32_entry i = iterate 8 crc32_step i

unfoldable pub crc8_loop : ℕ → Bytes → ℕ
crc8_loop crc [] = crc
crc8_loop crc (b ∷ bs) = crc8_loop (crc8_entry (bit_xor crc b)) bs

unfoldable pub crc16_loop : ℕ → Bytes → ℕ
crc16_loop crc [] = crc
crc16_loop crc (b ∷ bs) =
    crc16_loop
      (bit_xor (crc16_entry (bit_and (bit_xor (crc / 2 ^ 8) b) 0xFF)) (crc * 2 ^ 8 % 2 ^ 32)) bs

unfoldable pub crc32_loop : ℕ → Bytes → ℕ
crc32_loop crc [] = crc
crc32_loop crc (b ∷ bs) =
    crc32_loop (bit_xor (crc / 2 ^ 8) (crc32_entry (bit_xor (bit_and crc 0xFF) b))) bs

unfoldable pub hash_crc8_continuous : Bytes → Bool → ℕ → ℕ
hash_crc8_continuous buf finish seed = crc8_loop seed buf

unfoldable pub hash_crc16_continuous : Bytes → Bool → ℕ → ℕ
hash_crc16_continuous buf finish seed = bit_and (crc16_loop seed buf) 0xFFFF

unfoldable pub hash_crc32_continuous : Bytes → Bool → ℕ → ℕ
hash_crc32_continuous buf finish seed =
    let crc = crc32_loop seed buf in if finish then bit_xor crc 0xFFFFFFFF else crc

crc32_loop-append :
    (xs ys : Bytes) (crc : ℕ) → crc32_loop crc (xs ++ ys) ≡ crc32_loop (crc32_loop crc xs) ys
unfolding crc32_loop
crc32_loop-append [] ys crc = refl
crc32_loop-append (x ∷ xs) ys crc = crc32_loop-append xs ys _

crc8_loop-append :
    (xs ys : Bytes) (crc : ℕ) → crc8_loop crc (xs ++ ys) ≡ crc8_loop (crc8_loop crc xs) ys
unfolding crc8_loop
crc8_loop-append [] ys crc = refl
crc8_loop-append (x ∷ xs) ys crc = crc8_loop-append xs ys _

-- Checksums of data in two parts, the first not finished, are those of the whole.
pub hash_crc-append :
    (xs ys : Bytes) (finish : Bool) (seed : ℕ)
    → (hash_crc32_continuous ys finish (hash_crc32_continuous xs false seed)
        ≡ hash_crc32_continuous (xs ++ ys) finish seed)
      × (hash_crc8_continuous ys finish (hash_crc8_continuous xs false seed)
          ≡ hash_crc8_continuous (xs ++ ys) finish seed)
unfolding hash_crc32_continuous hash_crc8_continuous
hash_crc-append xs ys finish seed =
    (rw (crc32_loop-append xs ys seed) refl, rw (crc8_loop-append xs ys seed) refl)

iterate-lt :
    (bound n : ℕ) (f : ℕ → ℕ) (c : ℕ)
    → ((x : ℕ) → x < bound → f x < bound)
    → c < bound
    → iterate n f c < bound
iterate-lt bound zero f c h hc = hc
iterate-lt bound (suc n) f c h hc = iterate-lt bound n f (f c) h (h c hc)

crc8_entry-lt : (i : ℕ) → i < 2 ^ 8 → crc8_entry i < 2 ^ 8
unfolding crc8_entry
crc8_entry-lt i h =
    iterate-lt (2 ^ 8) 8 _ i
      (λ c hc.
        bit_xor-lt (c * 2 % 256) (if bit_and c 0x80 == 0 then 0 else 0x07) 8 (omega arith)
          (ground arith))
      h

crc32_entry-lt : (i : ℕ) → i < 2 ^ 32 → crc32_entry i < 2 ^ 32
unfolding crc32_entry
crc32_entry-lt i h =
    iterate-lt (2 ^ 32) 8 crc32_step i
      (λ c hc. let e = bit_xor-lt 0xEDB88320 (c / 2) 32 (omega arith) (omega arith) in ground arith)
      h

crc8_loop-lt : (buf : Bytes) (crc : ℕ) → All IsByte buf → crc < 2 ^ 8 → crc8_loop crc buf < 2 ^ 8
unfolding crc8_loop
crc8_loop-lt [] crc h hc = hc
crc8_loop-lt (b ∷ bs) crc h hc =
    crc8_loop-lt bs (crc8_entry (bit_xor crc b)) h.1
      (crc8_entry-lt (bit_xor crc b) (bit_xor-lt crc b 8 hc h.0))

crc32_loop-lt :
    (buf : Bytes) (crc : ℕ) → All IsByte buf → crc < 2 ^ 32 → crc32_loop crc buf < 2 ^ 32
unfolding crc32_loop
crc32_loop-lt [] crc h hc = hc
crc32_loop-lt (b ∷ bs) crc h hc =
    let byte =
      bit_xor-lt (bit_and crc 0xFF) b 8 (omega (arith, bit_and-le crc 0xFF)) (omega (arith, h.0)) in
    let entry = crc32_entry-lt (bit_xor (bit_and crc 0xFF) b) (omega arith) in
    crc32_loop-lt bs (bit_xor (crc / 2 ^ 8) (crc32_entry (bit_xor (bit_and crc 0xFF) b))) h.1
      (bit_xor-lt (crc / 2 ^ 8) (crc32_entry (bit_xor (bit_and crc 0xFF) b)) 32 (omega arith) entry)

-- The checksums of bytes fit in 8, 16 and 32 bits, from seeds that do.
pub hash_crc8-lt :
    (buf : Bytes) (finish : Bool) (seed : ℕ)
    → All IsByte buf
    → seed < 2 ^ 8
    → hash_crc8_continuous buf finish seed < 2 ^ 8
unfolding hash_crc8_continuous
hash_crc8-lt buf finish seed h hs = crc8_loop-lt buf seed h hs

pub hash_crc16-lt :
    (buf : Bytes) (finish : Bool) (seed : ℕ) → hash_crc16_continuous buf finish seed < 2 ^ 16
unfolding hash_crc16_continuous
hash_crc16-lt buf finish seed = omega (arith, bit_and-le (crc16_loop seed buf) 0xFFFF)

pub hash_crc32-lt :
    (buf : Bytes) (finish : Bool) (seed : ℕ)
    → All IsByte buf
    → seed < 2 ^ 32
    → hash_crc32_continuous buf finish seed < 2 ^ 32
unfolding hash_crc32_continuous
hash_crc32-lt buf finish seed h hs =
    let c = crc32_loop-lt buf seed h hs in
    let x = bit_xor-lt (crc32_loop seed buf) 0xFFFFFFFF 32 c (omega arith) in ground arith
