-- ===== src/Hash.antt =====
-- Hash functions: `HashMurmur` and `HashFNV` of tkrzw_hash_util.cc, and `PrimaryHash` and
-- `SecondaryHash` of tkrzw_dbm_common_impl.h. A uint64_t is a number below 2 ^ 64.
pub mod Checksum
pub mod Crc
use tkrzw.Base.{ℕ, ◌+◌, ◌*◌, ◌/◌, ◌%◌, ◌^◌, ◌<◌, arith, Bytes, [], ◌∷◌, leb, if◌then◌else◌, length}
use Prim.Native.Nat.{bit_and, bit_or, bit_xor}

abbrev mul64 : ℕ → ℕ → ℕ
mul64 a b = a * b % 2 ^ 64

abbrev murmur_mul : ℕ
murmur_mul = 0xc6a4a7935bd1e995

-- `num ^= num >> rtt`.
abbrev fold47 : ℕ → ℕ
fold47 n = bit_xor n (n / 2 ^ 47)

-- Bytes with the lowest first.
unfoldable pub little_endian : Bytes → ℕ
little_endian [] = 0
little_endian (c ∷ cs) = c + 256 * little_endian cs

-- One round on eight bytes.
unfoldable pub murmur_round : ℕ → ℕ → ℕ
murmur_round hash num =
    bit_xor (mul64 hash murmur_mul) (mul64 (fold47 (mul64 num murmur_mul)) murmur_mul)

-- The switch over the bytes that are left: none, or they are joined from the lowest and mixed in.
unfoldable pub murmur_tail : ℕ → Bytes → ℕ
unfolding little_endian
murmur_tail hash [] = hash
murmur_tail hash (c ∷ cs) = mul64 (bit_xor hash (little_endian (c ∷ cs))) murmur_mul

-- The loop over groups of eight bytes.
unfoldable pub murmur_loop : ℕ → Bytes → ℕ
unfolding murmur_round murmur_tail little_endian
murmur_loop hash (a ∷ b ∷ c ∷ d ∷ e ∷ f ∷ g ∷ h ∷ rest) =
    murmur_loop (murmur_round hash (little_endian (a ∷ b ∷ c ∷ d ∷ e ∷ f ∷ g ∷ h ∷ []))) rest
murmur_loop hash rest = murmur_tail hash rest

unfoldable pub hash_murmur : Bytes → ℕ → ℕ
unfolding murmur_loop
hash_murmur buf seed =
    let hash = murmur_loop (bit_xor seed (mul64 (length buf) murmur_mul)) buf in
    fold47 (mul64 (fold47 hash) murmur_mul)

unfoldable pub fnv_loop : ℕ → Bytes → ℕ
fnv_loop hash [] = hash
fnv_loop hash (c ∷ cs) = fnv_loop (mul64 (bit_xor hash c) 109951162811) cs

unfoldable pub hash_fnv : Bytes → ℕ
unfolding fnv_loop
hash_fnv buf = fnv_loop 14695981039346656037 buf

-- The fold of 64 bits to 32 for tables of less than 2 ^ 32 buckets.
unfoldable pub fold_hash : ℕ → ℕ → ℕ
fold_hash hash num_buckets =
    if leb num_buckets 0xffffffff
    then bit_xor
        (bit_or (bit_and hash 0xffff000000000000 / 2 ^ 48)
          (bit_and hash 0x0000ffff00000000 / 2 ^ 16))
        (bit_or (bit_and hash 0x000000000000ffff * 2 ^ 16)
          (bit_and hash 0x00000000ffff0000 / 2 ^ 16))
    else hash

unfoldable pub primary_hash : Bytes → ℕ → ℕ
unfolding hash_murmur fold_hash
primary_hash buf num_buckets = fold_hash (hash_murmur buf 19780211) num_buckets % num_buckets

unfoldable pub secondary_hash : Bytes → ℕ → ℕ
unfolding hash_fnv fold_hash
secondary_hash buf num_shards = fold_hash (hash_fnv buf) num_shards % num_shards

pub primary_hash-lt : (buf : Bytes) (n : ℕ) → 0 < n → primary_hash buf n < n
unfolding primary_hash
primary_hash-lt buf n h = omega arith
