-- ===== src/Codec/VarRound.antt =====
-- What `read_var_num` makes of the bytes that `write_var_num` writes.
use tkrzw.Base.{
  ℕ, zero, suc, ◌+◌, ◌-◌, ◌*◌, ◌/◌, ◌%◌, ◌^◌, ◌≤◌, ◌<◌, ◌≡◌, refl, ◌∙◌, arith, Bytes, [], ◌∷◌, ◌++◌,
  length, some, agree_below, agree_below→eq,
}
use Prim.Native.Nat.{bit_or}
use native.Mathlib.Nat.{pow-suc}
use tkrzw.Codec.VarNum.{inner, first, write_var_num, read_loop, read_var_num, size_var_num}

set_top_bit : (c : ℕ) → c < 128 → bit_or c 0x80 ≡ c + 128
unfolding agree_below
set_top_bit = agree_below→eq (λ c. bit_or c 0x80) (λ c. c + 128) 128 refl

-- `k` continuation bytes that hold `n`, for `n` below 128 ^ k.
groups : ℕ → ℕ → Bytes → Bytes
groups zero n rest = rest
groups (suc k) n rest = groups k (n / 128) ((n % 128 + 128) ∷ rest)

first-eq : (c : ℕ) → c < 128 → first c ≡ c % 128 + 128
first-eq c h = omega (arith, set_top_bit c h)

inner-eq : (c : ℕ) → inner c ≡ c % 128 + 128
inner-eq c = set_top_bit (c % 128) (omega arith)

abbrev whole : ℕ → ℕ → Bytes → Bytes
whole k n rest = groups k (n / 128) ((n % 128) ∷ rest)

read-groups :
    (k n : ℕ) (rest : Bytes)
    → n < 128 ^ k
    → n < 2 ^ 57
    → read_loop 0 (groups k n rest) ≡ read_loop n rest
unfolding groups
read-groups zero n rest h b = let e : n ≡ 0 = omega arith in rw e
read-groups (suc k) n rest h b =
    read-groups k (n / 128) ((n % 128 + 128) ∷ rest) (omega (arith, pow-suc 128 k)) (omega arith)
    ∙ unfold read_loop in ground arith

-- The written form in one shape for all sizes.
write-whole :
    (num : ℕ) (rest : Bytes)
    → num < 2 ^ 64
    → write_var_num num ++ rest ≡ whole (size_var_num num - 1) num rest
unfolding write_var_num size_var_num groups
write-whole num rest h = ground (
  arith,
  first-eq (num / 2 ^ 7),
  inner-eq (num / 2 ^ 7),
  first-eq (num / 2 ^ 14),
  inner-eq (num / 2 ^ 14),
  first-eq (num / 2 ^ 21),
  inner-eq (num / 2 ^ 21),
  first-eq (num / 2 ^ 28),
  inner-eq (num / 2 ^ 28),
  first-eq (num / 2 ^ 35),
  inner-eq (num / 2 ^ 35),
  first-eq (num / 2 ^ 42),
  inner-eq (num / 2 ^ 42),
  first-eq (num / 2 ^ 49),
  inner-eq (num / 2 ^ 49),
  first-eq (num / 2 ^ 56),
  inner-eq (num / 2 ^ 56),
  first-eq (num / 2 ^ 63),
  inner-eq (num / 2 ^ 63),
)

size_bound : (num : ℕ) → num < 2 ^ 64 → num / 128 < 128 ^ (size_var_num num - 1)
unfolding size_var_num
size_bound num h = ground arith

-- Reading back what was written gives the number and leaves what follows, at all 64-bit numbers.
pub read_var_num-write_var_num :
    (num : ℕ) (rest : Bytes)
    → num < 2 ^ 64
    → read_var_num (write_var_num num ++ rest) ≡ some (num, rest)
unfolding read_var_num
read_var_num-write_var_num num rest h = rw (write-whole num rest h) (
    read-groups (size_var_num num - 1) (num / 128) ((num % 128) ∷ rest) (size_bound num h)
      (omega arith)
    ∙ unfold read_loop in ground arith)

-- `SizeVarNum` is the number of bytes that `WriteVarNum` writes, and lies from 1 to 10.
pub length-write_var_num :
    (num : ℕ)
    → (length (write_var_num num) ≡ size_var_num num)
      × (1 ≤ size_var_num num)
      × (size_var_num num ≤ 10)
unfolding write_var_num size_var_num
length-write_var_num num = ground arith

-- A larger number never has a shorter form.
pub size_var_num_mono : (a b : ℕ) → a ≤ b → size_var_num a ≤ size_var_num b
unfolding size_var_num
size_var_num_mono a b h = ground arith

read_loop_shorter :
    (buf : Bytes) (num v : ℕ) (rest : Bytes)
    → read_loop num buf ≡ some (v, rest)
    → (length rest < length buf) × (v < 2 ^ 64)
unfolding read_loop
read_loop_shorter [] num v rest h = cc
read_loop_shorter (c ∷ cs) num v rest h =
    ground (arith, read_loop_shorter cs ((num * 2 ^ 7 + c % 2 ^ 7) % 2 ^ 64) v rest)

-- A successful read takes at least one byte and gives a 64-bit number, on any input.
pub read_var_num_shorter :
    (buf : Bytes) (v : ℕ) (rest : Bytes)
    → read_var_num buf ≡ some (v, rest)
    → (length rest < length buf) × (v < 2 ^ 64)
unfolding read_var_num
read_var_num_shorter buf v rest h = read_loop_shorter buf 0 v rest h
