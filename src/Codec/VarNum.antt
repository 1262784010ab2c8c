-- ===== src/Codec/VarNum.antt =====
-- Variable-length numbers of tkrzw_sys_config.h: groups of seven bits, highest first, with the top
-- bit set on all but the last.
use tkrzw.Base.{ℕ, ◌+◌, ◌*◌, ◌/◌, ◌%◌, ◌^◌, ltb, Bytes, [], ◌∷◌, if◌then◌else◌, Option, none, some}
use Prim.Native.Nat.{bit_or}

-- `(c & 0x7f) | 0x80`.
abbrev pub inner : ℕ → ℕ
inner c = bit_or (c % 2 ^ 7) 0x80

-- The first byte of a long form, `c | 0x80`, stored in an unsigned char.
abbrev pub first : ℕ → ℕ
first c = bit_or c 0x80 % 256

unfoldable pub write_var_num : ℕ → Bytes
write_var_num num =
    if ltb num (2 ^ 7)
    then num ∷ []
    else if ltb num (2 ^ 14)
    then first (num / 2 ^ 7) ∷ (num % 2 ^ 7) ∷ []
    else if ltb num (2 ^ 21)
    then first (num / 2 ^ 14) ∷ inner (num / 2 ^ 7) ∷ (num % 2 ^ 7) ∷ []
    else if ltb num (2 ^ 28)
    then first (num / 2 ^ 21) ∷ inner (num / 2 ^ 14) ∷ inner (num / 2 ^ 7) ∷ (num % 2 ^ 7) ∷ []
    else if ltb num (2 ^ 35)
    then first (num / 2 ^ 28)
      ∷ inner (num / 2 ^ 21)
      ∷ inner (num / 2 ^ 14)
      ∷ inner (num / 2 ^ 7)
      ∷ (num % 2 ^ 7)
      ∷ []
    else if ltb num (2 ^ 42)
    then first (num / 2 ^ 35)
      ∷ inner (num / 2 ^ 28)
      ∷ inner (num / 2 ^ 21)
      ∷ inner (num / 2 ^ 14)
      ∷ inner (num / 2 ^ 7)
      ∷ (num % 2 ^ 7)
      ∷ []
    else if ltb num (2 ^ 49)
    then first (num / 2 ^ 42)
      ∷ inner (num / 2 ^ 35)
      ∷ inner (num / 2 ^ 28)
      ∷ inner (num / 2 ^ 21)
      ∷ inner (num / 2 ^ 14)
      ∷ inner (num / 2 ^ 7)
      ∷ (num % 2 ^ 7)
      ∷ []
    else if ltb num (2 ^ 56)
    then first (num / 2 ^ 49)
      ∷ inner (num / 2 ^ 42)
      ∷ inner (num / 2 ^ 35)
      ∷ inner (num / 2 ^ 28)
      ∷ inner (num / 2 ^ 21)
      ∷ inner (num / 2 ^ 14)
      ∷ inner (num / 2 ^ 7)
      ∷ (num % 2 ^ 7)
      ∷ []
    else if ltb num (2 ^ 63)
    then first (num / 2 ^ 56)
      ∷ inner (num / 2 ^ 49)
      ∷ inner (num / 2 ^ 42)
      ∷ inner (num / 2 ^ 35)
      ∷ inner (num / 2 ^ 28)
      ∷ inner (num / 2 ^ 21)
      ∷ inner (num / 2 ^ 14)
      ∷ inner (num / 2 ^ 7)
      ∷ (num % 2 ^ 7)
      ∷ []
    else first (num / 2 ^ 63)
      ∷ inner (num / 2 ^ 56)
      ∷ inner (num / 2 ^ 49)
      ∷ inner (num / 2 ^ 42)
      ∷ inner (num / 2 ^ 35)
      ∷ inner (num / 2 ^ 28)
      ∷ inner (num / 2 ^ 21)
      ∷ inner (num / 2 ^ 14)
      ∷ inner (num / 2 ^ 7)
      ∷ (num % 2 ^ 7)
      ∷ []

-- The loop of `ReadVarNum` over the bytes that are left, with the number read so far: the number and
-- the bytes behind it. `none` is the end of the bytes before the end of the number, where the form
-- with a size returns 0.
unfoldable pub read_loop : ℕ → Bytes → Option (ℕ × Bytes)
read_loop num [] = none
read_loop num (c ∷ rest) =
    let num' = (num * 2 ^ 7 + c % 2 ^ 7) % 2 ^ 64 in
    let more = read_loop num' rest in if ltb c 0x80 then some (num', rest) else more

unfoldable pub read_var_num : Bytes → Option (ℕ × Bytes)
read_var_num buf = read_loop 0 buf

unfoldable pub size_var_num : ℕ → ℕ
size_var_num num =
    if ltb num (2 ^ 7)
    then 1
    else if ltb num (2 ^ 14)
    then 2
    else if ltb num (2 ^ 21)
    then 3
    else if ltb num (2 ^ 28)
    then 4
    else if ltb num (2 ^ 35)
    then 5
    else if ltb num (2 ^ 42)
    then 6
    else if ltb num (2 ^ 49)
    then 7
    else if ltb num (2 ^ 56)
    then 8
    else if ltb num (2 ^ 63)
    then 9
    else 10
