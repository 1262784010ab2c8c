-- ===== src/Codec/FixNum.antt =====
-- Fixed-width big-endian numbers: `WriteFixNum` and `ReadFixNum` of tkrzw_sys_config.h, and the
-- strings of `IntToStrBigEndian` and `StrToIntBigEndian` of tkrzw_str_util.cc.
use tkrzw.Base.{
  ℕ, zero, suc, ◌+◌, ◌-◌, ◌*◌, ◌/◌, ◌%◌, ◌^◌, ◌≤◌, ◌<◌, min, ◌≡◌, ap, ◌∙◌, sym, take_append,
  take_all, arith, ltb, Bytes, [], ◌∷◌, ◌++◌, if◌then◌else◌, length, take, drop, replicate,
}

-- The bytes of `num` in network order: `HostToNet64` of it, as it lies in memory, for eight bytes.
unfoldable pub net_bytes : ℕ → ℕ → Bytes
net_bytes zero num = []
net_bytes (suc w) num = net_bytes w (num / 256) ++ (num % 256) ∷ []

-- The number that bytes in network order stand for.
unfoldable pub from_net : ℕ → Bytes → ℕ
from_net acc [] = acc
from_net acc (c ∷ cs) = from_net (acc * 256 + c) cs

-- The last `width` of the eight bytes.
unfoldable pub write_fix_num : ℕ → ℕ → Bytes
write_fix_num num width = drop (8 - width) (net_bytes 8 (num % 2 ^ 64))

-- `width` bytes are copied to the front of a zero number, which is shifted down again.
unfoldable pub read_fix_num : Bytes → ℕ → ℕ
read_fix_num buf width =
    from_net 0 (take width buf ++ replicate (8 - width) 0) / 2 ^ ((8 - width) * 8)

unfoldable pub str_to_int_big_endian : Bytes → ℕ
str_to_int_big_endian [] = 0
str_to_int_big_endian (c ∷ cs) = read_fix_num (c ∷ cs) (min (length (c ∷ cs)) 8)

unfoldable pub int_to_str_big_endian : ℕ → ℕ → Bytes
int_to_str_big_endian num size = if ltb size 1 then [] else write_fix_num num (min size 8)

-- What stands behind the number is not read.
pub read_fix_num-append :
    (buf rest : Bytes) (width : ℕ)
    → length buf ≡ width
    → read_fix_num (buf ++ rest) width ≡ read_fix_num buf width
unfolding read_fix_num
read_fix_num-append buf rest width h =
    ap (λ b. from_net 0 (b ++ replicate (8 - width) 0) / 2 ^ ((8 - width) * 8))
      (rw (sym h) (take_append buf rest ∙ sym (take_all (length buf) buf (omega arith))))

-- A number that fits in `width` bytes comes back from them, at every width from 1 to 8.
pub read_fix_num-write_fix_num :
    (width num : ℕ)
    → 1 ≤ width
    → width ≤ 8
    → num < 2 ^ (width * 8)
    → (read_fix_num (write_fix_num num width) width ≡ num)
      × (length (write_fix_num num width) ≡ width)
unfolding write_fix_num read_fix_num net_bytes from_net
read_fix_num-write_fix_num zero num lo hi h = absurd (omega arith)
read_fix_num-write_fix_num (suc zero) num lo hi h = omega arith
read_fix_num-write_fix_num (suc (suc zero)) num lo hi h = omega arith
read_fix_num-write_fix_num (suc (suc (suc zero))) num lo hi h = omega arith
read_fix_num-write_fix_num (suc (suc (suc (suc zero)))) num lo hi h = omega arith
read_fix_num-write_fix_num (suc (suc (suc (suc (suc zero))))) num lo hi h = omega arith
read_fix_num-write_fix_num (suc (suc (suc (suc (suc (suc zero)))))) num lo hi h = omega arith
read_fix_num-write_fix_num (suc (suc (suc (suc (suc (suc (suc zero))))))) num lo hi h = omega arith
read_fix_num-write_fix_num (suc (suc (suc (suc (suc (suc (suc (suc zero)))))))) num lo hi h =
    omega arith
read_fix_num-write_fix_num (suc (suc (suc (suc (suc (suc (suc (suc (suc w))))))))) num lo hi h =
    absurd (omega arith)

-- A 64-bit number comes back from its string of eight bytes.
pub str_to_int-int_to_str :
    (num : ℕ) → num < 2 ^ 64 → str_to_int_big_endian (int_to_str_big_endian num 8) ≡ num
unfolding str_to_int_big_endian int_to_str_big_endian write_fix_num read_fix_num net_bytes from_net
str_to_int-int_to_str num h = omega arith

pub length-int_to_str : (num : ℕ) → length (int_to_str_big_endian num 8) ≤ 8
unfolding int_to_str_big_endian write_fix_num net_bytes
length-int_to_str num = omega arith
