-- ===== src/HashDbm/Layout.antt =====
-- The bytes of a record and the bounds of what they hold.
use tkrzw.Base.{
  ℕ, zero, suc, ◌+◌, ◌-◌, ◌*◌, ◌/◌, ◌%◌, ◌^◌, ◌≤◌, ◌<◌, ◌≡◌, ◌⊎◌, inl, inr, refl, ap, ◌∙◌, arith,
  Bytes, true, false, ltb, All, IsByte, Bool-cases, agree_below, agree_below→eq,
}
use Prim.Native.Nat.{bit_and}
use native.Mathlib.Nat.{pow-suc, mod-lt, mod-add-div, mul-add-mod_self_left}
use tkrzw.Hash.Crc.{hash_crc8-lt, hash_crc16-lt, hash_crc32-lt}
use tkrzw.HashDbm.Record.{
  Format, OperationType, op_void, op_set, op_remove, op_add, align_number, crc_of, magic_of,
  operation_of,
}

-- The formats that a database uses.
pub record IsFormat (fmt : Format) : Type 0 where
  pub offset_low : 1 ≤ fmt.offset_width
  pub offset_high : fmt.offset_width ≤ 8
  pub crc : (fmt.crc_width ≡ 0) ⊎ (fmt.crc_width ≡ 1) ⊎ (fmt.crc_width ≡ 2) ⊎ (fmt.crc_width ≡ 4)

pub two_pow-pos : (n : ℕ) → 0 < 2 ^ n
two_pow-pos zero = omega arith
two_pow-pos (suc n) = omega (arith, pow-suc 2 n, two_pow-pos n)

mul_add_one : (a q : ℕ) → a * (q + 1) ≡ a * q + a
mul_add_one a q = grind arith

zero-mod_lem : (a : ℕ) → 0 % a ≡ 0
zero-mod_lem a = grind arith

-- The whole size is the least multiple of the alignment that the record fits in.
pub align_number_lem :
    (num pow : ℕ)
    → (num ≤ align_number num (2 ^ pow))
      × (align_number num (2 ^ pow) < num + 2 ^ pow)
      × (align_number num (2 ^ pow) % 2 ^ pow ≡ 0)
unfolding align_number
align_number_lem num pow =
    let a = 2 ^ pow in
    let positive = two_pow-pos pow in
    let rest = mod-lt num positive in
    let whole = mod-add-div num a in
    elim (Bool-cases (ltb 0 (num % a))) [
      | inl e ↦
          let h : 0 < num % a = ground arith in
          let up : num + (a - num % a) ≡ a * (num / a + 1) + 0 =
            omega (arith, mul_add_one a (num / a)) in
          rw e (
            omega arith,
            omega arith,
            ap (λ n. n % a) up ∙ mul-add-mod_self_left a (num / a + 1) 0 ∙ zero-mod_lem a,
          )
      | inr e ↦ rw e (omega arith, omega arith, ground arith)
    ]

abbrev code : OperationType → ℕ
code op_void = 0xC0
code op_set = 0x80
code op_remove = 0x40
code op_add = 0

module _ (op : OperationType) where
  abbrev kept : ℕ → ℕ
  kept c = bit_and (magic_of op c) 0xFFFFFF3F

  abbrev flags : ℕ → ℕ
  flags c = bit_and (magic_of op c) 0xC0

magic_kept : (op : OperationType) → agree_below (kept op) (λ c. c) 64 ≡ true
unfolding agree_below magic_of
magic_kept op_void = refl
magic_kept op_set = refl
magic_kept op_remove = refl
magic_kept op_add = refl

magic_flags : (op : OperationType) → agree_below (flags op) (λ c. code op) 64 ≡ true
unfolding agree_below magic_of
magic_flags op_void = refl
magic_flags op_set = refl
magic_flags op_remove = refl
magic_flags op_add = refl

operation_of-code : (op : OperationType) → operation_of (code op) ≡ op
operation_of-code op_void = refl
operation_of-code op_set = refl
operation_of-code op_remove = refl
operation_of-code op_add = refl

-- The first byte gives the operation and the six bits of the checksum back.
pub magic_of-bit_and :
    (op : OperationType) (c : ℕ)
    → c < 64
    → (bit_and (magic_of op c) 0xFFFFFF3F ≡ c) × (operation_of (bit_and (magic_of op c) 0xC0) ≡ op)
magic_of-bit_and op c h = (
  agree_below→eq (kept op) (λ c. c) 64 (magic_kept op) c h,
  ap operation_of (agree_below→eq (flags op) (λ c. code op) 64 (magic_flags op) c h)
      ∙ operation_of-code op,
)

-- The value of the switch over the widths fits in the width.
pub crc_of-lt :
    (fmt : Format) (key value : Bytes)
    → IsFormat fmt
    → All IsByte key
    → All IsByte value
    → crc_of fmt.crc_width key value < 2 ^ (fmt.crc_width * 8)
unfolding crc_of
crc_of-lt fmt key value v hk hv = elim (v.crc) [
  | inl e ↦ rw e (omega arith)
  | inr (inl e) ↦ rw e (hash_crc8-lt value true _ hv (hash_crc8-lt key false 0 hk (omega arith)))
  | inr (inr (inl e)) ↦ rw e (hash_crc16-lt value true _)
  | inr (inr (inr e)) ↦
      rw e (hash_crc32-lt value true _ hv (hash_crc32-lt key false 0xFFFFFFFF hk (omega arith)))
]
