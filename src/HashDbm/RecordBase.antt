-- ===== src/HashDbm/RecordBase.antt =====
-- The record base of `HashDBMImpl::SetRecordBase` (tkrzw_dbm_hash.cc) and the alignment of the records.
use native.Mathlib.Nat.{pow-le-pow_right, mod-mod_of_dvd, dvd_of_mod-eq-zero}
use tkrzw.Base.{
  ℕ, zero, suc, ◌+◌, ◌*◌, ◌%◌, ◌^◌, ◌≤◌, ◌≡◌, ap, ◌∙◌, sym, arith, ltb, Bool-cases, inl, inr,
}
use tkrzw.HashDbm.Record.{Format, align_number}
use tkrzw.HashDbm.Layout.{align_number_lem}
use tkrzw.HashDbm.Table.{metadata_size}
use tkrzw.HashDbm.Buckets.{record_base}

small_exponent : (a : ℕ) → 2 ^ a ≤ 4096 → a ≤ 12
small_exponent a h = elim (Bool-cases (ltb a 13)) [
  | inl e ↦ ground arith
  | inr e ↦
      let large : 2 ^ 13 ≤ 2 ^ a =
        pow-le-pow_right {n = 2} (omega arith) {i = 13} {j = a} (ground arith) in
      absurd (omega (arith, h, large))
]

-- The powers of two up to 4096 divide it.
small_power : (a : ℕ) → 2 ^ a ≤ 4096 → 4096 % 2 ^ a ≡ 0
small_power zero h = omega arith
small_power (suc zero) h = omega arith
small_power (suc (suc zero)) h = omega arith
small_power (suc (suc (suc zero))) h = omega arith
small_power (suc (suc (suc (suc zero)))) h = omega arith
small_power (suc (suc (suc (suc (suc zero))))) h = omega arith
small_power (suc (suc (suc (suc (suc (suc zero)))))) h = omega arith
small_power (suc (suc (suc (suc (suc (suc (suc zero))))))) h = omega arith
small_power (suc (suc (suc (suc (suc (suc (suc (suc zero)))))))) h = omega arith
small_power (suc (suc (suc (suc (suc (suc (suc (suc (suc zero))))))))) h = omega arith
small_power (suc (suc (suc (suc (suc (suc (suc (suc (suc (suc zero)))))))))) h = omega arith
small_power (suc (suc (suc (suc (suc (suc (suc (suc (suc (suc (suc zero))))))))))) h = omega arith
small_power (suc (suc (suc (suc (suc (suc (suc (suc (suc (suc (suc (suc zero)))))))))))) h =
    omega arith
small_power (suc (suc (suc (suc (suc (suc (suc (suc (suc (suc (suc (suc (suc a))))))))))))) h =
    absurd (
      omega (
        arith,
        small_exponent
            (suc (suc (suc (suc (suc (suc (suc (suc (suc (suc (suc (suc (suc a))))))))))))) h,
      ))

-- The records begin at a multiple of the alignment.
pub record_base-aligned : (fmt : Format) (n : ℕ) → record_base fmt n % 2 ^ fmt.align_pow ≡ 0
unfolding record_base
record_base-aligned fmt n =
    let least = metadata_size + n * fmt.offset_width + 1008 + 16 in
    let unit = 2 ^ fmt.align_pow in
    elim (Bool-cases (ltb 4096 unit)) [
      | inl e ↦ rw e (align_number_lem least fmt.align_pow).2
      | inr e ↦
          let small : unit ≤ 4096 = ground arith in
          let even : align_number least 4096 % 4096 ≡ 0 = (align_number_lem least 12).2 in
          rw e (
            sym (
              mod-mod_of_dvd unit (align_number least 4096)
                (dvd_of_mod-eq-zero unit (small_power fmt.align_pow small)))
            ∙ ap (λ x. x % unit) even
            ∙ grind arith)
    ]
