-- ===== src/HashDbm/Fields.antt =====
-- Single fields in the header of a record (tkrzw_dbm_hash_impl.cc).
use tkrzw.Base.{
  ℕ, zero, suc, ◌*◌, ◌^◌, ◌≤◌, ◌<◌, ◌≡◌, inl, inr, refl, arith, Bytes, [], ◌++◌, true, ltb, length,
  ok,
}
use tkrzw.Codec.VarNum.{write_var_num}
use tkrzw.Codec.VarRound.{read_var_num-write_var_num}
use tkrzw.Codec.FixNum.{read_fix_num, read_fix_num-write_fix_num, from_net}
use tkrzw.HashDbm.Record.{Format, crc_bytes, read_meta_size}
use tkrzw.HashDbm.Layout.{IsFormat}

pub read_meta_size-write :
    (num bound max_read_size : ℕ) (rest : Bytes)
    → num ≤ bound
    → num ≤ max_read_size
    → num < 2 ^ 64
    → read_meta_size (write_var_num num ++ rest) bound max_read_size ≡ ok (num, rest)
unfolding read_meta_size
read_meta_size-write num bound max_read_size rest hb hm h =
    let e = read_var_num-write_var_num num rest h in ground (arith, e)

pub crc_width-le : {fmt : Format} → IsFormat fmt → fmt.crc_width ≤ 8
crc_width-le v = elim (v.crc) [
  | inl e ↦ omega arith
  | inr (inl e) ↦ omega arith
  | inr (inr (inl e)) ↦ omega arith
  | inr (inr (inr e)) ↦ omega arith
]

no_digits : read_fix_num [] 0 ≡ 0
unfolding read_fix_num from_net
no_digits = refl

pub crc_bytes_lem :
    (width crc : ℕ)
    → width ≤ 8
    → crc < 2 ^ (width * 8)
    → (length (crc_bytes width crc) ≡ width) × (read_fix_num (crc_bytes width crc) width ≡ crc)
crc_bytes_lem zero crc hw h = (refl, omega (arith, no_digits))
crc_bytes_lem (suc width) crc hw h =
    let e = read_fix_num-write_fix_num (suc width) crc (omega arith) hw h in
    let some_bytes : ltb 0 (suc width) ≡ true = ground arith in rw some_bytes (e.1, e.0)
