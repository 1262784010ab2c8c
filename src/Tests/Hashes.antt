-- ===== src/Tests/Hashes.antt =====
-- Checksums: the expectations of tkrzw_hash_util_test.cc, and the theorems at concrete data.
use tkrzw.Base.{◌≡◌, refl, Bytes, [], ◌∷◌, true}
use tkrzw.Hash.Checksum.{
  hash_checksum6_continuous, hash_checksum6_pair, magic_checksum, sum, hash_checksum6_pair-sum,
}
use tkrzw.Hash.Crc.{
  hash_crc8_continuous, hash_crc16_continuous, hash_crc32_continuous, hash_crc-append,
}

abbrev pub hello : Bytes
hello = b'h' ∷ b'e' ∷ b'l' ∷ b'l' ∷ b'o' ∷ []

abbrev world : Bytes
world = b' ' ∷ b'W' ∷ b'o' ∷ b'r' ∷ b'l' ∷ b'd' ∷ []

abbrev hello_upper : Bytes
hello_upper = b'H' ∷ b'e' ∷ b'l' ∷ b'l' ∷ b'o' ∷ []

checksum6_hello : hash_checksum6_continuous hello 0 ≡ 0x2C
unfolding hash_checksum6_continuous tkrzw.Hash.Checksum.checksum_loop tkrzw.Hash.Checksum.add_bytes
checksum6_hello = refl

checksum6_pair : hash_checksum6_pair hello_upper world 0 ≡ 0x0F
unfolding hash_checksum6_pair tkrzw.Hash.Checksum.add_bytes
checksum6_pair = refl

crc8_hello : hash_crc8_continuous hello true 0 ≡ 0x92
unfolding hash_crc8_continuous tkrzw.Hash.Crc.crc8_loop tkrzw.Hash.Crc.crc8_entry
crc8_hello = refl

crc16_hello : hash_crc16_continuous hello true 0 ≡ 0xC362
unfolding hash_crc16_continuous tkrzw.Hash.Crc.crc16_loop tkrzw.Hash.Crc.crc16_entry
crc16_hello = refl

crc32_hello : hash_crc32_continuous hello true 0xFFFFFFFF ≡ 0x3610A686
unfolding hash_crc32_continuous tkrzw.Hash.Crc.crc32_loop tkrzw.Hash.Crc.crc32_entry
crc32_hello = refl
