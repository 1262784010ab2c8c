-- ===== src/Tests/Codecs.antt =====
-- The codecs and the hash functions at the inputs of tkrzw_sys_config_test.cc, tkrzw_hash_util_test.cc
-- and tkrzw_dbm_common_impl_test.cc, and the theorems on codecs at concrete inputs.
use tkrzw.Base.{Bytes, [], ◌∷◌, ◌++◌, ◌≡◌, refl, arith, some, length}
use tkrzw.Codec.VarNum.{write_var_num, read_var_num, read_loop}
use tkrzw.Codec.VarRound.{read_var_num-write_var_num}
use tkrzw.Codec.FixNum.{write_fix_num, read_fix_num, read_fix_num-write_fix_num}
use tkrzw.Hash.{hash_murmur, hash_fnv, primary_hash, secondary_hash}

-- "Hello World" and "abc".
abbrev hello : Bytes
hello = 72 ∷ 101 ∷ 108 ∷ 108 ∷ 111 ∷ 32 ∷ 87 ∷ 111 ∷ 114 ∷ 108 ∷ 100 ∷ []

abbrev abc : Bytes
abc = 97 ∷ 98 ∷ 99 ∷ []

murmur_hello : hash_murmur hello 19780211 ≡ 0x15941D6097FA1378
unfolding hash_murmur
murmur_hello = refl

fnv_hello : hash_fnv hello ≡ 0x9AA143013F1E405F
unfolding hash_fnv
fnv_hello = refl

primary_abc : primary_hash abc 0xffffffff ≡ 3042090208
unfolding primary_hash
primary_abc = refl

primary_abc_wide : primary_hash abc 0xffffffffffffffff ≡ 16973900370012003622
unfolding primary_hash
primary_abc_wide = refl

secondary_abc : secondary_hash abc 0xffffffff ≡ 702176507
unfolding secondary_hash
secondary_abc = refl

secondary_abc_wide : secondary_hash abc 0xffffffffffffffff ≡ 1765794342254572867
unfolding secondary_hash
secondary_abc_wide = refl

var_num_300 : write_var_num 300 ≡ 0x82 ∷ 0x2c ∷ []
unfolding write_var_num
var_num_300 = refl

read_300 : read_var_num (0x82 ∷ 0x2c ∷ 7 ∷ []) ≡ some (300, 7 ∷ [])
unfolding read_var_num read_loop
read_300 = refl

read_var_num-write_var_num_example : read_var_num (write_var_num 300 ++ 7 ∷ []) ≡ some (300, 7 ∷ [])
read_var_num-write_var_num_example = read_var_num-write_var_num 300 (7 ∷ []) (omega arith)

read_fix_num-write_fix_num_example :
    (read_fix_num (write_fix_num 70000 3) 3 ≡ 70000) × (length (write_fix_num 70000 3) ≡ 3)
read_fix_num-write_fix_num_example =
    read_fix_num-write_fix_num 3 70000 (omega arith) (omega arith) (omega arith)
