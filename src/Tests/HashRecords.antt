-- ===== src/Tests/HashRecords.antt =====
-- A record of `HashDBM` in a file in memory, and the theorems on it.
use tkrzw.Base.{
  ◌*◌, ◌^◌, ◌≡◌, ◌⊎◌, inr, refl, arith, Bytes, [], ◌∷◌, ◌++◌, Option, none, some, length, take, ok,
}
use tkrzw.HashDbm.Record.{Format, HashRecord, OperationType, op_add, record_bytes}
use tkrzw.HashDbm.Access.{read_metadata_key, check_crc, write_child_offset}
use tkrzw.HashDbm.Layout.{IsFormat}
use tkrzw.HashDbm.Header.{sample, IsStorable}
use tkrzw.HashDbm.Reading.{loaded, read_metadata_key-record_bytes}
use tkrzw.HashDbm.Writing.{length-record_bytes, write_child_offset-record_bytes}
use tkrzw.Flat.File.{memory_file}
use tkrzw.Tests.Files.{memory_laws}
use tkrzw.Tests.Tables.{ka, va}

abbrev format : Format
format = record { crc_width = 4; offset_width = 4; align_pow = 3 }

format-IsFormat : IsFormat format
format-IsFormat = record {
  offset_low = omega arith;
  offset_high = omega arith;
  crc = inr (inr (inr refl));
}

storable : IsStorable format op_add 0 ka va 5
unfolding tkrzw.HashDbm.Record.set_data tkrzw.HashDbm.Record.align_number
    tkrzw.Codec.VarNum.size_var_num
storable = record {
  format = format-IsFormat;
  small_key = omega arith;
  small_value = omega arith;
  small_whole = omega arith;
  key_bytes = omega arith;
  value_bytes = omega arith;
  small_slot = omega arith;
  small_child = omega arith;
}

-- A file that begins with the record.
abbrev stored : Bytes
stored = record_bytes format (sample format op_add 0 ka va 5) ++ (9 ∷ 9 ∷ [])

read_metadata_key-record_bytes_example :
    (o : Option Bytes) × ((o ≡ none) ⊎ (o ≡ some va))
    × (read_metadata_key memory_file stored format 0 48
        ≡ ok (loaded format op_add 0 ka va 5 storable memory_file memory_laws stored 0 o))
    × (check_crc memory_file stored format
          (loaded format op_add 0 ka va 5 storable memory_file memory_laws stored 0 o)
        ≡ ok (loaded format op_add 0 ka va 5 storable memory_file memory_laws stored 0 (some va)))
read_metadata_key-record_bytes_example =
    read_metadata_key-record_bytes format op_add 0 ka va 5 storable memory_file memory_laws stored 0
      48 (9 ∷ 9 ∷ []) (omega arith) refl (omega arith)

length-record_bytes_example :
    length (record_bytes format (sample format op_add 0 ka va 5))
    ≡ (sample format op_add 0 ka va 5).whole_size
length-record_bytes_example = length-record_bytes format op_add 0 ka va 5 storable

write_child_offset-record_bytes_example :
    memory_laws.contents (write_child_offset memory_file stored format 0 (9 * 2 ^ 3)).1
    ≡ take 0 stored ++ (record_bytes format (sample format op_add 0 ka va 9) ++ (9 ∷ 9 ∷ []))
unfolding write_child_offset
write_child_offset-record_bytes_example =
    write_child_offset-record_bytes format op_add 0 ka va 5 storable memory_file memory_laws stored
      0 9 (9 ∷ 9 ∷ []) (omega arith) (omega arith) refl refl
