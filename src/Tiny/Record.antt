-- ===== src/Tiny/Record.antt =====
-- `TinyRecord` of tkrzw_dbm_tiny.cc: the memory of a record behind its child pointer. A pointer to
-- the next record of a chain is modelled by the chain, a list of such blocks.
use tkrzw.Base.{
  from_int32, ℕ, ◌+◌, ◌-◌, ◌%◌, ◌^◌, Bytes, [], ◌++◌, if◌then◌else◌, none, some, ltb, length, take,
  drop, replicate,
}
use tkrzw.Codec.VarNum.{write_var_num, read_var_num, size_var_num}

abbrev pub Block : Type 0
Block = Bytes

-- `sizeof(child)`.
abbrev pub child_size : ℕ
child_size = 8

-- The bytes behind the child pointer in a block that `xmalloc` and its like give for an int32_t. There is
-- no memory for a negative size: the source throws, and the model has an empty block.
abbrev pub allocated : ℕ → ℕ
allocated size = let low = size % 2 ^ 32 in if ltb low (2 ^ 31) then low - child_size else 0

-- A key and a value, with the sizes of the record the lengths of the two; these are int32_t in the source,
-- so that the model is of strings of less than 2 ^ 31 bytes. Sizes of blocks are int32_t too and wrap
-- around; the bytes of the child pointer count in them, but are not among those of a block here.
pub record TinyRecord : Type 0 where
  pub key : Bytes
  pub value : Bytes

-- `memcpy` of bytes into a block at an offset.
unfoldable pub overwrite : Block → ℕ → Bytes → Block
overwrite b off bytes = take off b ++ (bytes ++ drop (off + length bytes) b)

-- `xrealloc`; what it adds is not read before it is written.
unfoldable pub resize : ℕ → Block → Block
resize n b = take n b ++ replicate (n - length b) 0

-- The key's part of a block.
abbrev pub key_part : Bytes → Bytes
key_part key = write_var_num (length key) ++ key

-- The size of the block of a record before it is taken as an int32_t.
abbrev pub block_size : ℕ → ℕ → ℕ
block_size key_size value_size =
    child_size + (size_var_num key_size + key_size + size_var_num value_size + value_size)

-- What is copied behind the end of the block is not in it: the source overwrites other memory.
unfoldable pub serialize : TinyRecord → Block
serialize r =
    take (allocated (block_size (length r.key) (length r.value)))
      (key_part r.key ++ (write_var_num (length r.value) ++ r.value))

-- `ReadVarNum` without a size, whose result an int32_t takes. No block ends inside a number.
unfoldable pub read_size : Bytes → ℕ × Bytes
read_size buf = elim (read_var_num buf) [ none ↦ (0, []) | some (num, rest) ↦ (num % 2 ^ 32, rest) ]

unfoldable pub deserialize : Block → TinyRecord
deserialize ptr =
    let (key_size, rp) = read_size ptr in
    let (value_size, rp') = read_size (drop key_size rp) in
    record { key = take key_size rp; value = take value_size rp' }

-- The record holds the new value, and the block the old one.
unfoldable pub reserialize : TinyRecord → Block → ℕ → Block
reserialize r ptr old_value_size =
    let key_size = length r.key in
    let value_size = length r.value in
    if ltb (size_var_num old_value_size) (size_var_num value_size)
    then serialize r
    else (let size = allocated (block_size key_size value_size) in
        let write : Block → Block = λ b.
          overwrite b (size_var_num key_size + key_size) (write_var_num value_size ++ r.value) in
        if ltb old_value_size value_size then take size (write (resize size ptr)) else write ptr)

-- The record is what the block holds.
unfoldable pub reserialize_append : TinyRecord → Block → Bytes → Bytes → Block
reserialize_append r ptr cat_value cat_delim =
    let key_size = length r.key in
    let value_size = length r.value in
    let new_value_size = from_int32 (value_size + length cat_delim + length cat_value) in
    let size = allocated (block_size key_size new_value_size) in
    if ltb (size_var_num value_size) (size_var_num new_value_size)
    then take size
        (key_part r.key ++ (write_var_num new_value_size ++ (r.value ++ (cat_delim ++ cat_value))))
    else (let wp = size_var_num key_size + key_size in
        let ptr' = resize size ptr in
        let ptr'' = overwrite ptr' wp (write_var_num new_value_size) in
        take size (
          overwrite ptr'' (wp + size_var_num new_value_size + value_size) (cat_delim ++ cat_value)))
