-- ===== src/HashDbm/Pool.antt =====
-- `FreeBlock` and `FreeBlockPool` of tkrzw_dbm_hash_impl.h and tkrzw_dbm_hash_impl.cc: the regions of the
-- file that may be used again. The `std::set` is the list of its elements in order.
use tkrzw.Base.{
  ℕ, zero, suc, ◌+◌, ◌-◌, ◌*◌, ◌/◌, ◌%◌, ◌^◌, ◌==◌, min, Bytes, List, [], ◌∷◌, ◌++◌, if◌then◌else◌,
  Option, none, some, Bool, false, ltb, leb, length, take, drop, replicate,
}
use mathlib.Core.List.{reverse}
use tkrzw.Codec.FixNum.{write_fix_num, read_fix_num}

pub record FreeBlock : Type 0 where
  pub offset : ℕ
  pub size : ℕ

-- `FreeBlock::operator <`.
unfoldable pub before : FreeBlock → FreeBlock → Bool
before a b = if a.size == b.size then ltb a.offset b.offset else ltb a.size b.size

pub record Pool : Type 0 where
  pub capacity : ℕ
  pub blocks : List FreeBlock

-- `std::set::emplace`: an element that is there already is not put in again.
unfoldable pub emplace : FreeBlock → List FreeBlock → List FreeBlock
emplace b [] = b ∷ []
emplace b (x ∷ xs) =
    let further = emplace b xs in
    if before b x then b ∷ x ∷ xs else if before x b then x ∷ further else x ∷ xs

-- `FreeBlockPool::InsertFreeBlock`. A full pool without a block has the capacity 0: the
-- source then reads the first element of an empty set, and here the pool stays as it is.
unfoldable pub insert_free_block : Pool → ℕ → ℕ → Pool
insert_free_block pool offset size =
    let b : FreeBlock = record { offset = offset; size = size } in
    if leb pool.capacity (length pool.blocks)
    then elim (pool.blocks) [
      | [] ↦ pool
      | least ∷ rest ↦ if leb size least.size then pool else record pool { blocks = emplace b rest }
    ]
    else record pool { blocks = emplace b pool.blocks }

-- `std::set::lower_bound` and `erase`: the first element that is not before the bound, and the others.
unfoldable pub take_lower_bound : FreeBlock → List FreeBlock → Option (FreeBlock × List FreeBlock)
take_lower_bound bound [] = none
take_lower_bound bound (x ∷ xs) =
    let further = take_lower_bound bound xs in
    if before x bound
    then elim further [ none ↦ none | some (b, rest) ↦ some (b, x ∷ rest) ]
    else some (x, xs)

unfoldable pub fetched : Pool → Option (FreeBlock × List FreeBlock) → Option FreeBlock × Pool
fetched pool none = (none, pool)
fetched pool (some (b, rest)) = (some b, record pool { blocks = rest })

-- `FreeBlockPool::FetchFreeBlock`: the block, if there is one, and the pool.
unfoldable pub fetch_free_block : Pool → ℕ → Option FreeBlock × Pool
fetch_free_block pool min_size =
    fetched pool (take_lower_bound (record { offset = 0; size = min_size }) pool.blocks)

-- `FreeBlockPool::SetCapacity`: the least blocks go.
unfoldable pub set_capacity : Pool → ℕ → Pool
set_capacity pool capacity = record {
  capacity = capacity;
  blocks = drop (length pool.blocks - capacity) pool.blocks;
}

unfoldable pub clear : Pool → Pool
clear pool = record pool { blocks = [] }

-- The bytes of one block.
abbrev pub block_bytes : ℕ → ℕ → FreeBlock → Bytes
block_bytes offset_width align_pow b =
    write_fix_num (b.offset / 2 ^ align_pow) offset_width ++ write_fix_num b.size 4

unfoldable pub blocks_bytes : ℕ → ℕ → List FreeBlock → Bytes
blocks_bytes offset_width align_pow [] = []
blocks_bytes offset_width align_pow (b ∷ bs) =
    block_bytes offset_width align_pow b ++ blocks_bytes offset_width align_pow bs

-- `FreeBlockPool::Serialize`: the greatest blocks first, as many as fit in the size, and zeros.
unfoldable pub serialize : Pool → ℕ → ℕ → ℕ → Bytes
serialize pool offset_width align_pow size =
    let max_num = min (size / (offset_width + 4)) (length pool.blocks) in
    let bytes = blocks_bytes offset_width align_pow (take max_num (reverse pool.blocks)) in
    bytes ++ replicate (size - length bytes) 0

-- The size, an int32_t, is positive.
abbrev pub size_ok : ℕ → Bool
size_ok size = if ltb size 1 then false else ltb size (2 ^ 31)

-- The loop of `Deserialize`; its counter ends it.
unfoldable pub read_blocks : ℕ → ℕ → ℕ → Bytes → List FreeBlock → List FreeBlock
read_blocks offset_width align_pow zero rp blocks = blocks
read_blocks offset_width align_pow (suc more) rp blocks =
    let offset = read_fix_num rp offset_width * 2 ^ align_pow % 2 ^ 64 in
    let size = read_fix_num (drop offset_width rp) 4 in
    let rest =
      read_blocks offset_width align_pow more (drop (offset_width + 4) rp)
        (emplace (record { offset = offset; size = size }) blocks) in
    if size_ok size then rest else blocks

-- `FreeBlockPool::Deserialize`.
unfoldable pub deserialize : Pool → Bytes → ℕ → ℕ → Pool
deserialize pool str offset_width align_pow =
    let max_num = min (length str / (offset_width + 4)) pool.capacity in
    record pool { blocks = read_blocks offset_width align_pow max_num str [] }
