-- ===== src/HashDbm/PoolRound.antt =====
-- `Deserialize` of a free block pool reads back what `Serialize` writes (tkrzw_dbm_hash_impl.cc).
use mathlib.Core.Path.{subst}
use mathlib.Core.List.{reverse, reverse-cons, reverse-reverse}
use native.Mathlib.Nat.{suc-mul, mul-div_left, le-div_iff_mul-le, mod-eq_of_lt}
use tkrzw.Base.{
  ℕ, zero, suc, ◌+◌, ◌-◌, ◌*◌, ◌/◌, ◌%◌, ◌^◌, ◌≤◌, ◌<◌, ◌≡◌, refl, ap, ◌∙◌, sym, arith, min, Bytes,
  List, [], ◌∷◌, ◌++◌, true, length, take, drop, replicate, All, length-append, drop_append,
  append_assoc, append-nil, take_all, length-replicate, drop-drop,
}
use tkrzw.Codec.FixNum.{
  write_fix_num, read_fix_num, read_fix_num-write_fix_num, read_fix_num-append,
}
use tkrzw.HashDbm.Layout.{two_pow-pos}
use tkrzw.HashDbm.Pool.{
  FreeBlock, Pool, before, emplace, block_bytes, blocks_bytes, serialize, read_blocks, deserialize,
  size_ok,
}
use tkrzw.HashDbm.InOrder.{IsSorted, IsPool}
use tkrzw.HashDbm.Zeros.{AllZero, replicate-AllZero, drop-AllZero, read_zeros}

IsSorted-suffix : (xs ys : List FreeBlock) → IsSorted (xs ++ ys) → IsSorted ys
IsSorted-suffix [] ys h = h
IsSorted-suffix (x ∷ xs) ys h = IsSorted-suffix xs ys h.1

length-reverse : (xs : List FreeBlock) → length (reverse xs) ≡ length xs
length-reverse [] = refl
length-reverse (x ∷ xs) =
    ap length (reverse-cons x xs)
    ∙ omega (arith, length-append (reverse xs) (x ∷ []), length-reverse xs)

module _ (offset_width align_pow : ℕ) (low : 1 ≤ offset_width) (high : offset_width ≤ 8) where
  -- A block that the format can hold: the slot of its offset, and its size.
  pub record IsStorable (b : FreeBlock) : Type 0 where
    pub slot : ℕ
    pub aligned : b.offset ≡ slot * 2 ^ align_pow
    pub small_slot : slot < 2 ^ (offset_width * 8)
    pub small_offset : b.offset < 2 ^ 64
    pub positive : 1 ≤ b.size
    pub small_size : b.size < 2 ^ 31

  -- A block that stands before all others goes to the front.
  emplace-least :
      (b : FreeBlock) (bs : List FreeBlock)
      → All (λ x. before b x ≡ true) bs
      → emplace b bs ≡ b ∷ bs
  unfolding emplace
  emplace-least b [] h = refl
  emplace-least b (x ∷ xs) h = rw h.0 refl

  -- One block read back.
  read_block :
      (b : FreeBlock) (more : ℕ) (rest : Bytes) (blocks : List FreeBlock)
      → IsStorable b
      → read_blocks offset_width align_pow
          (suc more)
          (block_bytes offset_width align_pow b ++ rest)
          blocks
        ≡ read_blocks offset_width align_pow more rest (emplace b blocks)
  unfolding read_blocks
  read_block b more rest blocks h =
      let unit = 2 ^ align_pow in
      let slot_back : b.offset / unit ≡ h.slot =
        ap (λ o. o / unit) h.aligned ∙ mul-div_left h.slot (two_pow-pos align_pow) in
      let first = write_fix_num (b.offset / unit) offset_width in
      let second = write_fix_num b.size 4 in
      let o =
        read_fix_num-write_fix_num offset_width (b.offset / unit) low high
          (omega (arith, slot_back, h.small_slot)) in
      let n =
        read_fix_num-write_fix_num 4 b.size (omega arith) (omega arith)
          (omega (arith, h.small_size)) in
      let apart : block_bytes offset_width align_pow b ++ rest ≡ first ++ (second ++ rest) =
        append_assoc first second rest in
      let offset_read : read_fix_num (first ++ (second ++ rest)) offset_width * unit % 2 ^ 64
          ≡ b.offset =
        ap (λ x. x * unit % 2 ^ 64)
          (read_fix_num-append first (second ++ rest) offset_width o.1 ∙ o.0 ∙ slot_back)
        ∙ ap (λ x. x % 2 ^ 64) (sym h.aligned)
        ∙ mod-eq_of_lt h.small_offset in
      let behind : drop offset_width (first ++ (second ++ rest)) ≡ second ++ rest =
        ap (λ m. drop m (first ++ (second ++ rest))) (sym o.1)
        ∙ drop_append first (second ++ rest) in
      let size_read : read_fix_num (second ++ rest) 4 ≡ b.size =
        read_fix_num-append second rest 4 n.1 ∙ n.0 in
      let after : drop (offset_width + 4) (first ++ (second ++ rest)) ≡ rest =
        drop-drop offset_width 4 (first ++ (second ++ rest))
        ∙ ap (drop 4) behind
        ∙ ap (λ m. drop m (second ++ rest)) (sym n.1)
        ∙ drop_append second rest in
      let ok : size_ok b.size ≡ true = ground (arith, h.positive, h.small_size) in
      rw apart (rw (offset_read, behind, after) (rw (size_read, ok) refl))

  read_blocks-blocks_bytes :
      (todo done : List FreeBlock) (more : ℕ) (zeros : Bytes)
      → length todo ≤ more
      → All IsStorable todo
      → IsSorted (reverse todo ++ done)
      → AllZero zeros
      → read_blocks offset_width align_pow more
          (blocks_bytes offset_width align_pow todo ++ zeros)
          done
        ≡ reverse todo ++ done
  unfolding blocks_bytes
  read_blocks-blocks_bytes [] done zero zeros hl hs hr hz = unfold read_blocks in refl
  read_blocks-blocks_bytes [] done (suc more) zeros hl hs hr hz =
      unfold read_blocks in
      rw (read_zeros (drop offset_width zeros) (drop-AllZero offset_width zeros hz)) refl
  read_blocks-blocks_bytes (b ∷ todo) done zero zeros hl hs hr hz = absurd (omega arith)
  read_blocks-blocks_bytes (b ∷ todo) done (suc more) zeros hl hs hr hz =
      let rest = blocks_bytes offset_width align_pow todo ++ zeros in
      let turned : reverse (b ∷ todo) ++ done ≡ reverse todo ++ (b ∷ done) =
        ap (λ l. l ++ done) (reverse-cons b todo) ∙ append_assoc (reverse todo) (b ∷ []) done in
      let sorted = subst IsSorted turned hr in
      let least = (IsSorted-suffix (reverse todo) (b ∷ done) sorted).0 in
      ap (λ bytes. read_blocks offset_width align_pow (suc more) bytes done)
        (append_assoc (block_bytes offset_width align_pow b)
          (blocks_bytes offset_width align_pow todo) zeros)
      ∙ read_block b more rest done hs.0
      ∙ ap (read_blocks offset_width align_pow more rest) (emplace-least b done least)
      ∙ read_blocks-blocks_bytes todo (b ∷ done) more zeros (omega arith) hs.1 sorted hz
      ∙ sym turned

  length-blocks_bytes :
      (bs : List FreeBlock)
      → All IsStorable bs
      → length (blocks_bytes offset_width align_pow bs) ≡ length bs * (offset_width + 4)
  unfolding blocks_bytes
  length-blocks_bytes [] h = omega arith
  length-blocks_bytes (b ∷ bs) h =
      let slot_back =
        ap (λ o. o / 2 ^ align_pow) h.0.aligned ∙ mul-div_left h.0.slot (two_pow-pos align_pow) in
      let first = write_fix_num (b.offset / 2 ^ align_pow) offset_width in
      let second = write_fix_num b.size 4 in
      let o =
        read_fix_num-write_fix_num offset_width (b.offset / 2 ^ align_pow) low high
          (omega (arith, slot_back, h.0.small_slot)) in
      let n =
        read_fix_num-write_fix_num 4 b.size (omega arith) (omega arith)
          (omega (arith, h.0.small_size)) in
      omega (
        arith,
        o.1,
        n.1,
        length-append first second,
        length-append (first ++ second) (blocks_bytes offset_width align_pow bs),
        length-blocks_bytes bs h.1,
        suc-mul (length bs) (offset_width + 4),
      )

  reverse-All :
      (bs done : List FreeBlock)
      → All IsStorable bs
      → All IsStorable done
      → All IsStorable (reverse bs ++ done)
  reverse-All [] done h hd = hd
  reverse-All (b ∷ bs) done h hd =
      subst (All IsStorable)
        (sym (ap (λ l. l ++ done) (reverse-cons b bs) ∙ append_assoc (reverse bs) (b ∷ []) done))
        (reverse-All bs (b ∷ done) h.1 (h.0, hd))

  -- A pool whose blocks the format can hold is read back whole from what was written of it, if all of
  -- its blocks fit in the size of the section.
  pub deserialize-serialize :
      (pool : Pool) (size : ℕ)
      → IsPool pool
      → All IsStorable pool.blocks
      → length pool.blocks * (offset_width + 4) ≤ size
      → deserialize pool (serialize pool offset_width align_pow size) offset_width align_pow ≡ pool
  unfolding deserialize serialize
  deserialize-serialize pool size v hs hz =
      let unit = offset_width + 4 in
      let n = length pool.blocks in
      let rev = reverse pool.blocks in
      let fits : n ≤ size / unit = (le-div_iff_mul-le (omega arith)).1 hz in
      let all : min (size / unit) n ≡ n = omega arith in
      let whole : take n rev ≡ rev = take_all n rev (omega (arith, length-reverse pool.blocks)) in
      let storable : All IsStorable rev =
        subst (All IsStorable) (append-nil rev) (reverse-All pool.blocks [] hs tt) in
      let bytes = blocks_bytes offset_width align_pow rev in
      let zeros = replicate (size - length bytes) 0 in
      let full : length (bytes ++ zeros) ≡ size = omega (
        arith,
        length-append bytes zeros,
        length-replicate {A = ℕ} (size - length bytes) 0,
        length-blocks_bytes rev storable,
        ap (λ k. k * unit) (length-reverse pool.blocks),
      ) in
      let back : reverse rev ++ [] ≡ pool.blocks =
        append-nil (reverse rev) ∙ reverse-reverse pool.blocks in
      let read =
        read_blocks-blocks_bytes rev [] (min (size / unit) pool.capacity) zeros
          (omega (arith, length-reverse pool.blocks, v.bounded)) storable
          (subst IsSorted (sym back) v.sorted) (replicate-AllZero (size - length bytes)) in
      rw (all, whole)
        (rw full
          (ap (λ blocks. record { capacity = pool.capacity; blocks = blocks }) (read ∙ back)))
