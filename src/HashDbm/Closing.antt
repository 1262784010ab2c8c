-- ===== src/HashDbm/Closing.antt =====
-- The file of a healthy database after `CloseImpl` (tkrzw_dbm_hash.cc).
use native.Mathlib.Nat.{mul-le-mul_right, div-mul-le_self, suc-mul}
use mathlib.Core.List.{reverse}
use tkrzw.Base.{
  ℕ, ◌+◌, ◌-◌, ◌*◌, ◌/◌, ◌%◌, ◌^◌, ◌≤◌, ◌≡◌, inr, refl, ap, ◌∙◌, sym, arith, Bytes, List, [], ◌∷◌,
  ◌++◌, true, length, take, drop, replicate, min, length-append, length-drop, length-take,
  take_append, length-replicate,
}
use tkrzw.Status.{is_success, status_of, success, merge}
use tkrzw.Codec.FixNum.{write_fix_num, net_bytes}
use tkrzw.Dbm.Interface.{Map}
use tkrzw.Flat.File.{File, FileLaws}
use tkrzw.HashDbm.Record.{Format}
use tkrzw.HashDbm.Pool.{Pool, FreeBlock, blocks_bytes, serialize}
use tkrzw.HashDbm.Patch.{patch, length-patch, patch_before}
use tkrzw.HashDbm.Buckets.{IsTable, place-lt, base, record_base-ge}
use tkrzw.HashDbm.Append.{IsSteady}
use tkrzw.HashDbm.Metadata.{Metadata, meta_bytes, save_metadata}
use tkrzw.HashDbm.MetadataRound.{length-meta_bytes}
use tkrzw.HashDbm.MetadataKept.{aside-IsTable, front-IsTable}
use tkrzw.HashDbm.Created.{merge-success}
use tkrzw.HashDbm.Opening.{
  Store, format_of, stamped, save_fbp, save_fields, close_impl, fbp_section_size,
}

write_fix_num-le : (num width : ℕ) → length (write_fix_num num width) ≤ width
unfolding write_fix_num net_bytes
write_fix_num-le num width = omega (arith, length-drop (8 - width) (net_bytes 8 (num % 2 ^ 64)))

blocks_bytes-le :
    (w p : ℕ) (bs : List FreeBlock) → length (blocks_bytes w p bs) ≤ length bs * (w + 4)
unfolding blocks_bytes
blocks_bytes-le w p [] = omega arith
blocks_bytes-le w p (b ∷ bs) =
    let first = write_fix_num (b.offset / 2 ^ p) w in
    let second = write_fix_num b.size 4 in
    omega (
      arith,
      length-append (first ++ second) (blocks_bytes w p bs),
      length-append first second,
      write_fix_num-le (b.offset / 2 ^ p) w,
      write_fix_num-le b.size 4,
      blocks_bytes-le w p bs,
      suc-mul (length bs) (w + 4),
    )

-- The bytes of the pool fill the section.
pub length-serialize : (pool : Pool) (w p size : ℕ) → length (serialize pool w p size) ≡ size
unfolding serialize
length-serialize pool w p size =
    let count = min (size / (w + 4)) (length pool.blocks) in
    let kept = take count (reverse pool.blocks) in
    let bytes = blocks_bytes w p kept in
    let few : length kept ≤ size / (w + 4) =
      omega (arith, length-take count (reverse pool.blocks)) in
    omega (
      arith,
      length-append bytes (replicate (size - length bytes) 0),
      length-replicate {A = ℕ} (size - length bytes) 0,
      blocks_bytes-le w p kept,
      mul-le-mul_right (w + 4) few,
      div-mul-le_self size (w + 4),
    )

module _ {F : Type 0} (file : File F) (laws : FileLaws file) (steady : IsSteady file) (now : ℕ)
    (st : Store F) (m : Map)
    (v : IsTable (format_of st.meta) st.meta.num_buckets (laws.contents st.file) m)
    (at : st.record_base_offset ≡ base (format_of st.meta) st.meta.num_buckets) where
  abbrev fmt : Format
  fmt = format_of st.meta

  abbrev n : ℕ
  n = st.meta.num_buckets

  -- What is saved.
  abbrev pub stamp : Metadata
  stamp = (stamped file now st).meta

  abbrev pub front : Bytes
  front = meta_bytes stamp true

  abbrev section : Bytes
  section = serialize st.fbp fmt.offset_width fmt.align_pow fbp_section_size

  abbrev contents : Bytes
  contents = laws.contents st.file

  abbrev fbp_at : ℕ
  fbp_at = base fmt n - 16 - 1008

  abbrev pub marked : Bytes
  marked = patch contents 0 front

  abbrev pub closed : Bytes
  closed = patch marked fbp_at section

  section-inside : fbp_at + length section + 16 ≡ base fmt n
  section-inside = omega (
    arith,
    length-serialize st.fbp fmt.offset_width fmt.align_pow fbp_section_size,
    record_base-ge fmt n,
  )

  marked-IsTable : IsTable fmt n marked m
  marked-IsTable = front-IsTable fmt n contents front m (length-meta_bytes stamp true) v

  pub closed-IsTable : IsTable fmt n closed m
  closed-IsTable =
      aside-IsTable fmt n marked fbp_at section m (omega (arith, section-inside))
        (λ b h. inr (omega (arith, place-lt fmt n b n h, record_base-ge fmt n))) marked-IsTable

  pub length-closed : length closed ≡ length contents
  length-closed =
      length-patch marked fbp_at section (omega (arith, section-inside, marked-IsTable.sized))
      ∙ length-patch contents 0 front
          (omega (arith, length-meta_bytes stamp true, record_base-ge fmt n, v.sized))

  pub closed-front : take 128 closed ≡ front
  closed-front =
      patch_before marked fbp_at section (omega (arith, section-inside, marked-IsTable.sized)) 0 128
        (omega (arith, record_base-ge fmt n))
      ∙ ap (λ k. take k (front ++ drop (0 + length front) contents))
          (sym (length-meta_bytes stamp true))
      ∙ take_append front (drop (0 + length front) contents)

  -- A healthy database that is open for writing is closed with success.
  pub close_impl-closed :
      st.writable ≡ true
      → st.healthy ≡ true
      → (is_success (close_impl file now st).0 ≡ true)
        × (laws.contents (close_impl file now st).1.file ≡ closed)
  unfolding close_impl save_fields save_fbp save_metadata
  close_impl-closed w h =
      let first = file.write st.file 0 front in
      let second = file.write first.1 fbp_at section in
      let wrote : is_success first.0 ≡ true = steady.writes st.file 0 front in
      let wrote_too : is_success second.0 ≡ true = steady.writes first.1 fbp_at section in
      let one : laws.contents first.1 ≡ marked =
        laws.write_at st.file 0 front (omega arith) wrote in
      let two : laws.contents second.1 ≡ closed =
        laws.write_at first.1 fbp_at section
          (omega (arith, ap length one, section-inside, marked-IsTable.sized)) wrote_too
        ∙ ap (λ b. patch b fbp_at section) one in
      rw (w, h, at)
        (
          merge-success (merge (status_of success) first.0) second.0
              (merge-success (status_of success) first.0 refl wrote) wrote_too,
          two,
        )
