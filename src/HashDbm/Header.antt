-- ===== src/HashDbm/Header.antt =====
-- The header of a record in the file (tkrzw_dbm_hash_impl.cc), as `Write` puts it there and as
-- `ReadMetadataKey` reads it.
use tkrzw.Base.{
  ℕ, ◌+◌, ◌-◌, ◌*◌, ◌/◌, ◌^◌, ◌≤◌, ◌<◌, ◌≡◌, refl, ap, ◌∙◌, sym, arith, Bytes, [], ◌∷◌, ◌++◌,
  if◌then◌else◌, none, true, ltb, leb, length, take, drop, length-append, drop_append, append_assoc,
  take_past, All, IsByte, append-nil, ≤→leb,
}
use native.Mathlib.Nat.{mul-div_left, mod-eq_of_lt}
use tkrzw.Codec.VarNum.{write_var_num, size_var_num}
use tkrzw.Codec.VarRound.{length-write_var_num}
use tkrzw.Codec.FixNum.{
  write_fix_num, read_fix_num, read_fix_num-write_fix_num, read_fix_num-append,
}
use tkrzw.Hash.Checksum.{magic_checksum, magic_checksum_bounds}
use tkrzw.Flat.File.{File}
use tkrzw.HashDbm.Record.{
  Format, HashRecord, OperationType, crc_of, base_size, set_data, magic_of, padding_bytes,
  crc_bytes, record_bytes, max_key_size, max_value_size,
}
use tkrzw.HashDbm.Access.{read_key, read_meta}
use tkrzw.HashDbm.Layout.{align_number_lem, two_pow-pos, IsFormat, magic_of-bit_and, crc_of-lt}
use tkrzw.HashDbm.Fields.{read_meta_size-write, crc_width-le, crc_bytes_lem}

module _ (fmt : Format) (operation : OperationType) (ideal : ℕ) (key value : Bytes) (slot : ℕ) where
  -- The record, whose child is in the slot.
  abbrev pub sample : HashRecord
  sample = set_data fmt operation ideal key value (slot * 2 ^ fmt.align_pow)

  -- What the format and the limits allow.
  pub record IsStorable : Type 0 where
    pub format : IsFormat fmt
    pub small_key : length key ≤ max_key_size
    pub small_value : length value ≤ max_value_size
    pub small_whole : sample.whole_size ≤ max_value_size
    pub key_bytes : All IsByte key
    pub value_bytes : All IsByte value
    pub small_slot : slot < 2 ^ (fmt.offset_width * 8)
    pub small_child : slot * 2 ^ fmt.align_pow < 2 ^ 64

  abbrev pub fix_part : Bytes
  fix_part = write_fix_num slot fmt.offset_width

  abbrev pub crc_part : Bytes
  crc_part = crc_bytes fmt.crc_width (crc_of fmt.crc_width key value)

  abbrev pub magic : ℕ
  magic = magic_of operation (magic_checksum key value)

  abbrev pub padding : ℕ
  padding = sample.padding_size

  -- The header with the bytes that follow it.
  abbrev pub header_then : Bytes → Bytes
  header_then w =
      magic
      ∷ (fix_part
          ++ (write_var_num (length key)
              ++ (write_var_num (length value) ++ (write_var_num padding ++ (crc_part ++ w)))))

  abbrev pub body : Bytes → Bytes
  body rest = key ++ (value ++ (padding_bytes padding ++ rest))

  pub record_bytes-header_then :
      (rest : Bytes) → record_bytes fmt sample ++ rest ≡ header_then (body rest)
  unfolding record_bytes set_data
  record_bytes-header_then rest =
      let e : slot * 2 ^ fmt.align_pow / 2 ^ fmt.align_pow ≡ slot =
        mul-div_left slot (two_pow-pos fmt.align_pow) in
      rw e (simp append_assoc)

  module _ (s : IsStorable) where
    pub fix_part-size : length fix_part ≡ fmt.offset_width
    fix_part-size =
        (read_fix_num-write_fix_num fmt.offset_width slot s.format.offset_low s.format.offset_high
          s.small_slot).1

    crc_value-lt : crc_of fmt.crc_width key value < 2 ^ (fmt.crc_width * 8)
    crc_value-lt = crc_of-lt fmt key value s.format s.key_bytes s.value_bytes

    pub crc_part-size : length crc_part ≡ fmt.crc_width
    crc_part-size =
        (crc_bytes_lem fmt.crc_width (crc_of fmt.crc_width key value) (crc_width-le s.format)
          crc_value-lt).0

    -- The bytes of the header.
    abbrev pub header_size : ℕ
    header_size =
        1
        + fmt.offset_width
        + size_var_num (length key)
        + size_var_num (length value)
        + size_var_num padding
        + fmt.crc_width

    -- The least read takes in all of the header.
    pub header_size-le : (header_size ≤ 48) × (4 + fmt.offset_width + fmt.crc_width ≤ header_size)
    header_size-le = omega (
      arith,
      s.format.offset_high,
      crc_width-le s.format,
      (length-write_var_num (length key)).1,
      (length-write_var_num (length key)).2,
      (length-write_var_num (length value)).1,
      (length-write_var_num (length value)).2,
      (length-write_var_num padding).1,
      (length-write_var_num padding).2,
    )

    pub header_then-size : (w : Bytes) → length (header_then w) ≡ header_size + length w
    header_then-size w = omega (
      arith,
      fix_part-size,
      crc_part-size,
      (length-write_var_num (length key)).0,
      (length-write_var_num (length value)).0,
      (length-write_var_num padding).0,
      length-append fix_part (
          write_var_num (length key)
          ++ (write_var_num (length value) ++ (write_var_num padding ++ (crc_part ++ w)))),
      length-append (write_var_num (length key))
          (write_var_num (length value) ++ (write_var_num padding ++ (crc_part ++ w))),
      length-append (write_var_num (length value)) (write_var_num padding ++ (crc_part ++ w)),
      length-append (write_var_num padding) (crc_part ++ w),
      length-append crc_part w,
    )

    header_then-append : (w : Bytes) → header_then w ≡ header_then [] ++ w
    header_then-append w = simp (append_assoc, append-nil)

    -- A window that holds the header holds it whole, and the start of the body.
    pub take-header_then :
        (n : ℕ) (w : Bytes)
        → header_size ≤ n
        → take n (header_then w) ≡ header_then (take (n - header_size) w)
    take-header_then n w h =
        let size = header_then-size [] in
        let cut : n - length (header_then []) ≡ n - header_size = omega (arith, size) in
        ap (take n) (header_then-append w)
        ∙ take_past n (header_then []) w (omega (arith, size))
        ∙ ap (λ m. header_then [] ++ take m w) cut
        ∙ sym (header_then-append (take (n - header_size) w))

    pub drop-header_then : (w : Bytes) → drop header_size (header_then w) ≡ w
    drop-header_then w =
        let size : header_size ≡ length (header_then []) = omega (arith, header_then-size []) in
        ap (drop header_size) (header_then-append w)
        ∙ ap (λ m. drop m (header_then [] ++ w)) size
        ∙ drop_append (header_then []) w

    pub padding-le : padding ≤ max_value_size
    unfolding set_data
    padding-le = omega (arith, s.small_whole)

    pub checksum_bounds : (3 ≤ magic_checksum key value) × (magic_checksum key value < 64)
    checksum_bounds = magic_checksum_bounds key value s.key_bytes s.value_bytes

    -- The padding fills the record up.
    pub whole_size-padding : sample.whole_size ≡ base_size fmt (length key) (length value) + padding
    unfolding set_data
    whole_size-padding =
        let base = base_size fmt (length key) (length value) in
        let wanted = if ltb base ideal then ideal else base in
        let least : base ≤ wanted = ground arith in
        omega (arith, (align_number_lem wanted fmt.align_pow).0, least)

    -- The fields that the metadata gives.
    abbrev pub found : ℕ → HashRecord
    found offset = record {
      operation = operation;
      key = [];
      value = none;
      key_size = length key;
      value_size = length value;
      padding_size = padding;
      whole_size = sample.whole_size;
      header_size = header_size;
      body_offset = offset + header_size;
      child_offset = slot * 2 ^ fmt.align_pow;
      checksum = magic_checksum key value;
      crc_value = crc_of fmt.crc_width key value;
    }

    module _ {F : Type 0} (file : File F) (f : F) where
      abbrev pub sizes_then : Bytes → Bytes
      sizes_then w =
          write_var_num (length key)
          ++ (write_var_num (length value) ++ (write_var_num padding ++ (crc_part ++ w)))

      pub read_meta-header_then :
          (offset max_read_size : ℕ) (w : Bytes)
          → length key ≤ max_read_size
          → length value ≤ max_read_size
          → padding ≤ max_read_size
          → read_meta file f fmt offset max_read_size magic (fix_part ++ sizes_then w)
            ≡ read_key file f offset (found offset) w
      unfolding read_meta
      read_meta-header_then offset max_read_size w hk hv hp =
          let rp = fix_part ++ sizes_then w in
          let checksum = magic_checksum key value in
          let bits = magic_of-bit_and operation checksum checksum_bounds.1 in
          let enough : leb 3 checksum ≡ true = ≤→leb 3 checksum checksum_bounds.0 in
          let fixed : leb fmt.offset_width (length rp) ≡ true =
            ≤→leb fmt.offset_width (length rp)
              (omega (arith, fix_part-size, length-append fix_part (sizes_then w))) in
          let child : read_fix_num rp fmt.offset_width ≡ slot =
            read_fix_num-append fix_part (sizes_then w) fmt.offset_width fix_part-size
            ∙ (read_fix_num-write_fix_num fmt.offset_width slot s.format.offset_low
                s.format.offset_high s.small_slot).0 in
          let behind : drop fmt.offset_width rp ≡ sizes_then w =
            ap (λ m. drop m rp) (sym fix_part-size) ∙ drop_append fix_part (sizes_then w) in
          let after_key =
            write_var_num (length value) ++ (write_var_num padding ++ (crc_part ++ w)) in
          let after_value = write_var_num padding ++ (crc_part ++ w) in
          let k =
            read_meta_size-write (length key) max_key_size max_read_size after_key s.small_key hk
              (omega (arith, s.small_key)) in
          let v =
            read_meta_size-write (length value) max_value_size max_read_size after_value
              s.small_value hv (omega (arith, s.small_value)) in
          let p =
            read_meta_size-write padding max_value_size max_read_size (crc_part ++ w) padding-le hp
              (omega (arith, padding-le)) in
          let crc_there : leb fmt.crc_width (length (crc_part ++ w)) ≡ true =
            ≤→leb fmt.crc_width (length (crc_part ++ w))
              (omega (arith, crc_part-size, length-append crc_part w)) in
          let crc : read_fix_num (crc_part ++ w) fmt.crc_width ≡ crc_of fmt.crc_width key value =
            read_fix_num-append crc_part w fmt.crc_width crc_part-size
            ∙ (crc_bytes_lem fmt.crc_width (crc_of fmt.crc_width key value) (crc_width-le s.format)
                crc_value-lt).1 in
          let rest : drop fmt.crc_width (crc_part ++ w) ≡ w =
            ap (λ m. drop m (crc_part ++ w)) (sym crc_part-size) ∙ drop_append crc_part w in
          let header : 1 + (length rp - length w) ≡ header_size =
            omega (arith, header_then-size w) in
          let extra : length after_value - length (crc_part ++ w) - 1 ≡ size_var_num padding - 1 =
            omega (
              arith,
              length-append (write_var_num padding) (crc_part ++ w),
              (length-write_var_num padding).0,
            ) in
          let whole : header_size + length key + length value + padding - (size_var_num padding - 1)
              ≡ sample.whole_size =
            omega (arith, whole_size-padding, (length-write_var_num padding).1) in
          rw (bits.0, enough, fixed, child, behind)
            (rw k (
              rw v (
                rw (p, crc_there, crc, rest)
                  (rw (bits.1, header, extra) (rw (whole, mod-eq_of_lt s.small_child) refl)))))
