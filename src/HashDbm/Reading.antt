-- ===== src/HashDbm/Reading.antt =====
-- What `ReadMetadataKey`, `ReadBody` and `CheckCRC` (tkrzw_dbm_hash_impl.cc) make of the bytes that
-- `Write` has put into a file.
use tkrzw.Hash.Checksum.{magic_checksum}
use mathlib.Core.Path.{subst}
use tkrzw.Base.{
  ℕ, ◌+◌, ◌-◌, ◌≤◌, ◌≡◌, ◌⊎◌, inl, inr, refl, ap, ◌∙◌, sym, arith, min, Bytes, ◌++◌, Option, none,
  some, true, false, ltb, leb, length, take, drop, length-append, take_append, drop_append,
  append_assoc, take_past, length-take, length-drop, drop-drop, Bool-cases, ok, ◌>>=◌, leb→≤, leb→>,
  ≥→ltb, drop_all, take_all, ==_refl,
}
use tkrzw.Flat.File.{File, FileLaws}
use tkrzw.Flat.Window.{take_window, window_size}
use tkrzw.HashDbm.Record.{
  Format, HashRecord, OperationType, crc_of, padding_bytes, padding_ok, record_bytes, check_body,
}
use tkrzw.HashDbm.Access.{read_body, read_key, read_metadata_key, check_crc}
use tkrzw.HashDbm.Header.{
  sample, IsStorable, header_then, body, padding, header_size, found, record_bytes-header_then,
  take-header_then, drop-header_then, header_then-size, padding-le, whole_size-padding,
  read_meta-header_then, header_size-le,
}
use tkrzw.HashDbm.Padding.{padding_ok-padding_bytes, length-padding_bytes}

module _ (fmt : Format) (operation : OperationType) (ideal : ℕ) (key value : Bytes) (slot : ℕ)
    (s : IsStorable fmt operation ideal key value slot) {F : Type 0} (file : File F)
    (laws : FileLaws file) (f : F) where
  abbrev tail_of : Bytes → Bytes
  tail_of rest = padding_bytes (padding fmt operation ideal key value slot) ++ rest

  -- The record as it is read, with or without its value.
  abbrev pub loaded : ℕ → Option Bytes → HashRecord
  loaded offset o = record (found fmt operation ideal key value slot s offset) {
    key = key;
    value = o;
  }

  -- The padding behind a value that is in the window or not.
  padding_seen :
      (n : ℕ) (rest : Bytes)
      → padding_ok
          (padding fmt operation ideal key value slot)
          (drop (length value) (take n (value ++ tail_of rest)))
        ≡ true
  padding_seen n rest =
      let p = padding fmt operation ideal key value slot in
      elim (Bool-cases (leb (length value) n)) [
        | inl e ↦ rw (take_past n value (tail_of rest) (leb→≤ (length value) n e)) (
            rw (drop_append value (take (n - length value) (tail_of rest))) (
              padding_ok-padding_bytes (n - length value) p rest
                (padding-le fmt operation ideal key value slot s)))
        | inr e ↦
            let short = leb→> (length value) n e in
            let none_left =
              drop_all (length value) (take n (value ++ tail_of rest))
                (omega (arith, length-take n (value ++ tail_of rest))) in
            rw none_left (unfold padding_ok in refl)
      ]

  -- Where the record stands, and what the reads of it rest on.
  record StandsAt (offset : ℕ) (rest : Bytes) : Type 0 where
    ahead :
        drop offset (laws.contents f)
        ≡ header_then fmt operation ideal key value slot
            (body fmt operation ideal key value slot rest)
    inside :
        offset
          + (header_size fmt operation ideal key value slot s
              + length (body fmt operation ideal key value slot rest))
        ≡ length (laws.contents f)

  length-body :
      (rest : Bytes)
      → length (body fmt operation ideal key value slot rest)
        ≡ length key + length value + length (tail_of rest)
  length-body rest =
      omega (arith, length-append key (value ++ tail_of rest), length-append value (tail_of rest))

  module _ (offset : ℕ) (rest : Bytes) (stands : StandsAt offset rest) where
    abbrev behind : Bytes
    behind = body fmt operation ideal key value slot rest

    read_body_lem :
        (rec : HashRecord)
        → rec.body_offset ≡ offset + header_size fmt operation ideal key value slot s
        → rec.key_size ≡ length key
        → rec.value_size ≡ length value
        → read_body file f rec ≡ ok (record rec { key = key; value = some value })
    unfolding read_body
    read_body_lem rec eo ek ev =
        let size = length key + length value in
        let here : drop (offset + header_size fmt operation ideal key value slot s)
              (laws.contents f)
            ≡ behind =
          drop-drop offset (header_size fmt operation ideal key value slot s) (laws.contents f)
          ∙ ap (drop (header_size fmt operation ideal key value slot s)) stands.ahead
          ∙ drop-header_then fmt operation ideal key value slot s behind in
        let got =
          laws.read_inside f (offset + header_size fmt operation ideal key value slot s) size
            (omega (arith, stands.inside, length-body rest)) in
        let cut : take size behind ≡ key ++ value =
          ap (take size) (sym (append_assoc key value (tail_of rest)))
          ∙ ap (λ n. take n ((key ++ value) ++ tail_of rest)) (sym (length-append key value))
          ∙ take_append (key ++ value) (tail_of rest) in
        rw (eo, ek, ev)
          (rw (got, here, cut)
            (rw (take_append key value, drop_append key value)
              (rw (take_all (length value) value (omega arith)) refl)))

    -- Whether the value is there yet.
    Loaded : Option Bytes → Type 0
    Loaded o = (o ≡ none) ⊎ (o ≡ some value)

    read_key_lem :
        (n : ℕ)
        → (o : Option Bytes) × Loaded o
          × (read_key file f offset
                (found fmt operation ideal key value slot s offset)
                (take n behind)
              ≡ ok (loaded offset o))
    unfolding read_key Loaded
    read_key_lem n = elim (Bool-cases (leb (length key) (length (take n behind)))) [
      | inl e ↦
          let fits =
            window_size key (value ++ tail_of rest) n
              (leb→≤ (length key) (length (take n behind)) e) in
          let m = n - length key in
          let window = value ++ tail_of rest in
          let key_seen : take (length key) (take n behind) ≡ key = take_window key window n fits in
          let later : drop (length key) (take n behind) ≡ take m window =
            ap (drop (length key)) (take_past n key window fits)
            ∙ drop_append key (take m window) in
          let seen = padding_seen m rest in
          elim (Bool-cases (leb (length value) (length (take m window)))) [
            | inl ev ↦
                let value_seen = take_window value (tail_of rest) m (
                  window_size value (tail_of rest) m
                    (leb→≤ (length value) (length (take m window)) ev)) in
                (some value, inr refl, rw (e, later, key_seen) (rw (ev, seen, value_seen) refl))
            | inr ev ↦ (none, inl refl, rw (e, later, key_seen) (rw (ev, seen) refl))
          ]
      | inr e ↦
          let whole = whole_size-padding fmt operation ideal key value slot s in
          let p = padding fmt operation ideal key value slot in
          let room : ltb (length (laws.contents f))
                (offset + (sample fmt operation ideal key value slot).whole_size)
              ≡ false =
            ≥→ltb (length (laws.contents f))
              (offset + (sample fmt operation ideal key value slot).whole_size)
              (omega (
                arith,
                stands.inside,
                whole,
                length-body rest,
                length-append (padding_bytes p) rest,
                length-padding_bytes p (padding-le fmt operation ideal key value slot s),
              )) in
          (
            some value,
            inr refl,
            rw (e, laws.size_known f)
                (rw room (
                  read_body_lem (found fmt operation ideal key value slot s offset) refl refl
                    refl)),
          )
    ]

    check_body_lem : check_body fmt (loaded offset (some value)) ≡ ok (loaded offset (some value))
    unfolding check_body
    check_body_lem =
        rw (==_refl (magic_checksum key value), ==_refl (crc_of fmt.crc_width key value))
          (elim (Bool-cases (ltb 0 fmt.crc_width)) [ inl e ↦ rw e refl | inr e ↦ rw e refl ])

    check_crc_lem :
        (o : Option Bytes)
        → Loaded o
        → check_crc file f fmt (loaded offset o) ≡ ok (loaded offset (some value))
    unfolding check_crc Loaded
    check_crc_lem o (inl e) =
        subst (λ x. check_crc file f fmt (loaded offset x) ≡ ok (loaded offset (some value)))
          (sym e)
          (ap (λ r. r >>= check_body fmt) (read_body_lem (loaded offset none) refl refl refl)
            ∙ check_body_lem)
    check_crc_lem o (inr e) =
        subst (λ x. check_crc file f fmt (loaded offset x) ≡ ok (loaded offset (some value)))
          (sym e) check_body_lem

    read_metadata_key_lem :
        (min_read_size : ℕ)
        → 48 ≤ min_read_size
        → (o : Option Bytes) × Loaded o
          × (read_metadata_key file f fmt offset min_read_size ≡ ok (loaded offset o))
    unfolding read_metadata_key
    read_metadata_key_lem min_read_size h =
        let hs = header_size fmt operation ideal key value slot s in
        let p = padding fmt operation ideal key value slot in
        let total = hs + length behind in
        let n = min total min_read_size in
        let bound = header_size-le fmt operation ideal key value slot s in
        let left : length (laws.contents f) - offset ≡ total = omega (arith, stands.inside) in
        let room : ltb total (1 + fmt.offset_width + 3 + fmt.crc_width) ≡ false =
          ≥→ltb total (1 + fmt.offset_width + 3 + fmt.crc_width) (omega (arith, bound)) in
        let got = laws.read_inside f offset n (omega (arith, stands.inside)) in
        let seen =
          ap (take n) stands.ahead
          ∙ take-header_then fmt operation ideal key value slot s n behind (omega (arith, bound)) in
        let small = length-body rest in
        let meta =
          read_meta-header_then fmt operation ideal key value slot s file f offset total
            (take (n - hs) behind) (omega (arith, small)) (omega (arith, small))
            (omega (
              arith,
              small,
              length-append (padding_bytes p) rest,
              length-padding_bytes p (padding-le fmt operation ideal key value slot s),
            )) in
        let (o, l, e) = read_key_lem (n - hs) in
        (o, l, rw (laws.size_known f) (rw left (rw (room, got) (rw seen (meta ∙ e)))))

  stands_at :
      (offset : ℕ) (rest : Bytes)
      → offset ≤ length (laws.contents f)
      → drop offset (laws.contents f)
        ≡ record_bytes fmt (sample fmt operation ideal key value slot) ++ rest
      → StandsAt offset rest
  stands_at offset rest ho ha =
      let bytes = ha ∙ record_bytes-header_then fmt operation ideal key value slot rest in
      let behind = body fmt operation ideal key value slot rest in
      record {
        ahead = bytes;
        inside = omega (
          arith,
          ap length bytes,
          length-drop offset (laws.contents f),
          header_then-size fmt operation ideal key value slot s behind,
        );
      }

  -- Where the bytes of a record stand in a file, `ReadMetadataKey`, with a least read of at least 48
  -- bytes, finds the record: its operation, its key, its child, its whole size and its checksums. The
  -- value is found with it or left out, and after `CheckCRC`, which succeeds, it is there.
  pub read_metadata_key-record_bytes :
      (offset min_read_size : ℕ) (rest : Bytes)
      → offset ≤ length (laws.contents f)
      → drop offset (laws.contents f)
        ≡ record_bytes fmt (sample fmt operation ideal key value slot) ++ rest
      → 48 ≤ min_read_size
      → (o : Option Bytes) × ((o ≡ none) ⊎ (o ≡ some value))
        × (read_metadata_key file f fmt offset min_read_size ≡ ok (loaded offset o))
        × (check_crc file f fmt (loaded offset o) ≡ ok (loaded offset (some value)))
  unfolding Loaded
  read_metadata_key-record_bytes offset min_read_size rest ho ha hm =
      let stands = stands_at offset rest ho ha in
      let (o, l, e) = read_metadata_key_lem offset rest stands min_read_size hm in
      (o, l, e, check_crc_lem offset rest stands o l)

  -- `ReadBody` finds the value that was left out.
  pub read_body-loaded :
      (offset : ℕ) (rest : Bytes)
      → offset ≤ length (laws.contents f)
      → drop offset (laws.contents f)
        ≡ record_bytes fmt (sample fmt operation ideal key value slot) ++ rest
      → read_body file f (loaded offset none) ≡ ok (loaded offset (some value))
  read_body-loaded offset rest ho ha =
      read_body_lem offset rest (stands_at offset rest ho ha) (loaded offset none) refl refl refl
