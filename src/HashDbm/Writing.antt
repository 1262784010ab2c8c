-- ===== src/HashDbm/Writing.antt =====
-- What `HashRecord::Write` and `WriteChildOffset` (tkrzw_dbm_hash_impl.cc) leave in the file.
use native.Mathlib.Nat.{mul-div_left}
use tkrzw.Base.{
  ℕ, suc, ◌+◌, ◌*◌, ◌^◌, ◌≤◌, ◌<◌, ◌≡◌, refl, ap, ◌∙◌, sym, arith, Bytes, [], ◌∷◌, ◌++◌, true, none,
  length, take, drop, length-append, append_assoc, append-nil, drop_append, length-drop, drop-drop,
  ◌/◌, take-add,
}
use tkrzw.Status.{is_success}
use tkrzw.Codec.FixNum.{write_fix_num, read_fix_num-write_fix_num}
use tkrzw.Flat.File.{File, FileLaws}
use tkrzw.HashDbm.Record.{Format, OperationType, record_bytes, padding_bytes, set_data}
use tkrzw.HashDbm.Access.{write, write_child_offset}
use tkrzw.HashDbm.Layout.{two_pow-pos}
use tkrzw.HashDbm.Header.{
  sample, IsStorable, header_then, body, padding, record_bytes-header_then, header_then-size,
  padding-le, whole_size-padding, fix_part, sizes_then, magic, fix_part-size,
}
use tkrzw.HashDbm.Padding.{length-padding_bytes}

module _ (fmt : Format) (operation : OperationType) (ideal : ℕ) (key value : Bytes) (slot : ℕ)
    (s : IsStorable fmt operation ideal key value slot) where
  -- A record takes up exactly its whole size, padding included.
  pub length-record_bytes :
      length (record_bytes fmt (sample fmt operation ideal key value slot))
      ≡ (sample fmt operation ideal key value slot).whole_size
  length-record_bytes =
      let p = padding fmt operation ideal key value slot in
      let rest = body fmt operation ideal key value slot [] in
      omega (
        arith,
        ap length (
            sym (append-nil (record_bytes fmt (sample fmt operation ideal key value slot)))
            ∙ record_bytes-header_then fmt operation ideal key value slot []),
        header_then-size fmt operation ideal key value slot s rest,
        length-append key (value ++ (padding_bytes p ++ [])),
        length-append value (padding_bytes p ++ []),
        length-append (padding_bytes p) [],
        length-padding_bytes p (padding-le fmt operation ideal key value slot s),
        whole_size-padding fmt operation ideal key value slot s,
      )

  module _ {F : Type 0} (file : File F) (laws : FileLaws file) (f : F) where
    -- `Write` at the end of the file, when it reports success, leaves what was there and puts the bytes
    -- of the record behind it, at the offset that it gives back.
    pub write-record_bytes :
        is_success (write file f fmt (sample fmt operation ideal key value slot) none).0 ≡ true
        → (laws.contents (write file f fmt (sample fmt operation ideal key value slot) none).1
            ≡ laws.contents f ++ record_bytes fmt (sample fmt operation ideal key value slot))
          × (drop (write file f fmt (sample fmt operation ideal key value slot) none).2 (
                laws.contents (write file f fmt (sample fmt operation ideal key value slot) none).1)
              ≡ record_bytes fmt (sample fmt operation ideal key value slot) ++ [])
    unfolding write
    write-record_bytes h =
        let bytes = record_bytes fmt (sample fmt operation ideal key value slot) in
        let e = laws.append_end f bytes h in
        (
          e,
          rw (laws.append_offset f bytes h, e)
              (drop_append (laws.contents f) bytes ∙ sym (append-nil bytes)),
        )

    -- Only the child is another.
    other_child :
        (slot' : ℕ) (rest : Bytes)
        → header_then fmt operation ideal key value slot'
            (body fmt operation ideal key value slot' rest)
          ≡ magic fmt operation ideal key value slot
            ∷ (fix_part fmt operation ideal key value slot'
                ++ sizes_then fmt operation ideal key value slot s file f
                    (body fmt operation ideal key value slot rest))
    unfolding set_data
    other_child slot' rest = refl

    -- `WriteChildOffset` on a record in the file, when it reports success, makes it the record with the
    -- other child and the same operation, key, value and size; what stands before the record and behind
    -- it stays as it was.
    pub write_child_offset-record_bytes :
        (offset slot' : ℕ) (rest : Bytes)
        → offset ≤ length (laws.contents f)
        → slot' < 2 ^ (fmt.offset_width * 8)
        → drop offset (laws.contents f)
          ≡ record_bytes fmt (sample fmt operation ideal key value slot) ++ rest
        → is_success (write_child_offset file f fmt offset (slot' * 2 ^ fmt.align_pow)).0 ≡ true
        → laws.contents (write_child_offset file f fmt offset (slot' * 2 ^ fmt.align_pow)).1
          ≡ take offset (laws.contents f)
            ++ (record_bytes fmt (sample fmt operation ideal key value slot') ++ rest)
    unfolding write_child_offset
    write_child_offset-record_bytes offset slot' rest ho hs ha ok =
        let c = laws.contents f in
        let e : slot' * 2 ^ fmt.align_pow / 2 ^ fmt.align_pow ≡ slot' =
          mul-div_left slot' (two_pow-pos fmt.align_pow) in
        let sizes =
          sizes_then fmt operation ideal key value slot s file f
            (body fmt operation ideal key value slot rest) in
        let fix = fix_part fmt operation ideal key value slot in
        let fix' = fix_part fmt operation ideal key value slot' in
        let there = ha ∙ record_bytes-header_then fmt operation ideal key value slot rest in
        let size = fix_part-size fmt operation ideal key value slot s in
        let size' =
          (read_fix_num-write_fix_num fmt.offset_width slot' s.format.offset_low
            s.format.offset_high hs).1 in
        let inside : offset + 1 ≤ length c = omega (arith, ap length there, length-drop offset c) in
        let after =
          laws.write_at f (offset + 1)
            (write_fix_num (slot' * 2 ^ fmt.align_pow / 2 ^ fmt.align_pow) fmt.offset_width) inside
            ok in
        let front : take (offset + 1) c
            ≡ take offset c ++ (magic fmt operation ideal key value slot ∷ []) =
          take-add offset 1 c ∙ ap (λ d. take offset c ++ take 1 d) there in
        let back : drop (offset + 1 + length fix') c ≡ sizes =
          ap (λ n. drop n c) (omega (arith, size, size'))
          ∙ drop-drop offset (suc (length fix)) c
          ∙ ap (drop (suc (length fix))) there
          ∙ drop_append fix sizes in
        after
        ∙ rw e (
            rw (front, back)
              (append_assoc (take offset c) (magic fmt operation ideal key value slot ∷ [])
                  (fix' ++ sizes)
                ∙ ap (◌++◌ (take offset c)) (
                    sym (
                      record_bytes-header_then fmt operation ideal key value slot' rest
                      ∙ other_child slot' rest))))
