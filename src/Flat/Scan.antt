-- ===== src/Flat/Scan.antt =====
-- What `FlatRecordReader` reads from a file that holds flat records, through a buffer of any size.
use tkrzw.Base.{
  ℕ, ◌+◌, ◌-◌, ◌≤◌, ◌≡◌, refl, Bytes, length, take, drop, arith, leb, Bool-cases, inl, inr, leb→≤,
  ≤→leb,
}
use tkrzw.Status.{status_of, success, not_found_error}
use tkrzw.Codec.VarNum.{size_var_num}
use tkrzw.Flat.File.{File, FileLaws}
use tkrzw.Flat.Reader.{
  FlatRecordReader, Next, min_record_size, max_header_size, next, fill, new_reader,
}

module _ {F : Type 0} (file : File F) (laws : FileLaws file) (f : F) where
  abbrev whole_file : Bytes
  whole_file = laws.contents f

  -- The reader stands before the bytes `left`, and what its buffer has of them is theirs.
  pub record IsBefore (left : Bytes) (rd : FlatRecordReader) : Type 0 where
    pub position : rd.offset + length left ≡ length whole_file
    pub ahead : drop rd.offset whole_file ≡ left
    pub sized : 8 ≤ rd.buffer_size
    pub buffered :
        rd.index + max_header_size ≤ rd.data_size
        → (drop rd.index (take rd.data_size rd.buffer) ≡ take (rd.data_size - rd.index) left)
          × (rd.data_size - rd.index ≤ length left)

  -- The outcome of a read that succeeds.
  pub record Reads (s left : Bytes) (n : Next) : Type 0 where
    pub succeeds : n.status ≡ status_of success
    pub reads : n.str ≡ s
    pub before : IsBefore left n.reader

  abbrev span : Bytes → ℕ
  span s = 1 + size_var_num (length s) + length s

  -- With at most two bytes left in the file, a reader reports the end of the file, also when the two
  -- bytes are a whole record with empty data.
  pub next-end :
      (left : Bytes) (rd : FlatRecordReader)
      → length left ≤ 2
      → IsBefore left rd
      → (next file f rd).status ≡ status_of not_found_error
  unfolding next fill
  next-end left rd hl h =
      let at_end =
        ≤→leb (length whole_file) (rd.offset + min_record_size) (omega (arith, h.position)) in
      elim (Bool-cases (leb (rd.index + max_header_size) rd.data_size)) [
        | inl e ↦
            let hb = leb→≤ (rd.index + max_header_size) rd.data_size e in
            absurd (omega (arith, (h.buffered hb).1))
        | inr e ↦ rw (e, laws.size_known f) (rw at_end refl)
      ]

  -- The data of a new reader's buffer is that of the file from its start.
  pub new_reader-IsBefore : (buffer_size : ℕ) → IsBefore whole_file (new_reader buffer_size)
  unfolding new_reader
  new_reader-IsBefore buffer_size = record {
    position = omega arith;
    ahead = refl;
    sized = ground arith;
    buffered = λ h. absurd (omega arith);
  }
