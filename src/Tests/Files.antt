-- ===== src/Tests/Files.antt =====
-- A file in memory, and the theorems on flat records at it.
use tkrzw.Base.{
  refl, true, ℕ, ◌+◌, ◌≤◌, ◌≡◌, refl, arith, Bytes, [], ◌∷◌, ◌++◌, take, replicate, length-take,
  length-append, length-replicate, length, ltb, false,
}
use tkrzw.Status.{is_success, status_of, not_found_error}
use tkrzw.Tiny.Table.{TinyDbm}
use tkrzw.Tiny.Store.{export_records}
use tkrzw.Tiny.Record.{serialize}
use tkrzw.Tiny.Save.{table_pairs, export_records-contents}
use tkrzw.Tiny.Load.{pairs_bytes}
use tkrzw.Tests.Tables.{ka, kb, va, empty}
use tkrzw.Flat.File.{memory_file, FileLaws}
use tkrzw.Flat.Record.{flat_bytes}
use tkrzw.Flat.Reader.{new_reader, next}
use tkrzw.Flat.Scan.{next-end, new_reader-IsBefore}

pub outside_not : (off size n : ℕ) → off + size ≤ n → ltb n (off + size) ≡ false
outside_not off size n h = ground arith

pub length_filled : (f : Bytes) (size : ℕ) → length (take size (f ++ replicate size 0)) ≡ size
length_filled f size = omega (
  arith,
  length-take size (f ++ replicate size 0),
  length-append f (replicate size 0),
  length-replicate {A = ℕ} size 0,
)

abbrev pub memory_laws : FileLaws memory_file
memory_laws = record {
  contents = λ f. f;
  read_inside = λ f off size h. rw (outside_not off size (length f) h) refl;
  size_known = λ f. refl;
  write_at = λ f off buf h ok. refl;
  append_end = λ f buf h. refl;
  append_offset = λ f buf h. refl;
  truncate_empty = λ f h. refl;
  truncate_size = λ f size h. length_filled f size;
}

-- A string and an empty one behind it.
abbrev pub two_records : Bytes
two_records = flat_bytes (1 ∷ 2 ∷ []) ++ flat_bytes []

-- A file with nothing but one record of an empty string.
next-end_example :
    (next memory_file (flat_bytes []) (new_reader 0)).status ≡ status_of not_found_error
unfolding flat_bytes tkrzw.Codec.VarNum.write_var_num new_reader
next-end_example =
    next-end memory_file memory_laws (flat_bytes []) (flat_bytes []) (new_reader 0) (omega arith)
      (new_reader-IsBefore memory_file memory_laws (flat_bytes []) 0)

-- The file of a database with one record.
abbrev saved : Bytes
saved = pairs_bytes ((ka, va) ∷ [])

-- The same with an empty value behind it.
abbrev saved_empty : Bytes
saved_empty = pairs_bytes ((ka, va) ∷ (kb, []) ∷ [])

-- A table with one record.
abbrev with_one : TinyDbm
with_one = record empty {
  num_records = 1;
  buckets = (serialize (record { key = ka; value = va }) ∷ []) ∷ [];
}

exported : is_success (export_records memory_file with_one (7 ∷ [])).0 ≡ true
unfolding export_records tkrzw.Tiny.Store.export_chains tkrzw.Tiny.Store.export_chain
    tkrzw.Flat.Record.write
exported = refl

export_records-contents_example :
    memory_laws.contents (export_records memory_file with_one (7 ∷ [])).1
    ≡ pairs_bytes (table_pairs with_one.buckets)
export_records-contents_example =
    export_records-contents memory_file memory_laws with_one (7 ∷ []) exported
