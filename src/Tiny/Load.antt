-- ===== src/Tiny/Load.antt =====
-- What `ImportRecords` (tkrzw_dbm_tiny.cc) loads from a file of keys and values in turn.
use tkrzw.Base.{◌<◌, Bytes, List, [], ◌∷◌, ◌++◌, none, some, true, length, All}
use tkrzw.Dbm.Processor.{set_processor, report_to}
use tkrzw.Dbm.Interface.{Map, update}
use tkrzw.Flat.File.{File, FileLaws}
use tkrzw.Flat.Record.{flat_bytes}
use tkrzw.Flat.Reader.{FlatRecordReader}
use tkrzw.Flat.Scan.{IsBefore}
use tkrzw.Tiny.Layout.{FitsBlock}
use tkrzw.Tiny.Table.{TinyDbm, bucket_of, process_impl}

abbrev pub Pairs : Type 0
Pairs = List (Bytes × Bytes)

-- The bytes of a file that holds the pairs.
abbrev pub pairs_bytes : Pairs → Bytes
pairs_bytes [] = []
pairs_bytes ((key, value) ∷ pairs) = flat_bytes key ++ (flat_bytes value ++ pairs_bytes pairs)

abbrev pub AllSmall : Pairs → Type 0
AllSmall = All (λ kv. FitsBlock kv.0 kv.1)

-- The last of the values, if there is one, is not empty.
abbrev pub LastIsNonempty : Pairs → Type 0
LastIsNonempty [] = Unit {0}
LastIsNonempty ((key, value) ∷ []) = 0 < length value
LastIsNonempty (kv ∷ (kv' ∷ pairs)) = LastIsNonempty (kv' ∷ pairs)

-- The map after the pairs are stored in order.
abbrev pub set_all : Pairs → Map → Map
set_all [] m = m
set_all ((key, value) ∷ pairs) m = set_all pairs (update m key (some value))

abbrev stored : TinyDbm → Bytes → Bytes → TinyDbm
stored db key value =
    (process_impl db key (bucket_of db key) (set_processor value true) (report_to none) true).1

module _ {F : Type 0} (file : File F) (laws : FileLaws file) (f : F) where
  abbrev At : Bytes → FlatRecordReader → Type 0
  At = IsBefore file laws f
