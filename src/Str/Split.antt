-- ===== src/Str/Split.antt =====
-- `StrSplit` of tkrzw_str_util.cc, for a byte and for a string as the delimiter. An index into the string
-- stands for the bytes from it on.
use tkrzw.Base.{
  ℕ, zero, suc, ◌+◌, List, [], ◌∷◌, ◌++◌, if◌then◌else◌, Option, none, some, Bytes, Bool, true,
  false, ◌&&◌, length, take, drop,
}
use tkrzw.Str.Search.{search_loop}

-- `std::string_view::find`, and with it `StrSearch`: the first index of the string.
abbrev pub find : Bytes → Bytes → Option ℕ
find text pattern = search_loop (suc (length text)) text pattern

abbrev pub is_empty : Bytes → Bool
is_empty [] = true
is_empty (c ∷ s) = false

-- A segment in front of others, unless it is skipped.
abbrev pub add_segment : Bool → Bytes → List Bytes → List Bytes
add_segment skip_empty segment segments =
    if skip_empty && is_empty segment then segments else segment ∷ segments

-- The loop with what follows it, on the bytes from `i` on. The fuel is their number.
unfoldable pub split_loop : ℕ → Bytes → Bytes → Bool → List Bytes
split_loop zero rest delim skip_empty = add_segment skip_empty rest []
split_loop (suc fuel) [] delim skip_empty = add_segment skip_empty [] []
split_loop (suc fuel) (c ∷ rest) delim skip_empty = elim (find (c ∷ rest) delim) [
  | none ↦ add_segment skip_empty (c ∷ rest) []
  | some pos ↦
      add_segment skip_empty (take pos (c ∷ rest))
        (split_loop fuel (drop (pos + length delim) (c ∷ rest)) delim skip_empty)
]

-- The form with a byte.
unfoldable pub str_split_byte : Bytes → ℕ → Bool → List Bytes
str_split_byte str delim skip_empty = split_loop (length str) str (delim ∷ []) skip_empty

abbrev single_bytes : Bytes → List Bytes
single_bytes [] = []
single_bytes (c ∷ str) = (c ∷ []) ∷ single_bytes str

-- The form with a string.
unfoldable pub str_split : Bytes → Bytes → Bool → List Bytes
str_split str [] skip_empty = single_bytes str
str_split str (d ∷ delim) skip_empty = split_loop (length str) str (d ∷ delim) skip_empty

-- Segments with a string between them.
unfoldable pub join : Bytes → List Bytes → Bytes
join between [] = []
join between (segment ∷ []) = segment
join between (segment ∷ s ∷ segments) = segment ++ (between ++ join between (s ∷ segments))
