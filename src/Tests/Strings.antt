-- ===== src/Tests/Strings.antt =====
-- The utilities on strings: expectations of tkrzw_str_util_test.cc, and the theorems at concrete strings.
use tkrzw.Base.{ℕ, ◌≡◌, refl, arith, ◌^◌, ◌-◌, ◌<◌, ◌⊎◌, List, [], ◌∷◌, Bytes, Option, true, false}
use tkrzw.Codec.VarNum.{read_var_num}
use tkrzw.Str.Serial.{deserialize_str_vector, running}
use tkrzw.Str.Search.{
  str_search_double_loop, str_search_memchr, str_begins_with, str_ends_with, str_replace,
}
use tkrzw.Str.SearchFirst.{IsFirst, index_of, str_search_double_loop-IsFirst}
use tkrzw.Str.SearchMemchr.{str_search_memchr-str_search_double_loop}
use tkrzw.Str.Split.{str_split, str_split_byte, join}
use tkrzw.Str.SplitJoin.{join-str_split, str_replace-join}
use tkrzw.Tests.Hashes.{hello}

abbrev comma : ℕ
comma = b','

-- "a,,b"
abbrev listed : Bytes
listed = b'a' ∷ b',' ∷ b',' ∷ b'b' ∷ []

split_listed : str_split_byte listed comma false ≡ (b'a' ∷ []) ∷ [] ∷ (b'b' ∷ []) ∷ []
unfolding str_split_byte tkrzw.Str.Split.split_loop tkrzw.Str.Search.search_loop
    tkrzw.Str.Search.matches
split_listed = refl

split_listed_skip : str_split_byte listed comma true ≡ (b'a' ∷ []) ∷ (b'b' ∷ []) ∷ []
unfolding str_split_byte tkrzw.Str.Split.split_loop tkrzw.Str.Search.search_loop
    tkrzw.Str.Search.matches
split_listed_skip = refl

split_empty : str_split_byte [] comma false ≡ [] ∷ []
unfolding str_split_byte tkrzw.Str.Split.split_loop
split_empty = refl

-- The pattern "l".
abbrev ell : Bytes
ell = b'l' ∷ []

search_ell : str_search_double_loop hello ell ≡ 2
unfolding str_search_double_loop tkrzw.Str.Search.find_double_loop tkrzw.Str.Search.search_loop
    tkrzw.Str.Search.matches
search_ell = refl

ends : str_ends_with hello (b'l' ∷ b'o' ∷ []) ≡ true
unfolding str_ends_with tkrzw.Base.eqb
ends = refl

begins_not : str_begins_with hello ell ≡ false
unfolding str_begins_with tkrzw.Base.eqb
begins_not = refl

str_search_double_loop-IsFirst_example :
    IsFirst hello ell (index_of (str_search_double_loop hello ell))
    × ((str_search_double_loop hello ell ≡ 2 ^ 32 - 1)
        ⊎ (str_search_double_loop hello ell < 2 ^ 31))
str_search_double_loop-IsFirst_example = str_search_double_loop-IsFirst hello ell (omega arith)

str_search_memchr-str_search_double_loop_example :
    str_search_memchr hello ell ≡ str_search_double_loop hello ell
str_search_memchr-str_search_double_loop_example =
    str_search_memchr-str_search_double_loop hello ell (omega arith) (omega arith)

join-str_split_example :
    (join (comma ∷ []) (str_split_byte listed comma false) ≡ listed)
    × (join (comma ∷ comma ∷ []) (str_split listed (comma ∷ comma ∷ []) false) ≡ listed)
join-str_split_example = join-str_split listed (comma ∷ comma ∷ []) comma (omega arith)

str_replace-join_example :
    str_replace hello ell (comma ∷ comma ∷ [])
    ≡ join (comma ∷ comma ∷ []) (str_split hello ell false)
str_replace-join_example = str_replace-join hello ell (comma ∷ comma ∷ []) (omega arith)

abbrev words : List Bytes
words = hello ∷ [] ∷ listed ∷ []

-- The byte that the source reads without end.
one_byte : deserialize_str_vector 100 (0x80 ∷ []) ≡ running
unfolding deserialize_str_vector tkrzw.Str.Serial.deserialize_loop tkrzw.Str.Serial.read_value
    tkrzw.Str.Serial.read_size read_var_num tkrzw.Codec.VarNum.read_loop
one_byte = refl
