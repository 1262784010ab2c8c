-- ===== src/Str/Search.antt =====
-- Search for a string in another (tkrzw_str_util.cc): `StrSearchDoubleLoop`, `StrSearchMemchr`,
-- `StrBeginsWith`, `StrEndsWith` and `StrReplace`. A place in a text stands for the bytes from it on, and
-- `none` for no place. Results are int32_t and are given by their last 32 bits.
use tkrzw.Base.{
  ℕ, zero, suc, ◌+◌, ◌-◌, ◌%◌, ◌^◌, from_int32, ◌==◌, [], ◌∷◌, ◌++◌, if◌then◌else◌, Option, none,
  some, Bytes, Bool, true, false, ltb, length, take, drop, eqb,
}
use mathlib.Core.Option.{map}

-- The inner loop: the pattern stands at the front of the text.
unfoldable pub matches : Bytes → Bytes → Bool
matches text [] = true
matches [] (p ∷ ps) = false
matches (c ∷ text) (p ∷ ps) = let further = matches text ps in if c == p then further else false

-- The outer loop of `StrSearchDoubleLoop`, which has `text_end - text_index` rounds left.
unfoldable pub search_loop : ℕ → Bytes → Bytes → Option ℕ
search_loop zero text pattern = none
search_loop (suc rounds) [] pattern = if matches [] pattern then some 0 else none
search_loop (suc rounds) (c ∷ text) pattern =
    let later = search_loop rounds text pattern in
    if matches (c ∷ text) pattern then some 0 else map suc later

-- Where `StrSearchDoubleLoop` stops, as a size_t.
unfoldable pub find_double_loop : Bytes → Bytes → Option ℕ
find_double_loop text pattern =
    if ltb (length text) (length pattern)
    then none
    else search_loop (length text - length pattern + 1) text pattern

-- The int32_t that a search returns: the last 32 bits of the place, or -1.
abbrev pub int32_result : Option ℕ → ℕ
int32_result none = 2 ^ 32 - 1
int32_result (some i) = i % 2 ^ 32

unfoldable pub str_search_double_loop : Bytes → Bytes → ℕ
str_search_double_loop text pattern = int32_result (find_double_loop text pattern)

-- `std::memchr` in so many bytes: the index of the byte.
unfoldable pub memchr : ℕ → ℕ → Bytes → Option ℕ
memchr zero c text = none
memchr (suc size) c [] = none
memchr (suc size) c (x ∷ text) =
    let later = memchr size c text in if x == c then some 0 else map suc later

-- `std::memcmp` finds no difference in the bytes of the pattern.
abbrev pub same : Bytes → Bytes → Bool
same text pattern = eqb (take (length pattern) text) pattern

-- The loop of `StrSearchMemchr`: `size` starts are left, the first of them `start` behind the front of
-- the text. The size gets less in each round, so that the size is the fuel.
unfoldable pub memchr_loop : ℕ → ℕ → ℕ → Bytes → ℕ → Bytes → Option ℕ
memchr_loop zero size start current first rest = none
memchr_loop (suc fuel) size start current first rest = elim (memchr size first current) [
  | none ↦ none
  | some step ↦
      let behind = drop (step + 1) current in
      let later = memchr_loop fuel (size - (step + 1)) (start + step + 1) behind first rest in
      if same behind rest then some (start + step) else later
]

-- The first `size` of `StrSearchMemchr`, an int32_t from sizes that are cut to int32_t; the loop does
-- nothing with a negative one.
abbrev pub starts : ℕ → ℕ → ℕ
starts text_size pattern_size =
    let size = (text_size % 2 ^ 32 + (2 ^ 32 - pattern_size % 2 ^ 32) + 1) % 2 ^ 32 in
    if ltb size (2 ^ 31) then size else 0

-- As many bytes of the pattern are compared as the int32_t `pattern_size` says.
unfoldable pub str_search_memchr : Bytes → Bytes → ℕ
str_search_memchr text [] = 0
str_search_memchr text (first ∷ rest) =
    let size = starts (length text) (length (first ∷ rest)) in
    let compared = take (from_int32 (length rest)) rest in
    int32_result (memchr_loop size size 0 text first compared)

unfoldable pub str_begins_with : Bytes → Bytes → Bool
str_begins_with text pattern =
    if ltb (length text) (length pattern) then false else same text pattern

unfoldable pub str_ends_with : Bytes → Bytes → Bool
str_ends_with text pattern =
    if ltb (length text) (length pattern)
    then false
    else same (drop (length text - length pattern) text) pattern

-- The loop of `StrReplace`, which has bytes up to `end` left where the string before may begin; then the
-- bytes that are left are taken over. The fuel is the number of bytes.
unfoldable pub replace_loop : ℕ → Bytes → Bytes → Bytes → Bytes
replace_loop zero str before after = str
replace_loop (suc fuel) [] before after = []
replace_loop (suc fuel) (c ∷ str) before after =
    let replaced = replace_loop fuel (drop (length before) (c ∷ str)) before after in
    let kept = replace_loop fuel str before after in
    if ltb (length (c ∷ str)) (length before)
    then c ∷ str
    else if matches (c ∷ str) before
    then after ++ replaced
    else c ∷ kept

unfoldable pub str_replace : Bytes → Bytes → Bytes → Bytes
str_replace str [] after = str
str_replace str (b ∷ before) after =
    if ltb (length str) (length (b ∷ before))
    then str
    else replace_loop (length str) str (b ∷ before) after
