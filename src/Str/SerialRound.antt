-- ===== src/Str/SerialRound.antt =====
-- What `DeserializeStrPair` and `DeserializeStrVector` (tkrzw_str_util.cc) make of serialized strings.
use tkrzw.Base.{
  ◌^◌, ◌<◌, ◌≡◌, refl, ap, ◌∙◌, sym, arith, [], ◌++◌, Bytes, length, take_append, drop_append,
  append_assoc, append-nil, take_all,
}
use tkrzw.Codec.VarNum.{write_var_num}
use tkrzw.Codec.VarRound.{read_var_num-write_var_num}
use tkrzw.Str.Serial.{
  sized, read_size, serialize_str_pair, deserialize_str_pair, get_first_from_serialized_str_pair,
}

read_size-sized :
    (value rest : Bytes)
    → length value < 2 ^ 64
    → read_size (sized value ++ rest) ≡ (length value, value ++ rest)
unfolding read_size sized
read_size-sized value rest h =
    rw (append_assoc (write_var_num (length value)) value rest)
      (rw (read_size, read_var_num-write_var_num (length value) (value ++ rest) h) refl)

-- Two strings that are serialized as a pair are read back, and the first of them by itself too.
pub deserialize_str_pair-serialize_str_pair :
    (first second : Bytes)
    → length first < 2 ^ 64
    → length second < 2 ^ 64
    → (deserialize_str_pair (serialize_str_pair first second) ≡ (first, second))
      × (get_first_from_serialized_str_pair (serialize_str_pair first second) ≡ first)
unfolding deserialize_str_pair serialize_str_pair get_first_from_serialized_str_pair
deserialize_str_pair-serialize_str_pair first second hf hs =
    let f = read_size-sized first (sized second) hf in
    let behind = drop_append first (sized second) in
    let end : read_size (sized second) ≡ (length second, second) =
      ap read_size (sym (append-nil (sized second)))
      ∙ read_size-sized second [] hs
      ∙ ap (λ b. (length second, b)) (append-nil second) in
    let whole = take_all (length second) second (omega arith) in
    (
      rw f (rw (behind, take_append first (sized second)) (rw end (rw whole refl))),
      rw f (take_append first (sized second)),
    )

abbrev IsShort : Bytes → Type 0
IsShort value = length value < 2 ^ 63
