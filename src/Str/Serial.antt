-- ===== src/Str/Serial.antt =====
-- Strings in one string (tkrzw_str_util.cc): `SerializeStrPair`, `DeserializeStrPair`,
-- `GetFirstFromSerializedStrPair`, `SerializeStrVector` and `DeserializeStrVector`.
use tkrzw.Base.{
  ℕ, zero, suc, ◌^◌, List, [], ◌∷◌, ◌++◌, if◌then◌else◌, Option, none, some, Bytes, ltb, length,
  take, drop, ◌%◌,
}
use tkrzw.Codec.VarNum.{write_var_num, read_var_num}

-- The size and the string.
unfoldable pub sized : Bytes → Bytes
sized value = write_var_num (length value) ++ value

-- `ReadVarNum` in the form with a size: at the end of the bytes the number is 0 and no byte is taken.
unfoldable pub read_size : Bytes → ℕ × Bytes
read_size rp = elim (read_var_num rp) [ none ↦ (0, rp) | some (num, rest) ↦ (num, rest) ]

unfoldable pub serialize_str_pair : Bytes → Bytes → Bytes
serialize_str_pair first second = sized first ++ sized second

-- The views of `DeserializeStrPair`. Where a size leads out of the bytes, the source makes a view of
-- memory that is not the string's, and the model one of the bytes that are there.
unfoldable pub deserialize_str_pair : Bytes → Bytes × Bytes
deserialize_str_pair serialized =
    let first = read_size serialized in
    let second = read_size (drop first.0 first.1) in (take first.0 first.1, take second.0 second.1)

unfoldable pub get_first_from_serialized_str_pair : Bytes → Bytes
get_first_from_serialized_str_pair serialized =
    let first = read_size serialized in take first.0 first.1

unfoldable pub serialize_str_vector : List Bytes → Bytes
serialize_str_vector [] = []
serialize_str_vector (value ∷ values) = sized value ++ serialize_str_vector values

-- What a loop over serialized strings comes to: it returns, it takes a size that is negative as an
-- int64_t (`std::string` throws `std::length_error`), or it still runs when the fuel is used up.
pub data Outcome (A : Type 0) : Type 0 where
  returned : A → Outcome A
  negative_size running : Outcome A

abbrev pub map_outcome : {A B : Type 0} → (A → B) → Outcome A → Outcome B
map_outcome f (returned a) = returned (f a)
map_outcome f negative_size = negative_size
map_outcome f running = running

-- The string at the front: `none` where the loop breaks.
unfoldable pub read_value : Bytes → Option (Outcome (Bytes × Bytes))
read_value rp =
    let value = read_size rp in
    if ltb value.0 (2 ^ 63)
    then if ltb (length value.1) value.0
      then none
      else some (returned (take value.0 value.1, drop value.0 value.1))
    else some negative_size

-- What the loop does with a string and with the bytes behind it.
abbrev pub push_value :
    (Bytes → Outcome (List Bytes)) → Option (Outcome (Bytes × Bytes)) → Outcome (List Bytes)
push_value rest_of none = returned []
push_value rest_of (some negative_size) = negative_size
push_value rest_of (some running) = running
push_value rest_of (some (returned (value, rest))) = map_outcome (◌∷◌ value) (rest_of rest)

-- The loop of `DeserializeStrVector`, on fuel.
unfoldable pub deserialize_loop : ℕ → Bytes → Outcome (List Bytes)
deserialize_loop fuel [] = returned []
deserialize_loop zero (c ∷ rp) = running
deserialize_loop (suc fuel) (c ∷ rp) = push_value (deserialize_loop fuel) (read_value (c ∷ rp))

-- The size is kept in an int32_t: with a negative one there is no round of the loop, and otherwise the
-- loop sees as many bytes of the string.
unfoldable pub deserialize_str_vector : ℕ → Bytes → Outcome (List Bytes)
deserialize_str_vector fuel serialized =
    let size = length serialized % 2 ^ 32 in
    if ltb size (2 ^ 31) then deserialize_loop fuel (take size serialized) else returned []
