-- ===== src/HashDbm/Stepped.antt =====
-- A step of `HashDBMImpl::ProcessImpl` (tkrzw_dbm_hash.cc) in appending mode keeps the bytes of the file a
-- table.
use mathlib.Core.Path.{subst}
use native.Mathlib.Nat.{mul-div_left, lt_of_mul-lt-mul_right}
use tkrzw.Base.{
  ℕ, ◌+◌, ◌*◌, ◌/◌, ◌^◌, ◌≤◌, ◌<◌, ◌≡◌, refl, ap, ap₂, ◌∙◌, sym, arith, Bytes, List, [], ◌++◌,
  Option, none, some, Bool, true, false, length, eqb, All, IsByte, length-append,
}
use tkrzw.Hash.{primary_hash, primary_hash-lt}
use tkrzw.Codec.FixNum.{write_fix_num}
use tkrzw.Dbm.Interface.{Map, update}
use tkrzw.Flat.File.{File, FileLaws}
use tkrzw.HashDbm.Record.{
  Format, HashRecord, record_bytes, set_data, OperationType, op_add, op_set, op_remove, or_empty,
  max_key_size, max_value_size,
}
use tkrzw.HashDbm.Layout.{two_pow-pos}
use tkrzw.HashDbm.Update.{with_value, stored_as}
use tkrzw.HashDbm.Patch.{patch}
use tkrzw.HashDbm.Chain.{Entry, lookup_in, stored, Chain, Chain-inside, IsStored}
use tkrzw.HashDbm.Buckets.{base, place, IsTable, place-base, record_base-ge}
use tkrzw.HashDbm.Push.{pushed-IsTable}
use tkrzw.HashDbm.Append.{IsSteady, appended}

-- The size of a record does not hang on its operation and its child.
abbrev pub fresh_size : Format → Bytes → Bytes → ℕ
fresh_size fmt key value = (set_data fmt op_add 0 key value 0).whole_size

-- A record of the key and the value can be put at the end of the file.
pub record HasRoom (fmt : Format) (c key value : Bytes) : Type 0 where
  pub small_key : length key ≤ max_key_size
  pub small_value : length value ≤ max_value_size
  pub key_bytes : All IsByte key
  pub value_bytes : All IsByte value
  pub small_whole : fresh_size fmt key value ≤ max_value_size
  pub slots : length c < 2 ^ (fmt.offset_width * 8) * 2 ^ fmt.align_pow
  pub small : length c + fresh_size fmt key value < 2 ^ 63

below_slots : (k a x y : ℕ) → x * k ≤ y → y < a * k → x < a
below_slots k a x y h l = lt_of_mul-lt-mul_right k (omega arith)

module _ (fmt : Format) (n : ℕ) (c : Bytes) (m : Map) (v : IsTable fmt n c m) (key : Bytes)
    (child : ℕ) (es : List Entry) (tail : Chain fmt (base fmt n) c child es)
    (same : (j : Bytes)
      → eqb key j ≡ false
      → primary_hash j n ≡ primary_hash key n
      → lookup_in es j ≡ m j)
    {F : Type 0} (file : File F) (laws : FileLaws file) (steady : IsSteady file) (f : F)
    (here : laws.contents f ≡ c) where
  child-inside : child * 2 ^ fmt.align_pow < length c
  child-inside =
      Chain-inside fmt (base fmt n) c child es tail (omega (arith, v.sized, record_base-ge fmt n))

  -- The offset of the new record is a number of units.
  contents-appended :
      (w : Bytes) (rec : HashRecord)
      → record_bytes fmt rec ≡ w
      → laws.contents (appended file laws steady f fmt (primary_hash key n) rec)
        ≡ patch (c ++ w) (place fmt n (primary_hash key n)) (write_fix_num v.units fmt.offset_width)
  contents-appended w rec ew =
      let r = file.append f (record_bytes fmt rec) in
      let written =
        laws.append_end f (record_bytes fmt rec) (steady.appends f (record_bytes fmt rec)) in
      let longer : laws.contents r.1 ≡ c ++ w = written ∙ ap₂ ◌++◌ here ew in
      let at : r.2 / 2 ^ fmt.align_pow ≡ v.units =
        ap (λ o. o / 2 ^ fmt.align_pow)
          (laws.append_offset f (record_bytes fmt rec) (steady.appends f (record_bytes fmt rec))
            ∙ ap length here
            ∙ v.aligned)
        ∙ mul-div_left v.units (two_pow-pos fmt.align_pow) in
      let b = primary_hash key n in
      let digits = write_fix_num (r.2 / 2 ^ fmt.align_pow) fmt.offset_width in
      let before_end : place fmt n b ≤ length (laws.contents r.1) = omega (
        arith,
        ap length longer,
        length-append c w,
        v.sized,
        place-base fmt n b (primary_hash-lt key n v.positive),
      ) in
      laws.write_at r.1 (place fmt n b) digits before_end (steady.writes r.1 (place fmt n b) digits)
      ∙ ap₂ (λ l d. patch l (place fmt n b) d) longer
          (ap (λ u. write_fix_num u fmt.offset_width) at)

  -- A record of the key in front of the chain.
  abbrev in_front : OperationType → Bytes → Entry
  in_front operation value = record {
    operation = operation;
    ideal = 0;
    key = key;
    value = value;
    child = child;
  }

  record-IsTable :
      (operation : OperationType) (value : Bytes)
      → HasRoom fmt c key value
      → IsTable fmt n
          (laws.contents (
            appended file laws steady f fmt
              (primary_hash key n)
              (set_data fmt operation 0 key value (child * 2 ^ fmt.align_pow))))
          (update m key (stored (in_front operation value)))
  unfolding set_data
  record-IsTable operation value room =
      let e = in_front operation value in
      let rec = set_data fmt operation 0 key value (child * 2 ^ fmt.align_pow) in
      let unit = 2 ^ fmt.align_pow in
      let count = 2 ^ (fmt.offset_width * 8) in
      let storable : IsStored fmt (base fmt n) e = record {
        format = v.format;
        small_key = room.small_key;
        small_value = room.small_value;
        small_whole = room.small_whole;
        key_bytes = room.key_bytes;
        value_bytes = room.value_bytes;
        small_slot =
            below_slots unit count child (length c) (omega (arith, child-inside)) room.slots;
        small_child = omega (arith, v.small, child-inside);
      } in
      let enough : v.units < count =
        below_slots unit count v.units (length c) (omega (arith, v.aligned)) room.slots in
      let before : child < v.units =
        lt_of_mul-lt-mul_right unit (omega (arith, child-inside, v.aligned)) in
      subst (λ d. IsTable fmt n d (update m key (stored e)))
        (sym (contents-appended (record_bytes fmt rec) rec refl))
        (pushed-IsTable fmt n c m v e es tail storable enough before room.small same)

  -- The value of the key is changed, or taken away for `none`.
  pub with_value-IsTable :
      (is_set : Bool) (change : Option Bytes)
      → HasRoom fmt c key (or_empty change)
      → IsTable fmt n
          (laws.contents (
            appended file laws steady f fmt
              (primary_hash key n)
              (with_value fmt (stored_as is_set) 0 key change (child * 2 ^ fmt.align_pow))))
          (update m key change)
  with_value-IsTable is_set none room = record-IsTable op_remove [] room
  with_value-IsTable true (some w) room = record-IsTable op_set w room
  with_value-IsTable false (some w) room = record-IsTable op_add w room
