-- ===== src/HashDbm/Push.antt =====
-- The table after a record was put at the end of the file and its place into the bucket of its key
-- (tkrzw_dbm_hash.cc).
use mathlib.Core.Path.{subst}
use native.Mathlib.Nat.{add-mul, mod-add-div, mul_comm, zero-mul}
use tkrzw.Base.{
  ℕ, zero, suc, ◌+◌, ◌*◌, ◌/◌, ◌%◌, ◌^◌, ◌≤◌, ◌<◌, ◌≡◌, ◌≢◌, ◌==◌, refl, ap, ◌∙◌, sym, arith, List,
  [], ◌∷◌, Bytes, ◌++◌, if◌then◌else◌, true, false, ltb, length, take, drop, eqb, eqb_iff,
  length-append, Bool-cases, inl, inr, append-nil, drop_append, ==_iff, ==_refl, eqb_comm,
}
use tkrzw.Hash.{primary_hash, primary_hash-lt}
use tkrzw.Codec.FixNum.{write_fix_num, read_fix_num, read_fix_num-write_fix_num}
use tkrzw.Dbm.Interface.{Map, update}
use tkrzw.HashDbm.Record.{Format, record_bytes, set_data, base_size}
use tkrzw.HashDbm.Layout.{align_number_lem}
use tkrzw.HashDbm.Header.{whole_size-padding}
use tkrzw.HashDbm.Writing.{length-record_bytes}
use tkrzw.HashDbm.Patch.{patch, length-patch, patch_behind, patch_before, patch_same, window_before}
use tkrzw.HashDbm.Chain.{
  Entry, lookup_in, stored, Stands, Chain, Chain-append, Chain-patch, entry_record, IsStored,
}
use tkrzw.HashDbm.Buckets.{base, place, slot_at, IsTable, place-lt, place-base, record_base-ge}

-- A positive length is a positive number of units.
positive-of : (a u len : ℕ) → len ≡ u * 2 ^ a → 1 ≤ len → 1 ≤ u
positive-of a zero len e h = absurd (omega (arith, zero-mul (2 ^ a)))
positive-of a (suc u) len e h = omega arith

-- The size of a record is a number of units.
whole_size-units :
    (fmt : Format) (base : ℕ) (e : Entry)
    → (q : ℕ) × ((entry_record fmt base e).whole_size ≡ q * 2 ^ fmt.align_pow)
unfolding set_data
whole_size-units fmt base e =
    let whole = (entry_record fmt base e).whole_size in
    let a = 2 ^ fmt.align_pow in
    let least = base_size fmt (length e.key) (length e.value) in
    let wanted = if ltb least e.ideal then e.ideal else least in
    let even : whole % a ≡ 0 = (align_number_lem wanted fmt.align_pow).2 in
    (whole / a, omega (arith, even, mod-add-div whole a, mul_comm a (whole / a)))

module _ (fmt : Format) (n : ℕ) (c : Bytes) (m : Map) (v : IsTable fmt n c m) (e : Entry)
    (es : List Entry) (tail : Chain fmt (base fmt n) c e.child es)
    (storable : IsStored fmt (base fmt n) e) (room : v.units < 2 ^ (fmt.offset_width * 8))
    (before : e.child < v.units) where
  abbrev b : ℕ
  b = primary_hash e.key n

  b-lt : b < n
  b-lt = primary_hash-lt e.key n v.positive

  abbrev w : Bytes
  w = record_bytes fmt (entry_record fmt (base fmt n) e)

  abbrev grown : Bytes
  grown = c ++ w

  abbrev digits : Bytes
  digits = write_fix_num v.units fmt.offset_width

  -- The bytes of the file afterwards.
  abbrev pub pushed : Bytes
  pushed = patch grown (place fmt n b) digits

  digits_lem : (read_fix_num digits fmt.offset_width ≡ v.units) × (length digits ≡ fmt.offset_width)
  digits_lem =
      read_fix_num-write_fix_num fmt.offset_width v.units v.format.offset_low v.format.offset_high
        room

  in_buckets : place fmt n b + length digits ≤ base fmt n
  in_buckets = omega (arith, digits_lem.1, place-base fmt n b b-lt)

  inside : place fmt n b + length digits ≤ length grown
  inside = omega (arith, in_buckets, v.sized, length-append c w)

  length-pushed : length pushed ≡ length c + (entry_record fmt (base fmt n) e).whole_size
  length-pushed = omega (
    arith,
    length-patch grown (place fmt n b) digits inside,
    length-append c w,
    length-record_bytes fmt e.operation e.ideal e.key e.value e.child storable,
  )

  slot_at-same : slot_at fmt n pushed b ≡ v.units
  slot_at-same =
      ap (λ k. read_fix_num (take k (drop (place fmt n b) pushed)) fmt.offset_width)
        (sym digits_lem.1)
      ∙ ap (λ s. read_fix_num s fmt.offset_width) (patch_same grown (place fmt n b) digits inside)
      ∙ digits_lem.0

  slot_at-other : (i : ℕ) → i < n → i ≢ b → slot_at fmt n pushed i ≡ slot_at fmt n c i
  slot_at-other i hi hn =
      let width = fmt.offset_width in
      let end = place-base fmt n i hi in
      let old : take width (drop (place fmt n i) grown) ≡ take width (drop (place fmt n i) c) =
        window_before (place fmt n i) width c w (omega (arith, end, v.sized)) in
      let new : take width (drop (place fmt n i) pushed) ≡ take width (drop (place fmt n i) grown) =
        elim (Bool-cases (ltb i b)) [
          | inl l ↦
              patch_before grown (place fmt n b) digits inside (place fmt n i) width
                (place-lt fmt n i b (ground (arith, l)))
          | inr l ↦ ap (take width) (
              patch_behind grown (place fmt n b) digits inside (place fmt n i)
                (omega (arith, digits_lem.1, place-lt fmt n b i (ground (arith, l, hn)))))
        ] in
      ap (λ s. read_fix_num s width) (new ∙ old)

  kept_chain :
      (slot : ℕ) (xs : List Entry)
      → Chain fmt (base fmt n) c slot xs
      → Chain fmt (base fmt n) pushed slot xs
  kept_chain slot xs h =
      Chain-patch fmt (base fmt n) grown (place fmt n b) digits inside in_buckets slot xs
        (Chain-append fmt (base fmt n) c w slot xs h)

  -- A record takes up some bytes.
  record-pos : 1 ≤ (entry_record fmt (base fmt n) e).whole_size
  record-pos =
      omega (arith, whole_size-padding fmt e.operation e.ideal e.key e.value e.child storable)

  new_record : Stands fmt (base fmt n) pushed v.units e
  new_record = record {
    positive =
        positive-of fmt.align_pow v.units (length c) v.aligned
          (omega (arith, v.sized, record_base-ge fmt n));
    storable = storable;
    behind_base = omega (arith, v.aligned, v.sized);
    inside = omega (arith, v.aligned, length-pushed, record-pos);
    rest = [];
    bytes =
        ap (λ k. drop k pushed) (sym v.aligned)
        ∙ patch_behind grown (place fmt n b) digits inside (length c)
            (omega (arith, in_buckets, v.sized))
        ∙ drop_append c w
        ∙ sym (append-nil w);
  }

  pushed_chains : ℕ → List Entry
  pushed_chains i = if i == b then e ∷ es else v.chains i

  -- The key of the record has its value, and what the chain behind it says of the other keys of the
  -- bucket is what the map says.
  pub pushed-IsTable :
      length c + (entry_record fmt (base fmt n) e).whole_size < 2 ^ 63
      → ((j : Bytes) → eqb e.key j ≡ false → primary_hash j n ≡ b → lookup_in es j ≡ m j)
      → IsTable fmt n pushed (update m e.key (stored e))
  unfolding pushed_chains
  pushed-IsTable small same =
      let (q, whole) = whole_size-units fmt (base fmt n) e in
      record {
        format = v.format;
        positive = v.positive;
        chains = pushed_chains;
        units = v.units + q;
        aligned =
            omega (arith, length-pushed, v.aligned, whole, add-mul v.units q (2 ^ fmt.align_pow));
        sized = omega (arith, length-pushed, v.sized);
        small = omega (arith, length-pushed, small);
        linked = λ i hi. elim (Bool-cases (i == b)) [
          | inl h ↦
              let at : i ≡ b = (==_iff i b).0 h in
              rw h (
                subst (λ s. Chain fmt (base fmt n) pushed s (e ∷ es))
                  (sym (ap (slot_at fmt n pushed) at ∙ slot_at-same))
                  (new_record, before, kept_chain e.child es tail))
          | inr h ↦ rw h (
              subst (λ s. Chain fmt (base fmt n) pushed s (v.chains i))
                (sym (slot_at-other i hi (ground (arith, h))))
                (kept_chain (slot_at fmt n c i) (v.chains i) (v.linked i hi)))
        ];
        shows = λ j. elim (Bool-cases (eqb e.key j)) [
          | inl k ↦
              let at : e.key ≡ j = (eqb_iff e.key j).0 k in
              let here : (primary_hash j n == b) ≡ true =
                ap (λ x. primary_hash x n == b) (sym at) ∙ ==_refl b in
              let found : eqb j e.key ≡ true = eqb_comm j e.key ∙ k in rw (k, here) (rw found refl)
          | inr k ↦
              let other : eqb j e.key ≡ false = eqb_comm j e.key ∙ k in
              elim (Bool-cases (primary_hash j n == b)) [
                | inl h ↦ rw (k, h) (rw other (sym (same j k ((==_iff (primary_hash j n) b).0 h))))
                | inr h ↦ rw (k, h) (v.shows j)
              ]
        ];
      }
