-- ===== src/HashDbm/Chain.antt =====
-- The chain of records behind a bucket in the bytes of the file (tkrzw_dbm_hash.cc).
use native.Mathlib.Nat.{zero-mul}
use tkrzw.Base.{
  ℕ, ◌+◌, ◌*◌, ◌^◌, ◌≤◌, ◌<◌, ◌≡◌, ap, ◌∙◌, arith, List, [], ◌∷◌, Bytes, ◌++◌, if◌then◌else◌,
  Option, none, some, length, drop, eqb, append_assoc, length-append,
}
use tkrzw.HashDbm.Record.{Format, HashRecord, OperationType, record_bytes}
use tkrzw.HashDbm.Header.{sample, IsStorable}
use tkrzw.HashDbm.Patch.{patch, drop_before, length-patch, patch_behind}
use tkrzw.HashDbm.Process.{holds_value}

-- A record on a chain. Offsets are counted in units of the alignment; the child 0 is the end.
pub record Entry : Type 0 where
  pub operation : OperationType
  pub ideal : ℕ
  pub key : Bytes
  pub value : Bytes
  pub child : ℕ

-- What the record says of its key.
abbrev pub stored : Entry → Option Bytes
stored e = if holds_value e.operation then some e.value else none

abbrev pub lookup_in : List Entry → Bytes → Option Bytes
lookup_in [] key = none
lookup_in (e ∷ es) key = if eqb key e.key then stored e else lookup_in es key

-- The first record of the key, with its place, that of the record before it, and the others behind it.
pub record Located : Type 0 where
  pub slot : ℕ
  pub parent : ℕ
  pub entry : Entry
  pub tail : List Entry

abbrev pub locate : Bytes → ℕ → ℕ → List Entry → Option Located
locate key parent slot [] = none
locate key parent slot (e ∷ es) =
    if eqb key e.key
    then some (record { slot = slot; parent = parent; entry = e; tail = es })
    else locate key slot e.child es

module _ (fmt : Format) (base : ℕ) where
  abbrev pub unit : ℕ
  unit = 2 ^ fmt.align_pow

  abbrev pub IsStored : Entry → Type 0
  IsStored e = IsStorable fmt e.operation e.ideal e.key e.value e.child

  abbrev pub entry_record : Entry → HashRecord
  entry_record e = sample fmt e.operation e.ideal e.key e.value e.child

  -- The bytes of a record stand at a place behind the buckets.
  pub record Stands (c : Bytes) (slot : ℕ) (e : Entry) : Type 0 where
    pub positive : 1 ≤ slot
    pub storable : IsStored e
    pub behind_base : base ≤ slot * unit
    pub inside : slot * unit < length c
    pub rest : Bytes
    pub bytes : drop (slot * unit) c ≡ record_bytes fmt (entry_record e) ++ rest

  abbrev pub Chain : Bytes → ℕ → List Entry → Type 0
  Chain c slot [] = slot ≡ 0
  Chain c slot (e ∷ es) = Stands c slot e × (e.child < slot) × Chain c e.child es

  Stands-append : (c w : Bytes) (slot : ℕ) (e : Entry) → Stands c slot e → Stands (c ++ w) slot e
  Stands-append c w slot e s = record {
    positive = s.positive;
    storable = s.storable;
    behind_base = s.behind_base;
    inside = omega (arith, s.inside, length-append c w);
    rest = s.rest ++ w;
    bytes =
        drop_before (slot * unit) c w (omega (arith, s.inside))
        ∙ ap (λ b. b ++ w) s.bytes
        ∙ append_assoc (record_bytes fmt (entry_record e)) s.rest w;
  }

  pub Chain-append :
      (c w : Bytes) (slot : ℕ) (es : List Entry) → Chain c slot es → Chain (c ++ w) slot es
  Chain-append c w slot [] h = h
  Chain-append c w slot (e ∷ es) h =
      (Stands-append c w slot e h.0, h.1, Chain-append c w e.child es h.2)

  module _ (c : Bytes) (off : ℕ) (w : Bytes) (inside : off + length w ≤ length c)
      (in_buckets : off + length w ≤ base) where
    Stands-patch : (slot : ℕ) (e : Entry) → Stands c slot e → Stands (patch c off w) slot e
    Stands-patch slot e s = record {
      positive = s.positive;
      storable = s.storable;
      behind_base = s.behind_base;
      inside = omega (arith, s.inside, length-patch c off w inside);
      rest = s.rest;
      bytes = patch_behind c off w inside (slot * unit) (omega (arith, s.behind_base)) ∙ s.bytes;
    }

    pub Chain-patch : (slot : ℕ) (es : List Entry) → Chain c slot es → Chain (patch c off w) slot es
    Chain-patch slot [] h = h
    Chain-patch slot (e ∷ es) h = (Stands-patch slot e h.0, h.1, Chain-patch e.child es h.2)

  pub Chain-inside :
      (c : Bytes) (slot : ℕ) (es : List Entry)
      → Chain c slot es
      → 1 ≤ length c
      → slot * unit < length c
  Chain-inside c slot [] h l = omega (arith, ap (λ s. s * unit) h, zero-mul unit)
  Chain-inside c slot (e ∷ es) h l = h.0.inside

  -- The offsets along a chain fall, so that it has an end.
  pub length-Chain : (c : Bytes) (slot : ℕ) (es : List Entry) → Chain c slot es → length es ≤ slot
  length-Chain c slot [] h = omega arith
  length-Chain c slot (e ∷ es) h = omega (arith, h.1, length-Chain c e.child es h.2)
