-- ===== src/HashDbm/Walk.antt =====
-- The loop of `HashDBMImpl::ProcessImpl` (tkrzw_dbm_hash.cc) finds the first record of the key.
use native.Mathlib.Nat.{one-le-mul, zero-mul}
use tkrzw.Base.{
  ℕ, zero, suc, ◌*◌, ◌≤◌, ◌<◌, ◌^◌, ◌≡◌, ◌⊎◌, refl, ap, ◌∙◌, arith, List, [], ◌∷◌, Bytes, Option,
  none, some, Bool, true, false, length, eqb, Bool-cases, ok, inl, inr, if◌then◌else◌,
}
use tkrzw.Flat.File.{File, FileLaws}
use tkrzw.HashDbm.Record.{HashRecord}
use tkrzw.HashDbm.Access.{read_metadata_key}
use tkrzw.HashDbm.Layout.{two_pow-pos}
use tkrzw.HashDbm.Reading.{loaded, read_metadata_key-record_bytes}
use tkrzw.HashDbm.Table.{HashDbm, walk, is_end, Walked, absent, found, meta_min_read_size}
use tkrzw.HashDbm.Chain.{Entry, Located, locate, unit, Stands, Chain}

module _ {F : Type 0} (file : File F) (db : HashDbm F) (key : Bytes) (readable : Bool) where
  abbrev least : ℕ
  least = if readable then meta_min_read_size else db.min_read_size

  walk-end :
      (fuel parent current : ℕ)
      → current ≡ 0
      → walk file fuel db key readable parent current ≡ absent
  unfolding walk
  walk-end zero parent current h = ground arith
  walk-end (suc fuel) parent current h = ground arith

  module _ (fuel parent current : ℕ) (rec : HashRecord) (h : 1 ≤ current) (small : current < 2 ^ 63)
      (e : read_metadata_key file db.file db.format current least ≡ ok rec) where
    walk-found :
        eqb key rec.key ≡ true
        → walk file (suc fuel) db key readable parent current ≡ found rec current parent
    unfolding walk
    walk-found k =
        let there : is_end current ≡ false = ground arith in rw (walk, there, e) (rw k refl)

    walk-next :
        eqb key rec.key ≡ false
        → walk file (suc fuel) db key readable parent current
          ≡ walk file fuel db key readable current rec.child_offset
    unfolding walk
    walk-next k =
        let there : is_end current ≡ false = ground arith in rw (walk, there, e) (rw k refl)

  module _ (laws : FileLaws file) (base : ℕ) where
    abbrev contents : Bytes
    contents = laws.contents db.file

    -- The record as it was read, with or without its value.
    abbrev pub seen :
        (slot : ℕ) (e : Entry) → Stands db.format base contents slot e → Option Bytes → HashRecord
    seen slot e s o =
        loaded db.format e.operation e.ideal e.key e.value e.child s.storable file laws db.file
          (slot * unit db.format base) o

    -- The walk ends where the key is located.
    abbrev pub EndsAt : Option Located → Walked → Type 0
    EndsAt none w = w ≡ absent
    EndsAt (some l) w =
        (s : Stands db.format base contents l.slot l.entry) × Chain db.format base contents
          l.entry.child l.tail
        × ((o : Option Bytes) × ((o ≡ none) ⊎ (o ≡ some l.entry.value))
            × (w
                ≡ found (seen l.slot l.entry s o) (l.slot * unit db.format base)
                    (l.parent * unit db.format base)))

    pub walk-locate :
        (fuel parent slot : ℕ) (es : List Entry)
        → meta_min_read_size ≤ db.min_read_size
        → length contents < 2 ^ 63
        → length es < fuel
        → Chain db.format base contents slot es
        → EndsAt (locate key parent slot es) (
            walk file fuel db key readable
              (parent * unit db.format base)
              (slot * unit db.format base))
    walk-locate zero parent slot es hm hs hl h = absurd (omega arith)
    walk-locate (suc fuel) parent slot [] hm hs hl h =
        let u = unit db.format base in
        walk-end (suc fuel) (parent * u) (slot * u) (ap (λ s. s * u) h ∙ zero-mul u)
    walk-locate (suc fuel) parent slot (e ∷ es) hm hs hl h =
        let u = unit db.format base in
        let s = h.0 in
        let enough : 48 ≤ least = ground arith in
        let positive : 1 ≤ slot * u =
          one-le-mul s.positive (omega (arith, two_pow-pos db.format.align_pow)) in
        let low : slot * u < 2 ^ 63 = omega (arith, s.inside) in
        let (o, l, r, crc) =
          read_metadata_key-record_bytes db.format e.operation e.ideal e.key e.value e.child
            s.storable file laws db.file (slot * u) least s.rest (omega (arith, s.inside)) s.bytes
            enough in
        let rec = seen slot e s o in
        elim (Bool-cases (eqb key e.key)) [
          | inl k ↦
              rw k (s, h.2, (o, l, walk-found fuel (parent * u) (slot * u) rec positive low r k))
          | inr k ↦
              rw (k, walk-next fuel (parent * u) (slot * u) rec positive low r k)
                (walk-locate fuel slot e.child es hm hs (omega arith) h.2)
        ]
