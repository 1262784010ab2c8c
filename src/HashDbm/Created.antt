-- ===== src/HashDbm/Created.antt =====
-- The bytes of the file after `InitializeBuckets` (tkrzw_dbm_hash.cc).
use mathlib.Core.Path.{subst}
use native.Mathlib.Nat.{mod-add-div, mul_comm}
use tkrzw.Base.{
  ℕ, zero, suc, ◌+◌, ◌-◌, ◌*◌, ◌/◌, ◌^◌, ◌≤◌, ◌<◌, ◌≡◌, refl, ap, ap₂, ◌∙◌, sym, arith, Bytes, [],
  ◌∷◌, ◌++◌, none, true, ltb, length, take, drop, replicate, min, length-replicate,
  append-take-drop, Bool-cases, inl, inr,
}
use tkrzw.Status.{Status, is_success, merge}
use tkrzw.Codec.FixNum.{write_fix_num, read_fix_num, net_bytes}
use tkrzw.Flat.File.{File, FileLaws}
use tkrzw.HashDbm.Record.{Format}
use tkrzw.HashDbm.Layout.{IsFormat}
use tkrzw.HashDbm.Zeros.{read_zeros_width}
use tkrzw.HashDbm.Patch.{patch, length-patch, patch_before, patch_inside, patch-patch}
use tkrzw.HashDbm.Table.{metadata_size}
use tkrzw.HashDbm.Buckets.{base, place, slot_at, IsTable, record_base-ge, place-lt}
use tkrzw.HashDbm.RecordBase.{record_base-aligned}
use tkrzw.HashDbm.Append.{IsSteady}
use tkrzw.HashDbm.Fieldwise.{window_zeros, length-put_all}
use tkrzw.HashDbm.Create.{zero_fill, initialize_buckets, head_bytes}

abbrev zeros : ℕ → Bytes
zeros n = replicate n 0

replicate-add : (a b : ℕ) → zeros a ++ zeros b ≡ zeros (a + b)
replicate-add zero b = let e : 0 + b ≡ b = omega arith in ap (λ n. zeros n) (sym e)
replicate-add (suc a) b =
    ap (◌∷◌ 0) (replicate-add a b)
    ∙ (let e : suc (a + b) ≡ suc a + b = omega arith in ap (λ n. zeros n) e)

pub merge-success :
    (s r : Status) → is_success s ≡ true → is_success r ≡ true → is_success (merge s r) ≡ true
unfolding merge
merge-success s r h k = rw (h, k) h

patch-nil : (c : Bytes) (off : ℕ) → patch c off [] ≡ c
patch-nil c off =
    let e : off + 0 ≡ off = omega arith in
    ap (λ n. take off c ++ drop n c) e ∙ append-take-drop off c

module _ {F : Type 0} (file : File F) (laws : FileLaws file) (steady : IsSteady file) where
  -- The loop fills the region with zeros.
  zero_fill_lem :
      (fuel : ℕ) (f : F) (status : Status) (offset size : ℕ)
      → size ≤ fuel
      → offset + size ≤ length (laws.contents f)
      → ((zero_fill file fuel f status offset size).0 ≡ status)
        × (laws.contents (zero_fill file fuel f status offset size).1
            ≡ patch (laws.contents f) offset (zeros size))
  unfolding zero_fill
  zero_fill_lem zero f status offset size enough inside =
      let nothing : size ≡ 0 = omega arith in
      (refl, rw nothing (sym (patch-nil (laws.contents f) offset)))
  zero_fill_lem (suc fuel) f status offset size enough inside = elim (Bool-cases (ltb 0 size)) [
    | inr e ↦
        let nothing : size ≡ 0 = ground arith in
        rw nothing (refl, sym (patch-nil (laws.contents f) offset))
    | inl e ↦
        let n = min size 8192 in
        let c = laws.contents f in
        let next = (file.write f offset (zeros n)).1 in
        let some_size : (1 ≤ n) × (n ≤ size) = ground arith in
        let count = length-replicate {A = ℕ} n 0 in
        let fits : offset + length (zeros n) ≤ length c = omega (arith, count, some_size.1) in
        let written : laws.contents next ≡ patch c offset (zeros n) =
          laws.write_at f offset (zeros n) (omega arith) (steady.writes f offset (zeros n)) in
        let long : offset + n + (size - n) ≤ length (laws.contents next) =
          omega (arith, ap length written, length-patch c offset (zeros n) fits, some_size.1) in
        let (same, filled) =
          zero_fill_lem fuel next status (offset + n) (size - n) (omega (arith, some_size.0))
            long in
        let all : n + (size - n) ≡ size = omega (arith, some_size.1) in
        rw (e, steady.writes f offset (zeros n))
          (
            same,
            filled
                ∙ ap₂ (λ b o. patch b o (zeros (size - n))) written
                    (ap (λ k. offset + k) (sym count))
                ∙ patch-patch c offset (zeros n) fits (zeros (size - n))
                ∙ ap (patch c offset) (replicate-add n (size - n) ∙ ap zeros all),
          )
  ]

  length-head_bytes : (fmt : Format) (flags : ℕ) → length (head_bytes fmt flags) ≡ 16
  unfolding head_bytes write_fix_num net_bytes
  length-head_bytes fmt flags = length-put_all 0 (zeros 16) _ (omega arith)

  module _ (fmt : Format) (n flags : ℕ) (f : F) (format : IsFormat fmt) (positive : 1 ≤ n)
      (small : base fmt n < 2 ^ 63)
      (done : is_success (file.truncate f (base fmt n)).0 ≡ true) where
    abbrev start : Bytes
    start = laws.contents (file.truncate f (base fmt n)).1

    abbrev size : ℕ
    size = base fmt n - metadata_size

    length-start : length start ≡ base fmt n
    length-start = laws.truncate_size f (base fmt n) done

    low : metadata_size + n * fmt.offset_width + 1024 ≤ base fmt n
    low = record_base-ge fmt n

    abbrev cleared : Bytes
    cleared = patch start metadata_size (zeros size)

    cleared-inside : metadata_size + length (zeros size) ≤ length start
    cleared-inside = omega (arith, length-start, low, length-replicate {A = ℕ} size 0)

    length-cleared : length cleared ≡ base fmt n
    length-cleared = length-patch start metadata_size (zeros size) cleared-inside ∙ length-start

    abbrev head : Bytes
    head = head_bytes fmt flags

    abbrev created : Bytes
    created = patch cleared (base fmt n - 16) head

    head-inside : base fmt n - 16 + length head ≤ length cleared
    head-inside = omega (arith, length-cleared, low, length-head_bytes fmt flags)

    -- Every bucket is empty.
    slot_at-created : (b : ℕ) → b < n → slot_at fmt n created b ≡ 0
    slot_at-created b h =
        let w = fmt.offset_width in
        let inside : b * w + w ≤ n * w = omega (arith, place-lt fmt n b n h) in
        let window : take w (drop (place fmt n b) created) ≡ zeros w =
          patch_before cleared (base fmt n - 16) head head-inside (place fmt n b) w
            (omega (arith, inside, low))
          ∙ patch_inside start metadata_size (zeros size) cleared-inside (b * w) w
              (omega (arith, inside, low, length-replicate {A = ℕ} size 0))
          ∙ window_zeros (b * w) w size (omega (arith, inside, low)) in
        ap (λ x. read_fix_num x w) window ∙ read_zeros_width w

    created-IsTable : IsTable fmt n created (λ key. none)
    created-IsTable =
        let unit = 2 ^ fmt.align_pow in
        let long : length created ≡ base fmt n =
          length-patch cleared (base fmt n - 16) head head-inside ∙ length-cleared in
        record {
          format = format;
          positive = positive;
          chains = λ b. [];
          units = base fmt n / unit;
          aligned =
              long
              ∙ omega (
                arith,
                mod-add-div (base fmt n) unit,
                record_base-aligned fmt n,
                mul_comm unit (base fmt n / unit),
              );
          sized = omega (arith, long);
          small = omega (arith, long, small);
          linked = slot_at-created;
          shows = λ key. refl;
        }

    -- `InitializeBuckets` on a file that can be truncated to the record base and written to, for a number
    -- of buckets that keeps the record base below 2 ^ 63: it succeeds, whatever the file held before,
    -- and the bytes of the file stand for the empty map.
    pub initialize_buckets-IsTable :
        (is_success (initialize_buckets file fmt n flags f).0 ≡ true)
        × IsTable fmt n (laws.contents (initialize_buckets file fmt n flags f).1) (λ key. none)
    unfolding initialize_buckets
    initialize_buckets-IsTable =
        let t = file.truncate f (base fmt n) in
        let (status, filled) =
          zero_fill_lem size t.1 t.0 metadata_size size (omega arith)
            (omega (arith, length-start, low)) in
        let z = zero_fill file size t.1 t.0 metadata_size size in
        let h = file.write z.1 (base fmt n - 16) head in
        let wrote : is_success h.0 ≡ true = steady.writes z.1 (base fmt n - 16) head in
        let written : laws.contents h.1 ≡ created =
          laws.write_at z.1 (base fmt n - 16) head (omega (arith, ap length filled, length-cleared))
            wrote
          ∙ ap (λ b. patch b (base fmt n - 16) head) filled in
        (
          rw status (merge-success t.0 h.0 done wrote),
          subst (λ c. IsTable fmt n c (λ key. none)) (sym written) created-IsTable,
        )
