-- ===== src/HashDbm/MetadataKept.antt =====
-- The buckets and the records in the file after `SaveMetadata` (tkrzw_dbm_hash.cc).
use mathlib.Core.Path.{subst}
use tkrzw.Base.{
  ℕ, ◌+◌, ◌≤◌, ◌<◌, ◌≡◌, ◌⊎◌, inl, inr, ap, ◌∙◌, sym, arith, Bytes, Bool, true, length, take,
}
use tkrzw.Status.{is_success}
use tkrzw.Codec.FixNum.{read_fix_num}
use tkrzw.Dbm.Interface.{Map}
use tkrzw.Flat.File.{File, FileLaws}
use tkrzw.HashDbm.Record.{Format}
use tkrzw.HashDbm.Patch.{patch, length-patch, patch_behind, patch_before}
use tkrzw.HashDbm.Chain.{Chain, Chain-patch}
use tkrzw.HashDbm.Buckets.{IsTable, slot_at, place, base, record_base-ge}
use tkrzw.HashDbm.Metadata.{Metadata, meta_bytes, save_metadata}
use tkrzw.HashDbm.MetadataRound.{length-meta_bytes}

-- Bytes that are written apart from the buckets and the records.
pub aside-IsTable :
    (fmt : Format) (n : ℕ) (c : Bytes) (off : ℕ) (w : Bytes) (m : Map)
    → off + length w ≤ base fmt n
    → ((b : ℕ)
        → b < n
        → (off + length w ≤ place fmt n b) ⊎ (place fmt n b + fmt.offset_width ≤ off))
    → IsTable fmt n c m
    → IsTable fmt n (patch c off w) m
aside-IsTable fmt n c off w m before apart v =
    let inside : off + length w ≤ length c = omega (arith, before, v.sized) in
    let long = length-patch c off w inside in
    let width = fmt.offset_width in
    let same : (b : ℕ) → b < n → slot_at fmt n (patch c off w) b ≡ slot_at fmt n c b = λ b h.
      ap (λ x. read_fix_num x width)
        (elim (apart b h) [
          | inl e ↦ ap (take width) (patch_behind c off w inside (place fmt n b) e)
          | inr e ↦ patch_before c off w inside (place fmt n b) width e
        ]) in
    record {
      format = v.format;
      positive = v.positive;
      chains = v.chains;
      units = v.units;
      aligned = long ∙ v.aligned;
      sized = omega (arith, long, v.sized);
      small = omega (arith, long, v.small);
      linked = λ b h.
          subst (λ s. Chain fmt (base fmt n) (patch c off w) s (v.chains b)) (sym (same b h))
            (Chain-patch fmt (base fmt n) c off w inside before (slot_at fmt n c b) (v.chains b)
              (v.linked b h));
      shows = v.shows;
    }

pub front-IsTable :
    (fmt : Format) (n : ℕ) (c w : Bytes) (m : Map)
    → length w ≡ 128
    → IsTable fmt n c m
    → IsTable fmt n (patch c 0 w) m
front-IsTable fmt n c w m size v =
    aside-IsTable fmt n c 0 w m (omega (arith, size, record_base-ge fmt n))
      (λ b h. inl (omega (arith, size))) v

module _ {F : Type 0} (file : File F) (laws : FileLaws file) where
  -- A successful `SaveMetadata` changes nothing of the map that the bytes of the file stand for.
  pub save_metadata-IsTable :
      (fmt : Format) (n : ℕ) (m : Map) (md : Metadata) (finish : Bool) (f : F)
      → IsTable fmt n (laws.contents f) m
      → is_success (save_metadata file f md finish).0 ≡ true
      → IsTable fmt n (laws.contents (save_metadata file f md finish).1) m
  unfolding save_metadata
  save_metadata-IsTable fmt n m md finish f v h =
      subst (λ c. IsTable fmt n c m)
        (sym (laws.write_at f 0 (meta_bytes md finish) (omega arith) h))
        (front-IsTable fmt n (laws.contents f) (meta_bytes md finish) m
          (length-meta_bytes md finish) v)
