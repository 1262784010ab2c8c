-- ===== src/HashDbm/MetadataLoad.antt =====
-- `LoadMetadata` behind `SaveMetadata` on a file (tkrzw_dbm_hash.cc).
use tkrzw.Base.{
  ℕ, ◌+◌, ◌≤◌, ◌≡◌, ◌==◌, ◌||◌, ltb, refl, ap, ◌∙◌, sym, arith, Bytes, ◌++◌, Bool, true, false,
  ◌&&◌, length, take, drop, take_append, eqb_refl, length-append,
}
use Prim.Native.Nat.{bit_and}
use tkrzw.Status.{is_success, status_of, success}
use tkrzw.Flat.File.{File, FileLaws}
use tkrzw.HashDbm.Table.{metadata_size}
use tkrzw.HashDbm.Metadata.{
  Metadata, CompressorClass, max_num_buckets, meta_magic_data, meta_bytes, at_least_zero,
  is_negative, check_metadata, save_metadata, read_metadata, load_metadata,
}
use tkrzw.HashDbm.MetadataRound.{
  IsSound, reloaded, at_least_zero-lt, parse_metadata-meta_bytes, meta_bytes-Holds,
  length-meta_bytes,
}

long_enough : (n : ℕ) → 128 ≤ n → ltb n 128 ≡ false
long_enough n h = ground arith

module _ (supports : CompressorClass → Bool) (md : Metadata) (finish : Bool)
    (sound : IsSound supports md) where
  abbrev buf : Bytes
  buf = meta_bytes md finish

  -- Every check passes.
  check_metadata-reloaded : check_metadata supports (reloaded md finish) ≡ status_of success
  unfolding check_metadata
  check_metadata-reloaded =
      let version : (ltb md.pkg_major_version 1 && ltb md.pkg_minor_version 1) ≡ false =
        ground (arith, sound.version) in
      let mode : ((bit_and md.static_flags 1 == 0) && (bit_and md.static_flags 2 == 0)) ≡ false =
        ground (arith, sound.mode) in
      let width : (ltb md.offset_width 3 || ltb 6 md.offset_width) ≡ false =
        ground (arith, sound.offset_low, sound.offset_high) in
      let pow : ltb 16 md.align_pow ≡ false = ground (arith, sound.aligned) in
      let records : is_negative (at_least_zero md.num_records) ≡ false =
        ground (arith, at_least_zero-lt md.num_records sound.records) in
      let eff : is_negative (at_least_zero md.eff_data_size) ≡ false =
        ground (arith, at_least_zero-lt md.eff_data_size sound.data_size) in
      let size : (is_negative md.file_size || ltb md.file_size metadata_size) ≡ false =
        ground (arith, sound.size_low, sound.size_high) in
      let buckets : (is_negative md.num_buckets
            || (ltb md.num_buckets 1 || ltb max_num_buckets md.num_buckets))
          ≡ false =
        ground (arith, sound.buckets_low, sound.buckets_high) in
      rw (version, mode, sound.supported, width, pow, records, eff, size, buckets) refl

  module _ {F : Type 0} (file : File F) (laws : FileLaws file) where
    -- The bytes of the metadata are at the front of the file.
    pub load_metadata-front :
        (g : F) (old : Metadata)
        → 128 ≤ length (laws.contents g)
        → take metadata_size (laws.contents g) ≡ buf
        → load_metadata file supports g old ≡ (status_of success, reloaded md finish)
    unfolding load_metadata read_metadata
    load_metadata-front g old long front =
        let enough : ltb (length (laws.contents g)) metadata_size ≡ false =
          long_enough (length (laws.contents g)) long in
        let (magic, _) = meta_bytes-Holds md finish in
        rw
          (
            laws.size_known g,
            enough,
            laws.read_inside g 0 metadata_size (omega arith),
            front,
            magic,
            eqb_refl meta_magic_data,
            parse_metadata-meta_bytes md finish supports sound,
            check_metadata-reloaded,
          )
          refl

    -- `LoadMetadata` after a successful `SaveMetadata` succeeds and gives the metadata that were saved, on
    -- every file: the cyclic magic is the next one modulo 256, the closing flag is set only at the end,
    -- negative counters are 0, and the opaque bytes are cut off or filled up to 64. The metadata must
    -- be sound: sizes within their fields, a version, a mode and a supported compressor.
    pub load_metadata-save_metadata :
        (f : F) (old : Metadata)
        → is_success (save_metadata file f md finish).0 ≡ true
        → load_metadata file supports (save_metadata file f md finish).1 old
          ≡ (status_of success, reloaded md finish)
    unfolding save_metadata
    load_metadata-save_metadata f old h =
        let later = drop (0 + length buf) (laws.contents f) in
        let saved = (file.write f 0 buf).1 in
        let bytes : laws.contents saved ≡ buf ++ later = laws.write_at f 0 buf (omega arith) h in
        let size = length-meta_bytes md finish in
        load_metadata-front saved old
          (omega (arith, ap length bytes, length-append buf later, size))
          (ap (take metadata_size) bytes
            ∙ ap (λ n. take n (buf ++ later)) (sym size)
            ∙ take_append buf later)
