-- ===== src/HashDbm/MetadataRound.antt =====
-- What `LoadMetadata` makes of the bytes of `SaveMetadata` (tkrzw_dbm_hash.cc).
use mathlib.Core.Path.{subst}
use tkrzw.Base.{
  ℕ, ◌+◌, ◌-◌, ◌%◌, ◌^◌, ◌≤◌, ◌<◌, ◌≡◌, ◌≢◌, ◌⊎◌, refl, ap, ap₂, ◌∙◌, sym, arith, Bytes, [], ◌∷◌,
  ◌++◌, if◌then◌else◌, some, Bool, false, ◌&&◌, length, take, drop, replicate, length-take,
  length-replicate, take-add, drop-drop, ==_refl,
}
use Prim.Native.Nat.{bit_and}
use tkrzw.Codec.FixNum.{write_fix_num, net_bytes}
use tkrzw.HashDbm.Table.{metadata_size}
use tkrzw.HashDbm.Metadata.{
  Metadata, CompressorClass, unsupported, max_num_buckets, opaque_size, meta_fields, meta_bytes,
  next_magic, at_least_zero, closes, number_at, parse_metadata,
}
use tkrzw.HashDbm.Fieldwise.{
  Within, Holds, length-put_all, put_all_between, put_all-Holds, number_at_lem, window_zeros,
}

-- The metadata of a database that can be opened again.
pub record IsSound (supports : CompressorClass → Bool) (md : Metadata) : Type 0 where
  pub major : md.pkg_major_version < 256
  pub minor : md.pkg_minor_version < 256
  pub version : (1 ≤ md.pkg_major_version) ⊎ (1 ≤ md.pkg_minor_version)
  pub flags : md.static_flags < 256
  pub mode : (bit_and md.static_flags 1 ≢ 0) ⊎ (bit_and md.static_flags 2 ≢ 0)
  pub supported : unsupported supports md ≡ false
  pub offset_low : 3 ≤ md.offset_width
  pub offset_high : md.offset_width ≤ 6
  pub aligned : md.align_pow ≤ 16
  pub buckets_low : 1 ≤ md.num_buckets
  pub buckets_high : md.num_buckets ≤ max_num_buckets
  pub records : md.num_records < 2 ^ 64
  pub data_size : md.eff_data_size < 2 ^ 64
  pub size_low : metadata_size ≤ md.file_size
  pub size_high : md.file_size < 2 ^ 63
  pub time : md.mod_time < 2 ^ 64
  pub type : md.db_type < 2 ^ 32

-- The opaque bytes are cut off or filled up with zeros.
abbrev pub fitted : Bytes → Bytes
fitted opaque =
    take opaque_size opaque ++ replicate (opaque_size - length (take opaque_size opaque)) 0

-- The metadata after it was saved and loaded.
abbrev pub reloaded : Metadata → Bool → Metadata
reloaded md finish = record md {
  cyclic_magic = some (next_magic md.cyclic_magic % 256);
  closure_flags = if closes md && finish then 1 else 0;
  num_records = at_least_zero md.num_records;
  eff_data_size = at_least_zero md.eff_data_size;
  opaque = fitted md.opaque;
}

-- One byte keeps the last eight bits.
write_fix_num_byte : (n : ℕ) → write_fix_num n 1 ≡ write_fix_num (n % 256) 1
unfolding write_fix_num net_bytes
write_fix_num_byte n = ap (λ b. b ∷ []) (omega arith)

pub at_least_zero-lt : (n : ℕ) → n < 2 ^ 64 → at_least_zero n < 2 ^ 63
at_least_zero-lt n h = ground arith

module _ (md : Metadata) (finish : Bool) where
  abbrev pub buf : Bytes
  buf = meta_bytes md finish

  meta_fields-Within : Within 0 metadata_size (meta_fields md finish)
  unfolding write_fix_num net_bytes
  meta_fields-Within =
      let short : length (take opaque_size md.opaque) ≤ 64 =
        omega (arith, length-take opaque_size md.opaque) in
      omega (arith, short)

  abbrev size_zeros : length {A = ℕ} (replicate metadata_size 0) ≡ 128
  size_zeros = length-replicate {A = ℕ} metadata_size 0

  pub meta_bytes-Holds : Holds buf (meta_fields md finish)
  unfolding meta_bytes
  meta_bytes-Holds =
      put_all-Holds 0 (replicate metadata_size 0) (meta_fields md finish)
        (rw size_zeros meta_fields-Within)

  abbrev rest_size : ℕ
  rest_size = 64 - length (take opaque_size md.opaque)

  abbrev opaque_end : ℕ
  opaque_end = 62 + length (take opaque_size md.opaque)

  -- The fields up to the opaque bytes.
  meta_head-Within : Within 0 opaque_end (take 15 (meta_fields md finish))
  unfolding write_fix_num net_bytes
  meta_head-Within = omega arith

  meta_tail-Within : Within 126 128 (drop 15 (meta_fields md finish))
  unfolding write_fix_num net_bytes
  meta_tail-Within = omega arith

  whole : length (take opaque_size md.opaque) + rest_size ≡ 64
  whole = omega (arith, length-take opaque_size md.opaque)

  -- Behind the opaque bytes stand the zeros that were there first.
  behind_opaque : take rest_size (drop opaque_end buf) ≡ replicate rest_size 0
  unfolding meta_bytes
  behind_opaque =
      let end : opaque_end + rest_size ≡ 126 = omega (arith, whole) in
      put_all_between opaque_end rest_size 0 (replicate metadata_size 0)
        (take 15 (meta_fields md finish)) (drop 15 (meta_fields md finish)) meta_head-Within
        (rw (end, size_zeros) meta_tail-Within) (rw size_zeros (omega (arith, whole)))
      ∙ window_zeros opaque_end rest_size 128 (omega (arith, whole))

  opaque_window : take opaque_size (drop 62 buf) ≡ fitted md.opaque
  opaque_window =
      let l = length (take opaque_size md.opaque) in
      let (_, (_, (_, (_, (_, (_, (_, (_, (_, (_, (_, (_, (_, (_, (stands, (_, _)))))))))))))))) =
        meta_bytes-Holds in
      ap (λ n. take n (drop 62 buf)) (sym whole)
      ∙ take-add l rest_size (drop 62 buf)
      ∙ ap₂ ◌++◌ stands (ap (take rest_size) (sym (drop-drop 62 l buf)) ∙ behind_opaque)

  -- The cyclic magic at both of its places.
  magic_at :
      (off : ℕ)
      → take (length (write_fix_num (next_magic md.cyclic_magic) 1)) (drop off buf)
        ≡ write_fix_num (next_magic md.cyclic_magic) 1
      → number_at buf off 1 ≡ next_magic md.cyclic_magic % 256
  magic_at off h =
      let n = next_magic md.cyclic_magic in
      number_at_lem buf off 1 (n % 256) (omega arith) (omega arith) (omega arith)
        (subst (λ w. take (length w) (drop off buf) ≡ w) (write_fix_num_byte n) h)

  pub parse_metadata-meta_bytes :
      (supports : CompressorClass → Bool)
      → IsSound supports md
      → parse_metadata buf ≡ reloaded md finish
  unfolding parse_metadata
  parse_metadata-meta_bytes supports sound =
      let (
        _,
        (
          front,
          (
            major,
            (
              minor,
              (
                flags,
                (
                  width,
                  (
                    pow,
                    (closure, (buckets, (records, (eff, (size, (time, (db, (_, (back, _))))))))),
                  ),
                ),
              ),
            ),
          ),
        ),
      ) =
        meta_bytes-Holds in
      let small : (if closes md && finish then 1 else 0) < 256 = ground arith in
      rw
        (
          magic_at 9 front,
          magic_at 127 back,
          number_at_lem buf 10 1 md.pkg_major_version (omega arith) (omega arith)
              (omega (arith, sound.major)) major,
          number_at_lem buf 11 1 md.pkg_minor_version (omega arith) (omega arith)
              (omega (arith, sound.minor)) minor,
          number_at_lem buf 12 1 md.static_flags (omega arith) (omega arith)
              (omega (arith, sound.flags)) flags,
          number_at_lem buf 13 1 md.offset_width (omega arith) (omega arith)
              (omega (arith, sound.offset_high)) width,
          number_at_lem buf 14 1 md.align_pow (omega arith) (omega arith)
              (omega (arith, sound.aligned)) pow,
          number_at_lem buf 15 1 _ (omega arith) (omega arith) small closure,
          number_at_lem buf 16 8 md.num_buckets (omega arith) (omega arith)
              (omega (arith, sound.buckets_high)) buckets,
          number_at_lem buf 24 8 (at_least_zero md.num_records) (omega arith) (omega arith)
              (omega (arith, at_least_zero-lt md.num_records sound.records)) records,
          number_at_lem buf 32 8 (at_least_zero md.eff_data_size) (omega arith) (omega arith)
              (omega (arith, at_least_zero-lt md.eff_data_size sound.data_size)) eff,
          number_at_lem buf 40 8 md.file_size (omega arith) (omega arith)
              (omega (arith, sound.size_high)) size,
          number_at_lem buf 48 8 md.mod_time (omega arith) (omega arith) (omega (arith, sound.time))
              time,
          number_at_lem buf 56 4 md.db_type (omega arith) (omega arith) (omega (arith, sound.type))
              db,
          opaque_window,
          ==_refl (next_magic md.cyclic_magic % 256),
        )
        refl

  pub length-meta_bytes : length buf ≡ 128
  unfolding meta_bytes
  length-meta_bytes =
      length-put_all 0 (replicate metadata_size 0) (meta_fields md finish)
        (rw size_zeros meta_fields-Within)
      ∙ size_zeros
