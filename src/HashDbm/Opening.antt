-- ===== src/HashDbm/Opening.antt =====
-- `HashDBMImpl::OpenImpl` and `CloseImpl`, `SaveFBP`, `LoadFBP` and `CheckZeroRegion` (tkrzw_dbm_hash.cc).
-- Where `GetSizeSimple` has -1 and the model 0, both are too small for a database.
use tkrzw.Base.{
  ℕ, zero, suc, ◌+◌, ◌-◌, ◌^◌, ◌==◌, min, Bytes, [], ◌∷◌, if◌then◌else◌, none, some, Bool, true,
  false, ◌&&◌, not, ltb,
}
use Prim.Native.Nat.{bit_and}
use tkrzw.Status.{Status, status_of, is_success, success, broken_data_error, merge}
use tkrzw.Flat.File.{File}
use tkrzw.HashDbm.Record.{Format}
use tkrzw.HashDbm.Access.{size_simple}
use tkrzw.HashDbm.Pool.{Pool, serialize, deserialize, clear}
use tkrzw.HashDbm.Buckets.{record_base}
use tkrzw.HashDbm.Create.{initialize_buckets, record_base_header_size}
use tkrzw.HashDbm.Metadata.{
  Metadata, CompressorClass, save_metadata, load_metadata, closes, crc_width_from_static_flags,
}

abbrev pub fbp_section_size : ℕ
fbp_section_size = 1008

-- The fields that opening and closing use.
pub record Store (F : Type 0) : Type 0 where
  pub is_open : Bool
  pub writable : Bool
  pub healthy : Bool
  pub meta : Metadata
  pub record_base_offset : ℕ
  pub fbp : Pool
  pub file : F

-- The compressors and the version of the build, and what is done with a file of some of the classes:
-- `TuneFileAfterOpen` with the record base, and `File::TruncateFakely`.
pub record Setting (F : Type 0) : Type 0 where
  pub supports : CompressorClass → Bool
  pub major_version : ℕ
  pub minor_version : ℕ
  pub tune_file_after_open : F → ℕ → Status × F
  pub truncate_fakely : F → ℕ → Status × F

abbrev pub format_of : Metadata → Format
format_of md = record {
  crc_width = crc_width_from_static_flags md.static_flags;
  offset_width = md.offset_width;
  align_pow = md.align_pow;
}

-- `SetRecordBase`.
abbrev pub set_record_base : {F : Type 0} → Store F → Store F
set_record_base st = record st {
  record_base_offset = record_base (format_of st.meta) st.meta.num_buckets;
}

-- The early return behind a step.
abbrev pub then_do :
    {F : Type 0} → Status × Store F → (Store F → Status × Store F) → Status × Store F
then_do (status, st) step = if is_success status then step st else (status, st)

abbrev pub updates_in_place : Metadata → Bool
updates_in_place md = not (bit_and md.static_flags 1 == 0)

abbrev all_zero : Bytes → Bool
all_zero [] = true
all_zero (c ∷ cs) = (c == 0) && all_zero cs

-- The fields that `CloseImpl` sets back.
abbrev pub default_metadata : Metadata
default_metadata = record {
  cyclic_magic = some 0;
  pkg_major_version = 0;
  pkg_minor_version = 0;
  static_flags = 0;
  offset_width = 4;
  align_pow = 3;
  closure_flags = 0;
  num_buckets = 1048583;
  num_records = 0;
  eff_data_size = 0;
  file_size = 0;
  mod_time = 0;
  db_type = 0;
  opaque = [];
}

module _ {F : Type 0} (file : File F) where
  abbrev pub fbp_offset : Store F → ℕ
  fbp_offset st = st.record_base_offset - record_base_header_size - fbp_section_size

  -- `SaveFBP`.
  unfoldable pub save_fbp : Store F → Status × Store F
  save_fbp st =
      let str = serialize st.fbp st.meta.offset_width st.meta.align_pow fbp_section_size in
      let w = file.write st.file (fbp_offset st) str in (w.0, record st { file = w.1 })

  -- `LoadFBP`.
  unfoldable pub load_fbp : Store F → Status × Store F
  load_fbp st =
      let r = file.read st.file (fbp_offset st) fbp_section_size in
      (
        r.0,
        if is_success r.0
            then record st { fbp = deserialize st.fbp r.1 st.meta.offset_width st.meta.align_pow }
            else st,
      )

  -- The loop of `CheckZeroRegion`; each pass goes on by at least one byte, so that the size of the region
  -- is enough fuel.
  unfoldable pub check_zero_loop : ℕ → F → ℕ → ℕ → Status
  check_zero_loop zero f offset end_offset = status_of success
  check_zero_loop (suc fuel) f offset end_offset =
      let read_size = min (end_offset - offset) 8192 in
      let r = file.read f offset read_size in
      let later = check_zero_loop fuel f (offset + read_size) end_offset in
      if ltb offset end_offset
      then (if is_success r.0
          then (if all_zero r.1 then later else status_of broken_data_error)
          else r.0)
      else status_of success

  unfoldable pub check_zero_region : F → ℕ → ℕ → Status
  check_zero_region f offset end_offset =
      let last = min (offset + 131072) end_offset in check_zero_loop (last - offset) f offset last

  -- `SaveMetadata` on the fields.
  unfoldable pub save_fields : Bool → Store F → Status × Store F
  save_fields finish st =
      let s = save_metadata file st.file st.meta finish in
      (s.0, record st { file = s.1; meta = s.2 })

  -- The size and the time of the file are noted.
  abbrev pub stamped : ℕ → Store F → Store F
  stamped now st = record st {
    meta = record st.meta { file_size = size_simple file st.file; mod_time = now };
  }

  module _ (setting : Setting F) (now : ℕ) where
    -- The part of `OpenImpl` for an empty file.
    unfoldable pub create_store : Store F → Status × Store F
    create_store st =
        let based = set_record_base st in
        let fmt = format_of st.meta in
        let i = initialize_buckets file fmt st.meta.num_buckets st.meta.static_flags st.file in
        let md = record st.meta {
          pkg_major_version = setting.major_version;
          pkg_minor_version = setting.minor_version;
          closure_flags =
              if closes st.meta then st.meta.closure_flags else st.meta.closure_flags + 1;
        } in
        then_do (i.0, record based { file = i.1 })
          (λ created. save_fields true (stamped now (record created { meta = md })))

    unfoldable pub load_fields : Store F → Status × Store F
    load_fields st =
        let r = load_metadata file setting.supports st.file st.meta in
        (r.0, record st { meta = r.1 })

    -- Without a valid cyclic magic the size of the file is not known.
    abbrev pub doubted : Metadata → Metadata
    doubted md = elim (md.cyclic_magic) [
      | none ↦ record md { file_size = 2 ^ 63 - 1 }
      | some n ↦ md
    ]

    unfoldable pub tune : Store F → Status × Store F
    tune st =
        let t = setting.tune_file_after_open st.file st.record_base_offset in
        (t.0, record st { file = t.1 })

    -- The size of the file against the one noted: whether the database is healthy, and the file.
    unfoldable pub settle : Bool → Metadata → F → Bool × F
    settle writable md f =
        let act = size_simple file f in
        let cut =
          if writable
          then file.truncate f md.file_size
          else setting.truncate_fakely f md.file_size in
        if md.file_size == act
        then (closes md, f)
        else if ltb act md.file_size
        then (false, f)
        else if ltb 0 md.file_size
        then (if is_success (check_zero_region f md.file_size act)
            then (closes md && is_success cut.0, cut.1)
            else (false, f))
        else (closes md, f)

    -- The end of `OpenImpl`.
    unfoldable pub take_over : Bool → Store F → Status × Store F
    take_over writable st =
        let (healthy, f) = settle writable st.meta st.file in
        let settled = record st { file = f } in
        let ready : Status × Store F =
          if writable && healthy
          then then_do (save_fields false settled) (λ saved.
            if updates_in_place saved.meta then load_fbp saved else (status_of success, saved))
          else (status_of success, settled) in
        then_do ready (λ r.
          (status_of success, record r { is_open = true; writable = writable; healthy = healthy }))

    unfoldable pub open_impl : Bool → Store F → Status × Store F
    open_impl writable st =
        then_do
          (if writable && ltb (size_simple file st.file) 1
            then create_store st
            else (status_of success, st))
          (λ created. then_do (load_fields created) (λ loaded.
            then_do (tune (set_record_base (record loaded { meta = doubted loaded.meta })))
              (take_over writable)))

  unfoldable pub close_impl : ℕ → Store F → Status × Store F
  close_impl now st =
      let m = save_fields true (stamped now st) in
      let p = save_fbp m.1 in
      let saved : Status × Store F =
        if st.writable && st.healthy
        then (merge (merge (status_of success) m.0) p.0, p.1)
        else (status_of success, st) in
      (
        saved.0,
        record saved.1 {
          is_open = false;
          writable = false;
          healthy = false;
          meta = default_metadata;
          record_base_offset = 0;
          fbp = clear saved.1.fbp;
        },
      )
