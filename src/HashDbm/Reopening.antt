-- ===== src/HashDbm/Reopening.antt =====
-- `OpenImpl` on the file of a database that `CloseImpl` closed (tkrzw_dbm_hash.cc).
use mathlib.Core.Path.{subst}
use tkrzw.Base.{
  ℕ, ◌+◌, ◌≤◌, ◌≡◌, ◌==◌, refl, ap, ◌∙◌, sym, arith, Bytes, some, true, false, ◌&&◌, ltb, length,
  take, ==_refl, Bool-cases, inl, inr,
}
use tkrzw.Status.{Status, is_success, status_of, success}
use tkrzw.Dbm.Interface.{Map}
use tkrzw.Flat.File.{File, FileLaws}
use tkrzw.HashDbm.Access.{size_simple}
use tkrzw.HashDbm.Patch.{patch}
use tkrzw.HashDbm.Buckets.{IsTable, base, record_base-ge}
use tkrzw.HashDbm.Append.{IsSteady}
use tkrzw.HashDbm.Metadata.{Metadata, meta_bytes, closes, next_magic, save_metadata}
use tkrzw.HashDbm.MetadataRound.{IsSound, reloaded, length-meta_bytes}
use tkrzw.HashDbm.MetadataLoad.{load_metadata-front}
use tkrzw.HashDbm.MetadataKept.{front-IsTable}
use tkrzw.HashDbm.Opening.{
  Store, Setting, format_of, stamped, close_impl, open_impl, take_over, settle, tune, load_fields,
  save_fields, load_fbp, fbp_offset, fbp_section_size, updates_in_place,
}
use tkrzw.HashDbm.Closing.{
  stamp, closed, closed-IsTable, length-closed, closed-front, close_impl-closed,
}

-- The metadata after they were saved, loaded, and saved anew without the closing flag.
abbrev pub reopened_metadata : Metadata → Metadata
reopened_metadata md =
    let loaded = reloaded md true in
    record loaded { cyclic_magic = some (next_magic loaded.cyclic_magic) }

not_fresh : (n : ℕ) → 1 ≤ n → (true && ltb n 1) ≡ false
not_fresh n h = ground arith

-- The database is open for writing and healthy, with the metadata and the map.
pub record Reopened {F : Type 0} {file : File F} (laws : FileLaws file) (md : Metadata) (m : Map)
    (r : Status × Store F) : Type 0 where
  pub status : r.0 ≡ status_of success
  pub is_open : r.1.is_open ≡ true
  pub writable : r.1.writable ≡ true
  pub healthy : r.1.healthy ≡ true
  pub meta : r.1.meta ≡ md
  pub table : IsTable (format_of md) md.num_buckets (laws.contents r.1.file) m

-- Tuning a file succeeds and leaves its bytes.
pub record IsTunable {F : Type 0} {file : File F} (laws : FileLaws file) (setting : Setting F)
    : Type 0 where
  pub tunes : (f : F) (size : ℕ) → is_success (setting.tune_file_after_open f size).0 ≡ true
  pub keeps :
      (f : F) (size : ℕ) → laws.contents (setting.tune_file_after_open f size).1 ≡ laws.contents f

size_simple-length :
    {F : Type 0} (file : File F) (laws : FileLaws file) (f : F)
    → size_simple file f ≡ length (laws.contents f)
size_simple-length file laws f = rw (laws.size_known f) refl

module _ {F : Type 0} (file : File F) (laws : FileLaws file) (steady : IsSteady file) (now : ℕ)
    (st : Store F) (m : Map)
    (v : IsTable (format_of st.meta) st.meta.num_buckets (laws.contents st.file) m)
    (at : st.record_base_offset ≡ base (format_of st.meta) st.meta.num_buckets)
    (closing : closes st.meta ≡ true) (setting : Setting F) (later : ℕ) where
  abbrev stamped_meta : Metadata
  stamped_meta = stamp file laws steady now st m v at

  abbrev bytes : Bytes
  bytes = closed file laws steady now st m v at

  -- What is read back.
  abbrev md : Metadata
  md = reloaded stamped_meta true

  abbrev final : Metadata
  final = record md { cyclic_magic = some (next_magic md.cyclic_magic) }

  abbrev based : ℕ
  based = base (format_of st.meta) st.meta.num_buckets

  table : IsTable (format_of st.meta) st.meta.num_buckets bytes m
  table = closed-IsTable file laws steady now st m v at

  closes-md : closes md ≡ true
  closes-md = rw closing refl

  noted : md.file_size ≡ length bytes
  noted = size_simple-length file laws st.file ∙ sym (length-closed file laws steady now st m v at)

  settle_lem : (f : F) → laws.contents f ≡ bytes → settle file setting later true md f ≡ (true, f)
  unfolding settle
  settle_lem f h =
      let same : md.file_size ≡ size_simple file f =
        noted ∙ ap length (sym h) ∙ sym (size_simple-length file laws f) in
      let test : (md.file_size == size_simple file f) ≡ true =
        rw same (==_refl (size_simple file f)) in
      rw (test, closes-md) refl

  -- The region of the pool lies in the file.
  load_fbp_lem :
      (s : Store F)
      → s.record_base_offset ≡ based
      → based ≤ length (laws.contents s.file)
      → ((load_fbp file s).0 ≡ status_of success)
        × ((load_fbp file s).1.meta ≡ s.meta)
        × ((load_fbp file s).1.file ≡ s.file)
  unfolding load_fbp
  load_fbp_lem s h l =
      let inside : fbp_offset file s + fbp_section_size ≤ length (laws.contents s.file) =
        omega (arith, h, l, record_base-ge (format_of st.meta) st.meta.num_buckets) in
      rw (laws.read_inside s.file (fbp_offset file s) fbp_section_size inside) (refl, refl, refl)

  take_over_lem :
      (s : Store F)
      → laws.contents s.file ≡ bytes
      → s.record_base_offset ≡ based
      → Reopened laws final m (take_over file setting later true (record s { meta = md }))
  unfolding take_over save_fields save_metadata
  take_over_lem s h b =
      let w = file.write s.file 0 (meta_bytes md false) in
      let wrote : is_success w.0 ≡ true = steady.writes s.file 0 (meta_bytes md false) in
      let written : laws.contents w.1 ≡ patch bytes 0 (meta_bytes md false) =
        laws.write_at s.file 0 (meta_bytes md false) (omega arith) wrote
        ∙ ap (λ c. patch c 0 (meta_bytes md false)) h in
      let kept : IsTable (format_of st.meta) st.meta.num_buckets (laws.contents w.1) m =
        subst (λ c. IsTable (format_of st.meta) st.meta.num_buckets c m) (sym written)
          (front-IsTable (format_of st.meta) st.meta.num_buckets bytes (meta_bytes md false) m
            (length-meta_bytes md false) table) in
      let saved : Store F = record s { meta = final; file = w.1 } in
      elim (Bool-cases (updates_in_place final)) [
        | inl e ↦
            let (got, same, stays) = load_fbp_lem saved b (kept.sized) in
            rw (settle_lem s.file h, wrote, e, got)
              (record {
                status = refl;
                is_open = refl;
                writable = refl;
                healthy = refl;
                meta = same;
                table =
                    subst (λ f. IsTable (format_of st.meta) st.meta.num_buckets (laws.contents f) m)
                      (sym stays) kept;
              })
        | inr e ↦
            rw (settle_lem s.file h, wrote, e)
              (record {
                status = refl;
                is_open = refl;
                writable = refl;
                healthy = refl;
                meta = refl;
                table = kept;
              })
      ]

  opened_again :
      (again : Store F)
      → IsTunable laws setting
      → IsSound setting.supports stamped_meta
      → laws.contents again.file ≡ bytes
      → Reopened laws final m (open_impl file setting later true again)
  unfolding open_impl load_fields tune
  opened_again again tunable sound h =
      let long : 1024 ≤ length (laws.contents again.file) =
        omega (
          arith,
          ap length h,
          table.sized,
          record_base-ge (format_of st.meta) st.meta.num_buckets,
        ) in
      let old : (true && ltb (size_simple file again.file) 1) ≡ false =
        not_fresh (size_simple file again.file)
          (omega (arith, long, size_simple-length file laws again.file)) in
      let loaded =
        load_metadata-front setting.supports stamped_meta true sound file laws again.file again.meta
          (omega (arith, long)) (ap (take 128) h ∙ closed-front file laws steady now st m v at) in
      let t = setting.tune_file_after_open again.file based in
      let ready : Store F = record again { record_base_offset = based; file = t.1 } in
      rw (old, loaded, tunable.tunes again.file based)
        (take_over_lem ready (tunable.keeps again.file based ∙ h) refl)

module _ {F : Type 0} (file : File F) (laws : FileLaws file) where
  -- A healthy database that is open for writing, whose bytes stand for a map, is closed by `CloseImpl`
  -- with success on a file that can be written to. `OpenImpl` for writing on any file with the bytes
  -- that are left then succeeds too, in both update modes: the database is healthy, its bytes stand
  -- for the same map, and its metadata are those that were saved, with the magic counted up. The
  -- metadata must be sound, closing must be noted in the closure flags, the record base must be that of
  -- the metadata, and tuning a file must succeed and leave its bytes.
  pub open_impl-close_impl :
      (steady : IsSteady file) (now : ℕ) (st : Store F) (m : Map)
      (v : IsTable (format_of st.meta) st.meta.num_buckets (laws.contents st.file) m)
      (at : st.record_base_offset ≡ base (format_of st.meta) st.meta.num_buckets)
      (closing : closes st.meta ≡ true) (setting : Setting F) (later : ℕ) (again : Store F)
      → st.writable ≡ true
      → st.healthy ≡ true
      → IsTunable laws setting
      → IsSound setting.supports (stamped file now st).meta
      → laws.contents again.file ≡ laws.contents (close_impl file now st).1.file
      → (is_success (close_impl file now st).0 ≡ true)
        × Reopened laws
            (reopened_metadata (stamped file now st).meta)
            m
            (open_impl file setting later true again)
  open_impl-close_impl steady now st m v at closing setting later again w h tunable sound here =
      let (closed_well, left) = close_impl-closed file laws steady now st m v at w h in
      (
        closed_well,
        opened_again file laws steady now st m v at closing setting later again tunable sound
            (here ∙ left),
      )
