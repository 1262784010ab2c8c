-- ===== src/Tests/Reopening.antt =====
-- A database of one empty bucket that is closed and opened again.
use tkrzw.Base.{Bytes, [], ◌≡◌, refl, arith, none, some, true, false, inl, inr}
use tkrzw.Status.{status_of, success, is_success}
use tkrzw.Flat.File.{memory_file}
use tkrzw.HashDbm.Metadata.{Metadata}
use tkrzw.HashDbm.MetadataRound.{IsSound}
use tkrzw.HashDbm.Buckets.{record_base}
use tkrzw.HashDbm.Record.{align_number}
use tkrzw.HashDbm.Opening.{Store, Setting, stamped, open_impl, close_impl}
use tkrzw.HashDbm.Reopening.{Reopened, IsTunable, reopened_metadata, open_impl-close_impl}
use tkrzw.Tests.Files.{memory_laws}
use tkrzw.Tests.HashTables.{fresh_file, one_bucket-IsTable, memory-IsSteady}

abbrev small_metadata : Metadata
small_metadata = record {
  cyclic_magic = some 3;
  pkg_major_version = 1;
  pkg_minor_version = 0;
  static_flags = 2;
  offset_width = 4;
  align_pow = 0;
  closure_flags = 1;
  num_buckets = 1;
  num_records = 0;
  eff_data_size = 0;
  file_size = 0;
  mod_time = 0;
  db_type = 0;
  opaque = [];
}

abbrev open_store : Store Bytes
open_store = record {
  is_open = true;
  writable = true;
  healthy = true;
  meta = small_metadata;
  record_base_offset = 4096;
  fbp = record { capacity = 1; blocks = [] };
  file = fresh_file;
}

abbrev plain_setting : Setting Bytes
plain_setting = record {
  supports = λ c. false;
  major_version = 1;
  minor_version = 0;
  tune_file_after_open = λ f size. (status_of success, f);
  truncate_fakely = λ f size. (status_of success, f);
}

plain_setting-IsTunable : IsTunable memory_laws plain_setting
plain_setting-IsTunable = record { tunes = λ f size. refl; keeps = λ f size. refl }

stamped-IsSound : IsSound (λ c. false) (stamped memory_file 77 open_store).meta
stamped-IsSound = record {
  major = omega arith;
  minor = omega arith;
  version = inl (omega arith);
  flags = omega arith;
  mode = inr (λ e. absurd (omega (arith, e)));
  supported = refl;
  offset_low = omega arith;
  offset_high = omega arith;
  aligned = omega arith;
  buckets_low = omega arith;
  buckets_high = omega arith;
  records = omega arith;
  data_size = omega arith;
  size_low = omega arith;
  size_high = omega arith;
  time = omega arith;
  type = omega arith;
}

open_impl-close_impl_example :
    (is_success (close_impl memory_file 77 open_store).0 ≡ true)
    × Reopened memory_laws
        (reopened_metadata (stamped memory_file 77 open_store).meta)
        (λ key. none)
        (open_impl memory_file plain_setting 99 true
          (record open_store { file = (close_impl memory_file 77 open_store).1.file }))
unfolding record_base align_number
open_impl-close_impl_example =
    open_impl-close_impl memory_file memory_laws memory-IsSteady 77 open_store (λ key. none)
      one_bucket-IsTable refl refl plain_setting 99
      (record open_store { file = (close_impl memory_file 77 open_store).1.file }) refl refl
      plain_setting-IsTunable stamped-IsSound refl
