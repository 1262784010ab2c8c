-- ===== src/Tests/HashTables.antt =====
-- A database of one empty bucket, and the theorems on `HashDBM` at it.
use mathlib.Core.Path.{subst}
use tkrzw.Base.{
  eqb, Option, length, ◌≤◌, ◌^◌, ◌∙◌, sym, zero, suc, ◌<◌, ℕ, Bytes, [], refl, arith, none, some,
  true, false, inl, inr, ◌∷◌, replicate, ◌≡◌,
}
use tkrzw.Dbm.Processor.{Processor, get_processor, set_processor, report_to, Report}
use tkrzw.Dbm.Interface.{call_all, update}
use tkrzw.Codec.FixNum.{read_fix_num, from_net}
use tkrzw.Codec.VarNum.{size_var_num}
use tkrzw.Flat.File.{memory_file}
use tkrzw.HashDbm.Record.{Format, set_data, align_number}
use tkrzw.HashDbm.Table.{HashDbm}
use tkrzw.HashDbm.Process.{process_impl, process_multi, bucket_of, Processed, process}
use tkrzw.HashDbm.Buckets.{slot_at, IsTable, record_base}
use tkrzw.HashDbm.Append.{IsSteady}
use tkrzw.HashDbm.Stepped.{HasRoom}
use tkrzw.HashDbm.Appending.{IsAppending, Succeeds}
use tkrzw.HashDbm.AppendingProcess.{process_impl_lem, process_file_lem}
use tkrzw.Status.{status_of, success, is_success}
use tkrzw.HashDbm.Metadata.{Metadata, load_metadata, save_metadata}
use tkrzw.HashDbm.MetadataRound.{IsSound, reloaded}
use tkrzw.HashDbm.MetadataLoad.{load_metadata-save_metadata}
use tkrzw.HashDbm.MetadataKept.{save_metadata-IsTable}
use tkrzw.HashDbm.Create.{initialize_buckets}
use tkrzw.HashDbm.Created.{initialize_buckets-IsTable}
use tkrzw.Tests.Files.{memory_laws, two_records}
use tkrzw.HashDbm.AppendingMulti.{process_multi_file_lem}
use tkrzw.Tests.Tables.{kb, ka, va}

abbrev pub narrow : Format
narrow = record { crc_width = 0; offset_width = 4; align_pow = 0 }

-- The header and the bucket, with the region up to the first record.
abbrev pub fresh_file : Bytes
fresh_file = replicate 4096 0

abbrev one_bucket : HashDbm Bytes
one_bucket = record {
  is_open = true;
  writable = true;
  healthy = true;
  in_place = false;
  format = narrow;
  compressor = none;
  num_buckets = 1;
  num_records = 0;
  eff_data_size = 0;
  fbp = record { capacity = 1; blocks = [] };
  min_read_size = 48;
  file = fresh_file;
}

empty_bucket : (b : ℕ) → b < 1 → slot_at narrow 1 fresh_file b ≡ 0
unfolding read_fix_num from_net
empty_bucket zero h = refl
empty_bucket (suc b) h = absurd (omega arith)

pub one_bucket-IsTable : IsTable narrow 1 fresh_file (λ k. none)
unfolding record_base align_number
one_bucket-IsTable = record {
  format = record { offset_low = omega arith; offset_high = omega arith; crc = inl refl };
  positive = omega arith;
  chains = λ b. [];
  units = 4096;
  aligned = refl;
  sized = omega arith;
  small = omega arith;
  linked = empty_bucket;
  shows = λ k. refl;
}

pub memory-IsSteady : IsSteady memory_file
memory-IsSteady = record { writes = λ f off buf. refl; appends = λ f buf. refl }

one_bucket-IsAppending : IsAppending memory_file memory_laws one_bucket (λ k. none)
one_bucket-IsAppending = record {
  table = one_bucket-IsTable;
  appending = refl;
  plain = refl;
  least = omega arith;
}

room : HasRoom narrow fresh_file ka va
unfolding set_data align_number size_var_num
room = record {
  small_key = omega arith;
  small_value = omega arith;
  key_bytes = omega arith;
  value_bytes = omega arith;
  small_whole = omega arith;
  slots = omega arith;
  small = omega arith;
}

process_file_lem_example :
    (r : Processed Bytes Report) × (process memory_file 4096 one_bucket ka
        (set_processor va true)
        (report_to none)
        true
        true
      ≡ some r)
    × Succeeds memory_file memory_laws r (report_to none) (update (λ k. none) ka (some va))
unfolding set_processor
process_file_lem_example =
    process_file_lem memory_file memory_laws one_bucket (λ k. none) one_bucket-IsAppending ka
      memory-IsSteady (set_processor va true) (report_to none) true 4096 room (omega arith)

-- The metadata of a database with three records and no compression.
abbrev three_records : Metadata
three_records = record {
  cyclic_magic = some 255;
  pkg_major_version = 1;
  pkg_minor_version = 0;
  static_flags = 2;
  offset_width = 4;
  align_pow = 3;
  closure_flags = 1;
  num_buckets = 101;
  num_records = 3;
  eff_data_size = 30;
  file_size = 8192;
  mod_time = 1000;
  db_type = 0;
  opaque = 7 ∷ 8 ∷ [];
}

three_records-IsSound : IsSound (λ c. false) three_records
three_records-IsSound = record {
  major = omega arith;
  minor = omega arith;
  version = inl (omega arith);
  flags = omega arith;
  mode = inr (λ e. absurd (omega (arith, e)));
  supported = refl;
  offset_low = omega arith;
  offset_high = omega arith;
  aligned = omega arith;
  buckets_low = omega arith;
  buckets_high = omega arith;
  records = omega arith;
  data_size = omega arith;
  size_low = omega arith;
  size_high = omega arith;
  time = omega arith;
  type = omega arith;
}

load_metadata-save_metadata_example :
    load_metadata memory_file
      (λ c. false)
      (save_metadata memory_file [] three_records true).1
      three_records
    ≡ (status_of success, reloaded three_records true)
unfolding save_metadata
load_metadata-save_metadata_example =
    load_metadata-save_metadata (λ c. false) three_records true three_records-IsSound memory_file
      memory_laws [] three_records refl

initialize_buckets-IsTable_example :
    (is_success (initialize_buckets memory_file narrow 1 2 two_records).0 ≡ true)
    × IsTable narrow 1
        (memory_laws.contents (initialize_buckets memory_file narrow 1 2 two_records).1)
        (λ key. none)
unfolding record_base align_number
initialize_buckets-IsTable_example =
    initialize_buckets-IsTable memory_file memory_laws memory-IsSteady narrow 1 2 two_records
      one_bucket-IsTable.format (omega arith) (omega arith) refl

save_metadata-IsTable_example :
    IsTable narrow 1
      (memory_laws.contents (save_metadata memory_file fresh_file three_records false).1)
      (λ key. none)
unfolding save_metadata
save_metadata-IsTable_example =
    save_metadata-IsTable memory_file memory_laws narrow 1 (λ key. none) three_records false
      fresh_file one_bucket-IsTable refl

abbrev setting_ka : Processor Report
setting_ka = set_processor va true

-- The bytes of a file are fewer than 2 ^ 63.
abbrev IsShort : Option (Processed Bytes Report) → Type 0
IsShort none = Unit {0}
IsShort (some r) = length r.db.file ≤ 2 ^ 63

IsShort-after :
    (r : Processed Bytes Report)
    → process_impl memory_file setting_ka ka
        (bucket_of one_bucket ka)
        (2 ^ 63)
        one_bucket
        (report_to none)
        true
        true
      ≡ some r
    → IsShort (some r)
unfolding set_processor
IsShort-after r e =
    let (last, f, done) =
      process_impl_lem memory_file memory_laws one_bucket (λ k. none) one_bucket-IsAppending ka
        memory-IsSteady setting_ka (report_to none) true (2 ^ 63) room (omega arith) in
    let short : length last.db.file ≤ 2 ^ 63 = omega (arith, done.valid.table.small) in
    subst IsShort (sym f ∙ e) short

-- A record is set and another one is looked for.
process_multi_file_lem_example :
    (r : Processed Bytes Report) × (process_multi memory_file
        (2 ^ 63)
        one_bucket
        ((ka, setting_ka) ∷ (kb, get_processor) ∷ [])
        (report_to none)
        true
      ≡ some r)
    × Succeeds memory_file memory_laws r
        (call_all ((ka, setting_ka) ∷ (kb, get_processor) ∷ []) (report_to none) true (λ k. none)).0
        (call_all ((ka, setting_ka) ∷ (kb, get_processor) ∷ []) (report_to none) true (λ k. none)).1
unfolding set_processor get_processor eqb
process_multi_file_lem_example =
    process_multi_file_lem memory_file memory_laws (2 ^ 63) true memory-IsSteady
      ((ka, setting_ka) ∷ (kb, get_processor) ∷ []) one_bucket (report_to none) (λ k. none)
      one_bucket-IsAppending (room, omega arith, λ r e. (tt, IsShort-after r e, λ q f. tt))
