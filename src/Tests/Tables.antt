-- ===== src/Tests/Tables.antt =====
-- A small table, and the theorems on `TinyDBM` at it.
use tkrzw.Base.{
  ◌≤◌, Bytes, List, [], ◌∷◌, ◌++◌, ◌≡◌, refl, arith, none, some, length, true, false, ◌∙◌, eqb_refl,
}
use tkrzw.Status.{is_success}
use tkrzw.Dbm.Processor.{set_processor, report_to, Report, Processor}
use tkrzw.Dbm.Interface.{update, call, call_all, apply_action}
use tkrzw.Dbm.Fits.{append_result, set_fits}
use tkrzw.Codec.VarNum.{size_var_num}
use tkrzw.Codec.VarRound.{size_var_num_mono}
use tkrzw.Tiny.Record.{Block, serialize, reserialize, reserialize_append}
use tkrzw.Tiny.Layout.{FitsBlock, FitsKey, Holds, serialize-Holds}
use tkrzw.Tiny.Rewrite.{reserialize-Holds, reserialize_append-Holds}
use tkrzw.Tiny.Table.{TinyDbm, process, process_multi, append}
use tkrzw.Tiny.Buckets.{IsValid, lookup}
use tkrzw.Tiny.Implements.{process_lem, process_multi_lem}
use tkrzw.Tiny.Append.{lookup-append}

one_byte : size_var_num 100 ≡ 1
unfolding size_var_num
one_byte = refl

pub FitsBlock-short :
    (key value : Bytes) → length key ≤ 100 → length value ≤ 100 → FitsBlock key value
FitsBlock-short key value h k =
    omega (
      arith,
      size_var_num_mono (length key) 100 h,
      size_var_num_mono (length value) 100 k,
      one_byte,
    )

pub FitsKey-short : (key : Bytes) → length key ≤ 100 → FitsKey key
FitsKey-short key h =
    omega
      (arith, size_var_num_mono (length key) 100 h, size_var_num_mono 8 100 (omega arith), one_byte)

abbrev pub ka : Bytes
ka = 97 ∷ []

abbrev pub kb : Bytes
kb = 98 ∷ []

abbrev pub va : Bytes
va = 1 ∷ 2 ∷ []

-- Three empty buckets.
abbrev pub empty : TinyDbm
empty = record {
  is_open = false;
  writable = false;
  path = [];
  num_records = 0;
  num_buckets = 3;
  buckets = [] ∷ [] ∷ [] ∷ [];
  iterators = [];
}

pub empty-IsValid : IsValid empty
empty-IsValid = record {
  positive = omega arith;
  sized = refl;
  table = (tt, (tt, (tt, tt)));
  counted = refl;
}

abbrev put_va : Processor Report
put_va = set_processor va true

empty_lookup : lookup empty ka ≡ none
unfolding tkrzw.Hash.primary_hash
empty_lookup = refl

process_lem_example :
    ((process Report empty ka put_va (report_to none) true).state
      ≡ (call put_va (report_to none) ka (lookup empty ka)).0)
    × IsValid (process Report empty ka put_va (report_to none) true).db
    × ((j : Bytes)
        → lookup (process Report empty ka put_va (report_to none) true).db j
          ≡ update
              (lookup empty)
              ka
              (apply_action true
                (call put_va (report_to none) ka (lookup empty ka)).1
                (lookup empty ka))
              j)
process_lem_example = process_lem Report empty ka put_va (report_to none) true empty-IsValid (
    set_fits (FitsBlock ka) va true (report_to none) ka (lookup empty ka)
      (FitsBlock-short ka va (omega arith) (omega arith)))

-- A record with the value of two bytes.
abbrev pub one : TinyDbm
one = (process Report empty ka put_va (report_to none) true).db

pub one-IsValid : IsValid one
one-IsValid =
    (process_lem Report empty ka put_va (report_to none) true empty-IsValid (
      set_fits (FitsBlock ka) va true (report_to none) ka (lookup empty ka)
        (FitsBlock-short ka va (omega arith) (omega arith)))).1

one_lookup : lookup one ka ≡ some va
unfolding set_processor
one_lookup =
    (process_lem Report empty ka put_va (report_to none) true empty-IsValid (
        set_fits (FitsBlock ka) va true (report_to none) ka (lookup empty ka)
          (FitsBlock-short ka va (omega arith) (omega arith)))).2
      ka
    ∙ rw (eqb_refl ka, empty_lookup)

pub joined-FitsBlock : FitsBlock ka (append_result kb (44 ∷ []) (lookup one ka))
joined-FitsBlock = rw one_lookup (FitsBlock-short ka (va ++ (44 ∷ kb)) (omega arith) (omega arith))

lookup-append_example :
    (is_success (append one ka kb (44 ∷ [])).0 ≡ true)
    × IsValid (append one ka kb (44 ∷ [])).1
    × ((j : Bytes)
        → lookup (append one ka kb (44 ∷ [])).1 j
          ≡ update (lookup one) ka (some (append_result kb (44 ∷ []) (lookup one ka))) j)
lookup-append_example = lookup-append one ka kb (44 ∷ []) one-IsValid joined-FitsBlock

abbrev pairs : List (Bytes × Processor Report)
pairs = (ka, put_va) ∷ (ka, set_processor kb false) ∷ []

process_multi_lem_example :
    IsValid (process_multi Report empty pairs (report_to none) true).db
    × (((process_multi Report empty pairs (report_to none) true).state
          ≡ (call_all pairs (report_to none) true (lookup empty)).0)
        × ((j : Bytes)
            → lookup (process_multi Report empty pairs (report_to none) true).db j
              ≡ (call_all pairs (report_to none) true (lookup empty)).1 j))
process_multi_lem_example =
    process_multi_lem Report empty pairs (report_to none) true empty-IsValid (
      FitsKey-short ka (omega arith),
      set_fits (FitsBlock ka) va true (report_to none) ka (lookup empty ka)
          (FitsBlock-short ka va (omega arith) (omega arith)),
      (
        FitsKey-short ka (omega arith),
        set_fits (FitsBlock ka) kb false _ ka _ (FitsBlock-short ka kb (omega arith) (omega arith)),
        tt,
      ),
    )

block : Block
block = serialize (record { key = ka; value = va })

block-Holds : Holds block ka va
unfolding block
block-Holds =
    serialize-Holds (record { key = ka; value = va })
      (FitsBlock-short ka va (omega arith) (omega arith))

reserialize-Holds_example :
    Holds (reserialize (record { key = ka; value = kb }) block (length va)) ka kb
reserialize-Holds_example =
    reserialize-Holds block ka va kb block-Holds (FitsBlock-short ka kb (omega arith) (omega arith))

reserialize_append-Holds_example :
    Holds
      (reserialize_append (record { key = ka; value = va }) block kb (44 ∷ []))
      ka
      (va ++ ((44 ∷ []) ++ kb))
reserialize_append-Holds_example =
    reserialize_append-Holds block ka va kb (44 ∷ []) block-Holds
      (FitsBlock-short ka (va ++ (44 ∷ kb)) (omega arith) (omega arith))
