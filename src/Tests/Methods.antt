-- ===== src/Tests/Methods.antt =====
-- The theorems on the methods of `DBM` at the table of Tests/Tables.antt.
use tkrzw.Base.{
  Bytes, List, [], ◌∷◌, ◌≡◌, arith, none, some, true, false, Option, if◌then◌else◌, ◌==◌,
}
use tkrzw.Status.{is_success, status_of, success, infeasible_error, duplication_error}
use tkrzw.Codec.FixNum.{int_to_str_big_endian}
use tkrzw.Dbm.Processor.{write_out, int64_min, add64}
use tkrzw.Dbm.Interface.{Dbm, update}
use tkrzw.Dbm.Fits.{append_result}
use tkrzw.Dbm.Methods.{
  get, set, append, compare_exchange, increment, compare_exchange_multi, set_multi,
}
use tkrzw.Dbm.Laws.{
  get_lem, set_lem, append_lem, compare_exchange_lem, increment_lem, out_after, found_status,
  set_status, set_result, as_expected, actual_value, number_of,
}
use tkrzw.Dbm.Multi.{compare_exchange_multi_lem, all_expected, update_all}
use tkrzw.Dbm.Sequences.{set_multi_lem, none_kept, set_all}
use tkrzw.Tiny.Table.{TinyDbm}
use tkrzw.Tiny.Implements.{tiny_dbm}
use tkrzw.Tests.Tables.{
  FitsKey-short, FitsBlock-short, ka, kb, va, one, one-IsValid, joined-FitsBlock,
}

abbrev t : Dbm TinyDbm
t = tiny_dbm

get_lem_example :
    ((get t one ka (some [])).status ≡ found_status (t.lookup one ka))
    × ((get t one ka (some [])).out ≡ out_after (some []) (t.lookup one ka))
    × ((j : Bytes) → t.lookup (get t one ka (some [])).db j ≡ t.lookup one j)
unfolding tiny_dbm
get_lem_example = get_lem t one ka one-IsValid (FitsKey-short ka (omega arith)) (some []) tt

set_lem_example :
    ((set t one ka kb false none).status ≡ set_status false (t.lookup one ka))
    × ((set t one ka kb false none).out ≡ out_after none (t.lookup one ka))
    × ((j : Bytes)
        → t.lookup (set t one ka kb false none).db j
          ≡ update (t.lookup one) ka (set_result false kb (t.lookup one ka)) j)
unfolding tiny_dbm
set_lem_example =
    set_lem t one ka one-IsValid (FitsKey-short ka (omega arith)) kb false none tt
      (FitsBlock-short ka kb (omega arith) (omega arith))

append_lem_example :
    (is_success (append t one ka kb (44 ∷ [])).0 ≡ true)
    × ((j : Bytes)
        → t.lookup (append t one ka kb (44 ∷ [])).1 j
          ≡ update (t.lookup one) ka (some (append_result kb (44 ∷ []) (t.lookup one ka))) j)
unfolding tiny_dbm
append_lem_example =
    append_lem t one ka one-IsValid (FitsKey-short ka (omega arith)) kb (44 ∷ []) tt
      joined-FitsBlock

compare_exchange_lem_example :
    ((compare_exchange t one ka (some va) none none).status ≡ (
      if as_expected (some va) (t.lookup one ka)
      then status_of success
      else status_of infeasible_error))
    × ((compare_exchange t one ka (some va) none none).out
        ≡ write_out none (actual_value (t.lookup one ka)))
    × ((j : Bytes)
        → t.lookup (compare_exchange t one ka (some va) none none).db j ≡ (
            if as_expected (some va) (t.lookup one ka)
            then update (t.lookup one) ka none j
            else t.lookup one j))
unfolding tiny_dbm
compare_exchange_lem_example =
    compare_exchange_lem t one ka one-IsValid (FitsKey-short ka (omega arith)) (some va) none none
      tt tt

increment_lem_example :
    (is_success (increment t one kb 5 (some 0) 37).status ≡ true)
    × ((increment t one kb 5 (some 0) 37).state
        ≡ write_out (some 0) (
            if 5 == int64_min
            then number_of 37 (t.lookup one kb)
            else add64 (number_of 37 (t.lookup one kb)) 5))
    × ((j : Bytes)
        → t.lookup (increment t one kb 5 (some 0) 37).db j ≡ (
            if 5 == int64_min
            then t.lookup one j
            else update
                (t.lookup one)
                kb
                (some (int_to_str_big_endian (add64 (number_of 37 (t.lookup one kb)) 5) 8))
                j))
    × (number_of 37 (t.lookup (increment t one kb 5 (some 0) 37).db kb) ≡ (
        if 5 == int64_min
        then number_of 37 (t.lookup one kb)
        else add64 (number_of 37 (t.lookup one kb)) 5))
unfolding tiny_dbm
increment_lem_example =
    increment_lem t one kb one-IsValid (FitsKey-short kb (omega arith)) 5 37 (some 0) tt

abbrev expected : List (Bytes × Option Bytes)
expected = (ka, some va) ∷ (kb, none) ∷ []

abbrev desired : List (Bytes × Option Bytes)
desired = (ka, none) ∷ (kb, some va) ∷ []

compare_exchange_multi_lem_example :
    ((compare_exchange_multi t one expected desired).0 ≡ (
      if all_expected (t.lookup one) expected
      then status_of success
      else status_of infeasible_error))
    × ((j : Bytes)
        → t.lookup (compare_exchange_multi t one expected desired).1 j ≡ (
            if all_expected (t.lookup one) expected
            then update_all (t.lookup one) desired j
            else t.lookup one j))
unfolding tiny_dbm
compare_exchange_multi_lem_example =
    compare_exchange_multi_lem t one expected desired one-IsValid tt
      (FitsKey-short ka (omega arith), (FitsKey-short kb (omega arith), tt))
      (
        (FitsKey-short ka (omega arith), tt),
        ((FitsKey-short kb (omega arith), FitsBlock-short kb va (omega arith) (omega arith)), tt),
      )

abbrev records : List (Bytes × Bytes)
records = (ka, kb) ∷ (kb, va) ∷ []

set_multi_lem_example :
    ((set_multi t one records false (status_of success)).0 ≡ (
      if none_kept (t.lookup one) records false
      then status_of success
      else status_of duplication_error))
    × ((j : Bytes)
        → t.lookup (set_multi t one records false (status_of success)).1 j
          ≡ set_all (t.lookup one) records false j)
unfolding tiny_dbm
set_multi_lem_example = set_multi_lem t one records false one-IsValid tt (
  (FitsKey-short ka (omega arith), FitsBlock-short ka kb (omega arith) (omega arith)),
  ((FitsKey-short kb (omega arith), FitsBlock-short kb va (omega arith) (omega arith)), tt),
)
