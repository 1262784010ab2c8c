-- ===== src/Dbm/Laws.antt =====
-- What the methods of Dbm/Methods.antt do to the map that a database stands for, for any database
-- that keeps the promises of Dbm/Interface.antt.
use tkrzw.Dbm.Fits.{
  append_result, ValueFits, get_fits, set_fits, remove_fits, append_fits, compare_exchange_fits,
  increment_fits,
}
use tkrzw.Codec.FixNum.{
  str_to_int_big_endian, int_to_str_big_endian, length-int_to_str, str_to_int-int_to_str,
}
use tkrzw.Base.{
  refl, ◌^◌, ◌<◌, ◌∙◌, ap, ℕ, eqb_refl, Bytes, [], Option, none, some, Bool, true, false, not, ◌==◌,
  eqb, eqb_iff, if◌then◌else◌, ◌≡◌, arith,
}
use tkrzw.Status.{
  Status, status_of, is_success, success, not_found_error, duplication_error, infeasible_error,
}
use tkrzw.Dbm.Processor.{
  Report, report_to, get_processor, set_processor, remove_processor, append_processor, write_out,
  compare_exchange_processor, increment_processor, int64_min, add64,
}
use tkrzw.Dbm.Interface.{Dbm, Map, update}
use tkrzw.Dbm.Methods.{get, set, remove, append, compare_exchange, increment}

-- The target of the caller's pointer after a method that found this.
abbrev pub out_after : Option Bytes → Option Bytes → Option Bytes
out_after out none = out
out_after out (some v) = write_out out v

-- The status for a record that has to be there.
abbrev pub found_status : Option Bytes → Status
found_status none = status_of not_found_error
found_status (some v) = status_of success

-- The record and the status after `Set`.
abbrev pub set_result : Bool → Bytes → Option Bytes → Option Bytes
set_result overwrite value none = some value
set_result overwrite value (some old) = if overwrite then some value else some old

abbrev pub set_status : Bool → Option Bytes → Status
set_status overwrite none = status_of success
set_status overwrite (some old) =
    if overwrite then status_of success else status_of duplication_error

-- Whether the record is as expected; an expected `none` is that there is no record.
abbrev pub as_expected : Option Bytes → Option Bytes → Bool
as_expected none none = true
as_expected none (some v) = false
as_expected (some e) none = false
as_expected (some e) (some v) = eqb e v

abbrev pub actual_value : Option Bytes → Bytes
actual_value none = []
actual_value (some v) = v

-- The number that a record, or its absence, stands for.
abbrev pub number_of : ℕ → Option Bytes → ℕ
number_of initial none = initial
number_of initial (some v) = str_to_int_big_endian v

-- A number that is stored, or not, is read back.
read_back :
    (kept : Bool) (initial n : ℕ) (key : Bytes) (m : Map)
    → n < 2 ^ 64
    → number_of initial
        (if kept then m key else update m key (some (int_to_str_big_endian n 8)) key)
      ≡ (if kept then number_of initial (m key) else n)
read_back true initial n key m h = refl
read_back false initial n key m h = rw (eqb_refl key) (str_to_int-int_to_str n h)

module _ {D : Type 0} (dbm : Dbm D) (d : D) (key : Bytes) (valid : dbm.IsValid d)
    (fits : dbm.FitsKey key) where
  -- `Get` reports the value of the record, or NOT_FOUND_ERROR, and changes no record.
  pub get_lem :
      (out : Option Bytes)
      → dbm.Accepts d false
      → ((get dbm d key out).status ≡ found_status (dbm.lookup d key))
        × ((get dbm d key out).out ≡ out_after out (dbm.lookup d key))
        × ((j : Bytes) → dbm.lookup (get dbm d key out).db j ≡ dbm.lookup d j)
  unfolding get
  get_lem out a =
      let ok = dbm.process-success Report d key get_processor (report_to out) false valid a in
      let state = dbm.process-state Report d key get_processor (report_to out) false valid a in
      let view = λ (j : Bytes).
        dbm.lookup-process Report d key get_processor (report_to out) false valid a fits
          (get_fits (dbm.Fits key) (report_to out) key (dbm.lookup d key)) j in
      (ground (arith, ok, state), ground (arith, state), λ j. ground (arith, view j, eqb_iff key j))

  -- `Set` stores the value, but for a record that is there and not to be overwritten: then it answers
  -- DUPLICATION_ERROR and the record stays. The old value is reported, and no other record changes.
  pub set_lem :
      (value : Bytes) (overwrite : Bool) (out : Option Bytes)
      → dbm.Accepts d true
      → dbm.Fits key value
      → ((set dbm d key value overwrite out).status ≡ set_status overwrite (dbm.lookup d key))
        × ((set dbm d key value overwrite out).out ≡ out_after out (dbm.lookup d key))
        × ((j : Bytes)
            → dbm.lookup (set dbm d key value overwrite out).db j
              ≡ update (dbm.lookup d) key (set_result overwrite value (dbm.lookup d key)) j)
  unfolding set
  set_lem value overwrite out a fv =
      let p = set_processor value overwrite in
      let ok = dbm.process-success Report d key p (report_to out) true valid a in
      let state = dbm.process-state Report d key p (report_to out) true valid a in
      let view = λ (j : Bytes).
        dbm.lookup-process Report d key p (report_to out) true valid a fits
          (set_fits (dbm.Fits key) value overwrite (report_to out) key (dbm.lookup d key) fv) j in
      (ground (arith, ok, state), ground (arith, state), λ j. ground (arith, view j))

  -- `Remove` leaves no record, reports the value that was there, and answers NOT_FOUND_ERROR if there
  -- was none. No other record changes.
  pub remove_lem :
      (out : Option Bytes)
      → dbm.Accepts d true
      → ((remove dbm d key out).status ≡ found_status (dbm.lookup d key))
        × ((remove dbm d key out).out ≡ out_after out (dbm.lookup d key))
        × ((j : Bytes) → dbm.lookup (remove dbm d key out).db j ≡ update (dbm.lookup d) key none j)
  unfolding remove
  remove_lem out a =
      let ok = dbm.process-success Report d key remove_processor (report_to out) true valid a in
      let state = dbm.process-state Report d key remove_processor (report_to out) true valid a in
      let view = λ (j : Bytes).
        dbm.lookup-process Report d key remove_processor (report_to out) true valid a fits
          (remove_fits (dbm.Fits key) (report_to out) key (dbm.lookup d key)) j in
      (ground (arith, ok, state), ground (arith, state), λ j. ground (arith, view j))

  -- `Append` joins the value behind the old one and the delimiter, or stores it alone.
  pub append_lem :
      (value delim : Bytes)
      → dbm.Accepts d true
      → dbm.Fits key (append_result value delim (dbm.lookup d key))
      → (is_success (append dbm d key value delim).0 ≡ true)
        × ((j : Bytes)
            → dbm.lookup (append dbm d key value delim).1 j
              ≡ update (dbm.lookup d) key (some (append_result value delim (dbm.lookup d key))) j)
  unfolding append
  append_lem value delim a fv =
      let p = append_processor {S = Unit {0}} value delim in
      let view = λ (j : Bytes).
        dbm.lookup-process (Unit {0}) d key p tt true valid a fits
          (append_fits (dbm.Fits key) value delim key (dbm.lookup d key) fv) j in
      (dbm.process-success (Unit {0}) d key p tt true valid a, λ j. ground (arith, view j))

  -- `CompareExchange` stores the desired state exactly when the record is as expected, where no record
  -- is a state too; else it answers INFEASIBLE_ERROR and changes nothing. It reports the actual value,
  -- the empty string if there is no record.
  pub compare_exchange_lem :
      (expected desired out : Option Bytes)
      → dbm.Accepts d true
      → ValueFits (dbm.Fits key) desired
      → ((compare_exchange dbm d key expected desired out).status ≡ (
          if as_expected expected (dbm.lookup d key)
          then status_of success
          else status_of infeasible_error))
        × ((compare_exchange dbm d key expected desired out).out
            ≡ write_out out (actual_value (dbm.lookup d key)))
        × ((j : Bytes)
            → dbm.lookup (compare_exchange dbm d key expected desired out).db j ≡ (
                if as_expected expected (dbm.lookup d key)
                then update (dbm.lookup d) key desired j
                else dbm.lookup d j))
  unfolding compare_exchange
  compare_exchange_lem expected desired out a fv =
      let p = compare_exchange_processor expected desired in
      let ok = dbm.process-success Report d key p (report_to out) true valid a in
      let state = dbm.process-state Report d key p (report_to out) true valid a in
      let view = λ (j : Bytes).
        dbm.lookup-process Report d key p (report_to out) true valid a fits
          (compare_exchange_fits (dbm.Fits key) expected desired (report_to out) key
            (dbm.lookup d key) fv)
          j in
      (ground (arith, ok, state), ground (arith, state), λ j. ground (arith, view j, eqb_iff key j))

  -- What `Increment` stores.
  increment_step :
      (inc initial : ℕ) (current : Option ℕ)
      → dbm.Accepts d (not (inc == int64_min))
      → (is_success (increment dbm d key inc current initial).status ≡ true)
        × ((increment dbm d key inc current initial).state
            ≡ write_out current (
                if inc == int64_min
                then number_of initial (dbm.lookup d key)
                else add64 (number_of initial (dbm.lookup d key)) inc))
        × ((j : Bytes)
            → dbm.lookup (increment dbm d key inc current initial).db j ≡ (
                if inc == int64_min
                then dbm.lookup d j
                else update
                    (dbm.lookup d)
                    key
                    (some
                      (int_to_str_big_endian (add64 (number_of initial (dbm.lookup d key)) inc) 8))
                    j))
  unfolding increment
  increment_step inc initial current a =
      let p = increment_processor inc initial in
      let small =
        λ (n : ℕ). dbm.fits_int64 key (int_to_str_big_endian n 8) fits (length-int_to_str n) in
      let w = not (inc == int64_min) in
      let ok = dbm.process-success (Option ℕ) d key p current w valid a in
      let state = dbm.process-state (Option ℕ) d key p current w valid a in
      let view = λ (j : Bytes).
        dbm.lookup-process (Option ℕ) d key p current w valid a fits
          (increment_fits (dbm.Fits key) inc initial current key (dbm.lookup d key) small) j in
      (ok, ground (arith, state), λ j. ground (arith, view j, eqb_iff key j))

  -- `Increment` stores the sum modulo 2 ^ 64 as eight bytes and reports it; the number that is read from
  -- the record afterwards is the reported one. The increment INT64MIN only reports the number, and
  -- stores nothing.
  pub increment_lem :
      (inc initial : ℕ) (current : Option ℕ)
      → dbm.Accepts d (not (inc == int64_min))
      → (is_success (increment dbm d key inc current initial).status ≡ true)
        × ((increment dbm d key inc current initial).state
            ≡ write_out current (
                if inc == int64_min
                then number_of initial (dbm.lookup d key)
                else add64 (number_of initial (dbm.lookup d key)) inc))
        × ((j : Bytes)
            → dbm.lookup (increment dbm d key inc current initial).db j ≡ (
                if inc == int64_min
                then dbm.lookup d j
                else update
                    (dbm.lookup d)
                    key
                    (some
                      (int_to_str_big_endian (add64 (number_of initial (dbm.lookup d key)) inc) 8))
                    j))
        × (number_of initial (dbm.lookup (increment dbm d key inc current initial).db key) ≡ (
            if inc == int64_min
            then number_of initial (dbm.lookup d key)
            else add64 (number_of initial (dbm.lookup d key)) inc))
  increment_lem inc initial current a =
      let (ok, state, view) = increment_step inc initial current a in
      let sum = add64 (number_of initial (dbm.lookup d key)) inc in
      (
        ok,
        state,
        view,
        ap (number_of initial) (view key)
            ∙ read_back (inc == int64_min) initial sum key (dbm.lookup d) (omega arith),
      )
