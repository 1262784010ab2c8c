-- ===== src/Dbm/Processor.antt =====
-- `DBM::RecordProcessor` of tkrzw_dbm.h and its subclasses. A processor is called with the value of
-- a record, or that there is none; it may write to what its constructor was given pointers to, which
-- is its state, and it answers with an action.
use tkrzw.Base.{
  ℕ, ◌+◌, ◌%◌, ◌^◌, Bytes, ◌++◌, Option, none, some, Bool, true, false, ◌==◌, eqb, if◌then◌else◌,
  [],
}
use tkrzw.Status.{Status, Code, status_of, set_code, success}
use tkrzw.Codec.FixNum.{str_to_int_big_endian, int_to_str_big_endian}

-- The answer is a string view, and `NOOP` and `REMOVE` are told from values by their address.
pub data Action : Type 0 where
  noop remove : Action
  put : Bytes → Action

pub record Processor (S : Type 0) : Type 0 where
  pub process_full : S → Bytes → Bytes → S × Action
  pub process_empty : S → Bytes → S × Action

-- `if (p != nullptr) *p = v;`, where `none` is the null pointer.
abbrev pub write_out {ℓ} : {A : Type ℓ} → Option A → A → Option A
write_out none v = none
write_out (some _) v = some v

-- A status to report, and the target of an optional pointer to a string.
pub record Report : Type 0 where
  pub status : Status
  pub out : Option Bytes

-- The initial `impl_status(Status::SUCCESS)` with the caller's pointer.
abbrev pub report_to : Option Bytes → Report
report_to out = record { status = status_of success; out = out }

-- The base class does nothing.
unfoldable pub base_processor : {S : Type 0} → Processor S
base_processor = record {
  process_full = λ s key value. (s, noop);
  process_empty = λ s key. (s, noop);
}

unfoldable pub get_processor : Processor Report
get_processor = record {
  process_full = λ r key value. (record r { out = write_out r.out value }, noop);
  process_empty = λ r key. (record r { status = set_code r.status Code.not_found_error }, noop);
}

unfoldable pub set_processor : Bytes → Bool → Processor Report
set_processor value overwrite = record {
  process_full = λ r key old.
      let r' : Report = record r { out = write_out r.out old } in
      if overwrite
      then (r', put value)
      else (record r' { status = set_code r.status Code.duplication_error }, noop);
  process_empty = λ r key. (r, put value);
}

unfoldable pub remove_processor : Processor Report
remove_processor = record {
  process_full = λ r key value. (record r { out = write_out r.out value }, remove);
  process_empty = λ r key. (record r { status = set_code r.status Code.not_found_error }, noop);
}

-- `delim_.empty()`.
abbrev is_empty : Bytes → Bool
is_empty s = elim s [ [] ↦ true | _ ↦ false ]

-- Its string `new_value_` is empty when it is made, and is used once.
unfoldable pub append_processor : {S : Type 0} → Bytes → Bytes → Processor S
append_processor value delim = record {
  process_full =
      λ s key old. (s, put (if is_empty delim then old ++ value else old ++ (delim ++ value)));
  process_empty = λ s key. (s, put value);
}

-- `desired_.data() == nullptr ? other : desired_`.
abbrev pub desired_or : Action → Option Bytes → Action
desired_or other none = other
desired_or other (some v) = put v

-- `expected_.data() != nullptr && expected_ == value`.
abbrev pub is_expected : Option Bytes → Bytes → Bool
is_expected none value = false
is_expected (some e) value = eqb e value

abbrev is_null : Option Bytes → Bool
is_null none = true
is_null (some _) = false

unfoldable pub compare_exchange_processor : Option Bytes → Option Bytes → Processor Report
compare_exchange_processor expected desired = record {
  process_full = λ r key value.
      let r' : Report = record r { out = write_out r.out value } in
      if is_expected expected value
      then (r', desired_or remove desired)
      else (record r' { status = set_code r.status Code.infeasible_error }, noop);
  process_empty = λ r key.
      let r' : Report = record r { out = write_out r.out [] } in
      if is_null expected
      then (r', desired_or noop desired)
      else (record r' { status = set_code r.status Code.infeasible_error }, noop);
}

-- The state of the checkers and the setters is the flag `noop` that they share.
unfoldable pub checker_processor : Option Bytes → Processor Bool
checker_processor expected = record {
  process_full = λ flag key value. (if is_expected expected value then flag else true, noop);
  process_empty = λ flag key. (if is_null expected then flag else true, noop);
}

unfoldable pub setter_processor : Option Bytes → Processor Bool
setter_processor desired = record {
  process_full = λ flag key value. (flag, if flag then noop else desired_or remove desired);
  process_empty = λ flag key. (flag, if flag then noop else desired_or noop desired);
}

-- Numbers of 64 bits are bit patterns here; `INT64MIN` is this one.
abbrev pub int64_min : ℕ
int64_min = 2 ^ 63

abbrev pub add64 : ℕ → ℕ → ℕ
add64 a b = (a + b) % 2 ^ 64

-- The state is the target of the pointer `current`.
unfoldable pub increment_processor : ℕ → ℕ → Processor (Option ℕ)
increment_processor increment initial = record {
  process_full = λ current key value.
      if increment == int64_min
      then (write_out current (str_to_int_big_endian value), noop)
      else (let num : ℕ = add64 (str_to_int_big_endian value) increment in
          (write_out current num, put (int_to_str_big_endian num 8)));
  process_empty = λ current key.
      if increment == int64_min
      then (write_out current initial, noop)
      else (let num : ℕ = add64 initial increment in
          (write_out current num, put (int_to_str_big_endian num 8)));
}
