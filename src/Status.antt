-- ===== src/Status.antt =====
-- `Status` of tkrzw_lib_common.h: a code with an optional message.
use tkrzw.Base.{ℕ, ◌==◌, Bytes, Bool, true, false, ◌&&◌, if◌then◌else◌, Option, none, not}

pub data Code : Type 0 where
  success unknown_error system_error not_implemented_error precondition_error : Code
  invalid_argument_error canceled_error not_found_error permission_error : Code
  infeasible_error duplication_error broken_data_error network_error application_error : Code

-- The enumerators' values.
unfoldable pub code_number : Code → ℕ
code_number success = 0
code_number unknown_error = 1
code_number system_error = 2
code_number not_implemented_error = 3
code_number precondition_error = 4
code_number invalid_argument_error = 5
code_number canceled_error = 6
code_number not_found_error = 7
code_number permission_error = 8
code_number infeasible_error = 9
code_number duplication_error = 10
code_number broken_data_error = 11
code_number network_error = 12
code_number application_error = 13

pub record Status : Type 0 where
  pub code : Code
  pub message : Option Bytes

-- `Status(code)`.
abbrev pub status_of : Code → Status
status_of c = record { code = c; message = none }

-- `status == Status::SUCCESS`, which compares codes.
abbrev pub is_success : Status → Bool
is_success s = elim (s.code) [ success ↦ true | _ ↦ false ]

-- `status == c` for another code.
unfoldable pub is_code : Code → Status → Bool
unfolding code_number
is_code c s = code_number s.code == code_number c

-- `Status::operator |=`: an error is kept, and a success takes the other status over.
unfoldable pub merge : Status → Status → Status
merge s rhs = if is_success s && not (is_success rhs) then rhs else s

-- `Status::Set(code)` drops the message.
abbrev pub set_code : Status → Code → Status
set_code s c = status_of c
