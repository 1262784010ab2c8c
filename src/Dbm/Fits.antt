-- ===== src/Dbm/Fits.antt =====
-- The values that the processors of Dbm/Processor.antt store, measured by what a database can hold.
use tkrzw.Base.{ℕ, Bytes, [], ◌∷◌, ◌++◌, Option, none, some, Bool, true, false, if◌then◌else◌}
use tkrzw.Dbm.Processor.{
  Action, noop, remove, Report, get_processor, set_processor, remove_processor, append_processor,
  compare_exchange_processor, increment_processor, desired_or, checker_processor, setter_processor,
}
use tkrzw.Dbm.Interface.{call, ActionFits}
use tkrzw.Codec.FixNum.{int_to_str_big_endian}

-- The record after `Append`: the delimiter stands between the old value and the new part.
abbrev pub append_result : Bytes → Bytes → Option Bytes → Bytes
append_result value delim none = value
append_result value delim (some old) = old ++ (delim ++ value)

abbrev pub ValueFits : (Bytes → Type 0) → Option Bytes → Type 0
ValueFits Fits none = Unit {0}
ValueFits Fits (some v) = Fits v

-- What each processor stores fits.
module _ (Fits : Bytes → Type 0) where
  pub get_fits :
      (r : Report) (key : Bytes) (old : Option Bytes)
      → ActionFits Fits (call get_processor r key old).1
  unfolding get_processor
  get_fits r key none = tt
  get_fits r key (some v) = tt

  pub remove_fits :
      (r : Report) (key : Bytes) (old : Option Bytes)
      → ActionFits Fits (call remove_processor r key old).1
  unfolding remove_processor
  remove_fits r key none = tt
  remove_fits r key (some v) = tt

  pub set_fits :
      (value : Bytes) (overwrite : Bool) (r : Report) (key : Bytes) (old : Option Bytes)
      → Fits value
      → ActionFits Fits (call (set_processor value overwrite) r key old).1
  unfolding set_processor
  set_fits value overwrite r key none f = f
  set_fits value true r key (some v) f = f
  set_fits value false r key (some v) f = tt

  pub append_fits :
      (value delim key : Bytes) (old : Option Bytes)
      → Fits (append_result value delim old)
      → ActionFits Fits (call (append_processor {S = Unit {0}} value delim) tt key old).1
  unfolding append_processor
  append_fits value delim key none f = f
  append_fits value [] key (some v) f = f
  append_fits value (c ∷ delim) key (some v) f = f

  if_fits :
      {S : Type 0} (test : Bool) (x y : S × Action)
      → ActionFits Fits x.1
      → ActionFits Fits y.1
      → ActionFits Fits (if test then x else y).1
  if_fits true x y f g = f
  if_fits false x y f g = g

  pub desired_fits :
      (other : Action) (desired : Option Bytes)
      → ValueFits Fits desired
      → ActionFits Fits other
      → ActionFits Fits (desired_or other desired)
  desired_fits other none f g = g
  desired_fits other (some v) f g = f

  pub compare_exchange_fits :
      (expected desired : Option Bytes) (r : Report) (key : Bytes) (old : Option Bytes)
      → ValueFits Fits desired
      → ActionFits Fits (call (compare_exchange_processor expected desired) r key old).1
  unfolding compare_exchange_processor
  compare_exchange_fits expected desired r key none f =
      search (if_fits, desired_fits noop desired f tt, tt)
  compare_exchange_fits expected desired r key (some v) f =
      search (if_fits, desired_fits remove desired f tt, tt)

  pub increment_fits :
      (inc initial : ℕ) (current : Option ℕ) (key : Bytes) (old : Option Bytes)
      → ((n : ℕ) → Fits (int_to_str_big_endian n 8))
      → ActionFits Fits (call (increment_processor inc initial) current key old).1
  unfolding increment_processor
  increment_fits inc initial current key none f = search (if_fits, f, tt)
  increment_fits inc initial current key (some v) f = search (if_fits, f, tt)

  pub checker_fits :
      (expected : Option Bytes) (flag : Bool) (key : Bytes) (old : Option Bytes)
      → ActionFits Fits (call (checker_processor expected) flag key old).1
  unfolding checker_processor
  checker_fits expected flag key none = tt
  checker_fits expected flag key (some v) = tt

  pub setter_fits :
      (desired : Option Bytes) (flag : Bool) (key : Bytes) (old : Option Bytes)
      → ValueFits Fits desired
      → ActionFits Fits (call (setter_processor desired) flag key old).1
  unfolding setter_processor
  setter_fits desired true key none f = tt
  setter_fits desired true key (some v) f = tt
  setter_fits desired false key none f = desired_fits noop desired f tt
  setter_fits desired false key (some v) f = desired_fits remove desired f tt
