-- ===== src/Dbm/Multi.antt =====
-- The methods on several records of Dbm/Methods.antt, on the map that a database stands for.
use tkrzw.Dbm.Fits.{ValueFits, checker_fits, setter_fits}
use tkrzw.Base.{
  Bytes, List, [], ◌∷◌, ◌++◌, Option, Bool, true, false, not, ◌||◌, ◌&&◌, eqb_iff, if◌then◌else◌,
  ◌≡◌, arith, Bool-cases, inl, inr, refl, ap, ◌∙◌, ap₂, All,
}
use mathlib.Core.Path.{fun_ext}
use tkrzw.Status.{status_of, success, infeasible_error}
use tkrzw.Dbm.Processor.{Processor, checker_processor, setter_processor}
use tkrzw.Dbm.Interface.{Dbm, Map, update, call_all, call, apply_action, CallsFit}
use tkrzw.Dbm.Methods.{checkers, setters, compare_exchange_multi}
use tkrzw.Dbm.Laws.{as_expected}

-- Every listed record is as expected.
abbrev pub all_expected : Map → List (Bytes × Option Bytes) → Bool
all_expected m [] = true
all_expected m ((key, e) ∷ rest) = as_expected e (m key) && all_expected m rest

-- The listed changes, one after the other.
abbrev pub update_all : Map → List (Bytes × Option Bytes) → Map
update_all m [] = m
update_all m ((key, v) ∷ rest) = update_all (update m key v) rest

update_self : (m : Map) (key : Bytes) → update m key (m key) ≡ m
update_self m key = fun_ext (λ j. ground (arith, eqb_iff key j))

call_all-append :
    {S : Type 0} (xs ys : List (Bytes × Processor S)) (s : S) (w : Bool) (m : Map)
    → call_all (xs ++ ys) s w m ≡ call_all ys (call_all xs s w m).0 w (call_all xs s w m).1
call_all-append [] ys s w m = refl
call_all-append ((key, p) ∷ xs) ys s w m = call_all-append xs ys _ w _

call_all_step :
    {S : Type 0} (p : Processor S) (rest : List (Bytes × Processor S)) (s : S) (key : Bytes)
    (m : Map) (a : S) (b : Option Bytes)
    → (call p s key (m key)).0 ≡ a
    → apply_action true (call p s key (m key)).1 (m key) ≡ b
    → call_all ((key, p) ∷ rest) s true m ≡ call_all rest a true (update m key b)
call_all_step p rest s key m a b e f = ap₂ (λ a' b'. call_all rest a' true (update m key b')) e f

checker_call :
    (e : Option Bytes) (flag : Bool) (key : Bytes) (old : Option Bytes)
    → ((call (checker_processor e) flag key old).0 ≡ (flag || not (as_expected e old)))
      × (apply_action true (call (checker_processor e) flag key old).1 old ≡ old)
unfolding checker_processor
checker_call e flag key old = ground arith

setter_call :
    (v : Option Bytes) (flag : Bool) (key : Bytes) (old : Option Bytes)
    → ((call (setter_processor v) flag key old).0 ≡ flag)
      × (apply_action true (call (setter_processor v) flag key old).1 old
          ≡ (if flag then old else v))
unfolding setter_processor
setter_call v flag key old = ground arith

checkers_lem :
    (xs : List (Bytes × Option Bytes)) (flag : Bool) (m : Map)
    → call_all (checkers xs) flag true m ≡ (flag || not (all_expected m xs), m)
unfolding checkers
checkers_lem [] flag m = ground arith
checkers_lem ((key, e) ∷ xs) flag m =
    let (state, kept) = checker_call e flag key (m key) in
    call_all_step (checker_processor e) (checkers xs) flag key m _ _ state kept
    ∙ ap (λ m'. call_all (checkers xs) (flag || not (as_expected e (m key))) true m')
        (update_self m key)
    ∙ checkers_lem xs (flag || not (as_expected e (m key))) m
    ∙ ap (λ b. (b, m)) (both_tests flag (as_expected e (m key)) (all_expected m xs))
  where
    both_tests : (a b c : Bool) → (a || not b || not c) ≡ (a || not (b && c))
    both_tests a b c = ground arith

setters_keep :
    (xs : List (Bytes × Option Bytes)) (m : Map) → call_all (setters xs) true true m ≡ (true, m)
unfolding setters
setters_keep [] m = refl
setters_keep ((key, v) ∷ xs) m =
    let (state, kept) = setter_call v true key (m key) in
    call_all_step (setter_processor v) (setters xs) true key m _ _ state kept
    ∙ ap (λ m'. call_all (setters xs) true true m') (update_self m key)
    ∙ setters_keep xs m

setters_lem :
    (xs : List (Bytes × Option Bytes)) (m : Map)
    → call_all (setters xs) false true m ≡ (false, update_all m xs)
unfolding setters
setters_lem [] m = refl
setters_lem ((key, v) ∷ xs) m =
    let (state, changed) = setter_call v false key (m key) in
    call_all_step (setter_processor v) (setters xs) false key m _ _ state changed
    ∙ setters_lem xs (update m key v)

-- The checkers and then the setters, on the map.
exchange_calls :
    (expected desired : List (Bytes × Option Bytes)) (m : Map)
    → call_all (checkers expected ++ setters desired) false true m
      ≡ (if all_expected m expected then (false, update_all m desired) else (true, m))
exchange_calls expected desired m =
    call_all-append (checkers expected) (setters desired) false true m
    ∙ ap (λ r. call_all (setters desired) r.0 true r.1) (checkers_lem expected false m)
    ∙ elim (Bool-cases (all_expected m expected)) [
      | inl e ↦ rw e (setters_lem desired m)
      | inr e ↦ rw e (setters_keep desired m)
    ]

abbrev pub PairFits : (Bytes → Type 0) → (Bytes → Bytes → Type 0) → Bytes × Option Bytes → Type 0
PairFits FitsKey Fits pair = FitsKey pair.0 × ValueFits (Fits pair.0) pair.1

setters_fit :
    (FitsKey : Bytes → Type 0) (Fits : Bytes → Bytes → Type 0) (xs : List (Bytes × Option Bytes))
    (flag : Bool) (m : Map)
    → All (PairFits FitsKey Fits) xs
    → CallsFit FitsKey Fits (setters xs) flag true m
unfolding setters
setters_fit FitsKey Fits [] flag m fs = tt
setters_fit FitsKey Fits ((key, v) ∷ xs) flag m (f, fs) =
    (f.0, setter_fits (Fits key) v flag key (m key) f.1, setters_fit FitsKey Fits xs _ _ fs)

calls_fit :
    (FitsKey : Bytes → Type 0) (Fits : Bytes → Bytes → Type 0) (es xs : List (Bytes × Option Bytes))
    (flag : Bool) (m : Map)
    → All (λ e. FitsKey e.0) es
    → All (PairFits FitsKey Fits) xs
    → CallsFit FitsKey Fits (checkers es ++ setters xs) flag true m
unfolding checkers
calls_fit FitsKey Fits [] xs flag m gs fs = setters_fit FitsKey Fits xs flag m fs
calls_fit FitsKey Fits ((key, e) ∷ es) xs flag m (g, gs) fs =
    (g, checker_fits (Fits key) e flag key (m key), calls_fit FitsKey Fits es xs _ _ gs fs)

module _ {D : Type 0} (dbm : Dbm D) where
  -- `CompareExchangeMulti` makes all of the changes, in order, exactly when every record is as
  -- expected; else it answers INFEASIBLE_ERROR and no record changes.
  pub compare_exchange_multi_lem :
      (d : D) (expected desired : List (Bytes × Option Bytes))
      → dbm.IsValid d
      → dbm.Accepts d true
      → All (λ e. dbm.FitsKey e.0) expected
      → All (PairFits dbm.FitsKey dbm.Fits) desired
      → ((compare_exchange_multi dbm d expected desired).0 ≡ (
          if all_expected (dbm.lookup d) expected
          then status_of success
          else status_of infeasible_error))
        × ((j : Bytes)
            → dbm.lookup (compare_exchange_multi dbm d expected desired).1 j ≡ (
                if all_expected (dbm.lookup d) expected
                then update_all (dbm.lookup d) desired j
                else dbm.lookup d j))
  unfolding compare_exchange_multi
  compare_exchange_multi_lem d expected desired v a gs fs =
      let pairs = checkers expected ++ setters desired in
      let ok = dbm.process_multi-success Bool d pairs false true v a in
      let (state, view) =
        dbm.process_multi-call_all Bool d pairs false true v a
          (calls_fit dbm.FitsKey dbm.Fits expected desired false (dbm.lookup d) gs fs) in
      let calls = exchange_calls expected desired (dbm.lookup d) in
      let flag = state ∙ ap (λ r. r.0) calls in
      let map_after = λ (j : Bytes). view j ∙ ap (λ r. r.1 j) calls in
      elim (Bool-cases (all_expected (dbm.lookup d) expected)) [
        | inl e ↦
            (rw e (ground (arith, ok, flag, e)), λ j. rw e (ground (arith, ok, map_after j, e)))
        | inr e ↦
            (rw e (ground (arith, ok, flag, e)), λ j. rw e (ground (arith, ok, map_after j, e)))
      ]
