-- ===== src/Dbm/Interface.antt =====
-- What the virtual methods `Process` and `ProcessMulti` of `DBM` (tkrzw_dbm.h) promise, as a record
-- of operations and laws over the map that the database stands for. `TinyDBM` fills it.
use tkrzw.Base.{
  Bytes, List, [], ◌∷◌, Option, none, some, Bool, true, false, eqb, if◌then◌else◌, ◌≡◌, length, ◌≤◌,
}
use tkrzw.Status.{Status, is_success}
use tkrzw.Dbm.Processor.{Action, noop, remove, put, Processor}

-- The abstract view of a database.
abbrev pub Map : Type 0
Map = Bytes → Option Bytes

abbrev pub update : Map → Bytes → Option Bytes → Map
update m key v j = if eqb key j then v else m j

-- The call that a record, or its absence, leads to.
abbrev pub call : {S : Type 0} → Processor S → S → Bytes → Option Bytes → S × Action
call p s key none = p.process_empty s key
call p s key (some v) = p.process_full s key v

-- What becomes of the record.
abbrev pub apply_action : Bool → Action → Option Bytes → Option Bytes
apply_action false a old = old
apply_action true noop old = old
apply_action true remove old = none
apply_action true (put v) old = some v

abbrev pub after_call : {S : Type 0} → Processor S → S → Bytes → Bool → Map → Map
after_call p s key writable m =
    update m key (apply_action writable (call p s key (m key)).1 (m key))

-- Processors that share a state, called one after the other.
abbrev pub call_all : {S : Type 0} → List (Bytes × Processor S) → S → Bool → Map → S × Map
call_all [] s writable m = (s, m)
call_all ((key, p) ∷ rest) s writable m =
    call_all rest (call p s key (m key)).0 writable (after_call p s key writable m)

-- A status, the database and the state of the processor after a method.
pub record Done (D S : Type 0) : Type 0 where
  pub status : Status
  pub db : D
  pub state : S

-- The value that an action stores is one that the database can hold.
abbrev pub ActionFits : (Bytes → Type 0) → Action → Type 0
ActionFits Fits noop = Unit {0}
ActionFits Fits remove = Unit {0}
ActionFits Fits (put v) = Fits v

abbrev pub CallsFit :
    {S : Type 0}
    → (Bytes → Type 0)
    → (Bytes → Bytes → Type 0)
    → List (Bytes × Processor S)
    → S
    → Bool
    → Map
    → Type 0
CallsFit FitsKey Fits [] s writable m = Unit {0}
CallsFit FitsKey Fits ((key, p) ∷ rest) s writable m =
    FitsKey key
    × ActionFits (Fits key) (call p s key (m key)).1
    × CallsFit FitsKey Fits rest (call p s key (m key)).0 writable (after_call p s key writable m)

pub record Dbm (D : Type 0) : Type 1 where
  pub IsValid : D → Type 0
  -- What the database must be for its methods to succeed, such as open and writable.
  pub Accepts : D → Bool → Type 0
  -- The keys, and the keys with their values, that the database can hold, by their sizes.
  pub FitsKey : Bytes → Type 0
  pub Fits : Bytes → Bytes → Type 0
  pub lookup : D → Map
  pub process : (S : Type 0) → D → Bytes → Processor S → S → Bool → Done D S
  pub process_multi : (S : Type 0) → D → List (Bytes × Processor S) → S → Bool → Done D S
  pub fits_int64 : (key v : Bytes) → FitsKey key → length v ≤ 8 → Fits key v
  pub process-success :
      (S : Type 0) (d : D) (key : Bytes) (p : Processor S) (s : S) (writable : Bool)
      → IsValid d
      → Accepts d writable
      → is_success (process S d key p s writable).status ≡ true
  pub process-IsValid :
      (S : Type 0) (d : D) (key : Bytes) (p : Processor S) (s : S) (writable : Bool)
      → IsValid d
      → FitsKey key
      → ActionFits (Fits key) (call p s key (lookup d key)).1
      → IsValid (process S d key p s writable).db
  pub process-Accepts :
      (S : Type 0) (d : D) (key : Bytes) (p : Processor S) (s : S) (writable w : Bool)
      → IsValid d
      → Accepts d w
      → Accepts (process S d key p s writable).db w
  pub process-state :
      (S : Type 0) (d : D) (key : Bytes) (p : Processor S) (s : S) (writable : Bool)
      → IsValid d
      → Accepts d writable
      → (process S d key p s writable).state ≡ (call p s key (lookup d key)).0
  pub lookup-process :
      (S : Type 0) (d : D) (key : Bytes) (p : Processor S) (s : S) (writable : Bool)
      → IsValid d
      → Accepts d writable
      → FitsKey key
      → ActionFits (Fits key) (call p s key (lookup d key)).1
      → (j : Bytes)
      → lookup (process S d key p s writable).db j ≡ after_call p s key writable (lookup d) j
  pub process_multi-success :
      (S : Type 0) (d : D) (pairs : List (Bytes × Processor S)) (s : S) (writable : Bool)
      → IsValid d
      → Accepts d writable
      → is_success (process_multi S d pairs s writable).status ≡ true
  pub process_multi-IsValid :
      (S : Type 0) (d : D) (pairs : List (Bytes × Processor S)) (s : S) (writable : Bool)
      → IsValid d
      → CallsFit FitsKey Fits pairs s writable (lookup d)
      → IsValid (process_multi S d pairs s writable).db
  pub process_multi-call_all :
      (S : Type 0) (d : D) (pairs : List (Bytes × Processor S)) (s : S) (writable : Bool)
      → IsValid d
      → Accepts d writable
      → CallsFit FitsKey Fits pairs s writable (lookup d)
      → ((process_multi S d pairs s writable).state ≡ (call_all pairs s writable (lookup d)).0)
        × ((j : Bytes)
            → lookup (process_multi S d pairs s writable).db j
              ≡ (call_all pairs s writable (lookup d)).1 j)
