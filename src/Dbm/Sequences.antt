-- ===== src/Dbm/Sequences.antt =====
-- `SetMulti` and `RemoveMulti` of Dbm/Methods.antt: one change after the other.
use tkrzw.Dbm.Fits.{remove_fits, set_fits}
use tkrzw.Base.{
  Bytes, List, [], ◌∷◌, Option, none, some, Bool, true, false, ◌&&◌, if◌then◌else◌, ◌≡◌, arith,
  refl, ap, ◌∙◌, All,
}
use mathlib.Core.Path.{fun_ext}
use tkrzw.Status.{
  Status, Code, status_of, is_success, is_code, merge, success, duplication_error, not_found_error,
}
use tkrzw.Dbm.Processor.{Report, report_to, remove_processor, set_processor}
use tkrzw.Dbm.Interface.{Dbm, Map, update}
use tkrzw.Dbm.Methods.{set, remove, set_multi, remove_multi}
use tkrzw.Dbm.Laws.{remove_lem, set_lem, set_result, set_status}

abbrev pub is_some : Option Bytes → Bool
is_some none = false
is_some (some v) = true

-- The map without the keys.
abbrev pub remove_all : Map → List Bytes → Map
remove_all m [] = m
remove_all m (key ∷ rest) = remove_all (update m key none) rest

-- Each key is there when its turn comes.
abbrev pub all_found : Map → List Bytes → Bool
all_found m [] = true
all_found m (key ∷ rest) = is_some (m key) && all_found (update m key none) rest

-- The map with the records, and whether one was in the way of a `Set` without `overwrite`.
abbrev pub set_all : Map → List (Bytes × Bytes) → Bool → Map
set_all m [] overwrite = m
set_all m ((key, value) ∷ rest) overwrite =
    set_all (update m key (set_result overwrite value (m key))) rest overwrite

abbrev pub none_kept : Map → List (Bytes × Bytes) → Bool → Bool
none_kept m [] overwrite = true
none_kept m ((key, value) ∷ rest) overwrite =
    is_success (set_status overwrite (m key))
    && none_kept (update m key (set_result overwrite value (m key))) rest overwrite

-- The status that a loop has so far: a success, or its one tolerated error.
abbrev so_far : Bool → Code → Status
so_far true c = status_of success
so_far false c = status_of c

module _ {D : Type 0} (dbm : Dbm D) where
  abbrev pub RecordFits : Bytes × Bytes → Type 0
  RecordFits r = dbm.FitsKey r.0 × dbm.Fits r.0 r.1

  remove_keeps :
      (d : D) (key : Bytes)
      → dbm.IsValid d
      → dbm.Accepts d true
      → dbm.FitsKey key
      → dbm.IsValid (remove dbm d key none).db × dbm.Accepts (remove dbm d key none).db true
  unfolding remove
  remove_keeps d key v a f = (
    dbm.process-IsValid Report d key remove_processor (report_to none) true v f
        (remove_fits (dbm.Fits key) (report_to none) key (dbm.lookup d key)),
    dbm.process-Accepts Report d key remove_processor (report_to none) true true v a,
  )

  remove_multi_step :
      (d : D) (key : Bytes) (keys : List Bytes) (clean : Bool)
      → dbm.IsValid d
      → dbm.Accepts d true
      → dbm.FitsKey key
      → remove_multi dbm d (key ∷ keys) (so_far clean not_found_error)
        ≡ remove_multi dbm
            (remove dbm d key none).db
            keys
            (so_far (clean && is_some (dbm.lookup d key)) not_found_error)
  unfolding remove_multi merge is_code
  remove_multi_step d key keys clean v a f =
      let (st, _, _) = remove_lem dbm d key v f none a in ground (arith, st)

  remove_multi_from :
      (keys : List Bytes) (d : D) (clean : Bool)
      → dbm.IsValid d
      → dbm.Accepts d true
      → All dbm.FitsKey keys
      → ((remove_multi dbm d keys (so_far clean not_found_error)).0
          ≡ so_far (clean && all_found (dbm.lookup d) keys) not_found_error)
        × (dbm.lookup (remove_multi dbm d keys (so_far clean not_found_error)).1
            ≡ remove_all (dbm.lookup d) keys)
  remove_multi_from [] d clean v a fs =
      (unfold remove_multi in ground arith, unfold remove_multi in refl)
  remove_multi_from (key ∷ keys) d clean v a (f, fs) =
      let (valid, accepts) = remove_keeps d key v a f in
      let found = is_some (dbm.lookup d key) in
      let (st, after) =
        remove_multi_from keys (remove dbm d key none).db (clean && found) valid accepts fs in
      let changed : dbm.lookup (remove dbm d key none).db ≡ update (dbm.lookup d) key none =
        fun_ext (remove_lem dbm d key v f none a).2 in
      let tests : (p q r : Bool) → ((p && q) && r) ≡ (p && (q && r)) = λ p q r. ground arith in
      rw (remove_multi_step d key keys clean v a f) (
        st
            ∙ ap (λ m. so_far ((clean && found) && all_found m keys) not_found_error) changed
            ∙ ap (λ b. so_far b not_found_error)
                (tests clean found (all_found (update (dbm.lookup d) key none) keys)),
        after ∙ ap (λ m. remove_all m keys) changed,
      )

  -- `RemoveMulti` removes every listed key, also behind a missing one; it answers SUCCESS exactly if
  -- each key was there at its turn, and NOT_FOUND_ERROR if not.
  pub remove_multi_lem :
      (d : D) (keys : List Bytes)
      → dbm.IsValid d
      → dbm.Accepts d true
      → All dbm.FitsKey keys
      → ((remove_multi dbm d keys (status_of success)).0 ≡ (
          if all_found (dbm.lookup d) keys then status_of success else status_of not_found_error))
        × ((j : Bytes)
            → dbm.lookup (remove_multi dbm d keys (status_of success)).1 j
              ≡ remove_all (dbm.lookup d) keys j)
  remove_multi_lem d keys v a fs =
      let (st, after) = remove_multi_from keys d true v a fs in
      (st ∙ ground arith, λ j. ap (λ (m : Map). m j) after)

  set_keeps :
      (d : D) (key value : Bytes) (overwrite : Bool)
      → dbm.IsValid d
      → dbm.Accepts d true
      → RecordFits (key, value)
      → dbm.IsValid (set dbm d key value overwrite none).db
        × dbm.Accepts (set dbm d key value overwrite none).db true
  unfolding set
  set_keeps d key value overwrite v a f =
      let p = set_processor value overwrite in
      (
        dbm.process-IsValid Report d key p (report_to none) true v f.0
            (set_fits (dbm.Fits key) value overwrite (report_to none) key (dbm.lookup d key) f.1),
        dbm.process-Accepts Report d key p (report_to none) true true v a,
      )

  set_multi_step :
      (d : D) (key value : Bytes) (rest : List (Bytes × Bytes)) (overwrite clean : Bool)
      → dbm.IsValid d
      → dbm.Accepts d true
      → RecordFits (key, value)
      → set_multi dbm d ((key, value) ∷ rest) overwrite (so_far clean duplication_error)
        ≡ set_multi dbm (set dbm d key value overwrite none).db rest overwrite (
            so_far
              (clean && is_success (set_status overwrite (dbm.lookup d key)))
              duplication_error)
  unfolding set_multi merge is_code
  set_multi_step d key value rest overwrite clean v a f =
      let (st, _, _) = set_lem dbm d key v f.0 value overwrite none a f.1 in ground (arith, st)

  set_multi_from :
      (records : List (Bytes × Bytes)) (d : D) (overwrite clean : Bool)
      → dbm.IsValid d
      → dbm.Accepts d true
      → All RecordFits records
      → ((set_multi dbm d records overwrite (so_far clean duplication_error)).0
          ≡ so_far (clean && none_kept (dbm.lookup d) records overwrite) duplication_error)
        × (dbm.lookup (set_multi dbm d records overwrite (so_far clean duplication_error)).1
            ≡ set_all (dbm.lookup d) records overwrite)
  set_multi_from [] d overwrite clean v a fs =
      (unfold set_multi in ground arith, unfold set_multi in refl)
  set_multi_from ((key, value) ∷ rest) d overwrite clean v a (f, fs) =
      let (valid, accepts) = set_keeps d key value overwrite v a f in
      let d' = (set dbm d key value overwrite none).db in
      let free = is_success (set_status overwrite (dbm.lookup d key)) in
      let (st, after) = set_multi_from rest d' overwrite (clean && free) valid accepts fs in
      let m' = update (dbm.lookup d) key (set_result overwrite value (dbm.lookup d key)) in
      let changed : dbm.lookup d' ≡ m' =
        fun_ext (set_lem dbm d key v f.0 value overwrite none a f.1).2 in
      let tests : (p q r : Bool) → ((p && q) && r) ≡ (p && (q && r)) = λ p q r. ground arith in
      rw (set_multi_step d key value rest overwrite clean v a f) (
        st
            ∙ ap (λ m. so_far ((clean && free) && none_kept m rest overwrite) duplication_error)
                changed
            ∙ ap (λ b. so_far b duplication_error) (tests clean free (none_kept m' rest overwrite)),
        after ∙ ap (λ m. set_all m rest overwrite) changed,
      )

  -- `SetMulti` goes through all records: each is stored unless it is there and `overwrite` is not set.
  -- It answers SUCCESS exactly if none was kept back, and DUPLICATION_ERROR if one was.
  pub set_multi_lem :
      (d : D) (records : List (Bytes × Bytes)) (overwrite : Bool)
      → dbm.IsValid d
      → dbm.Accepts d true
      → All RecordFits records
      → ((set_multi dbm d records overwrite (status_of success)).0 ≡ (
          if none_kept (dbm.lookup d) records overwrite
          then status_of success
          else status_of duplication_error))
        × ((j : Bytes)
            → dbm.lookup (set_multi dbm d records overwrite (status_of success)).1 j
              ≡ set_all (dbm.lookup d) records overwrite j)
  set_multi_lem d records overwrite v a fs =
      let (st, after) = set_multi_from records d overwrite true v a fs in
      (st ∙ ground arith, λ j. ap (λ (m : Map). m j) after)
