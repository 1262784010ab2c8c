-- ===== src/HashDbm/AppendingProcess.antt =====
-- `HashDBMImpl::ProcessImpl` and `Process` (tkrzw_dbm_hash.cc) on a database in appending mode, against the
-- map that the bytes of the file stand for.
use mathlib.Core.Path.{subst}
use native.Mathlib.Nat.{mod-eq_of_lt, one-le-mul, zero-mul, le-mul_of_pos_right}
use tkrzw.Base.{
  ℕ, zero, suc, ◌*◌, ◌^◌, ◌≤◌, ◌<◌, ◌≡◌, ◌==◌, ◌⊎◌, inl, inr, refl, ap, ap₂, ◌∙◌, sym, arith, Bytes,
  List, if◌then◌else◌, Option, none, some, Bool, true, false, length, eqb, eqb_iff, Bool-cases,
  Option-cases, ok,
}
use tkrzw.Hash.{primary_hash, primary_hash-lt}
use tkrzw.Status.{status_of, precondition_error}
use tkrzw.Dbm.Processor.{Processor}
use tkrzw.Dbm.Interface.{Map, update, call, apply_action, after_call}
use tkrzw.Flat.File.{File, FileLaws}
use tkrzw.HashDbm.Record.{HashRecord, or_empty}
use tkrzw.HashDbm.Layout.{two_pow-pos}
use tkrzw.HashDbm.Header.{whole_size-padding}
use tkrzw.HashDbm.Reading.{read_body-loaded}
use tkrzw.HashDbm.Table.{
  HashDbm, Run, get_bucket_value, walk, absent, seen_value, call_record_process_full,
  call_record_process_empty,
}
use tkrzw.HashDbm.Update.{change_record, count_change, with_value, stored_as}
use tkrzw.HashDbm.Process.{
  Processed, act_on, process_found, process_absent, add_given, process_impl, process, bucket_of,
  holds_value, is_refused, refused,
}
use tkrzw.HashDbm.Chain.{
  Entry, Located, locate, lookup_in, Stands, Chain, Chain-inside, length-Chain,
}
use tkrzw.HashDbm.Walk.{seen, EndsAt, walk-locate}
use tkrzw.HashDbm.Locate.{locate-none, locate-some, rest_slot, rest_of, Chain-rest_of}
use tkrzw.HashDbm.Buckets.{base, place, slot_at, place-base, record_base-ge}
use tkrzw.HashDbm.Append.{IsSteady, with_record, change_record_lem, add_record_lem}
use tkrzw.HashDbm.Stepped.{HasRoom, with_value-IsTable}
use tkrzw.HashDbm.Appending.{
  ActionFits, IsAppending, Succeeds, Steps, Steps-count_change, IsAppending-shows, act_on_lem,
}

-- An offset is 0 only for the place 0.
product_test : (x u : ℕ) → 0 < u → (x * u == 0) ≡ (x == 0)
product_test zero u h = let e : zero * u ≡ 0 = zero-mul u in rw e refl
product_test (suc x) u h =
    let p : 1 ≤ suc x * u = one-le-mul (omega arith) (omega arith) in ground arith

module _ {F : Type 0} (file : File F) (laws : FileLaws file) where
  -- The database with its mode and its lack of a compressor written out.
  module _ (db' : HashDbm F) (m : Map) where
    abbrev db : HashDbm F
    db = record db' { in_place = false; compressor = none }

    abbrev contents : Bytes
    contents = laws.contents db.file

    abbrev unit : ℕ
    unit = 2 ^ db.format.align_pow

    module _ (v : IsAppending file laws db m) (key : Bytes) (steady : IsSteady file) where
      abbrev b : ℕ
      b = primary_hash key db.num_buckets

      abbrev top : ℕ
      top = slot_at db.format db.num_buckets contents b

      abbrev chain : List Entry
      chain = v.table.chains b

      b-lt : b < db.num_buckets
      b-lt = primary_hash-lt key db.num_buckets v.table.positive

      linked_here : Chain db.format (base db.format db.num_buckets) contents top chain
      linked_here = v.table.linked b b-lt

      file_pos : 1 ≤ length contents
      file_pos = omega (arith, v.table.sized, record_base-ge db.format db.num_buckets)

      get_bucket_value_lem : get_bucket_value file db b ≡ ok (top * unit)
      unfolding get_bucket_value
      get_bucket_value_lem =
          let fmt = db.format in
          let got =
            laws.read_inside db.file (place fmt db.num_buckets b) fmt.offset_width
              (omega (arith, place-base fmt db.num_buckets b b-lt, v.table.sized)) in
          let low : top * unit < 2 ^ 64 = omega (
            arith,
            v.table.small,
            Chain-inside fmt (base fmt db.num_buckets) contents top chain linked_here file_pos,
          ) in
          rw (get_bucket_value, got) (ap ok (mod-eq_of_lt low))

      -- A new record in front of a chain that says the same of the other keys.
      Steps-with_record :
          (is_set : Bool) (change : Option Bytes) (child : ℕ) (es : List Entry) (old_size : ℕ)
          → Chain db.format (base db.format db.num_buckets) contents child es
          → ((j : Bytes) → eqb key j ≡ false → lookup_in es j ≡ lookup_in chain j)
          → HasRoom db.format contents key (or_empty change)
          → Steps file laws
              (count_change is_set (length key) old_size change (
                with_record file laws steady db b key
                  (with_value db.format (stored_as is_set) 0 key change (child * unit))))
              (update m key change)
      Steps-with_record is_set change child es old_size tail says room =
          let rec = with_value db.format (stored_as is_set) 0 key change (child * unit) in
          Steps-count_change file laws is_set (length key) old_size change
            (with_record file laws steady db b key rec) (update m key change)
            (record {
              table =
                  with_value-IsTable db.format db.num_buckets contents m v.table key child es tail
                    (λ j k h.
                      says j k
                      ∙ ap (λ i. lookup_in (v.table.chains i) j) (sym h)
                      ∙ sym (v.table.shows j))
                    file laws steady db.file refl is_set change room;
              appending = refl;
              plain = refl;
              least = v.least;
            })

      module _ {S : Type 0} (p : Processor S) (s : S) (writable : Bool)
          (fits : ActionFits db.format contents key writable (call p s key (m key)).1) where
        abbrev Done : Processed F S → Type 0
        Done r = Succeeds file laws r (call p s key (m key)).0 (after_call p s key writable m)

        -- The answer to a call with the value that the map has.
        answered :
            (o : Option Bytes) (step : Option Bytes → Run F (Unit {0}))
            → m key ≡ o
            → ((change : Option Bytes)
                → HasRoom db.format contents key (or_empty change)
                → Steps file laws (step change db) (update m key change))
            → Done (act_on writable step db ((call p s key o).0, some (call p s key o).1))
        answered o step e h =
            subst
              (λ a.
                Succeeds file laws
                  (act_on writable step db ((call p s key o).0, some (call p s key o).1))
                  (call p s key a).0
                  (update m key (apply_action writable (call p s key a).1 (m key))))
              (sym e)
              (act_on_lem file laws writable step db (call p s key o).0 (call p s key o).1 key m v
                (subst (λ a. ActionFits db.format contents key writable (call p s key a).1) e fits)
                h)

        add_given-Steps :
            m key ≡ none
            → (change : Option Bytes) → HasRoom db.format contents key (or_empty change)
            → Steps file laws (add_given file p key b (top * unit) change db) (update m key change)
        add_given-Steps e none room = (
          refl,
          IsAppending-shows file laws db m (update m key none) v (λ j.
              elim (Bool-cases (eqb key j)) [
                | inl k ↦ rw k (sym e ∙ ap m ((eqb_iff key j).0 k))
                | inr k ↦ rw k refl
              ]),
        )
        add_given-Steps e (some w) room =
            rw (add_record_lem file laws steady db b key (top * unit) w)
              (Steps-with_record false (some w) top chain 0 linked_here (λ j k. refl) room)

        -- No record was found.
        process_absent-Done :
            locate key 0 top chain ≡ none
            → Done (process_absent file p key b db s writable (top * unit))
        unfolding process_absent call_record_process_empty
        process_absent-Done e =
            let nothing = v.table.shows key ∙ locate-none key 0 top chain e in
            answered none (add_given file p key b (top * unit)) nothing (add_given-Steps nothing)

        module _ (l : Located) (at : locate key 0 top chain ≡ some l)
            (stands : Stands db.format
              (base db.format db.num_buckets)
              contents
              l.slot
              l.entry) where
          abbrev rec_of : Option Bytes → HashRecord
          rec_of o =
              seen file db key true laws (base db.format db.num_buckets) l.slot l.entry stands o

          -- The record takes up some bytes.
          rec_of-pos : (o : Option Bytes) → 1 ≤ (rec_of o).whole_size
          rec_of-pos o = omega (
            arith,
            whole_size-padding db.format l.entry.operation l.entry.ideal l.entry.key l.entry.value
                l.entry.child stands.storable,
          )

          parent_test : (l.parent * unit == 0) ≡ (l.parent == 0)
          parent_test = product_test l.parent unit (two_pow-pos db.format.align_pow)

          -- The child of the record that takes the place of the old one.
          child_test :
              (if l.parent * unit == 0 then l.entry.child * unit else top * unit)
              ≡ rest_slot l top * unit
          child_test =
              ap (λ t. if t then l.entry.child * unit else top * unit) parent_test
              ∙ elim (Bool-cases (l.parent == 0)) [ inl h ↦ rw h refl | inr h ↦ rw h refl ]

          change_record-Steps :
              (o : Option Bytes) (is_set : Bool) (current : ℕ) (change : Option Bytes)
              → HasRoom db.format contents key (or_empty change)
              → Steps file laws
                  (change_record file b key is_set
                    (rec_of o)
                    (top * unit)
                    (l.parent * unit)
                    current
                    change
                    db)
                  (update m key change)
          change_record-Steps o is_set current change room =
              let (tail, says) =
                Chain-rest_of db.format (base db.format db.num_buckets) contents key top chain l
                  linked_here at in
              rw
                (
                  change_record_lem file laws steady db b key is_set (rec_of o) (top * unit)
                      (l.parent * unit) current change (rec_of-pos o),
                  child_test,
                )
                (Steps-with_record is_set change (rest_slot l top) (rest_of l chain)
                  (rec_of o).value_size tail says room)

          seen_value_lem :
              (o : Option Bytes)
              → (o ≡ none) ⊎ (o ≡ some l.entry.value)
              → seen_value file db true (rec_of o) ≡ ok (some l.entry.value)
          unfolding seen_value
          seen_value_lem o (inl e) =
              let read =
                read_body-loaded db.format l.entry.operation l.entry.ideal l.entry.key l.entry.value
                  l.entry.child stands.storable file laws db.file (l.slot * unit) stands.rest
                  (omega (arith, stands.inside)) stands.bytes in
              subst (λ x. seen_value file db true (rec_of x) ≡ ok (some l.entry.value)) (sym e)
                (rw (seen_value, read) refl)
          seen_value_lem o (inr e) =
              subst (λ x. seen_value file db true (rec_of x) ≡ ok (some l.entry.value)) (sym e) refl

          process_found-Done :
              (o : Option Bytes) (current : ℕ)
              → (o ≡ none) ⊎ (o ≡ some l.entry.value)
              → Done (
                  process_found file p key b db s true writable
                    (top * unit)
                    (rec_of o)
                    current
                    (l.parent * unit))
          unfolding process_found call_record_process_full call_record_process_empty
          process_found-Done o current loaded_value =
              let says = v.table.shows key ∙ (locate-some key 0 top chain l at).0 in
              let step : Bool → Option Bytes → Run F (Unit {0}) = λ is_set.
                change_record file b key is_set (rec_of o) (top * unit) (l.parent * unit) current in
              elim (Bool-cases (holds_value l.entry.operation)) [
                | inl h ↦
                    rw (h, seen_value_lem o loaded_value)
                      (answered (some l.entry.value) (step (holds_value l.entry.operation))
                        (says ∙ rw h refl)
                        (change_record-Steps o (holds_value l.entry.operation) current))
                | inr h ↦ rw h (
                    answered none (step false) (says ∙ rw h refl)
                      (change_record-Steps o false current))
              ]

        -- The chain is shorter than the file.
        chain-lt : length chain < length contents
        chain-lt =
            let slots =
              Chain-inside db.format (base db.format db.num_buckets) contents top chain linked_here
                file_pos in
            omega (
              arith,
              slots,
              length-Chain db.format (base db.format db.num_buckets) contents top chain linked_here,
              le-mul_of_pos_right top (two_pow-pos db.format.align_pow),
            )

        process_impl-Done :
            (fuel : ℕ)
            → length contents ≤ fuel
            → (r : Processed F S) × (process_impl file p key b fuel db s true writable ≡ some r)
              × Done r
        unfolding process_impl
        process_impl-Done fuel enough =
            let walked =
              walk-locate file db key true laws (base db.format db.num_buckets) fuel 0 top chain
                v.least v.table.small (omega (arith, enough, chain-lt)) linked_here in
            let begin : 0 * unit ≡ 0 = zero-mul unit in
            elim (Option-cases (locate key 0 top chain)) [
              | inl e ↦
                  let missing : walk file fuel db key true 0 (top * unit) ≡ absent =
                    ap (λ o. walk file fuel db key true o (top * unit)) (sym begin)
                    ∙ subst
                        (λ x.
                          EndsAt file db key true laws (base db.format db.num_buckets) x
                            (walk file fuel db key true (0 * unit) (top * unit)))
                        e walked in
                  (
                    process_absent file p key b db s writable (top * unit),
                    rw (process_impl, get_bucket_value_lem, missing) refl,
                    process_absent-Done e,
                  )
              | inr (l, e) ↦
                  let (stands, tail, (o, given, w)) =
                    subst
                      (λ x.
                        EndsAt file db key true laws (base db.format db.num_buckets) x
                          (walk file fuel db key true (0 * unit) (top * unit)))
                      e walked in
                  let there = ap (λ o. walk file fuel db key true o (top * unit)) (sym begin) ∙ w in
                  (
                    process_found file p key b db s true writable (top * unit) (rec_of l e stands o)
                        (l.slot * unit) (l.parent * unit),
                    rw (process_impl, get_bucket_value_lem, there) refl,
                    process_found-Done l e stands o (l.slot * unit) given,
                  )
            ]

  pub process_impl_lem :
      {S : Type 0} (db : HashDbm F) (m : Map) (v : IsAppending file laws db m) (key : Bytes)
      (steady : IsSteady file) (p : Processor S) (s : S) (writable : Bool) (fuel : ℕ)
      → ActionFits db.format (laws.contents db.file) key writable (call p s key (m key)).1
      → length (laws.contents db.file) ≤ fuel
      → (r : Processed F S) × (process_impl file p key (bucket_of db key) fuel db s true writable
          ≡ some r)
        × Succeeds file laws r (call p s key (m key)).0 (after_call p s key writable m)
  process_impl_lem {S} db m v key steady p s writable fuel fits enough =
      let same : record db { in_place = false; compressor = none } ≡ db =
        ap₂ (λ i c. record db { in_place = i; compressor = c }) (sym v.appending) (sym v.plain) in
      subst
        (λ d.
          (v : IsAppending file laws d m)
          → ActionFits d.format (laws.contents d.file) key writable (call p s key (m key)).1
          → length (laws.contents d.file) ≤ fuel
          → (r : Processed F S) × (process_impl file p key (bucket_of d key) fuel d s true writable
              ≡ some r)
            × Succeeds file laws r (call p s key (m key)).0 (after_call p s key writable m))
        same (λ v fits enough. process_impl-Done db m v key steady p s writable fits fuel enough) v
        fits enough

  -- `Process` with reading on a database in appending mode and without compression, whose file can be
  -- written and has room for the new record, returns once its loop has as much fuel as the file has
  -- bytes, and succeeds: it calls the processor with exactly what the map has for the key, makes of the
  -- record what the answer says if `writable`, and leaves every other key alone. The bytes of the file
  -- stand for the new map. A database that is not open, or that is to be written and is not writable or
  -- not healthy, is left as it is, with PRECONDITION_ERROR and no call.
  pub process_file_lem :
      {S : Type 0} (db : HashDbm F) (m : Map) (v : IsAppending file laws db m) (key : Bytes)
      (steady : IsSteady file) (p : Processor S) (s : S) (writable : Bool) (fuel : ℕ)
      → ActionFits db.format (laws.contents db.file) key writable (call p s key (m key)).1
      → length (laws.contents db.file) ≤ fuel
      → (r : Processed F S) × (process file fuel db key p s true writable ≡ some r)
        × (if is_refused db writable
            then r ≡ record { status = status_of precondition_error; db = db; state = s }
            else Succeeds file laws r (call p s key (m key)).0 (after_call p s key writable m))
  unfolding process
  process_file_lem db m v key steady p s writable fuel fits enough =
      elim (Bool-cases (is_refused db writable)) [
        | inl h ↦ (refused db s, rw h refl, rw h refl)
        | inr h ↦
            let (r, e, done) = process_impl_lem db m v key steady p s writable fuel fits enough in
            (r, rw h e, rw h done)
      ]
