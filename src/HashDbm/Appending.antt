-- ===== src/HashDbm/Appending.antt =====
-- Databases in appending mode: the file of a `HashDBMImpl` (tkrzw_dbm_hash.cc) and the map that its bytes
-- stand for, and what the answer of a processor makes of them.
use tkrzw.Base.{
  ℕ, ◌≤◌, ◌≡◌, inl, inr, refl, ap, ◌∙◌, Bytes, [], Option, none, some, Bool, true, false, eqb,
  eqb_iff, Bool-cases, ok, Result,
}
use tkrzw.Status.{Status, status_of, success}
use tkrzw.Dbm.Processor.{Action, noop, remove, put}
use tkrzw.Dbm.Interface.{Map, update, apply_action}
use tkrzw.Flat.File.{File, FileLaws}
use tkrzw.HashDbm.Record.{Format, or_empty}
use tkrzw.HashDbm.Table.{HashDbm, Run, meta_min_read_size}
use tkrzw.HashDbm.Update.{count_change}
use tkrzw.HashDbm.Process.{Processed, status_in, act_on}
use tkrzw.HashDbm.Buckets.{IsTable}
use tkrzw.HashDbm.Stepped.{HasRoom}

-- The room that an action needs in the file.
abbrev pub ActionFits : Format → Bytes → Bytes → Bool → Action → Type 0
ActionFits fmt c key false action = Unit {0}
ActionFits fmt c key true noop = Unit {0}
ActionFits fmt c key true remove = HasRoom fmt c key []
ActionFits fmt c key true (put v) = HasRoom fmt c key v

module _ {F : Type 0} (file : File F) (laws : FileLaws file) where
  -- A database in appending mode and without compression, whose file stands for the map.
  pub record IsAppending (db : HashDbm F) (m : Map) : Type 0 where
    pub table : IsTable db.format db.num_buckets (laws.contents db.file) m
    pub appending : db.in_place ≡ false
    pub plain : db.compressor ≡ none
    pub least : meta_min_read_size ≤ db.min_read_size

  -- A method has succeeded and left the processor with the state and the file with the map.
  pub record Succeeds {S : Type 0} (r : Processed F S) (s : S) (m : Map) : Type 0 where
    pub status : r.status ≡ status_of success
    pub state : r.state ≡ s
    pub valid : IsAppending r.db m

  -- A step has succeeded.
  abbrev pub Steps : Result Status (Unit {0}) × HashDbm F → Map → Type 0
  Steps r m = (r.0 ≡ ok tt) × IsAppending r.1 m

  pub Steps-count_change :
      (is_set : Bool) (key_size old_size : ℕ) (change : Option Bytes) (db : HashDbm F) (m : Map)
      → IsAppending db m
      → Steps (count_change is_set key_size old_size change db) m
  unfolding count_change
  Steps-count_change true ks os none db m v =
      (refl, record { table = v.table; appending = v.appending; plain = v.plain; least = v.least })
  Steps-count_change false ks os none db m v = (refl, v)
  Steps-count_change true ks os (some w) db m v =
      (refl, record { table = v.table; appending = v.appending; plain = v.plain; least = v.least })
  Steps-count_change false ks os (some w) db m v =
      (refl, record { table = v.table; appending = v.appending; plain = v.plain; least = v.least })

  pub IsAppending-shows :
      (db : HashDbm F) (m m' : Map)
      → IsAppending db m
      → ((j : Bytes) → m' j ≡ m j)
      → IsAppending db m'
  IsAppending-shows db m m' v h = record {
    table = record {
      format = v.table.format;
      positive = v.table.positive;
      chains = v.table.chains;
      units = v.table.units;
      aligned = v.table.aligned;
      sized = v.table.sized;
      small = v.table.small;
      linked = v.table.linked;
      shows = λ j. h j ∙ v.table.shows j;
    };
    appending = v.appending;
    plain = v.plain;
    least = v.least;
  }

  -- Nothing is changed.
  pub IsAppending-same :
      (db : HashDbm F) (m : Map) (key : Bytes)
      → IsAppending db m
      → IsAppending db (update m key (m key))
  IsAppending-same db m key v = IsAppending-shows db m (update m key (m key)) v (λ j.
      elim (Bool-cases (eqb key j)) [
        | inl k ↦ rw k (ap m ((eqb_iff key j).0 k))
        | inr k ↦ rw k refl
      ])

  pub act_on_lem :
      {S : Type 0} (writable : Bool) (step : Option Bytes → Run F (Unit {0})) (db : HashDbm F)
      (s : S) (action : Action) (key : Bytes) (m : Map)
      → IsAppending db m
      → ActionFits db.format (laws.contents db.file) key writable action
      → ((change : Option Bytes)
          → HasRoom db.format (laws.contents db.file) key (or_empty change)
          → Steps (step change db) (update m key change))
      → Succeeds
          (act_on writable step db (s, some action))
          s
          (update m key (apply_action writable action (m key)))
  unfolding act_on
  act_on_lem false step db s noop key m v fits h = record {
    status = refl;
    state = refl;
    valid = IsAppending-same db m key v;
  }
  act_on_lem false step db s remove key m v fits h = record {
    status = refl;
    state = refl;
    valid = IsAppending-same db m key v;
  }
  act_on_lem false step db s (put w) key m v fits h = record {
    status = refl;
    state = refl;
    valid = IsAppending-same db m key v;
  }
  act_on_lem true step db s noop key m v fits h = record {
    status = refl;
    state = refl;
    valid = IsAppending-same db m key v;
  }
  act_on_lem true step db s remove key m v fits h =
      let (e, valid) = h none fits in
      record { status = ap status_in e; state = refl; valid = valid }
  act_on_lem true step db s (put w) key m v fits h =
      let (e, valid) = h (some w) fits in
      record { status = ap status_in e; state = refl; valid = valid }
