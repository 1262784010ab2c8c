-- ===== src/HashDbm/AppendingMulti.antt =====
-- `HashDBMImpl::ProcessMulti` (tkrzw_dbm_hash.cc) on a database in appending mode.
use mathlib.Core.Path.{subst}
use tkrzw.Base.{
  ℕ, ◌≤◌, ◌≡◌, refl, ◌∙◌, Bytes, List, [], ◌∷◌, if◌then◌else◌, some, Bool, true, length, Bool-cases,
  inl, inr,
}
use tkrzw.Status.{status_of, success, precondition_error}
use tkrzw.Dbm.Processor.{Processor}
use tkrzw.Dbm.Interface.{Map, call, call_all, after_call}
use tkrzw.Flat.File.{File, FileLaws}
use tkrzw.HashDbm.Table.{HashDbm}
use tkrzw.HashDbm.Process.{
  Processed, process_impl, process_all, process_multi, bucket_of, is_refused, refused,
}
use tkrzw.HashDbm.Append.{IsSteady}
use tkrzw.HashDbm.Appending.{ActionFits, IsAppending, Succeeds}
use tkrzw.HashDbm.AppendingProcess.{process_impl_lem}

module _ {F S : Type 0} (file : File F) (laws : FileLaws file) (fuel : ℕ) (writable : Bool) where
  -- There is room for each record in the file as the calls before it leave it, and the fuel is as much as
  -- the file has bytes then.
  abbrev pub EachFits : List (Bytes × Processor S) → HashDbm F → S → Map → Type 0
  EachFits [] db s m = Unit {0}
  EachFits ((key, p) ∷ rest) db s m =
      ActionFits db.format (laws.contents db.file) key writable (call p s key (m key)).1
      × (length (laws.contents db.file) ≤ fuel)
      × ((r : Processed F S)
          → process_impl file p key (bucket_of db key) fuel db s true writable ≡ some r
          → EachFits rest r.db r.state (after_call p s key writable m))

  -- The loop goes on behind a success.
  process_all-next :
      (key : Bytes) (p : Processor S) (rest : List (Bytes × Processor S)) (db : HashDbm F) (s : S)
      (r : Processed F S)
      → process_impl file p key (bucket_of db key) fuel db s true writable ≡ some r
      → r.status ≡ status_of success
      → process_all file fuel db ((key, p) ∷ rest) s writable
        ≡ process_all file fuel r.db rest r.state writable
  unfolding process_all
  process_all-next key p rest db s r e h = rw (process_all, e) (rw h refl)

  module _ (steady : IsSteady file) where
    process_all_lem :
        (pairs : List (Bytes × Processor S)) (db : HashDbm F) (s : S) (m : Map)
        → IsAppending file laws db m
        → EachFits pairs db s m
        → (r : Processed F S) × (process_all file fuel db pairs s writable ≡ some r)
          × Succeeds file laws r (call_all pairs s writable m).0 (call_all pairs s writable m).1
    unfolding process_all
    process_all_lem [] db s m v fits = (
      record { status = status_of success; db = db; state = s },
      refl,
      record { status = refl; state = refl; valid = v },
    )
    process_all_lem ((key, p) ∷ rest) db s m v fits =
        let (room, enough, next) = fits in
        let (r, e, done) =
          process_impl_lem file laws db m v key steady p s writable fuel room enough in
        let (last, f, well) =
          process_all_lem rest r.db r.state (after_call p s key writable m) done.valid (next r e) in
        let after : Map = after_call p s key writable m in
        (
          last,
          process_all-next key p rest db s r e done.status ∙ f,
          subst
              (λ t.
                Succeeds file laws last (call_all rest t writable after).0
                  (call_all rest t writable after).1)
              done.state well,
        )

    -- `ProcessMulti` on a database in appending mode and without compression, whose file can be written
    -- and has room for each record when its turn comes, returns, with fuel for the size that the file
    -- has before each call, and succeeds: it acts on the map that the bytes of the file stand for like
    -- the calls one after the other, with the state shared. A database that is refused is left as it is,
    -- with PRECONDITION_ERROR and no call.
    pub process_multi_file_lem :
        (pairs : List (Bytes × Processor S)) (db : HashDbm F) (s : S) (m : Map)
        → IsAppending file laws db m
        → EachFits pairs db s m
        → (r : Processed F S) × (process_multi file fuel db pairs s writable ≡ some r)
          × (if is_refused db writable
              then r ≡ record { status = status_of precondition_error; db = db; state = s }
              else Succeeds file laws r
                  (call_all pairs s writable m).0
                  (call_all pairs s writable m).1)
    unfolding process_multi
    process_multi_file_lem pairs db s m v fits = elim (Bool-cases (is_refused db writable)) [
      | inl h ↦ (refused db s, rw h refl, rw h refl)
      | inr h ↦ let (r, e, done) = process_all_lem pairs db s m v fits in (r, rw h e, rw h done)
    ]
