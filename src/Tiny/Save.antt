-- ===== src/Tiny/Save.antt =====
-- What `ExportRecords` (tkrzw_dbm_tiny.cc) writes to the file.
use tkrzw.Base.{
  ◌≡◌, ap, ◌∙◌, sym, Bytes, List, [], ◌∷◌, ◌++◌, true, refl, Bool-cases, inl, inr, append-nil,
  append_assoc,
}
use tkrzw.Status.{Status, is_success}
use tkrzw.Flat.File.{File, FileLaws}
use tkrzw.Flat.Record.{flat_bytes, write}
use tkrzw.Tiny.Record.{Block, deserialize}
use tkrzw.Tiny.Table.{Chain, TinyDbm}
use tkrzw.Tiny.Store.{export_chain, export_chains, export_records}
use tkrzw.Tiny.Load.{Pairs, pairs_bytes}

-- The records of a table in the order of its buckets.
abbrev pub chain_pairs : Chain → Pairs
chain_pairs [] = []
chain_pairs (ptr ∷ child) = ((deserialize ptr).key, (deserialize ptr).value) ∷ chain_pairs child

abbrev pub table_pairs : List Chain → Pairs
table_pairs [] = []
table_pairs (chain ∷ chains) = chain_pairs chain ++ table_pairs chains

pairs_bytes-append : (ps qs : Pairs) → pairs_bytes (ps ++ qs) ≡ pairs_bytes ps ++ pairs_bytes qs
pairs_bytes-append [] qs = refl
pairs_bytes-append ((key, value) ∷ ps) qs =
    ap (λ b. flat_bytes key ++ (flat_bytes value ++ b)) (pairs_bytes-append ps qs)
    ∙ sym (
        append_assoc (flat_bytes key) (flat_bytes value ++ pairs_bytes ps) (pairs_bytes qs)
        ∙ ap (◌++◌ (flat_bytes key))
            (append_assoc (flat_bytes value) (pairs_bytes ps) (pairs_bytes qs)))

module _ {F : Type 0} (file : File F) (laws : FileLaws file) where
  write-contents :
      (f : F) (s : Bytes)
      → is_success (write file f s).0 ≡ true
      → laws.contents (write file f s).1 ≡ laws.contents f ++ flat_bytes s
  unfolding write
  write-contents f s h = laws.append_end f (flat_bytes s) h

  abbrev Succeeds : Status × F → Type 0
  Succeeds r = is_success r.0 ≡ true

  -- What the writes of a record that succeed, and the rest of the chain, come to.
  export_step :
      (ptr : Block) (child : Chain) (f : F)
      → Succeeds (export_chain file (ptr ∷ child) f)
      → (is_success (write file f (deserialize ptr).key).0 ≡ true)
        × (is_success (write file (write file f (deserialize ptr).key).1 (deserialize ptr).value).0
            ≡ true)
        × (export_chain file (ptr ∷ child) f
            ≡ export_chain file child
                (write file (write file f (deserialize ptr).key).1 (deserialize ptr).value).1)
  unfolding export_chain
  export_step ptr child f h =
      let key = write file f (deserialize ptr).key in
      let value = write file key.1 (deserialize ptr).value in
      elim (Bool-cases (is_success key.0)) [
        | inl ek ↦ elim (Bool-cases (is_success value.0)) [
          | inl ev ↦ (ek, ev, rw (ek, ev) refl)
          | inr ev ↦
              let e : export_chain file (ptr ∷ child) f ≡ (value.0, value.1) = rw (ek, ev) refl in
              let e' = ap (λ r. is_success r.0) e in absurd cc
        ]
        | inr ek ↦
            let e : export_chain file (ptr ∷ child) f ≡ (key.0, key.1) = rw ek refl in
            let e' = ap (λ r. is_success r.0) e in absurd cc
      ]

  export_chain-contents :
      (chain : Chain) (f : F)
      → Succeeds (export_chain file chain f)
      → laws.contents (export_chain file chain f).1
        ≡ laws.contents f ++ pairs_bytes (chain_pairs chain)
  export_chain-contents [] f h = unfold export_chain in sym (append-nil (laws.contents f))
  export_chain-contents (ptr ∷ child) f h =
      let r = deserialize ptr in
      let f' = (write file f r.key).1 in
      let (ek, ev, step) = export_step ptr child f h in
      let rest =
        export_chain-contents child (write file f' r.value).1
          (ap (λ r. is_success r.0) (sym step) ∙ h) in
      ap (λ r. laws.contents r.1) step
      ∙ rest
      ∙ ap (λ b. b ++ pairs_bytes (chain_pairs child))
          (write-contents f' r.value ev
            ∙ ap (λ b. b ++ flat_bytes r.value) (write-contents f r.key ek))
      ∙ append_assoc (laws.contents f ++ flat_bytes r.key) (flat_bytes r.value)
          (pairs_bytes (chain_pairs child))
      ∙ append_assoc (laws.contents f) (flat_bytes r.key)
          (flat_bytes r.value ++ pairs_bytes (chain_pairs child))

  chains_step :
      (chain : Chain) (chains : List Chain) (f : F)
      → Succeeds (export_chains file (chain ∷ chains) f)
      → Succeeds (export_chain file chain f)
        × (export_chains file (chain ∷ chains) f
            ≡ export_chains file chains (export_chain file chain f).1)
  unfolding export_chains
  chains_step chain chains f h = elim (Bool-cases (is_success (export_chain file chain f).0)) [
    | inl e ↦ (e, rw e refl)
    | inr e ↦
        let e' : export_chains file (chain ∷ chains) f ≡ export_chain file chain f = rw e refl in
        let e'' = ap (λ r. is_success r.0) e' in absurd cc
  ]

  export_chains-contents :
      (chains : List Chain) (f : F)
      → Succeeds (export_chains file chains f)
      → laws.contents (export_chains file chains f).1
        ≡ laws.contents f ++ pairs_bytes (table_pairs chains)
  export_chains-contents [] f h = unfold export_chains in sym (append-nil (laws.contents f))
  export_chains-contents (chain ∷ chains) f h =
      let (ok, step) = chains_step chain chains f h in
      ap (λ r. laws.contents r.1) step
      ∙ export_chains-contents chains (export_chain file chain f).1
          (ap (λ r. is_success r.0) (sym step) ∙ h)
      ∙ ap (λ b. b ++ pairs_bytes (table_pairs chains)) (export_chain-contents chain f ok)
      ∙ append_assoc (laws.contents f) (pairs_bytes (chain_pairs chain))
          (pairs_bytes (table_pairs chains))
      ∙ ap (◌++◌ (laws.contents f))
          (sym (pairs_bytes-append (chain_pairs chain) (table_pairs chains)))

  -- When `ExportRecords` reports success, the file holds the keys and values of the table in turn, in the
  -- order of the buckets and of the chains, and nothing else.
  pub export_records-contents :
      (db : TinyDbm) (f : F)
      → is_success (export_records file db f).0 ≡ true
      → laws.contents (export_records file db f).1 ≡ pairs_bytes (table_pairs db.buckets)
  unfolding export_records
  export_records-contents db f h = elim (Bool-cases (is_success (file.truncate f 0).0)) [
    | inl e ↦
        let step : export_records file db f ≡ export_chains file db.buckets (file.truncate f 0).1 =
          rw e refl in
        ap (λ r. laws.contents r.1) step
        ∙ export_chains-contents db.buckets (file.truncate f 0).1
            (ap (λ r. is_success r.0) (sym step) ∙ h)
        ∙ ap (λ b. b ++ pairs_bytes (table_pairs db.buckets)) (laws.truncate_empty f e)
    | inr e ↦
        let step : export_records file db f ≡ file.truncate f 0 = rw e refl in
        let e' = ap (λ r. is_success r.0) step in absurd cc
  ]
