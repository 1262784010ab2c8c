-- ===== src/HashDbm/Locate.antt =====
-- What the chain of a bucket says of a key, and what is left of the chain when a record is put in front
-- of it in appending mode (tkrzw_dbm_hash.cc).
use mathlib.Core.Path.{subst}
use tkrzw.Base.{
  ℕ, ◌≤◌, ◌≡◌, ◌==◌, refl, ap, ◌∙◌, sym, arith, List, [], ◌∷◌, Bytes, none, some, true, false, eqb,
  eqb_iff, eqb_comm, Bool-cases, inl, inr, if◌then◌else◌,
}
use tkrzw.HashDbm.Record.{Format}
use tkrzw.HashDbm.Chain.{Entry, Located, locate, lookup_in, stored, Chain}

-- The first record of the chain, located.
abbrev head_at : ℕ → ℕ → Entry → List Entry → Located
head_at parent slot e es = record { slot = slot; parent = parent; entry = e; tail = es }

locate-here :
    (key : Bytes) (parent slot : ℕ) (e : Entry) (es : List Entry) (l : Located)
    → eqb key e.key ≡ true
    → locate key parent slot (e ∷ es) ≡ some l
    → head_at parent slot e es ≡ l
locate-here key parent slot e es l k h =
    let found : some (head_at parent slot e es) ≡ some l =
      sym (ap (λ b. if b then some (head_at parent slot e es) else locate key slot e.child es) k)
      ∙ h in
    cc

locate-later :
    (key : Bytes) (parent slot : ℕ) (e : Entry) (es : List Entry)
    → eqb key e.key ≡ false
    → locate key parent slot (e ∷ es) ≡ locate key slot e.child es
locate-later key parent slot e es k = rw k refl

pub locate-none :
    (key : Bytes) (parent slot : ℕ) (es : List Entry)
    → locate key parent slot es ≡ none
    → lookup_in es key ≡ none
locate-none key parent slot [] h = refl
locate-none key parent slot (e ∷ es) h = elim (Bool-cases (eqb key e.key)) [
  | inl k ↦ absurd (ground (arith, k))
  | inr k ↦ rw k (locate-none key slot e.child es (sym (locate-later key parent slot e es k) ∙ h))
]

pub locate-some :
    (key : Bytes) (parent slot : ℕ) (es : List Entry) (l : Located)
    → locate key parent slot es ≡ some l
    → (lookup_in es key ≡ stored l.entry) × (eqb key l.entry.key ≡ true)
locate-some key parent slot [] l h = cc
locate-some key parent slot (e ∷ es) l h = elim (Bool-cases (eqb key e.key)) [
  | inl k ↦
      subst (λ l. (lookup_in (e ∷ es) key ≡ stored l.entry) × (eqb key l.entry.key ≡ true))
        (locate-here key parent slot e es l k h) (rw k (refl, refl))
  | inr k ↦ rw k (locate-some key slot e.child es l (sym (locate-later key parent slot e es k) ∙ h))
]

-- In appending mode the first record of a chain drops out when it is replaced, and others stay behind.
abbrev pub rest_slot : Located → ℕ → ℕ
rest_slot l slot = if l.parent == 0 then l.entry.child else slot

abbrev pub rest_of : Located → List Entry → List Entry
rest_of l es = if l.parent == 0 then l.tail else es

module _ (fmt : Format) (base : ℕ) (c : Bytes) (key : Bytes) where
  later_parent :
      (parent slot : ℕ) (es : List Entry) (l : Located)
      → 1 ≤ parent
      → Chain fmt base c slot es
      → locate key parent slot es ≡ some l
      → (l.parent == 0) ≡ false
  later_parent parent slot [] l hp h e = cc
  later_parent parent slot (x ∷ es) l hp h e = elim (Bool-cases (eqb key x.key)) [
    | inl k ↦
        subst (λ l. (l.parent == 0) ≡ false) (locate-here key parent slot x es l k e) (ground arith)
    | inr k ↦
        later_parent slot x.child es l h.0.positive h.2
          (sym (locate-later key parent slot x es k) ∙ e)
  ]

  -- The rest is a chain, and says the same of every other key.
  pub Chain-rest_of :
      (slot : ℕ) (es : List Entry) (l : Located)
      → Chain fmt base c slot es
      → locate key 0 slot es ≡ some l
      → Chain fmt base c (rest_slot l slot) (rest_of l es)
        × ((j : Bytes) → eqb key j ≡ false → lookup_in (rest_of l es) j ≡ lookup_in es j)
  Chain-rest_of slot [] l h e = cc
  Chain-rest_of slot (x ∷ es) l h e = elim (Bool-cases (eqb key x.key)) [
    | inl k ↦
        subst
          (λ l.
            Chain fmt base c (rest_slot l slot) (rest_of l (x ∷ es))
            × ((j : Bytes)
                → eqb key j ≡ false
                → lookup_in (rest_of l (x ∷ es)) j ≡ lookup_in (x ∷ es) j))
          (locate-here key 0 slot x es l k e)
          (
            h.2,
            λ j d.
                let other : eqb j x.key ≡ false =
                  ap (eqb j) (sym ((eqb_iff key x.key).0 k)) ∙ eqb_comm j key ∙ d in
                rw other refl,
          )
    | inr k ↦
        let later =
          later_parent slot x.child es l h.0.positive h.2
            (sym (locate-later key 0 slot x es k) ∙ e) in
        rw later (h, λ j d. refl)
  ]
