-- ===== src/Str/SplitJoin.antt =====
-- The segments of `StrSplit` with a string between them: the string itself, or what `StrReplace` makes of
-- it (tkrzw_str_util.cc).
use mathlib.Core.Path.{subst}
use tkrzw.Base.{
  ℕ, zero, suc, ◌+◌, ◌≤◌, ◌<◌, ◌≡◌, refl, ap, ap₂, ◌∙◌, sym, arith, List, [], ◌∷◌, ◌++◌, none, some,
  Bytes, Bool, true, false, ltb, length, take, drop, length-append, length-drop, Bool-cases, inl,
  inr, Option-cases, take_append, drop_append, drop-drop,
}
use mathlib.Core.Option.{map}
use tkrzw.Str.Search.{matches, search_loop, str_replace, replace_loop}
use tkrzw.Str.SearchFirst.{IsFirst, search_loop-IsFirst}
use tkrzw.Str.Split.{find, split_loop, add_segment, str_split, str_split_byte, join}

join-cons :
    (between segment : Bytes) (segments : List Bytes)
    → 1 ≤ length segments
    → join between (segment ∷ segments) ≡ segment ++ (between ++ join between segments)
unfolding join
join-cons between segment [] h = absurd (omega arith)
join-cons between segment (s ∷ segments) h = refl

find-IsFirst : (text pattern : Bytes) → IsFirst text pattern (find text pattern)
find-IsFirst text pattern = search_loop-IsFirst (suc (length text)) text pattern (omega arith)

-- Where the pattern is found, the text falls apart.
find-some :
    (text pattern : Bytes) (pos : ℕ)
    → find text pattern ≡ some pos
    → text ≡ take pos text ++ (pattern ++ drop (pos + length pattern) text)
unfolding IsFirst
find-some text pattern pos h =
    let ((pre, l, (post, e)), least) = subst (IsFirst text pattern) h (find-IsFirst text pattern) in
    let front : take pos text ≡ pre = ap₂ take (sym l) e ∙ take_append pre (pattern ++ post) in
    let back : drop (pos + length pattern) text ≡ post =
      ap₂ drop (ap (λ n. n + length pattern) (sym l)) e
      ∙ drop-drop (length pre) (length pattern) (pre ++ (pattern ++ post))
      ∙ ap (drop (length pattern)) (drop_append pre (pattern ++ post))
      ∙ drop_append pattern post in
    e ∙ ap₂ (λ a b. a ++ (pattern ++ b)) (sym front) (sym back)

module _ (fuel c : ℕ) (rest delim : Bytes) (skip_empty : Bool) where
  split_loop-none :
      find (c ∷ rest) delim ≡ none
      → split_loop (suc fuel) (c ∷ rest) delim skip_empty ≡ add_segment skip_empty (c ∷ rest) []
  unfolding split_loop
  split_loop-none e = rw (split_loop, e) refl

  split_loop-some :
      (pos : ℕ)
      → find (c ∷ rest) delim ≡ some pos
      → split_loop (suc fuel) (c ∷ rest) delim skip_empty
        ≡ add_segment skip_empty
            (take pos (c ∷ rest))
            (split_loop fuel (drop (pos + length delim) (c ∷ rest)) delim skip_empty)
  unfolding split_loop
  split_loop-some pos e = rw (split_loop, e) refl

split_loop-pos : (fuel : ℕ) (rest delim : Bytes) → 1 ≤ length (split_loop fuel rest delim false)
unfolding split_loop
split_loop-pos zero rest delim = omega arith
split_loop-pos (suc fuel) [] delim = omega arith
split_loop-pos (suc fuel) (c ∷ rest) delim = elim (Option-cases (find (c ∷ rest) delim)) [
  | inl e ↦ omega (arith, ap length (split_loop-none fuel c rest delim false e))
  | inr (pos, e) ↦ omega (arith, ap length (split_loop-some fuel c rest delim false pos e))
]

-- What is joined where the delimiter was found.
join-found :
    (between delim : Bytes) (fuel c : ℕ) (rest : Bytes) (pos : ℕ)
    → find (c ∷ rest) delim ≡ some pos
    → join between (split_loop (suc fuel) (c ∷ rest) delim false)
      ≡ take pos (c ∷ rest)
        ++ (between
            ++ join between (split_loop fuel (drop (pos + length delim) (c ∷ rest)) delim false))
join-found between delim fuel c rest pos e =
    let later = drop (pos + length delim) (c ∷ rest) in
    ap (join between) (split_loop-some fuel c rest delim false pos e)
    ∙ join-cons between (take pos (c ∷ rest)) (split_loop fuel later delim false)
        (split_loop-pos fuel later delim)

join-split_loop :
    (fuel : ℕ) (rest delim : Bytes) → join delim (split_loop fuel rest delim false) ≡ rest
join-split_loop zero rest delim = unfold split_loop join in refl
join-split_loop (suc fuel) [] delim = unfold split_loop join in refl
join-split_loop (suc fuel) (c ∷ rest) delim = elim (Option-cases (find (c ∷ rest) delim)) [
  | inl e ↦ ap (join delim) (split_loop-none fuel c rest delim false e) ∙ unfold join in refl
  | inr (pos, e) ↦
      let later = drop (pos + length delim) (c ∷ rest) in
      join-found delim delim fuel c rest pos e
      ∙ ap (λ s. take pos (c ∷ rest) ++ (delim ++ s)) (join-split_loop fuel later delim)
      ∙ sym (find-some (c ∷ rest) delim pos e)
]

find-cons :
    (c : ℕ) (rest delim : Bytes)
    → matches (c ∷ rest) delim ≡ false
    → find (c ∷ rest) delim ≡ map suc (find rest delim)
unfolding search_loop
find-cons c rest delim h = rw h refl

find-here :
    (c : ℕ) (rest delim : Bytes) → matches (c ∷ rest) delim ≡ true → find (c ∷ rest) delim ≡ some 0
unfolding search_loop
find-here c rest delim h = rw h refl

find-nil : (delim : Bytes) → 1 ≤ length delim → find [] delim ≡ none
unfolding search_loop matches
find-nil [] h = absurd (omega arith)
find-nil (d ∷ delim) h = refl

find-short : (text pattern : Bytes) → length text < length pattern → find text pattern ≡ none
find-short text pattern h = elim (Option-cases (find text pattern)) [
  | inl e ↦ e
  | inr (pos, e) ↦
      let back = drop (pos + length pattern) text in
      absurd (
        omega (
          arith,
          ap length (find-some text pattern pos e),
          length-append (take pos text) (pattern ++ back),
          length-append pattern back,
        ))
]

join-not_found :
    (between delim : Bytes) (fuel : ℕ) (rest : Bytes)
    → find rest delim ≡ none
    → join between (split_loop fuel rest delim false) ≡ rest
join-not_found between delim zero rest e = unfold split_loop join in refl
join-not_found between delim (suc fuel) [] e = unfold split_loop join in refl
join-not_found between delim (suc fuel) (c ∷ rest) e =
    ap (join between) (split_loop-none fuel c rest delim false e) ∙ unfold join in refl

-- What the segments come to that stand one byte further behind.
join-later :
    (between delim : Bytes) (fuel c : ℕ) (rest : Bytes)
    → 1 ≤ length delim
    → matches (c ∷ rest) delim ≡ false
    → join between (split_loop (suc fuel) (c ∷ rest) delim false)
      ≡ c ∷ join between (split_loop (suc fuel) rest delim false)
join-later between delim fuel c [] hd h =
    let e = find-nil delim hd in
    join-not_found between delim (suc fuel) (c ∷ []) (find-cons c [] delim h ∙ ap (map suc) e)
    ∙ ap (◌∷◌ c) (sym (join-not_found between delim (suc fuel) [] e))
join-later between delim fuel c (x ∷ rest) hd h =
    let there = find-cons c (x ∷ rest) delim h in
    elim (Option-cases (find (x ∷ rest) delim)) [
      | inl e ↦
          join-not_found between delim (suc fuel) (c ∷ x ∷ rest) (there ∙ ap (map suc) e)
          ∙ ap (◌∷◌ c) (sym (join-not_found between delim (suc fuel) (x ∷ rest) e))
      | inr (pos, e) ↦
          let one : suc pos + length delim ≡ suc (pos + length delim) = omega arith in
          join-found between delim fuel c (x ∷ rest) (suc pos) (there ∙ ap (map suc) e)
          ∙ ap
              (λ n.
                take (suc pos) (c ∷ x ∷ rest)
                ++ (between ++ join between (split_loop fuel (drop n (c ∷ x ∷ rest)) delim false)))
              one
          ∙ ap (◌∷◌ c) (sym (join-found between delim fuel x rest pos e))
    ]

-- The loop of `StrReplace` against that of `StrSplit`.
replace_loop-join :
    (n m : ℕ) (str before after : Bytes)
    → 1 ≤ length before
    → length str ≤ n
    → length str ≤ m
    → replace_loop n str before after ≡ join after (split_loop m str before false)
unfolding replace_loop
replace_loop-join zero m (c ∷ str) before after hb hn hm = absurd (omega arith)
replace_loop-join zero m [] before after hb hn hm =
    sym (join-not_found after before m [] (find-nil before hb))
replace_loop-join (suc n) m [] before after hb hn hm =
    sym (join-not_found after before m [] (find-nil before hb))
replace_loop-join (suc n) zero (c ∷ str) before after hb hn hm = absurd (omega arith)
replace_loop-join (suc n) (suc m) (c ∷ str) before after hb hn hm =
    elim (Bool-cases (ltb (length (c ∷ str)) (length before))) [
      | inl e ↦
          let none_left = find-short (c ∷ str) before (ground (arith, e)) in
          rw (replace_loop, e) (sym (join-not_found after before (suc m) (c ∷ str) none_left))
      | inr e ↦ elim (Bool-cases (matches (c ∷ str) before)) [
        | inl here ↦
            let behind = drop (length before) (c ∷ str) in
            let shorter = length-drop (length before) (c ∷ str) in
            rw (replace_loop, e, here)
              (ap (◌++◌ after) (
                  replace_loop-join n m behind before after hb (omega (arith, shorter))
                    (omega (arith, shorter)))
                ∙ ap (λ k. after ++ join after (split_loop m (drop k (c ∷ str)) before false))
                    (omega arith)
                ∙ sym (join-found after before m c str 0 (find-here c str before here)))
        | inr later ↦
            rw (replace_loop, e, later)
              (ap (◌∷◌ c)
                  (replace_loop-join n (suc m) str before after hb (omega arith) (omega arith))
                ∙ sym (join-later after before m c str hb later))
      ]
    ]

-- The segments of `StrSplit`, none of them skipped, with the delimiter between them make up the string
-- again, where the delimiter is a byte or a string that is not empty.
pub join-str_split :
    (str delim : Bytes) (c : ℕ)
    → 1 ≤ length delim
    → (join (c ∷ []) (str_split_byte str c false) ≡ str)
      × (join delim (str_split str delim false) ≡ str)
unfolding str_split_byte str_split
join-str_split str [] c h = absurd (omega arith)
join-str_split str (d ∷ delim) c h =
    (join-split_loop (length str) str (c ∷ []), join-split_loop (length str) str (d ∷ delim))

-- `StrReplace` puts the new string at the places where `StrSplit` cuts out the old one, if that is not
-- empty.
pub str_replace-join :
    (str before after : Bytes)
    → 1 ≤ length before
    → str_replace str before after ≡ join after (str_split str before false)
unfolding str_replace str_split
str_replace-join str [] after h = absurd (omega arith)
str_replace-join str (b ∷ before) after h =
    elim (Bool-cases (ltb (length str) (length (b ∷ before)))) [
      | inl e ↦ rw e (
          sym (
            join-not_found after (b ∷ before) (length str) str
              (find-short str (b ∷ before) (ground (arith, e)))))
      | inr e ↦ rw e (
          replace_loop-join (length str) (length str) str (b ∷ before) after h (omega arith)
            (omega arith))
    ]
