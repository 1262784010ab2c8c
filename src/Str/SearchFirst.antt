-- ===== src/Str/SearchFirst.antt =====
-- The first occurrence of a string in another, and that the searches of tkrzw_str_util.cc find it.
use tkrzw.Base.{
  ℕ, zero, suc, ◌+◌, ◌-◌, ◌≤◌, ◌<◌, ◌≡◌, ◌≢◌, refl, ap, ap₂, ◌∙◌, arith, [], ◌∷◌, ◌++◌, Option,
  none, some, Bytes, true, false, ltb, length, drop, length-append, Bool-cases, inl, inr, ◌^◌, ◌%◌,
  ◌⊎◌, if◌then◌else◌, Option-cases, lt→ltb,
}
use mathlib.Core.Option.{map}
use mathlib.Core.Path.{subst}
use tkrzw.Str.Search.{matches, search_loop, find_double_loop, str_search_double_loop}

-- The text falls into what is before the pattern, the pattern, and what is behind it.
abbrev pub StandsBehind : Bytes → Bytes → Bytes → Type 0
StandsBehind text pattern pre = (post : Bytes) × (text ≡ pre ++ (pattern ++ post))

-- `some i` is the least number of bytes before the pattern; `none` says that it does not stand in the
-- text.
unfoldable pub IsFirst : Bytes → Bytes → Option ℕ → Type 0
IsFirst text pattern none = (pre post : Bytes) → text ≢ pre ++ (pattern ++ post)
IsFirst text pattern (some i) =
    ((pre : Bytes) × (length pre ≡ i) × StandsBehind text pattern pre)
    × ((pre post : Bytes) → text ≡ pre ++ (pattern ++ post) → i ≤ length pre)

pub matches→eq :
    (text pattern : Bytes) → matches text pattern ≡ true → (post : Bytes) × (text ≡ pattern ++ post)
unfolding matches
matches→eq text [] h = (text, refl)
matches→eq [] (p ∷ ps) h = cc
matches→eq (c ∷ text) (p ∷ ps) h =
    let same : c ≡ p = ground arith in
    let (post, e) = matches→eq text ps (ground arith) in (post, ap₂ ◌∷◌ same e)

matches_append : (pattern post : Bytes) → matches (pattern ++ post) pattern ≡ true
unfolding matches
matches_append [] post = refl
matches_append (p ∷ ps) post = ground (arith, matches_append ps post)

-- The pattern, if it is not in front, stands further behind.
further :
    (c : ℕ) (text pattern : Bytes)
    → matches (c ∷ text) pattern ≡ false
    → (pre post : Bytes) → c ∷ text ≡ pre ++ (pattern ++ post)
    → (pre' : Bytes) × (length pre ≡ suc (length pre')) × (text ≡ pre' ++ (pattern ++ post))
further c text pattern h [] post e =
    let seen : matches (c ∷ text) pattern ≡ true =
      ap (λ t. matches t pattern) e ∙ matches_append pattern post in
    absurd (cc)
further c text pattern h (x ∷ pre) post e = (pre, refl, ap (drop 1) e)

-- A text that does not begin with the pattern, and the text behind its first byte.
IsFirst-cons :
    (c : ℕ) (text pattern : Bytes) (o : Option ℕ)
    → matches (c ∷ text) pattern ≡ false
    → IsFirst text pattern o
    → IsFirst (c ∷ text) pattern (map suc o)
unfolding IsFirst
IsFirst-cons c text pattern none h v =
    λ pre post e. let (pre', l, e') = further c text pattern h pre post e in v pre' post e'
IsFirst-cons c text pattern (some i) h v =
    let ((pre, l, (post, e)), least) = v in
    (
      (c ∷ pre, ap suc l, (post, ap (◌∷◌ c) e)),
      λ pre post e.
          let (pre', l, e') = further c text pattern h pre post e in
          omega (arith, l, least pre' post e'),
    )

pub IsFirst-short :
    (text pattern : Bytes) → length text < length pattern → IsFirst text pattern none
unfolding IsFirst
IsFirst-short text pattern h = λ pre post e.
    absurd
      (omega (arith, ap length e, length-append pre (pattern ++ post), length-append pattern post))

IsFirst-here : (text pattern : Bytes) → matches text pattern ≡ true → IsFirst text pattern (some 0)
unfolding IsFirst
IsFirst-here text pattern h =
    let (post, e) = matches→eq text pattern h in (([], refl, (post, e)), λ pre post e. omega arith)

pub search_loop-IsFirst :
    (rounds : ℕ) (text pattern : Bytes)
    → length text < rounds + length pattern
    → IsFirst text pattern (search_loop rounds text pattern)
unfolding search_loop matches
search_loop-IsFirst zero text pattern h = IsFirst-short text pattern (omega arith)
search_loop-IsFirst (suc rounds) [] [] h = IsFirst-here [] [] refl
search_loop-IsFirst (suc rounds) [] (p ∷ ps) h = IsFirst-short [] (p ∷ ps) (omega arith)
search_loop-IsFirst (suc rounds) (c ∷ text) pattern h =
    elim (Bool-cases (matches (c ∷ text) pattern)) [
      | inl e ↦ rw e (IsFirst-here (c ∷ text) pattern e)
      | inr e ↦ rw e (
          IsFirst-cons c text pattern (search_loop rounds text pattern) e
            (search_loop-IsFirst rounds text pattern (omega arith)))
    ]

pub find_double_loop-IsFirst :
    (text pattern : Bytes) → IsFirst text pattern (find_double_loop text pattern)
unfolding find_double_loop
find_double_loop-IsFirst text pattern = elim (Bool-cases (ltb (length text) (length pattern))) [
  | inl e ↦ rw e (IsFirst-short text pattern (ground (arith, e)))
  | inr e ↦ rw e (search_loop-IsFirst (length text - length pattern + 1) text pattern (omega arith))
]

-- The place that an int32_t result tells.
abbrev pub index_of : ℕ → Option ℕ
index_of result = if ltb result (2 ^ 31) then some result else none

IsFirst-bound : (text pattern : Bytes) (i : ℕ) → IsFirst text pattern (some i) → i ≤ length text
unfolding IsFirst
IsFirst-bound text pattern i v =
    let ((pre, l, (post, e)), least) = v in
    omega (arith, l, ap length e, length-append pre (pattern ++ post))

-- In a text of less than 2 ^ 31 bytes `StrSearchDoubleLoop` finds the first place where the pattern stands
-- and returns it, and if the pattern stands nowhere, it returns -1. No other negative number is returned.
pub str_search_double_loop-IsFirst :
    (text pattern : Bytes)
    → length text < 2 ^ 31
    → IsFirst text pattern (index_of (str_search_double_loop text pattern))
      × ((str_search_double_loop text pattern ≡ 2 ^ 32 - 1)
          ⊎ (str_search_double_loop text pattern < 2 ^ 31))
unfolding str_search_double_loop
str_search_double_loop-IsFirst text pattern h =
    let first = find_double_loop-IsFirst text pattern in
    elim (Option-cases (find_double_loop text pattern)) [
      | inl e ↦ rw e (subst (IsFirst text pattern) e first, inl refl)
      | inr (i, e) ↦
          let found = subst (IsFirst text pattern) e first in
          let bound = IsFirst-bound text pattern i found in
          let same : i % 2 ^ 32 ≡ i = omega arith in
          let small = lt→ltb i (2 ^ 31) (omega arith) in
          rw e (rw same (rw small (found, inr (omega arith))))
    ]
