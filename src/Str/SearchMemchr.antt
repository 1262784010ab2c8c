-- ===== src/Str/SearchMemchr.antt =====
-- `StrSearchMemchr` (tkrzw_str_util.cc), which looks for the first byte of the pattern, against the
-- double loop.
use mathlib.Core.Option.{map}
use mathlib.Core.Path.{subst}
use tkrzw.Base.{
  ℕ, zero, suc, ◌+◌, ◌-◌, ◌≤◌, ◌≡◌, ◌==◌, refl, ap, ◌∙◌, sym, arith, [], ◌∷◌, Option, none, some,
  Bytes, Bool, true, false, ltb, length, drop, ≥→ltb, Bool-cases, inl, inr, Option-cases, ==_refl,
  eqb, if◌then◌else◌, ◌<◌, ◌^◌, take, take_all, from_int32, from_int32_lem, ap₂,
}
use tkrzw.Str.Search.{
  matches, search_loop, find_double_loop, int32_result, str_search_double_loop, memchr, same,
  memchr_loop, starts, str_search_memchr,
}

-- A hit, or what comes later.
abbrev here_or : Bool → ℕ → Option ℕ → Option ℕ
here_or hit i later = if hit then some i else later

same-matches : (text pattern : Bytes) → same text pattern ≡ matches text pattern
unfolding matches eqb
same-matches [] [] = refl
same-matches (c ∷ text) [] = refl
same-matches [] (p ∷ ps) = refl
same-matches (c ∷ text) (p ∷ ps) = ground (arith, same-matches text ps)

shift :
    (start step : ℕ) (o : Option ℕ)
    → map (λ i. start + i) (map (λ i. step + i) (map suc o)) ≡ map (λ i. start + step + 1 + i) o
shift start step none = refl
shift start step (some i) = ap some (omega arith)

module _ (first : ℕ) (rest : Bytes) where
  abbrev pattern : Bytes
  pattern = first ∷ rest

  -- Without the first byte the pattern does not stand at any start.
  memchr-none :
      (size : ℕ) (text : Bytes)
      → memchr size first text ≡ none
      → search_loop size text pattern ≡ none
  unfolding memchr search_loop matches
  memchr-none zero text h = refl
  memchr-none (suc size) [] h = refl
  memchr-none (suc size) (x ∷ text) h = elim (Option-cases (memchr size first text)) [
    | inl e ↦ ground (arith, memchr-none size text e)
    | inr (i, e) ↦ ground (arith, e)
  ]

  -- The first byte stands behind `step` others, and the search goes on there.
  abbrev Found : ℕ → Bytes → ℕ → Type 0
  Found size text step =
      (suc step ≤ size)
      × (drop step text ≡ first ∷ drop (step + 1) text)
      × (search_loop size text pattern
          ≡ map (λ i. step + i) (search_loop (size - step) (drop step text) pattern))

  map_zero : (o : Option ℕ) → o ≡ map (λ i. 0 + i) o
  map_zero none = refl
  map_zero (some i) = ap some (omega arith)

  map-suc : (step : ℕ) (o : Option ℕ) → map suc (map (λ i. step + i) o) ≡ map (λ i. suc step + i) o
  map-suc step none = refl
  map-suc step (some i) = ap some (omega arith)

  Found-here : (size x : ℕ) (text : Bytes) → (x == first) ≡ true → Found (suc size) (x ∷ text) 0
  Found-here size x text e =
      let same_byte : x ≡ first = ground arith in
      let whole : suc size - 0 ≡ suc size = omega arith in
      (
        omega arith,
        ap (λ y. y ∷ text) same_byte,
        rw whole (map_zero (search_loop (suc size) (x ∷ text) pattern)),
      )

  Found-later :
      (size x : ℕ) (text : Bytes) (i : ℕ)
      → (x == first) ≡ false
      → Found size text i
      → Found (suc size) (x ∷ text) (suc i)
  Found-later size x text i e (l, d, s) =
      let one : suc i + 1 ≡ suc (i + 1) = omega arith in
      let left : suc size - suc i ≡ size - i = omega arith in
      let passed : search_loop (suc size) (x ∷ text) pattern
          ≡ map suc (search_loop size text pattern) =
        unfold search_loop matches in rw e refl in
      (
        omega arith,
        rw one d,
        rw left
            (passed ∙ ap (map suc) s ∙ map-suc i (search_loop (size - i) (drop i text) pattern)),
      )

  memchr-some :
      (size : ℕ) (text : Bytes) (step : ℕ)
      → memchr size first text ≡ some step
      → Found size text step
  unfolding memchr
  memchr-some zero text step h = cc
  memchr-some (suc size) [] step h = cc
  memchr-some (suc size) (x ∷ text) step h = elim (Bool-cases (x == first)) [
    | inl e ↦
        let at : 0 ≡ step = ground (arith, e, h) in
        subst (Found (suc size) (x ∷ text)) at (Found-here size x text e)
    | inr e ↦ elim (Option-cases (memchr size first text)) [
      | inl n ↦ absurd (ground (arith, e, n))
      | inr (i, found) ↦
          let at : suc i ≡ step = ground (arith, e, h, found) in
          subst (Found (suc size) (x ∷ text)) at
            (Found-later size x text i e (memchr-some size text i found))
    ]
  ]

  -- One start, and the others.
  search_loop-step :
      (size : ℕ) (behind : Bytes)
      → search_loop (suc size) (first ∷ behind) pattern
        ≡ here_or (same behind rest) 0 (map suc (search_loop size behind pattern))
  unfolding search_loop matches
  search_loop-step size behind =
      let here : matches (first ∷ behind) pattern ≡ same behind rest =
        rw (==_refl first) (sym (same-matches behind rest)) in
      ap (λ b. (if b then some 0 else map suc (search_loop size behind pattern))) here

  -- What the search finds from a start at which the first byte stands.
  found_lem :
      (size start : ℕ) (current : Bytes) (step : ℕ)
      → Found size current step
      → map (λ i. start + i) (search_loop size current pattern)
        ≡ here_or (same (drop (step + 1) current) rest) (start + step) (
            map
              (λ i. start + step + 1 + i)
              (search_loop (size - (step + 1)) (drop (step + 1) current) pattern))
  found_lem size start current step (l, d, s) =
      let behind = drop (step + 1) current in
      let left = size - (step + 1) in
      let one : size - step ≡ suc left = omega arith in
      let found : search_loop (size - step) (drop step current) pattern
          ≡ here_or (same behind rest) 0 (map suc (search_loop left behind pattern)) =
        ap (λ n. search_loop n (drop step current) pattern) one
        ∙ ap (λ c. search_loop (suc left) c pattern) d
        ∙ search_loop-step left behind in
      ap (map (λ i. start + i)) (s ∙ ap (map (λ i. step + i)) found)
      ∙ elim (Bool-cases (same behind rest)) [
        | inl e ↦ rw e (ap some (omega arith))
        | inr e ↦ rw e (shift start step (search_loop left behind pattern))
      ]

  module _ (fuel size start : ℕ) (current : Bytes) where
    loop-none :
        memchr size first current ≡ none
        → memchr_loop (suc fuel) size start current first rest ≡ none
    unfolding memchr_loop
    loop-none e = rw (memchr_loop, e) refl

    loop-some :
        (step : ℕ)
        → memchr size first current ≡ some step
        → memchr_loop (suc fuel) size start current first rest ≡ (
            if same (drop (step + 1) current) rest
            then some (start + step)
            else memchr_loop fuel
                (size - (step + 1))
                (start + step + 1)
                (drop (step + 1) current)
                first
                rest)
    unfolding memchr_loop
    loop-some step e = rw (memchr_loop, e) refl

  -- The loop of `StrSearchMemchr`, from any start, finds what the double loop finds.
  memchr_loop-search_loop :
      (fuel size start : ℕ) (current : Bytes)
      → size ≤ fuel
      → memchr_loop fuel size start current first rest
        ≡ map (λ i. start + i) (search_loop size current pattern)
  memchr_loop-search_loop zero zero start current h = unfold memchr_loop search_loop in refl
  memchr_loop-search_loop zero (suc size) start current h = absurd (omega arith)
  memchr_loop-search_loop (suc fuel) size start current h =
      elim (Option-cases (memchr size first current)) [
        | inl e ↦
            loop-none fuel size start current e
            ∙ sym (ap (map (λ i. start + i)) (memchr-none size current e))
        | inr (step, e) ↦
            let found = memchr-some size current step e in
            let behind = drop (step + 1) current in
            let rest_of =
              memchr_loop-search_loop fuel (size - (step + 1)) (start + step + 1) behind
                (omega (arith, found.0)) in
            loop-some fuel size start current step e
            ∙ ap (λ o. if same behind rest then some (start + step) else o) rest_of
            ∙ sym (found_lem size start current step found)
      ]

search_loop-nil : (rounds : ℕ) (text : Bytes) → search_loop (suc rounds) text [] ≡ some 0
unfolding search_loop matches
search_loop-nil rounds [] = refl
search_loop-nil rounds (c ∷ text) = refl

starts_lem : (n k : ℕ) → n < 2 ^ 31 → 1 ≤ k → k < 2 ^ 31 → starts n k ≡ n + 1 - k
starts_lem n k hn one hk = ground arith

-- `StrSearchMemchr` and `StrSearchDoubleLoop` give the same result for every text and every pattern of
-- less than 2 ^ 31 bytes.
pub str_search_memchr-str_search_double_loop :
    (text pattern : Bytes)
    → length text < 2 ^ 31
    → length pattern < 2 ^ 31
    → str_search_memchr text pattern ≡ str_search_double_loop text pattern
unfolding str_search_memchr str_search_double_loop find_double_loop
str_search_memchr-str_search_double_loop text [] ht hp =
    let fits = ≥→ltb (length text) 0 (omega arith) in
    let rounds : length text - 0 + 1 ≡ suc (length text) = omega arith in
    rw (fits, rounds) (ap int32_result (sym (search_loop-nil (length text) text)))
str_search_memchr-str_search_double_loop text (first ∷ rest) ht hp =
    let size = length text + 1 - suc (length rest) in
    let whole : take (from_int32 (length rest)) rest ≡ rest =
      ap (λ n. take n rest) (from_int32_lem (length rest) (omega arith))
      ∙ take_all (length rest) rest (omega arith) in
    ap₂ (λ n compared. int32_result (memchr_loop n n 0 text first compared))
      (starts_lem (length text) (suc (length rest)) ht (omega arith) hp) whole
    ∙ ap int32_result (
        memchr_loop-search_loop first rest size size 0 text (omega arith)
        ∙ sym (map_zero first rest (search_loop size text (first ∷ rest)))
        ∙ elim (Bool-cases (ltb (length text) (suc (length rest)))) [
          | inl e ↦
              let none_left : size ≡ 0 = ground (arith, e) in
              rw (e, none_left) (unfold search_loop in refl)
          | inr e ↦
              let same_size : size ≡ length text - suc (length rest) + 1 = ground (arith, e) in
              rw e (ap (λ n. search_loop n text (first ∷ rest)) same_size)
        ])
