-- ===== src/HashDbm/Patch.antt =====
-- Bytes that are written over others, and the bytes before and behind them.
use tkrzw.Base.{
  ℕ, zero, suc, ◌+◌, ◌-◌, ◌≤◌, ◌≡◌, refl, ap, ap₂, append_assoc, ◌∙◌, sym, arith, Bytes, [], ◌∷◌,
  ◌++◌, length, take, drop, length-append, take_append, drop_append, length-take, length-drop,
  drop-drop, drop_past, append-take-drop,
}

abbrev pub patch : Bytes → ℕ → Bytes → Bytes
patch c off w = take off c ++ (w ++ drop (off + length w) c)

pub drop_before : (n : ℕ) (p q : Bytes) → n ≤ length p → drop n (p ++ q) ≡ drop n p ++ q
drop_before zero p q h = refl
drop_before (suc n) [] q h = absurd (omega arith)
drop_before (suc n) (x ∷ p) q h = drop_before n p q (omega arith)

take_before : (n : ℕ) (p q : Bytes) → n ≤ length p → take n (p ++ q) ≡ take n p
take_before zero p q h = refl
take_before (suc n) [] q h = absurd (omega arith)
take_before (suc n) (x ∷ p) q h = ap (◌∷◌ x) (take_before n p q (omega arith))

-- A window in the first part.
pub window_before :
    (a n : ℕ) (p q : Bytes) → a + n ≤ length p → take n (drop a (p ++ q)) ≡ take n (drop a p)
window_before a n p q h =
    ap (take n) (drop_before a p q (omega arith))
    ∙ take_before n (drop a p) q (omega (arith, length-drop a p))

module _ (c : Bytes) (off : ℕ) (w : Bytes) (inside : off + length w ≤ length c) where
  abbrev front : Bytes
  front = take off c

  front-size : length front ≡ off
  front-size = omega (arith, length-take off c)

  pub length-patch : length (patch c off w) ≡ length c
  length-patch = omega (
    arith,
    front-size,
    length-append front (w ++ drop (off + length w) c),
    length-append w (drop (off + length w) c),
    length-drop (off + length w) c,
  )

  pub patch_behind : (a : ℕ) → off + length w ≤ a → drop a (patch c off w) ≡ drop a c
  patch_behind a h =
      let later = drop (off + length w) c in
      let rest = a - off - length w in
      let one : a - length front ≡ a - off = omega (arith, front-size) in
      let whole : off + length w + rest ≡ a = omega arith in
      drop_past a front (w ++ later) (omega (arith, front-size))
      ∙ ap (λ n. drop n (w ++ later)) one
      ∙ drop_past (a - off) w later (omega arith)
      ∙ sym (drop-drop (off + length w) rest c)
      ∙ ap (λ n. drop n c) whole

  pub patch_before : (a n : ℕ) → a + n ≤ off → take n (drop a (patch c off w)) ≡ take n (drop a c)
  patch_before a n h =
      window_before a n front (w ++ drop (off + length w) c) (omega (arith, front-size))
      ∙ sym (window_before a n front (drop off c) (omega (arith, front-size)))
      ∙ ap (λ b. take n (drop a b)) (append-take-drop off c)

  pub patch_same : take (length w) (drop off (patch c off w)) ≡ w
  patch_same =
      let later = drop (off + length w) c in
      ap (take (length w))
        (ap (λ n. drop n (patch c off w)) (sym front-size) ∙ drop_append front (w ++ later))
      ∙ take_append w later

  drop-patch : drop off (patch c off w) ≡ w ++ drop (off + length w) c
  drop-patch =
      ap (λ n. drop n (patch c off w)) (sym front-size)
      ∙ drop_append front (w ++ drop (off + length w) c)

  -- A window in the bytes that were written.
  pub patch_inside :
      (a n : ℕ) → a + n ≤ length w → take n (drop (off + a) (patch c off w)) ≡ take n (drop a w)
  patch_inside a n h =
      ap (take n) (drop-drop off a (patch c off w) ∙ ap (drop a) drop-patch)
      ∙ window_before a n w (drop (off + length w) c) h

  -- Bytes are written right behind.
  pub patch-patch : (v : Bytes) → patch (patch c off w) (off + length w) v ≡ patch c off (w ++ v)
  patch-patch v =
      let later = drop (off + length w) c in
      let past : take (off + length w) (patch c off w) ≡ front ++ w =
        ap (take (off + length w)) (sym (append_assoc front w later))
        ∙ ap (λ n. take n ((front ++ w) ++ later))
            (omega (arith, front-size, length-append front w))
        ∙ take_append (front ++ w) later in
      let rest : drop (off + length w + length v) (patch c off w) ≡ drop (off + length (w ++ v)) c =
        patch_behind (off + length w + length v) (omega arith)
        ∙ ap (λ n. drop n c) (omega (arith, length-append w v)) in
      ap₂ (λ x y. x ++ (v ++ y)) past rest
      ∙ append_assoc front w (v ++ drop (off + length (w ++ v)) c)
      ∙ ap (front ++◌) (sym (append_assoc w v (drop (off + length (w ++ v)) c)))
