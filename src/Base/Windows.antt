-- ===== src/Base/Windows.antt =====
-- Lists cut in two.
use Prim.Native.Nat.{ℕ, zero, suc, ◌+◌, ◌-◌, ◌≤◌, min}
use mathlib.Core.Path.{◌≡◌, refl, ap}
use mathlib.Core.List.{List, [], ◌∷◌, ◌++◌}
use native.Mathlib.Omega.{arith}
use tkrzw.Base.Lists.{length, take, drop}

module _ {ℓ} {A : Type ℓ} where
  pub take_past :
      (n : ℕ) (p q : List A) → length p ≤ n → take n (p ++ q) ≡ p ++ take (n - length p) q
  take_past n [] q h = let e : n - 0 ≡ n = omega arith in rw e refl
  take_past zero (x ∷ p) q h = absurd (omega arith)
  take_past (suc n) (x ∷ p) q h =
      let e : suc n - suc (length p) ≡ n - length p = omega arith in
      rw e (ap (◌∷◌ x) (take_past n p q (omega arith)))

  pub take_all : (n : ℕ) (xs : List A) → length xs ≤ n → take n xs ≡ xs
  take_all zero [] h = refl
  take_all zero (x ∷ xs) h = absurd (omega arith)
  take_all (suc n) [] h = refl
  take_all (suc n) (x ∷ xs) h = ap (◌∷◌ x) (take_all n xs (omega arith))

  pub length-take : (n : ℕ) (xs : List A) → length (take n xs) ≡ min n (length xs)
  length-take zero xs = ground arith
  length-take (suc n) [] = ground arith
  length-take (suc n) (x ∷ xs) = ground (arith, length-take n xs)

  drop_nil : (b : ℕ) → drop {A = A} b [] ≡ []
  drop_nil zero = refl
  drop_nil (suc b) = refl

  pub drop-drop : (a b : ℕ) (xs : List A) → drop (a + b) xs ≡ drop b (drop a xs)
  drop-drop zero b xs = let e : 0 + b ≡ b = omega arith in rw e refl
  drop-drop (suc a) b [] = let e : suc a + b ≡ suc (a + b) = omega arith in rw (e, drop_nil b) refl
  drop-drop (suc a) b (x ∷ xs) =
      let e : suc a + b ≡ suc (a + b) = omega arith in rw e (drop-drop a b xs)

  pub drop_past : (n : ℕ) (p q : List A) → length p ≤ n → drop n (p ++ q) ≡ drop (n - length p) q
  drop_past n [] q h = let e : n - 0 ≡ n = omega arith in rw e refl
  drop_past zero (x ∷ p) q h = absurd (omega arith)
  drop_past (suc n) (x ∷ p) q h =
      let e : suc n - suc (length p) ≡ n - length p = omega arith in
      rw e (drop_past n p q (omega arith))

  pub length-drop : (n : ℕ) (xs : List A) → length (drop n xs) ≡ length xs - n
  length-drop zero xs = omega arith
  length-drop (suc n) [] = omega arith
  length-drop (suc n) (x ∷ xs) = omega (arith, length-drop n xs)

  pub append-take-drop : (n : ℕ) (xs : List A) → take n xs ++ drop n xs ≡ xs
  append-take-drop zero xs = refl
  append-take-drop (suc n) [] = refl
  append-take-drop (suc n) (x ∷ xs) = ap (◌∷◌ x) (append-take-drop n xs)

  pub drop_all : (n : ℕ) (xs : List A) → length xs ≤ n → drop n xs ≡ []
  drop_all zero [] h = refl
  drop_all zero (x ∷ xs) h = absurd (omega arith)
  drop_all (suc n) [] h = refl
  drop_all (suc n) (x ∷ xs) h = drop_all n xs (omega arith)

  pub take-add : (a b : ℕ) (xs : List A) → take (a + b) xs ≡ take a xs ++ take b (drop a xs)
  take-add zero b xs = let e : 0 + b ≡ b = omega arith in rw e refl
  take-add (suc a) zero [] = let e : suc a + 0 ≡ suc a = omega arith in rw e refl
  take-add (suc a) (suc b) [] = let e : suc a + suc b ≡ suc (a + suc b) = omega arith in rw e refl
  take-add (suc a) b (x ∷ xs) =
      let e : suc a + b ≡ suc (a + b) = omega arith in rw e (ap (◌∷◌ x) (take-add a b xs))
