-- ===== src/Base/Slices.antt =====
-- `take` and `drop` at any place of two lists in a row.
use Prim.Native.Nat.{ℕ, zero, suc, ◌-◌, min}
use mathlib.Core.Path.{◌≡◌, refl, sym, ap, ◌∙◌}
use mathlib.Core.List.{List, [], ◌∷◌, ◌++◌}
use native.Mathlib.Omega.{arith}
use homemade_os.Base.Lists.{length, take, drop}

module _ {ℓ} {A : Type ℓ} where
  pub take_nil : (n : ℕ) → take {A = A} n [] ≡ []
  take_nil zero = refl
  take_nil (suc n) = refl

  pub drop_nil : (n : ℕ) → drop {A = A} n [] ≡ []
  drop_nil zero = refl
  drop_nil (suc n) = refl

  -- Both count on in the second list.
  pub take-of_append :
      (n : ℕ) (xs ys : List A) → take n (xs ++ ys) ≡ take n xs ++ take (n - length xs) ys
  take-of_append n [] ys =
      let all : n - 0 ≡ n = omega arith in
      ap (λ k. take k ys) (sym all) ∙ ap (λ l. l ++ take (n - 0) ys) (sym (take_nil n))
  take-of_append zero (x ∷ xs) ys =
      let none_left : 0 - suc (length xs) ≡ 0 = omega arith in ap (λ k. take k ys) (sym none_left)
  take-of_append (suc n) (x ∷ xs) ys =
      let rest : n - length xs ≡ suc n - suc (length xs) = omega arith in
      ap (λ l. x ∷ l) (take-of_append n xs ys ∙ ap (λ k. take n xs ++ take k ys) rest)

  pub drop-of_append :
      (n : ℕ) (xs ys : List A) → drop n (xs ++ ys) ≡ drop n xs ++ drop (n - length xs) ys
  drop-of_append n [] ys =
      let all : n - 0 ≡ n = omega arith in
      ap (λ k. drop k ys) (sym all) ∙ ap (λ l. l ++ drop (n - 0) ys) (sym (drop_nil n))
  drop-of_append zero (x ∷ xs) ys =
      let none_left : 0 - suc (length xs) ≡ 0 = omega arith in
      ap (λ k. (x ∷ xs) ++ drop k ys) (sym none_left)
  drop-of_append (suc n) (x ∷ xs) ys =
      let rest : n - length xs ≡ suc n - suc (length xs) = omega arith in
      drop-of_append n xs ys ∙ ap (λ k. drop n xs ++ drop k ys) rest

  -- Numbers that are the same up to the length take the same.
  pub take-min :
      (n m : ℕ) (xs : List A) → min n (length xs) ≡ min m (length xs) → take n xs ≡ take m xs
  take-min n m [] h = take_nil n ∙ sym (take_nil m)
  take-min zero zero (x ∷ xs) h = refl
  take-min zero (suc m) (x ∷ xs) h = absurd (omega arith)
  take-min (suc n) zero (x ∷ xs) h = absurd (omega arith)
  take-min (suc n) (suc m) (x ∷ xs) h = ap (λ l. x ∷ l) (take-min n m xs (omega arith))

  pub take-take : (n m : ℕ) (xs : List A) → take n (take m xs) ≡ take (min n m) xs
  take-take n m [] = ap (take n) (take_nil m) ∙ take_nil n ∙ sym (take_nil (min n m))
  take-take zero m (x ∷ xs) =
      let least : min 0 m ≡ 0 = omega arith in ap (λ k. take k (x ∷ xs)) (sym least)
  take-take (suc n) zero (x ∷ xs) =
      let least : min (suc n) 0 ≡ 0 = omega arith in ap (λ k. take k (x ∷ xs)) (sym least)
  take-take (suc n) (suc m) (x ∷ xs) =
      let least : suc (min n m) ≡ min (suc n) (suc m) = omega arith in
      ap (λ l. x ∷ l) (take-take n m xs) ∙ ap (λ k. take k (x ∷ xs)) least

  pub drop-take : (n m : ℕ) (xs : List A) → drop n (take m xs) ≡ take (m - n) (drop n xs)
  drop-take n m [] =
      ap (drop n) (take_nil m)
      ∙ drop_nil n
      ∙ sym (ap (take (m - n)) (drop_nil n) ∙ take_nil (m - n))
  drop-take zero m (x ∷ xs) = let all : m ≡ m - 0 = omega arith in ap (λ k. take k (x ∷ xs)) all
  drop-take (suc n) zero (x ∷ xs) =
      let none_left : 0 ≡ 0 - suc n = omega arith in ap (λ k. take k (drop n xs)) none_left
  drop-take (suc n) (suc m) (x ∷ xs) =
      let same : m - n ≡ suc m - suc n = omega arith in
      drop-take n m xs ∙ ap (λ k. take k (drop n xs)) same

  pub drop-append : (xs ys : List A) → drop (length xs) (xs ++ ys) ≡ ys
  drop-append [] ys = refl
  drop-append (x ∷ xs) ys = drop-append xs ys

  pub take-append : (xs ys : List A) → take (length xs) (xs ++ ys) ≡ xs
  take-append [] ys = refl
  take-append (x ∷ xs) ys = ap (λ l. x ∷ l) (take-append xs ys)
