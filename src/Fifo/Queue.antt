-- ===== src/Fifo/Queue.antt =====
-- The specification: a queue of at most `cap` elements, oldest first.
use homemade_os.Base.{
  ℕ, Bool, true, false, Option, none, some, List, [], ◌∷◌, ◌++◌, ltb, if◌then◌else◌, length,
}

module _ {ℓ} {A : Type ℓ} where
  abbrev pub head? : List A → Option A
  head? [] = none
  head? (x ∷ q) = some x

  abbrev pub tail : List A → List A
  tail [] = []
  tail (x ∷ q) = q

  abbrev pub write : ℕ → List A → A → Bool × List A
  write cap q x = if ltb (length q) cap then (true, q ++ (x ∷ [])) else (false, q)

  abbrev pub overwrite : ℕ → List A → A → Bool × Option A × List A
  overwrite cap q x =
      if ltb (length q) cap
      then (true, none, q ++ (x ∷ []))
      else (false, head? q, tail q ++ (x ∷ []))

  abbrev pub read : List A → Option A × List A
  read q = (head? q, tail q)
