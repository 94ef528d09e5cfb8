-- ===== src/Bytes/Everywhere.antt =====
-- Cutting a list at an index, and what stays true of all its elements.
use bazzulto_bafs.Base.{
  ℕ, zero, suc, ◌+◌, ◌≤◌, ◌≡◌, refl, ap, some, List, [], ◌∷◌, ◌++◌, length, get_elem?, take, drop,
  insert_at, remove_at, arith,
}
use mathlib.Core.Path.{subst}
use bazzulto_bafs.Bytes.{All}

module _ {ℓ} {A : Type ℓ} where
  pub length-take : (i : ℕ) (xs : List A) → i ≤ length xs → length (take i xs) ≡ i
  unfolding take
  length-take zero xs h = refl
  length-take (suc i) [] h = absurd (omega arith)
  length-take (suc i) (x ∷ xs) h = ap suc (length-take i xs (omega arith))

  pub length-drop : (i : ℕ) (xs : List A) → i ≤ length xs → length (drop i xs) + i ≡ length xs
  unfolding drop
  length-drop zero xs h = omega arith
  length-drop (suc i) [] h = absurd (omega arith)
  length-drop (suc i) (x ∷ xs) h = omega (arith, length-drop i xs)

  pub take-append-drop : (i : ℕ) (xs : List A) → take i xs ++ drop i xs ≡ xs
  unfolding take drop
  take-append-drop zero xs = refl
  take-append-drop (suc i) [] = refl
  take-append-drop (suc i) (x ∷ xs) = ap (λ ys. x ∷ ys) (take-append-drop i xs)

  pub take-remove_at : (i : ℕ) (xs : List A) → take i (remove_at i xs) ≡ take i xs
  unfolding take remove_at
  take-remove_at i [] = refl
  take-remove_at zero (x ∷ xs) = refl
  take-remove_at (suc i) (x ∷ xs) = ap (λ ys. x ∷ ys) (take-remove_at i xs)

  pub drop-remove_at :
      (i : ℕ) (xs : List A) {a : A}
      → get_elem? xs i ≡ some a
      → a ∷ drop i (remove_at i xs) ≡ drop i xs
  unfolding drop remove_at
  drop-remove_at i [] e = cc
  drop-remove_at zero (x ∷ xs) e = cc
  drop-remove_at (suc i) (x ∷ xs) e = drop-remove_at i xs e

  pub get_elem?-drop : (i : ℕ) (xs : List A) → get_elem? (drop i xs) 0 ≡ get_elem? xs i
  unfolding drop
  get_elem?-drop zero xs = refl
  get_elem?-drop (suc i) [] = refl
  get_elem?-drop (suc i) (x ∷ xs) = get_elem?-drop i xs

module _ {ℓ κ} {A : Type ℓ} (P : A → Type κ) where
  pub All-take : (i : ℕ) (xs : List A) → All P xs → All P (take i xs)
  unfolding take
  All-take zero xs h = tt
  All-take (suc i) [] h = tt
  All-take (suc i) (x ∷ xs) (h, hs) = (h, All-take i xs hs)

  pub All-drop : (i : ℕ) (xs : List A) → All P xs → All P (drop i xs)
  unfolding drop
  All-drop zero xs h = h
  All-drop (suc i) [] h = tt
  All-drop (suc i) (x ∷ xs) (h, hs) = All-drop i xs hs

  pub All-insert_at : (i : ℕ) (a : A) (xs : List A) → P a → All P xs → All P (insert_at i a xs)
  unfolding insert_at
  All-insert_at zero a xs p h = (p, h)
  All-insert_at (suc i) a [] p h = (p, tt)
  All-insert_at (suc i) a (x ∷ xs) p (h, hs) = (h, All-insert_at i a xs p hs)

  pub All-get : (xs : List A) (i : ℕ) {a : A} → All P xs → get_elem? xs i ≡ some a → P a
  All-get [] i h e = cc
  All-get (x ∷ xs) zero {a} (h, hs) e = let same : x ≡ a = cc in subst P same h
  All-get (x ∷ xs) (suc i) (h, hs) e = All-get xs i hs e
