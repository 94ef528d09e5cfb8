-- ===== src/Base/Lists.antt =====
-- Lists measured and indexed by native numbers, under the library's names.
use Prim.Native.Nat.{ℕ, zero, suc, ◌+◌, ◌≤◌, ◌<◌}
use mathlib.Core.Path.{◌≡◌, refl, ap}
use mathlib.Core.List.{List, [], ◌∷◌, ◌++◌}
use mathlib.Core.Option.{Option, none, some}
use native.Mathlib.Omega.{arith}

module _ {ℓ} {A : Type ℓ} where
  abbrev pub length : List A → ℕ
  length [] = 0
  length (x ∷ xs) = suc (length xs)

  abbrev pub get_elem? : List A → ℕ → Option A
  get_elem? [] i = none
  get_elem? (x ∷ xs) zero = some x
  get_elem? (x ∷ xs) (suc i) = get_elem? xs i

  unfoldable pub take : ℕ → List A → List A
  take zero xs = []
  take (suc n) [] = []
  take (suc n) (x ∷ xs) = x ∷ take n xs

  unfoldable pub drop : ℕ → List A → List A
  drop zero xs = xs
  drop (suc n) [] = []
  drop (suc n) (x ∷ xs) = drop n xs

  unfoldable pub replicate : ℕ → A → List A
  replicate zero a = []
  replicate (suc n) a = a ∷ replicate n a

  -- Vec::insert and Vec::remove at an index within the list.
  unfoldable pub insert_at : ℕ → A → List A → List A
  insert_at zero a xs = a ∷ xs
  insert_at (suc i) a [] = a ∷ []
  insert_at (suc i) a (x ∷ xs) = x ∷ insert_at i a xs

  unfoldable pub remove_at : ℕ → List A → List A
  remove_at i [] = []
  remove_at zero (x ∷ xs) = xs
  remove_at (suc i) (x ∷ xs) = x ∷ remove_at i xs

  unfoldable pub modify_at : ℕ → (A → A) → List A → List A
  modify_at i f [] = []
  modify_at zero f (x ∷ xs) = f x ∷ xs
  modify_at (suc i) f (x ∷ xs) = x ∷ modify_at i f xs

module _ {ℓ} {A : Type ℓ} where
  pub length-append : (xs ys : List A) → length (xs ++ ys) ≡ length xs + length ys
  length-append [] ys = omega arith
  length-append (x ∷ xs) ys = omega (arith, length-append xs ys)

  pub length-replicate : (n : ℕ) (a : A) → length (replicate n a) ≡ n
  unfolding replicate
  length-replicate zero a = refl
  length-replicate (suc n) a = ap suc (length-replicate n a)

  pub length-insert_at :
      (i : ℕ) (a : A) (xs : List A) → i ≤ length xs → length (insert_at i a xs) ≡ length xs + 1
  unfolding insert_at
  length-insert_at zero a xs h = omega arith
  length-insert_at (suc i) a [] h = absurd (omega arith)
  length-insert_at (suc i) a (x ∷ xs) h = omega (arith, length-insert_at i a xs)

  pub length-modify_at : (i : ℕ) (f : A → A) (xs : List A) → length (modify_at i f xs) ≡ length xs
  unfolding modify_at
  length-modify_at i f [] = refl
  length-modify_at zero f (x ∷ xs) = refl
  length-modify_at (suc i) f (x ∷ xs) = ap suc (length-modify_at i f xs)

  pub get_elem?-lt : (xs : List A) (i : ℕ) → i < length xs → (a : A) × (get_elem? xs i ≡ some a)
  get_elem?-lt [] i h = absurd (omega arith)
  get_elem?-lt (x ∷ xs) zero h = (x, refl)
  get_elem?-lt (x ∷ xs) (suc i) h = get_elem?-lt xs i (omega arith)

  pub get_elem?-inside : (xs : List A) (i : ℕ) {a : A} → get_elem? xs i ≡ some a → i < length xs
  get_elem?-inside [] i e = cc
  get_elem?-inside (x ∷ xs) zero e = omega arith
  get_elem?-inside (x ∷ xs) (suc i) e = omega (arith, get_elem?-inside xs i e)
