-- ===== src/Bytes/Slices.antt =====
-- What a slice reads after a write in place.
use bazzulto_bafs.Base.{ℕ, zero, suc, ◌+◌, ◌≤◌, ◌≡◌, refl, ap, [], ◌∷◌, arith, length, drop}
use native.Mathlib.Nat.{zero-add, suc-add}
use bazzulto_bafs.Bytes.{Bytes, slice, overwrite}

pub length-overwrite : (p : ℕ) (bs xs : Bytes) → length (overwrite p bs xs) ≡ length xs
unfolding overwrite
length-overwrite zero [] xs = refl
length-overwrite zero (b ∷ bs) [] = refl
length-overwrite zero (b ∷ bs) (x ∷ xs) = ap suc (length-overwrite zero bs xs)
length-overwrite (suc p) bs [] = refl
length-overwrite (suc p) bs (x ∷ xs) = ap suc (length-overwrite p bs xs)

-- The bytes just written.
pub slice-overwrite :
    (p n : ℕ) (bs xs : Bytes)
    → length bs ≡ n
    → p + n ≤ length xs
    → slice p n (overwrite p bs xs) ≡ bs
unfolding slice overwrite
slice-overwrite zero zero [] xs e h = refl
slice-overwrite zero (suc n) [] xs e h = absurd (omega arith)
slice-overwrite zero n (b ∷ bs) [] e h = absurd (omega arith)
slice-overwrite zero zero (b ∷ bs) (x ∷ xs) e h = absurd (omega arith)
slice-overwrite zero (suc n) (b ∷ bs) (x ∷ xs) e h =
    ap (λ t. b ∷ t) (slice-overwrite zero n bs xs (omega arith) (omega arith))
slice-overwrite (suc p) n bs [] e h = absurd (omega arith)
slice-overwrite (suc p) n bs (x ∷ xs) e h = slice-overwrite p n bs xs e (omega arith)

-- Bytes before the write.
pub slice-overwrite_before :
    (q n p : ℕ) (bs xs : Bytes) → q + n ≤ p → slice q n (overwrite p bs xs) ≡ slice q n xs
unfolding slice overwrite
slice-overwrite_before zero zero zero bs xs h = refl
slice-overwrite_before zero zero (suc p) bs [] h = refl
slice-overwrite_before zero zero (suc p) bs (x ∷ xs) h = refl
slice-overwrite_before zero (suc n) zero bs xs h = absurd (omega arith)
slice-overwrite_before zero (suc n) (suc p) bs [] h = refl
slice-overwrite_before zero (suc n) (suc p) bs (x ∷ xs) h =
    ap (λ t. x ∷ t) (slice-overwrite_before zero n p bs xs (omega arith))
slice-overwrite_before (suc q) n zero bs xs h = absurd (omega arith)
slice-overwrite_before (suc q) n (suc p) bs [] h = refl
slice-overwrite_before (suc q) n (suc p) bs (x ∷ xs) h =
    slice-overwrite_before q n p bs xs (omega arith)

-- Bytes behind the write.
pub slice-overwrite_after :
    (q n p : ℕ) (bs xs : Bytes) → p + length bs ≤ q → slice q n (overwrite p bs xs) ≡ slice q n xs
unfolding slice overwrite
slice-overwrite_after q n zero [] xs h = refl
slice-overwrite_after q n zero (b ∷ bs) [] h = refl
slice-overwrite_after zero n zero (b ∷ bs) (x ∷ xs) h = absurd (omega arith)
slice-overwrite_after (suc q) n zero (b ∷ bs) (x ∷ xs) h =
    slice-overwrite_after q n zero bs xs (omega arith)
slice-overwrite_after q n (suc p) bs [] h = refl
slice-overwrite_after zero n (suc p) bs (x ∷ xs) h = absurd (omega arith)
slice-overwrite_after (suc q) n (suc p) bs (x ∷ xs) h =
    slice-overwrite_after q n p bs xs (omega arith)

pub drop-overwrite :
    (k p : ℕ) (bs xs : Bytes) → p + length bs ≤ k → drop k (overwrite p bs xs) ≡ drop k xs
unfolding drop overwrite
drop-overwrite k zero [] xs h = refl
drop-overwrite k zero (b ∷ bs) [] h = refl
drop-overwrite zero zero (b ∷ bs) (x ∷ xs) h = absurd (omega arith)
drop-overwrite (suc k) zero (b ∷ bs) (x ∷ xs) h = drop-overwrite k zero bs xs (omega arith)
drop-overwrite k (suc p) bs [] h = refl
drop-overwrite zero (suc p) bs (x ∷ xs) h = absurd (omega arith)
drop-overwrite (suc k) (suc p) bs (x ∷ xs) h = drop-overwrite k p bs xs (omega arith)

pub slice-drop : (k p n : ℕ) (xs : Bytes) → slice p n (drop k xs) ≡ slice (k + p) n xs
unfolding slice drop
slice-drop zero p n xs = rw zero-add
slice-drop (suc k) zero zero [] = rw suc-add
slice-drop (suc k) zero (suc n) [] = rw suc-add
slice-drop (suc k) (suc p) n [] = rw suc-add
slice-drop (suc k) p n (x ∷ xs) = rw suc-add (slice-drop k p n xs)
