-- ===== src/Btree/Search/Laws.antt =====
-- The places where the searches of the standard library end.
use Prim.Native.Nat.Ordering.{lt, eq, gt}
use bazzulto_bafs.Base.{
  ℕ, zero, suc, ◌+◌, ◌-◌, ◌/◌, ◌%◌, ◌≤◌, ◌<◌, ◌≡◌, ◌≢◌, ◌⊎◌, inl, inr, refl, Bool, true, false,
  Ordering, ltb, ◌==◌, if◌then◌else◌, Bool-cases, arith,
}
use bazzulto_bafs.Btree.Search.{
  SearchResult, found, insertion, search_loop, narrow, conclude, index_of, binary_search_by,
  partition_point,
}

pub record Ends (f : ℕ → Ordering) (size r : ℕ) : Type 0 where
  pub within : r < size
  pub not_above : (r ≡ 0) ⊎ (f r ≢ gt)
  pub next_above : (r + 1 ≡ size) ⊎ (f (r + 1) ≡ gt)

gt-cases : (o : Ordering) → (o ≡ gt) ⊎ (o ≢ gt)
gt-cases lt = inr (λ e. cc)
gt-cases eq = inr (λ e. cc)
gt-cases gt = inl refl

narrow_ne_gt : (o : Ordering) (base mid : ℕ) → o ≢ gt → narrow o base mid ≡ mid
narrow_ne_gt lt base mid h = refl
narrow_ne_gt eq base mid h = refl
narrow_ne_gt gt base mid h = absurd (h refl)

-- Above the range: nothing, or an element above the target, which may be the range's last.
abbrev Roof : (ℕ → Ordering) → ℕ → ℕ → ℕ → Type 0
Roof f total base size =
    (base + size ≡ total) ⊎ (f (base + size) ≡ gt) ⊎ ((1 < size) × (f (base + size - 1) ≡ gt))

halves : (size : ℕ) → (size - size / 2 ≡ size / 2) ⊎ (size - size / 2 ≡ size / 2 + 1)
halves size = elim (Bool-cases (size % 2 == 0)) [
  | inl even ↦ inl (let e : size % 2 ≡ 0 = ground arith in omega arith)
  | inr odd ↦ inr (let e : size % 2 ≢ 0 = ground arith in omega arith)
]

at_index : (f : ℕ → Ordering) {i j : ℕ} → f i ≡ gt → i ≡ j → f j ≡ gt
at_index f h e = rw e at h

Roof-mid :
    (f : ℕ → Ordering) (total base size : ℕ)
    → 1 < size
    → f (base + size / 2) ≡ gt
    → Roof f total base (size - size / 2)
Roof-mid f total base size h e = elim (halves size) [
  | inl same ↦ inr (inl (at_index f e (omega arith)))
  | inr more ↦ inr (inr (omega arith, at_index f e (omega arith)))
]

Roof-up :
    (f : ℕ → Ordering) (total base size : ℕ)
    → 1 < size
    → f (base + size / 2) ≢ gt
    → Roof f total base size
    → Roof f total (base + size / 2) (size - size / 2)
Roof-up f total base size h n (inl e) = inl (omega arith)
Roof-up f total base size h n (inr (inl e)) = inr (inl (at_index f e (omega arith)))
Roof-up f total base size h n (inr (inr (_, e))) = elim (Bool-cases (ltb 2 size)) [
  | inl more ↦
      let big : 2 < size = ground arith in inr (inr (omega arith, at_index f e (omega arith)))
  | inr two ↦ let e2 : size ≡ 2 = ground arith in absurd (n (at_index f e (omega arith)))
]

search_loop-Ends :
    (f : ℕ → Ordering) (total fuel base size : ℕ)
    → 0 < size
    → size ≤ fuel
    → base + size ≤ total
    → (base ≡ 0) ⊎ (f base ≢ gt)
    → Roof f total base size
    → Ends f total (search_loop f fuel base size)
unfolding search_loop
search_loop-Ends f total zero base size h1 h2 h3 lo hi = absurd (omega arith)
search_loop-Ends f total (suc fuel) base size h1 h2 h3 lo hi = elim (Bool-cases (ltb 1 size)) [
  | inl more ↦
      let many : 1 < size = ground arith in
      let mid = base + size / 2 in
      rw (more, search_loop)
        (elim (gt-cases (f mid)) [
          | inl e ↦ rw e (
              search_loop-Ends f total fuel base (size - size / 2) (omega arith) (omega arith)
                (omega arith) lo (Roof-mid f total base size many e))
          | inr n ↦ rw (narrow_ne_gt (f mid) base mid n) (
              search_loop-Ends f total fuel mid (size - size / 2) (omega arith) (omega arith)
                (omega arith) (inr n) (Roof-up f total base size many n hi))
        ])
  | inr done ↦
      let e : size ≡ 1 = ground arith in
      rw (done, search_loop)
        (record { within = omega arith; not_above = lo; next_above = last f total base size e hi })
]
  where
    last :
        (f : ℕ → Ordering) (total base size : ℕ)
        → size ≡ 1
        → Roof f total base size
        → (base + 1 ≡ total) ⊎ (f (base + 1) ≡ gt)
    last f total base size e (inl h) = inl (omega arith)
    last f total base size e (inr (inl h)) = inr (at_index f h (omega arith))
    last f total base size e (inr (inr (h, _))) = absurd (omega arith)

-- `partition_point(..) - 1` on a slice with an element, for any predicate.
pub record Boundary (pred : ℕ → Bool) (size r : ℕ) : Type 0 where
  pub within : r < size
  pub holds : (r ≡ 0) ⊎ (pred r ≡ true)
  pub fails : (r + 1 ≡ size) ⊎ (pred (r + 1) ≡ false)

Boundary-go :
    (size : ℕ) (pred : ℕ → Bool) (r : ℕ)
    → Ends (λ i. if pred i then lt else gt) size r
    → Boundary pred size (index_of (conclude (if pred r then lt else gt) r) - 1)
Boundary-go size pred r e = elim (Bool-cases (pred r)) [
  | inl yes_r ↦
      let same : r + 1 - 1 ≡ r = omega arith in
      rw (yes_r, same) (record { within = e.within; holds = inr yes_r; fails = next e.next_above })
  | inr no_r ↦
      let first : r ≡ 0 = is_first no_r e.not_above in
      let same : r - 1 ≡ r = omega arith in
      rw (no_r, same) (record { within = e.within; holds = inl first; fails = next e.next_above })
]
  where
    next :
        (r + 1 ≡ size) ⊎ ((if pred (r + 1) then lt else gt) ≡ gt)
        → (r + 1 ≡ size) ⊎ (pred (r + 1) ≡ false)
    next (inl h) = inl h
    next (inr h) = inr (ground arith)

    is_first : pred r ≡ false → (r ≡ 0) ⊎ ((if pred r then lt else gt) ≢ gt) → r ≡ 0
    is_first e (inl h) = h
    is_first e (inr h) = absurd (h (rw e))

pub partition_point_lem :
    (size : ℕ) (pred : ℕ → Bool) → 0 < size → Boundary pred size (partition_point size pred - 1)
unfolding partition_point binary_search_by
partition_point_lem size pred h =
    let nonempty : (size == 0) ≡ false = ground arith in
    rw (nonempty, partition_point)
      (Boundary-go size pred _ (
        search_loop-Ends (λ i. if pred i then lt else gt) size size 0 size h (omega arith)
          (omega arith) (inl refl) (inl (omega arith))))

-- `binary_search_by` on any slice.
abbrev pub Found : (ℕ → Ordering) → ℕ → SearchResult → Type 0
Found f size (found i) = (i < size) × (f i ≡ eq)
Found f size (insertion i) = (i ≤ size) × ((i ≡ 0) ⊎ (f (i - 1) ≡ lt)) × ((i ≡ size) ⊎ (f i ≡ gt))

Found-go :
    (f : ℕ → Ordering) (size r : ℕ) (o : Ordering)
    → f r ≡ o
    → Ends f size r
    → Found f size (conclude o r)
Found-go f size r lt e ends =
    (omega (arith, ends.within), inr (at_index_lt f e (omega arith)), ends.next_above)
  where
    at_index_lt : (f : ℕ → Ordering) {i j : ℕ} → f i ≡ lt → i ≡ j → f j ≡ lt
    at_index_lt f h e = rw e at h
Found-go f size r eq e ends = (ends.within, e)
Found-go f size r gt e ends = (omega (arith, ends.within), inl (first ends.not_above), inr e)
  where
    first : (r ≡ 0) ⊎ (f r ≢ gt) → r ≡ 0
    first (inl h) = h
    first (inr h) = absurd (h e)

pub binary_search_by_lem : (size : ℕ) (f : ℕ → Ordering) → Found f size (binary_search_by size f)
unfolding binary_search_by
binary_search_by_lem zero f = (omega arith, inl refl, inl refl)
binary_search_by_lem (suc n) f =
    let nonempty : (suc n == 0) ≡ false = ground arith in
    rw (nonempty, binary_search_by)
      (Found-go f (suc n) (search_loop f (suc n) 0 (suc n)) _ refl (
        search_loop-Ends f (suc n) (suc n) 0 (suc n) (omega arith) (omega arith) (omega arith)
          (inl refl) (inl (omega arith))))
