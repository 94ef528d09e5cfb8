-- ===== src/Btree/Search/Leaf.antt =====
-- The binary search of a leaf, on the sorted items of the abstract view.
use Prim.Native.Nat.Ordering.{lt, eq, gt}
use bazzulto_bafs.Base.{
  ℕ, zero, suc, ◌+◌, ◌-◌, ◌≤◌, ◌<◌, ◌≡◌, ◌⊎◌, inl, inr, refl, sym, ap, ◌≢◌, Bool-cases, ◌==◌,
  get_elem?-lt, none, some, Option-cases, [], ◌∷◌, length, get_elem?, insert_at, remove_at,
  modify_at, arith,
}
use mathlib.Core.Path.{subst}
use bazzulto_bafs.Bytes.{Bytes, All}
use bazzulto_bafs.Btree.Key.{BafsKey, IsKey, rank, cmp, cmp-rank, rank_injective}
use bazzulto_bafs.Btree.Node.{BafsLeafItem}
use bazzulto_bafs.Btree.Map.{Items, Within, find, put, remove, find_below, get_elem?-ge}
use bazzulto_bafs.Btree.Search.{SearchResult, found, insertion, search_leaf, compare_leaf_at}
use bazzulto_bafs.Btree.Search.Laws.{Found, binary_search_by_lem}

-- `leaf_items[index].value = value`
abbrev pub set_value : Bytes → BafsLeafItem → BafsLeafItem
set_value value item = record item { value = value }

abbrev KeysFit : Items → Type 0
KeysFit = All (λ item. IsKey item.key)

gt-ne-lt : gt ≢ lt
gt-ne-lt e = cc

gt-ne-eq : gt ≢ eq
gt-ne-eq e = cc

-- At a place: the item there, and how its rank compares.
abbrev At : Items → ℕ → (ℕ → Type 0) → Type 0
At m i P = (item : BafsLeafItem) × (get_elem? m i ≡ some item) × P (rank item.key)

fit_at :
    (m : Items) (i : ℕ) {item : BafsLeafItem}
    → KeysFit m
    → get_elem? m i ≡ some item
    → IsKey item.key
fit_at [] i h e = cc
fit_at (x ∷ xs) zero {item} (h, hs) e = let same : x ≡ item = cc in subst (λ y. IsKey y.key) same h
fit_at (x ∷ xs) (suc i) (h, hs) e = fit_at xs i hs e

-- What is found at an index, and what the operations at that index do to the map.
pub record Hit (m : Items) (k : BafsKey) (i : ℕ) : Type 0 where
  pub item : BafsLeafItem
  pub at : get_elem? m i ≡ some item
  pub finds : find (rank k) m ≡ some item.value
  pub replaced :
      (value : Bytes) → modify_at i (set_value value) m ≡ put (record { key = k; value = value }) m
  pub removed : remove_at i m ≡ remove (rank k) m

hit_go :
    (lo hi : ℕ) (m : Items) (k : BafsKey) (i : ℕ) (item : BafsLeafItem)
    → Within lo hi m
    → get_elem? m i ≡ some item
    → item.key ≡ k
    → (find (rank k) m ≡ some item.value)
      × ((value : Bytes)
          → modify_at i (set_value value) m ≡ put (record { key = k; value = value }) m)
      × (remove_at i m ≡ remove (rank k) m)
unfolding find modify_at put remove remove_at
hit_go lo hi [] k i item w e same = cc
hit_go lo hi (x ∷ xs) k zero item w e same =
    let x_is : x ≡ item = cc in
    let r : rank x.key ≡ rank k = cc in (ground arith, λ value. ground arith, ground arith)
hit_go lo hi (x ∷ xs) k (suc i) item (l, w) e same =
    let (f, p, q) = hit_go (rank x.key + 1) hi xs k i item w e same in
    let later : rank x.key < rank item.key =
      omega (arith, get_elem?-ge (rank x.key + 1) hi xs i w e) in
    let r : rank item.key ≡ rank k = ap rank same in
    (ground arith, λ value. ground (arith, p value), ground arith)

-- A place where the key would stand: smaller items before it and larger ones from it on.
abbrev Before : Items → ℕ → ℕ → Type 0
Before m zero r = Unit
Before m (suc j) r = At m j (λ q. q < r)

abbrev From : Items → ℕ → ℕ → Type 0
From m i r = (i ≡ length m) ⊎ At m i (λ q. r < q)

pub record Miss (m : Items) (k : BafsKey) (i : ℕ) : Type 0 where
  pub in_range : i ≤ length m
  pub absent : find (rank k) m ≡ none
  pub inserted :
      (value : Bytes)
      → insert_at i (record { key = k; value = value }) m
        ≡ put (record { key = k; value = value }) m

miss_go :
    (lo hi : ℕ) (m : Items) (k : BafsKey) (i : ℕ)
    → Within lo hi m
    → Before m i (rank k)
    → From m i (rank k)
    → (find (rank k) m ≡ none)
      × ((value : Bytes)
          → insert_at i (record { key = k; value = value }) m
            ≡ put (record { key = k; value = value }) m)
unfolding find insert_at put
miss_go lo hi [] k zero w b f = (refl, λ value. refl)
miss_go lo hi [] k (suc i) w (item, e, h) f = cc
miss_go lo hi (x ∷ xs) k zero (l, w) b (inl e) = absurd (omega arith)
miss_go lo hi (x ∷ xs) k zero (l, w) b (inr (item, e, h)) =
    let same : x ≡ item = cc in
    let h' : rank k < rank x.key = subst (λ y. rank k < rank y.key) (sym same) h in
    let none_later = find_below (rank k) (rank x.key + 1) hi xs w (omega arith) in
    (ground (arith, none_later), λ value. ground arith)
miss_go lo hi (x ∷ xs) k (suc zero) (l, w) (item, e, h) f =
    let same : x ≡ item = cc in
    let h' : rank x.key < rank k = subst (λ y. rank y.key < rank k) (sym same) h in
    let (a, p) = miss_go (rank x.key + 1) hi xs k zero w tt (shift f) in
    (ground arith, λ value. ground (arith, p value))
  where
    shift : From (x ∷ xs) 1 (rank k) → From xs 0 (rank k)
    shift (inl e) = inl (omega arith)
    shift (inr a) = inr a
miss_go lo hi (x ∷ xs) k (suc (suc i)) (l, w) (item, e, h) f =
    let later : rank x.key < rank item.key =
      omega (arith, get_elem?-ge (rank x.key + 1) hi xs i w e) in
    let (a, p) = miss_go (rank x.key + 1) hi xs k (suc i) w (item, e, h) (shift f) in
    (ground arith, λ value. ground (arith, p value))
  where
    shift : From (x ∷ xs) (suc (suc i)) (rank k) → From xs (suc i) (rank k)
    shift (inl e) = inl (omega arith)
    shift (inr a) = inr a

module _ (m : Items) (k : BafsKey) (fits : KeysFit m) (kf : IsKey k) where
  at_lt : (i : ℕ) → compare_leaf_at m k i ≡ lt → At m i (λ q. q < rank k)
  at_lt i h = elim (Option-cases (get_elem? m i)) [
    | inl e ↦ absurd (gt-ne-lt (rw (e, compare_leaf_at) at h))
    | inr (item, e) ↦
        let h' : cmp item.key k ≡ lt = rw (e, compare_leaf_at) at h in
        (item, e, ground (arith, cmp-rank item.key k (fit_at m i fits e) kf))
  ]

  at_gt : (i : ℕ) → i < length m → compare_leaf_at m k i ≡ gt → At m i (λ q. rank k < q)
  at_gt i b h =
      let (item, e) = get_elem?-lt m i b in
      let h' : cmp item.key k ≡ gt = rw (e, compare_leaf_at) at h in
      (item, e, ground (arith, cmp-rank item.key k (fit_at m i fits e) kf))

  at_eq :
      (i : ℕ)
      → compare_leaf_at m k i ≡ eq
      → (item : BafsLeafItem) × (get_elem? m i ≡ some item) × (item.key ≡ k)
  at_eq i h = elim (Option-cases (get_elem? m i)) [
    | inl e ↦ absurd (gt-ne-eq (rw (e, compare_leaf_at) at h))
    | inr (item, e) ↦
        let h' : cmp item.key k ≡ eq = rw (e, compare_leaf_at) at h in
        let kfit = fit_at m i fits e in
        (item, e, rank_injective item.key k kfit kf (ground (arith, cmp-rank item.key k kfit kf)))
  ]

  Before-of : (i : ℕ) → (i ≡ 0) ⊎ (compare_leaf_at m k (i - 1) ≡ lt) → Before m i (rank k)
  Before-of zero h = tt
  Before-of (suc j) (inl e) = absurd (omega arith)
  Before-of (suc j) (inr e) = let same : suc j - 1 ≡ j = omega arith in at_lt j (rw same at e)

  From-of :
      (i : ℕ) → i ≤ length m → (i ≡ length m) ⊎ (compare_leaf_at m k i ≡ gt) → From m i (rank k)
  From-of i b (inl e) = inl e
  From-of i b (inr e) = elim (Bool-cases (i == length m)) [
    | inl same ↦ inl (ground arith)
    | inr other ↦ inr (at_gt i (ground arith) e)
  ]

-- The search of a leaf decides between a hit and a miss.
abbrev pub Searched : Items → BafsKey → SearchResult → Type 0
Searched m k (found i) = Hit m k i
Searched m k (insertion i) = Miss m k i

-- The binary search of a leaf whose keys fit their widths and rise finds the index of the key,
-- where replacing or removing the item is what the map does, or the index at which inserting the
-- key is what the map does; it says found exactly if the map has the key.
pub search_leaf_lem :
    (lo hi : ℕ) (m : Items) (k : BafsKey)
    → Within lo hi m
    → All (λ item. IsKey item.key) m
    → IsKey k
    → Searched m k (search_leaf m k)
unfolding search_leaf
search_leaf_lem lo hi m k w fits kf =
    go (search_leaf m k) (binary_search_by_lem (length m) (compare_leaf_at m k))
  where
    go : (r : SearchResult) → Found (compare_leaf_at m k) (length m) r → Searched m k r
    go (found i) (b, e) =
        let (item, at, same) = at_eq m k fits kf i e in
        let (f, p, r) = hit_go lo hi m k i item w at same in
        record { item = item; at = at; finds = f; replaced = p; removed = r }
    go (insertion i) (b, before, from) =
        let (a, p) =
          miss_go lo hi m k i w (Before-of m k fits kf i before) (From-of m k fits kf i b from) in
        record { in_range = b; absent = a; inserted = p }
