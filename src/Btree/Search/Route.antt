-- ===== src/Btree/Search/Route.antt =====
-- `find_child_index_for_key` of src/btree.rs on the children of a sound node.
use bazzulto_bafs.Base.{
  ℕ, zero, suc, ◌+◌, ◌≤◌, ◌<◌, ◌≡◌, ◌⊎◌, inl, inr, refl, sym, ◌==◌, Bool-cases, Option-cases,
  get_elem?-lt, some, true, false, List, [], ◌∷◌, length, get_elem?, arith,
}
use mathlib.Core.Path.{subst}
use mathlib.Core.Bool.{false≢true}
use bazzulto_bafs.Bytes.{All}
use bazzulto_bafs.Btree.Codec.Items.{IsInternalItem}
use bazzulto_bafs.Btree.Key.{BafsKey, IsKey, rank, key_le, key_le-rank}
use bazzulto_bafs.Btree.Node.{BafsInternalItem}
use bazzulto_bafs.Btree.Map.{Items, Within}
use bazzulto_bafs.Btree.Search.{find_child_index_for_key, internal_le_at}
use bazzulto_bafs.Btree.Search.Laws.{partition_point_lem}
use bazzulto_bafs.Btree.Search.Child.{Claim, Children, Fits, Routed, Children-route}

Children-ge :
    (P : Claim) (lo hi : ℕ) (items : List BafsInternalItem) (m : Items) (j : ℕ)
    {item : BafsInternalItem}
    → Children P lo hi items m
    → get_elem? items (suc j) ≡ some item
    → lo ≤ rank item.key
Children-ge P lo hi [] m j h e = absurd h
Children-ge P lo hi (c ∷ []) m j h e = cc
Children-ge P lo hi (c ∷ d ∷ rest) m zero {item} (m1, m2, _, l, h, hs) e =
    let same : d ≡ item = cc in subst (λ x. lo ≤ rank x.key) same l
Children-ge P lo hi (c ∷ d ∷ rest) m (suc j) (m1, m2, _, l, h, hs) e =
    omega (arith, Children-ge P (rank d.key) hi (d ∷ rest) m2 j hs e)

abbrev At : List BafsInternalItem → ℕ → (ℕ → Type 0) → Type 0
At items i C = (item : BafsInternalItem) × (get_elem? items i ≡ some item) × C (rank item.key)

Fits-of :
    (P : Claim) (lo hi : ℕ) (items : List BafsInternalItem) (m : Items) (i t : ℕ)
    → Children P lo hi items m
    → i < length items
    → (i ≡ 0) ⊎ At items i (λ q. q ≤ t)
    → (suc i ≡ length items) ⊎ At items (suc i) (λ q. t < q)
    → Fits items i t
Fits-of P lo hi [] m i t h b low up = absurd h
Fits-of P lo hi (c ∷ []) m zero t h b low up = tt
Fits-of P lo hi (c ∷ []) m (suc i) t h b low up = absurd (omega arith)
Fits-of P lo hi (c ∷ d ∷ rest) m zero t h b low (inl e) = absurd (omega arith)
Fits-of P lo hi (c ∷ d ∷ rest) m zero t h b low (inr (item, e, q)) =
    let same : d ≡ item = cc in subst (λ x. t < rank x.key) (sym same) q
Fits-of P lo hi (c ∷ d ∷ rest) m (suc i) t h b (inl e) up = absurd (omega arith)
Fits-of P lo hi (c ∷ d ∷ rest) m (suc zero) t (m1, m2, _, l, h, hs) b (inr (item, e, q)) up =
    let same : d ≡ item = cc in
    (
      subst (λ x. rank x.key ≤ t) (sym same) q,
      Fits-of P (rank d.key) hi (d ∷ rest) m2 zero t hs (omega arith) (inl refl) (shift up),
    )
  where
    shift :
        (2 ≡ length (c ∷ d ∷ rest)) ⊎ At (c ∷ d ∷ rest) 2 (λ q. t < q)
        → (1 ≡ length (d ∷ rest)) ⊎ At (d ∷ rest) 1 (λ q. t < q)
    shift (inl e) = inl (omega arith)
    shift (inr a) = inr a
Fits-of P lo hi (c ∷ d ∷ rest) m (suc (suc i)) t (m1, m2, _, l, h, hs) b (inr (item, e, q)) up = (
  omega (arith, Children-ge P (rank d.key) hi (d ∷ rest) m2 i hs e),
  Fits-of P (rank d.key) hi (d ∷ rest) m2 (suc i) t hs (omega arith) (inr (item, e, q)) (shift up),
)
  where
    shift :
        (suc (suc (suc i)) ≡ length (c ∷ d ∷ rest))
          ⊎ At (c ∷ d ∷ rest) (suc (suc (suc i))) (λ q. t < q)
        → (suc (suc i) ≡ length (d ∷ rest)) ⊎ At (d ∷ rest) (suc (suc i)) (λ q. t < q)
    shift (inl e) = inl (omega arith)
    shift (inr a) = inr a

key_at :
    (items : List BafsInternalItem) (i : ℕ) {item : BafsInternalItem}
    → All IsInternalItem items
    → get_elem? items i ≡ some item
    → IsInternalItem item
key_at [] i h e = cc
key_at (x ∷ xs) zero {item} (h, hs) e = let same : x ≡ item = cc in subst IsInternalItem same h
key_at (x ∷ xs) (suc i) (h, hs) e = key_at xs i hs e

module _ (items : List BafsInternalItem) (k : BafsKey) (fit : All IsInternalItem items)
    (kf : IsKey k) where
  le_at : (i : ℕ) → internal_le_at items k i ≡ true → At items i (λ q. q ≤ rank k)
  le_at i h = elim (Option-cases (get_elem? items i)) [
    | inl e ↦ absurd (false≢true (rw (e, internal_le_at) at h))
    | inr (item, e) ↦
        let h' : key_le item.key k ≡ true = rw (e, internal_le_at) at h in
        (item, e, ground (arith, key_le-rank item.key k (key_at items i fit e).key_fits kf))
  ]

  lt_at :
      (i : ℕ) → i < length items → internal_le_at items k i ≡ false → At items i (λ q. rank k < q)
  lt_at i b h =
      let (item, e) = get_elem?-lt items i b in
      let h' : key_le item.key k ≡ false = rw (e, internal_le_at) at h in
      (item, e, ground (arith, key_le-rank item.key k (key_at items i fit e).key_fits kf))

-- The index that the code computes is that of the child to which the key belongs.
pub find_child_index-Fits :
    (P : Claim) (lo hi : ℕ) (items : List BafsInternalItem) (m : Items) (k : BafsKey)
    → Children P lo hi items m
    → All IsInternalItem items
    → IsKey k
    → 0 < length items
    → Fits items (find_child_index_for_key items k) (rank k)
unfolding find_child_index_for_key
find_child_index-Fits P lo hi items m k h fit kf n =
    let b = partition_point_lem (length items) (internal_le_at items k) n in
    Fits-of P lo hi items m _ (rank k) h b.within (low _ b.holds) (up _ b.within b.fails)
  where
    low :
        (i : ℕ)
        → (i ≡ 0) ⊎ (internal_le_at items k i ≡ true)
        → (i ≡ 0) ⊎ At items i (λ q. q ≤ rank k)
    low i (inl e) = inl e
    low i (inr e) = inr (le_at items k fit kf i e)

    up :
        (i : ℕ)
        → i < length items
        → (i + 1 ≡ length items) ⊎ (internal_le_at items k (i + 1) ≡ false)
        → (suc i ≡ length items) ⊎ At items (suc i) (λ q. rank k < q)
    up i b (inl e) = inl (omega arith)
    up i b (inr e) = elim (Bool-cases (suc i == length items)) [
      | inl same ↦ inl (ground arith)
      | inr other ↦
          let step : i + 1 ≡ suc i = omega arith in
          inr (lt_at items k fit kf (suc i) (ground arith) (rw step at e))
    ]

-- The child of a key, with what the key's part of the map is.
pub route_lem :
    (P : Claim) (bounded : (b l h : ℕ) (n : Items) → P b l h n → Within l h n) (lo hi : ℕ)
    (items : List BafsInternalItem) (m : Items) (k : BafsKey)
    → Children P lo hi items m
    → All IsInternalItem items
    → IsKey k
    → lo ≤ rank k
    → rank k < hi
    → Routed P lo hi items m (find_child_index_for_key items k) (rank k)
route_lem P bounded lo hi items m k h fit kf a b =
    Children-route P bounded lo hi items m _ (rank k) h
      (find_child_index-Fits P lo hi items m k h fit kf (nonempty items h)) a b
  where
    nonempty : (l : List BafsInternalItem) → Children P lo hi l m → 0 < length l
    nonempty [] c = absurd c
    nonempty (x ∷ xs) c = omega arith
