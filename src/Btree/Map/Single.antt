-- ===== src/Btree/Map/Single.antt =====
-- The items between two equal keys: the one of that key, if there is one.
use bazzulto_bafs.Base.{
  ℕ, ◌+◌, ◌<◌, ◌≡◌, ◌⊎◌, refl, inl, inr, none, some, [], ◌∷◌, Bool-cases, ◌==◌, arith,
}
use bazzulto_bafs.Btree.Key.{rank}
use bazzulto_bafs.Btree.Node.{BafsLeafItem}
use bazzulto_bafs.Btree.Map.{Items, Within, find, between}

-- The map holds the item, alone under its rank.
pub record Single (r : ℕ) (m : Items) : Type 0 where
  pub item : BafsLeafItem
  pub has_rank : rank item.key ≡ r
  pub finds : find r m ≡ some item.value
  pub alone : between r r m ≡ item ∷ []

between_later :
    (r lo hi : ℕ) (m : Items) → Within lo hi m → r < lo → (between r r m ≡ []) × (find r m ≡ none)
unfolding between find
between_later r lo hi [] w h = (refl, refl)
between_later r lo hi (item ∷ rest) (l, w) h =
    let (e, f) = between_later r (rank item.key + 1) hi rest w (omega arith) in
    (ground (arith, e), ground (arith, f))

pub between-Single :
    (r lo hi : ℕ) (m : Items)
    → Within lo hi m
    → ((find r m ≡ none) × (between r r m ≡ [])) ⊎ Single r m
unfolding between find
between-Single r lo hi [] w = inl (refl, refl)
between-Single r lo hi (item ∷ rest) (l, w) = elim (Bool-cases (rank item.key == r)) [
  | inl same ↦
      let (e, f) = between_later r (rank item.key + 1) hi rest w (ground arith) in
      inr (record {
        item = item;
        has_rank = ground arith;
        finds = ground arith;
        alone = ground (arith, e);
      })
  | inr other ↦ elim (between-Single r (rank item.key + 1) hi rest w) [
    | inl (f, e) ↦ inl (ground (arith, f), ground (arith, e))
    | inr one ↦ inr (record {
      item = one.item;
      has_rank = one.has_rank;
      finds = let f = one.finds in ground (arith, f);
      alone = let e = one.alone in ground (arith, e);
    })
  ]
]
