-- ===== src/Btree/Lookup/Scan.antt =====
-- `iterate_tree_range` of src/btree.rs on a sound tree whose ranks start above 0: there every leftmost
-- separator is a lower bound of its node, so no child that matters is skipped.
use bazzulto_bafs.Base.{ℕ, zero, suc, ◌≤◌, ◌<◌, ◌≡◌, inl, inr, ap, ◌∙◌, ◌∷◌, [], List, arith}
use bazzulto_bafs.Bytes.{All}
use bazzulto_bafs.Device.{Reader}
use bazzulto_bafs.Error.{ok}
use bazzulto_bafs.Btree.Key.{BafsKey, IsKey, rank, rank_limit}
use bazzulto_bafs.Btree.Node.{BafsInternalItem}
use bazzulto_bafs.Btree.Cache.{TreeState}
use bazzulto_bafs.Btree.Map.{Items, between}
use bazzulto_bafs.Btree.Search.Anchors.{IsAnchored}
use bazzulto_bafs.Btree.Search.Child.{Claim, Children}
use bazzulto_bafs.Btree.Tree.{view, IsTree, IsTree-Within}
use bazzulto_bafs.Btree.Lookup.{max_depth, collect_range, iterate_tree_range}
use bazzulto_bafs.Btree.Lookup.Range.{
  Head, collect_children_lem, collect_range-leaf, collect_range-internal, filter_range_lem,
}

-- A claim on a subtree whose ranks start above 0.
abbrev Positive : Claim → Claim
Positive P block lo hi m = P block lo hi m × (0 < lo)

Children-Positive :
    (P : Claim) (lo hi : ℕ) (items : List BafsInternalItem) (m : Items)
    → 0 < lo
    → Children P lo hi items m
    → Children (Positive P) lo hi items m
Children-Positive P lo hi [] m p h = absurd h
Children-Positive P lo hi (c ∷ []) m p h = (h, p)
Children-Positive P lo hi (c ∷ d ∷ rest) m p (m1, m2, e, l, h, hs) =
    (m1, m2, e, l, (h, p), Children-Positive P (rank d.key) hi (d ∷ rest) m2 (omega arith) hs)

All-Unit : (items : List BafsInternalItem) → All (λ _. Unit {0}) items
All-Unit [] = tt
All-Unit (_ ∷ rest) = (tt, All-Unit rest)

module _ (device : Reader) (s : TreeState) (bound : ℕ) (min_key max_key : BafsKey)
    (fmin : IsKey min_key) (fmax : IsKey max_key) where
  scan_from :
      (fuel depth block lo hi : ℕ) (m : Items)
      → hi ≤ rank_limit
      → IsTree (view device s) bound depth block lo hi m
      → 0 < lo
      → depth < fuel
      → collect_range fuel device s.dirty_cache min_key max_key block
        ≡ ok (between (rank min_key) (rank max_key) m)
  scan_from zero depth block lo hi m top t p d = absurd (omega arith)
  scan_from (suc fuel) zero block lo hi m top t p d =
      collect_range-leaf device s.dirty_cache min_key max_key fuel block t.node t.reads
        t.shape.is_leaf
      ∙ ap ok (filter_range_lem min_key max_key fmin fmax t.node.leaf_items t.shape.keys_fit)
      ∙ ap (λ items. ok (between (rank min_key) (rank max_key) items)) t.holds
  scan_from (suc fuel) (suc depth) block lo hi m top t p d =
      let P = IsTree (view device s) bound depth in
      collect_range-internal device s.dirty_cache min_key max_key fuel block t.node t.reads
        t.shape.is_internal
      ∙ collect_children_lem min_key max_key fmin fmax
          (collect_range fuel device s.dirty_cache min_key max_key) (Positive P) (λ _. Unit {0})
          (λ b l h n q. IsTree-Within (view device s) bound depth b l h n q.0)
          (λ b l h n top' q _. scan_from fuel depth b l h n top' q.0 q.1 (omega arith)) lo hi
          t.node.internal_items m top
          (Children-Positive P lo hi t.node.internal_items m p t.children) t.shape.items_fit
          (All-Unit t.node.internal_items) (first t.node.internal_items t.anchored)
    where
      first :
          (items : List BafsInternalItem)
          → IsAnchored lo items
          → Head min_key max_key fmin fmax
              (collect_range fuel device s.dirty_cache min_key max_key)
              lo
              items
      first [] h = tt
      first (c ∷ _) (inl z) = absurd (omega arith)
      first (c ∷ _) (inr below) = inr below

  -- The range scan between two keys of their widths of a sound tree of fewer than 256 levels below
  -- its root whose ranks start above 0 returns the items of the map whose keys lie between the two
  -- keys, in order.
  pub scan_lem :
      (depth root lo : ℕ) (m : Items)
      → IsTree (view device s) bound depth root lo rank_limit m
      → 0 < lo
      → depth < max_depth
      → iterate_tree_range device s.dirty_cache root min_key max_key
        ≡ ok (between (rank min_key) (rank max_key) m)
  unfolding iterate_tree_range
  scan_lem depth root lo m t p d =
      scan_from max_depth depth root lo rank_limit m (omega arith) t p d
