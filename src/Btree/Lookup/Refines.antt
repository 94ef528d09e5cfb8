-- ===== src/Btree/Lookup/Refines.antt =====
-- `lookup_in_tree` of src/btree.rs on a sound tree.
use bazzulto_bafs.Base.{
  ℕ, zero, suc, ◌≤◌, ◌<◌, ◌≡◌, refl, sym, ap, ◌∙◌, ◌==◌, ◌++◌, false, some, get_elem?, arith,
  ==_iff,
}
use mathlib.Core.Path.{subst}
use bazzulto_bafs.Bytes.{All}
use bazzulto_bafs.Device.{Reader}
use bazzulto_bafs.Error.{ok}
use bazzulto_bafs.Btree.Key.{BafsKey, IsKey, rank}
use bazzulto_bafs.Btree.Node.{BafsTreeNode, BafsInternalItem}
use bazzulto_bafs.Btree.Cache.{TreeState, DirtyCache, read_tree_node}
use bazzulto_bafs.Btree.Map.{Items, Within, find, find-append_left, find-append_right}
use bazzulto_bafs.Btree.Search.{
  SearchResult, found, insertion, search_leaf, find_child_index_for_key,
}
use bazzulto_bafs.Btree.Search.Leaf.{Searched, search_leaf_lem}
use bazzulto_bafs.Btree.Search.Route.{route_lem}
use bazzulto_bafs.Btree.Lookup.{max_depth, lookup_in_leaf, lookup_loop, lookup_in_tree}
use bazzulto_bafs.Btree.Tree.{view, IsTree, IsTree-Within}

lookup_in_leaf_lem :
    (lo hi : ℕ) (m : Items) (k : BafsKey)
    → Within lo hi m
    → All (λ item. IsKey item.key) m
    → IsKey k
    → lookup_in_leaf m k ≡ ok (find (rank k) m)
unfolding lookup_in_leaf
lookup_in_leaf_lem lo hi m k w fits kf =
    go (search_leaf m k) refl (search_leaf_lem lo hi m k w fits kf)
  where
    go :
        (r : SearchResult)
        → search_leaf m k ≡ r
        → Searched m k r
        → lookup_in_leaf m k ≡ ok (find (rank k) m)
    go (found i) e h = ground (arith, e, h.at, h.finds)
    go (insertion i) e h = ground (arith, e, h.absent)

module _ (device : Reader) (cache : DirtyCache) (fuel block : ℕ) (k : BafsKey)
    (node : BafsTreeNode) where
  lookup_loop-leaf :
      read_tree_node device cache block ≡ ok node
      → node.level ≡ 0
      → lookup_loop (suc fuel) device cache block k ≡ lookup_in_leaf node.leaf_items k
  unfolding lookup_loop
  lookup_loop-leaf e l = let here = (==_iff node.level 0).1 l in ground (arith, e)

  lookup_loop-internal :
      (child : BafsInternalItem)
      → read_tree_node device cache block ≡ ok node
      → 0 < node.level
      → get_elem? node.internal_items (find_child_index_for_key node.internal_items k) ≡ some child
      → lookup_loop (suc fuel) device cache block k
        ≡ lookup_loop fuel device cache child.child_block k
  unfolding lookup_loop
  lookup_loop-internal child e l c =
      let here : (node.level == 0) ≡ false = ground arith in ground (arith, e, c)

pub find_in_part :
    (r lo low high hi : ℕ) (before held after : Items)
    → Within lo low before
    → Within high hi after
    → low ≤ r
    → r < high
    → find r (before ++ (held ++ after)) ≡ find r held
find_in_part r lo low high hi before held after a b c d =
    find-append_left r lo low before (held ++ after) a c
    ∙ find-append_right r high hi held after b d

module _ (device : Reader) (s : TreeState) (bound : ℕ) (k : BafsKey) (kf : IsKey k) where
  lookup_loop_lem :
      (fuel depth block lo hi : ℕ) (m : Items)
      → IsTree (view device s) bound depth block lo hi m
      → lo ≤ rank k
      → rank k < hi
      → depth < fuel
      → lookup_loop fuel device s.dirty_cache block k ≡ ok (find (rank k) m)
  lookup_loop_lem zero depth block lo hi m t a b f = absurd (omega arith)
  lookup_loop_lem (suc fuel) zero block lo hi m t a b f =
      lookup_loop-leaf device s.dirty_cache fuel block k t.node t.reads t.shape.is_leaf
      ∙ ap (λ items. lookup_in_leaf items k) t.holds
      ∙ lookup_in_leaf_lem lo hi m k t.sorted
          (subst (All (λ item. IsKey item.key)) t.holds t.shape.keys_fit) kf
  lookup_loop_lem (suc fuel) (suc depth) block lo hi m t a b f =
      let P = IsTree (view device s) bound depth in
      let r =
        route_lem P (IsTree-Within (view device s) bound depth) lo hi t.node.internal_items m k
          t.children t.shape.items_fit kf a b in
      lookup_loop-internal device s.dirty_cache fuel block k t.node r.item t.reads
        t.shape.is_internal r.at
      ∙ lookup_loop_lem fuel depth r.item.child_block r.low r.high r.held r.child r.above r.below
          (omega arith)
      ∙ ap ok (
          sym (
            ap (find (rank k)) r.whole
            ∙ find_in_part (rank k) lo r.low r.high hi r.before r.held r.after r.left r.right
                r.above r.below))

  -- A lookup of a key of its width in a sound tree of fewer than 256 levels below its root
  -- returns, within the fuel of 256 nodes, what the map that the tree holds has under the key.
  pub lookup_in_tree_lem :
      (depth root lo hi : ℕ) (m : Items)
      → IsTree (view device s) bound depth root lo hi m
      → lo ≤ rank k
      → rank k < hi
      → depth < max_depth
      → lookup_in_tree device s.dirty_cache root k ≡ ok (find (rank k) m)
  unfolding lookup_in_tree
  lookup_in_tree_lem depth root lo hi m t a b f =
      lookup_loop_lem max_depth depth root lo hi m t a b f
