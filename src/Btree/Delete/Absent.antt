-- ===== src/Btree/Delete/Absent.antt =====
-- `delete_recursive` of src/btree.rs for a key that the tree does not hold.
use bazzulto_bafs.Base.{
  ℕ, zero, suc, ◌≤◌, ◌<◌, ◌≡◌, refl, sym, ap, ◌∙◌, none, some, get_elem?, arith,
}
use mathlib.Core.Path.{subst}
use bazzulto_bafs.Device.{Reader}
use bazzulto_bafs.Error.{ok, err, not_found}
use bazzulto_bafs.Btree.Key.{BafsKey, IsKey, rank}
use bazzulto_bafs.Btree.Node.{BafsTreeNode, BafsInternalItem}
use bazzulto_bafs.Btree.Cache.{TreeState, read_tree_node}
use bazzulto_bafs.Btree.Map.{Items, Within, find}
use bazzulto_bafs.Btree.Search.{
  SearchResult, found, insertion, search_leaf, find_child_index_for_key,
}
use bazzulto_bafs.Btree.Search.Leaf.{Searched, search_leaf_lem}
use bazzulto_bafs.Btree.Search.Route.{route_lem}
use bazzulto_bafs.Btree.Lookup.Refines.{find_in_part}
use bazzulto_bafs.Btree.Tree.{view, IsTree, IsTree-Within}
use bazzulto_bafs.Btree.Delete.{delete_in_leaf, delete_recursive}
use bazzulto_bafs.Btree.Delete.Step.{delete_recursive-leaf, delete_in_leaf-insertion}

module _ (device : Reader) (fuel block : ℕ) (k : BafsKey) (generation : ℕ) (s : TreeState)
    (node : BafsTreeNode) where
  delete_recursive-absent :
      (child : BafsInternalItem)
      → read_tree_node device s.dirty_cache block ≡ ok node
      → 0 < node.level
      → get_elem? node.internal_items (find_child_index_for_key node.internal_items k) ≡ some child
      → delete_recursive fuel device child.child_block k generation s ≡ (err not_found, s)
      → delete_recursive (suc fuel) device block k generation s ≡ (err not_found, s)
  unfolding delete_recursive
  delete_recursive-absent child e l c rec = ground (arith, e, c, rec)

module _ (device : Reader) (k : BafsKey) (kf : IsKey k) (generation bound : ℕ) (s : TreeState) where
  pub absent_lem :
      (fuel depth block lo hi : ℕ) (m : Items)
      → IsTree (view device s) bound depth block lo hi m
      → lo ≤ rank k
      → rank k < hi
      → depth < fuel
      → find (rank k) m ≡ none
      → delete_recursive fuel device block k generation s ≡ (err not_found, s)
  absent_lem zero depth block lo hi m t a b d f = absurd (omega arith)
  absent_lem (suc fuel) zero block lo hi m t a b d f =
      delete_recursive-leaf device fuel block k generation s t.node t.reads t.shape.is_leaf
      ∙ go (search_leaf t.node.leaf_items k) refl (
          search_leaf_lem lo hi t.node.leaf_items k (subst (Within lo hi) (sym t.holds) t.sorted)
            t.shape.keys_fit kf)
    where
      f' : find (rank k) t.node.leaf_items ≡ none
      f' = ap (find (rank k)) t.holds ∙ f

      go :
          (r : SearchResult)
          → search_leaf t.node.leaf_items k ≡ r
          → Searched t.node.leaf_items k r
          → delete_in_leaf t.node k generation block s ≡ (err not_found, s)
      go (found i) e hit = cc (f', hit.finds)
      go (insertion i) e miss = delete_in_leaf-insertion t.node k generation block i s e
  absent_lem (suc fuel) (suc depth) block lo hi m t a b d f =
      let items = t.node.internal_items in
      let r =
        route_lem (IsTree (view device s) bound depth) (IsTree-Within (view device s) bound depth)
          lo hi items m k t.children t.shape.items_fit kf a b in
      let f' =
        sym (
          find_in_part (rank k) lo r.low r.high hi r.before r.held r.after r.left r.right r.above
            r.below)
        ∙ sym (ap (find (rank k)) r.whole)
        ∙ f in
      delete_recursive-absent device fuel block k generation s t.node r.item t.reads
        t.shape.is_internal r.at
        (absent_lem fuel depth r.item.child_block r.low r.high r.held r.child r.above r.below
          (omega arith) f')
