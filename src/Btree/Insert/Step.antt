-- ===== src/Btree/Insert/Step.antt =====
-- `insert_recursive` of src/btree.rs on a sound tree.
use bazzulto_bafs.Base.{
  ℕ, zero, suc, ◌+◌, ◌*◌, ◌^◌, ◌≤◌, ◌<◌, ◌≡◌, ◌∙◌, length, Option, some, get_elem?,
  get_elem?-inside, arith,
}
use bazzulto_bafs.Bytes.{Bytes}
use bazzulto_bafs.Device.{Reader}
use bazzulto_bafs.Error.{ok}
use bazzulto_bafs.Btree.Key.{BafsKey, IsKey, rank}
use bazzulto_bafs.Btree.Node.{BafsTreeNode, BafsLeafItem, BafsInternalItem}
use bazzulto_bafs.Btree.Cache.{TreeState, read_tree_node}
use bazzulto_bafs.Btree.Map.{Items, put, put-Within}
use bazzulto_bafs.Btree.Search.{find_child_index_for_key}
use bazzulto_bafs.Btree.Search.Route.{route_lem}
use bazzulto_bafs.Btree.Tree.{view, IsTree, IsTree-Within, Extends-trans}
use bazzulto_bafs.Btree.Insert.{
  SplitResult, store_leaf, store_internal, put_in_leaf, update_child, insert_recursive,
}
use bazzulto_bafs.Btree.Insert.Outcome.{Insertion}
use bazzulto_bafs.Btree.Insert.Update.{put_in_leaf_lem}
use bazzulto_bafs.Btree.Insert.Leaf.{store_leaf_lem}
use bazzulto_bafs.Btree.Insert.Rebuild.{update_lem}
use bazzulto_bafs.Btree.Insert.Inner.{store_internal_lem}

module _ (device : Reader) (fuel block : ℕ) (key : BafsKey) (value : Bytes) (generation : ℕ)
    (s : TreeState) (node : BafsTreeNode) where
  insert_recursive-leaf :
      read_tree_node device s.dirty_cache block ≡ ok node
      → node.level ≡ 0
      → insert_recursive (suc fuel) device block key value generation s
        ≡ store_leaf (put_in_leaf node key value) generation block s
  unfolding insert_recursive
  insert_recursive-leaf e l = ground (arith, e)

  insert_recursive-internal :
      (child : BafsInternalItem) (new_block : ℕ) (up : Option SplitResult) (s' : TreeState)
      → read_tree_node device s.dirty_cache block ≡ ok node
      → 0 < node.level
      → get_elem? node.internal_items (find_child_index_for_key node.internal_items key)
        ≡ some child
      → insert_recursive fuel device child.child_block key value generation s
        ≡ (ok (new_block, up), s')
      → insert_recursive (suc fuel) device block key value generation s
        ≡ store_internal
            (update_child node
              (find_child_index_for_key node.internal_items key)
              generation
              new_block
              up)
            generation
            block
            s'
  unfolding insert_recursive
  insert_recursive-internal child new_block up s' e l c rec = ground (arith, e, c, rec)

module _ (device : Reader) (key : BafsKey) (value : Bytes) (generation : ℕ) (kf : IsKey key)
    (v : length value ≤ 267) (g : generation < 2 ^ 64) where
  abbrev new : BafsLeafItem
  new = record { key = key; value = value }

  pub insert_lem :
      (fuel depth block lo hi : ℕ) (m : Items) (s : TreeState)
      → IsTree (view device s) s.next_free_block depth block lo hi m
      → lo ≤ rank key
      → rank key < hi
      → depth < fuel
      → s.next_free_block + 2 * (depth + 1) < 2 ^ 64
      → Insertion device
          (insert_recursive fuel device block key value generation)
          (2 * (depth + 1))
          depth
          lo
          hi
          (put new m)
          s
  insert_lem zero depth block lo hi m s t a b d free = absurd (omega arith)
  insert_lem (suc fuel) zero block lo hi m s t a b d free =
      let c =
        store_leaf_lem device lo hi (put new m) (put_in_leaf t.node key value) generation block s g
          (omega arith)
          (put_in_leaf_lem lo hi t.node m key value t.shape t.holds t.small t.sorted kf v)
          (put-Within new lo hi m t.sorted a b) in
      record {
        state = c.state;
        result = c.result;
        runs =
            insert_recursive-leaf device fuel block key value generation s t.node t.reads
              t.shape.is_leaf
            ∙ c.runs;
        outcome = c.outcome;
        extends = c.extends;
        spent = c.spent;
      }
  insert_lem (suc fuel) (suc depth) block lo hi m s t a b d free =
      let w = view device s in
      let items = t.node.internal_items in
      let i = find_child_index_for_key items key in
      let r =
        route_lem (IsTree w s.next_free_block depth) (IsTree-Within w s.next_free_block depth) lo hi
          items m key t.children t.shape.items_fit kf a b in
      let c =
        insert_lem fuel depth r.item.child_block r.low r.high r.held s r.child r.above r.below
          (omega arith) (omega arith) in
      let u =
        update_lem device depth lo hi m t.node i new generation s c.state g (omega (arith, c.spent))
          t.shape t.level_is t.room t.anchored r c.extends c.result c.outcome
          (get_elem?-inside items i r.at) in
      let node = update_child t.node i generation c.result.0 c.result.1 in
      let o =
        store_internal_lem device depth lo hi (put new m) node generation block c.state g
          (omega (arith, c.spent)) u.shape u.level u.room u.anchored u.children in
      record {
        state = o.state;
        result = o.result;
        runs =
            insert_recursive-internal device fuel block key value generation s t.node r.item
              c.result.0 c.result.1 c.state t.reads t.shape.is_internal r.at c.runs
            ∙ o.runs;
        outcome = o.outcome;
        extends =
            Extends-trans {u = view device o.state} {d = o.state.next_free_block} c.extends
              o.extends;
        spent = omega (arith, o.spent, c.spent);
      }
