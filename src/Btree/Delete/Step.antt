-- ===== src/Btree/Delete/Step.antt =====
-- `delete_recursive` of src/btree.rs for a key that the tree holds.
use bazzulto_bafs.Base.{
  ℕ, zero, suc, ◌+◌, ◌^◌, ◌≤◌, ◌<◌, ◌≡◌, refl, sym, ap, ◌∙◌, ◌++◌, ◌∷◌, [], List, length, true,
  some, get_elem?, remove_at, modify_at, length-modify_at, arith,
}
use mathlib.Core.Path.{subst}
use bazzulto_bafs.Bytes.{Bytes, All}
use bazzulto_bafs.Device.{Reader}
use bazzulto_bafs.Error.{ok, err, not_found}
use bazzulto_bafs.Btree.Key.{BafsKey, IsKey, rank}
use bazzulto_bafs.Btree.Node.{
  BafsTreeNode, BafsInternalItem, leaf_serialised_size, total_value_bytes,
}
use bazzulto_bafs.Btree.Codec.Items.{IsInternalItem}
use bazzulto_bafs.Btree.Codec.RoundTrip.{IsLeafNode}
use bazzulto_bafs.Btree.Cache.{TreeState, read_tree_node}
use bazzulto_bafs.Btree.Map.{Items, Within, find, remove, remove-append_left, remove-append_right}
use bazzulto_bafs.Btree.Map.Sizes.{
  All-remove, remove-Within, length-remove, total_value_bytes-remove,
}
use bazzulto_bafs.Btree.Search.{
  SearchResult, found, insertion, search_leaf, find_child_index_for_key,
}
use bazzulto_bafs.Btree.Search.Leaf.{Searched, search_leaf_lem}
use bazzulto_bafs.Btree.Search.Anchors.{IsAnchored-set}
use bazzulto_bafs.Btree.Search.Child.{Children, set_child}
use bazzulto_bafs.Btree.Search.Route.{route_lem}
use bazzulto_bafs.Btree.Insert.{write_clone}
use bazzulto_bafs.Btree.Lookup.Refines.{find_in_part}
use bazzulto_bafs.Btree.Tree.{
  view, IsSmall, IsTree, IsTree-Within, IsTree-allocated, Extends, Extends-trans, IsTree-Extends,
}
use bazzulto_bafs.Btree.Tree.Clone.{clone_leaf, clone_internal}
use bazzulto_bafs.Btree.Delete.{remove_from_leaf, delete_in_leaf, delete_recursive}

-- The items of an internal node with another child fit their widths.
pub items_fit-modify :
    (i block generation : ℕ) (items : List BafsInternalItem)
    → block < 2 ^ 64
    → generation < 2 ^ 64
    → All IsInternalItem items
    → All IsInternalItem (modify_at i (set_child block generation) items)
unfolding modify_at
items_fit-modify i block generation [] b g h = tt
items_fit-modify zero block generation (x ∷ xs) b g (h, hs) =
    (record { key_fits = h.key_fits; child_fits = b; generation_fits = g }, hs)
items_fit-modify (suc i) block generation (x ∷ xs) b g (h, hs) =
    (h, items_fit-modify i block generation xs b g hs)

-- A leaf without the item of the key is a leaf.
remove_from_leaf_lem :
    (node : BafsTreeNode) (i r : ℕ) {value : Bytes}
    → IsLeafNode node
    → remove_at i node.leaf_items ≡ remove r node.leaf_items
    → find r node.leaf_items ≡ some value
    → IsLeafNode (remove_from_leaf node i)
unfolding leaf_serialised_size
remove_from_leaf_lem node i r h same f =
    let shorter : length (remove_at i node.leaf_items) + 1 ≡ length node.leaf_items =
      rw same (length-remove r node.leaf_items f) in
    let lighter : total_value_bytes (remove_at i node.leaf_items)
        ≤ total_value_bytes node.leaf_items =
      rw same (total_value_bytes-remove r node.leaf_items) in
    record {
      header = record {
        level_fits = h.header.level_fits;
        flags_fit = h.header.flags_fit;
        address_fits = h.header.address_fits;
        generation_fits = h.header.generation_fits;
      };
      is_leaf = h.is_leaf;
      keys_fit = rw same (All-remove (λ item. IsKey item.key) r node.leaf_items h.keys_fit);
      counted = omega (arith, h.counted, h.fits);
      no_children = h.no_children;
      fits = omega (arith, h.fits);
    }

module _ (device : Reader) (fuel block : ℕ) (k : BafsKey) (generation : ℕ) (s : TreeState)
    (node : BafsTreeNode) where
  pub delete_recursive-leaf :
      read_tree_node device s.dirty_cache block ≡ ok node
      → node.level ≡ 0
      → delete_recursive (suc fuel) device block k generation s
        ≡ delete_in_leaf node k generation block s
  unfolding delete_recursive
  delete_recursive-leaf e l = ground (arith, e)

  delete_recursive-internal :
      (child : BafsInternalItem) (new_block : ℕ) (s' : TreeState)
      → read_tree_node device s.dirty_cache block ≡ ok node
      → 0 < node.level
      → get_elem? node.internal_items (find_child_index_for_key node.internal_items k) ≡ some child
      → delete_recursive fuel device child.child_block k generation s ≡ (ok (new_block, true), s')
      → (out : ℕ) (s'' : TreeState)
      → write_clone
          (record node {
            internal_items =
                modify_at
                  (find_child_index_for_key node.internal_items k)
                  (set_child new_block generation)
                  node.internal_items;
          })
          generation
          block
          s'
        ≡ (ok out, s'')
      → delete_recursive (suc fuel) device block k generation s ≡ (ok (out, true), s'')
  unfolding delete_recursive
  delete_recursive-internal child new_block s' e l c rec out s'' w = ground (arith, e, c, rec, w)

-- The run of a deletion that finds its key, and the tree after it.
pub record Deletion (device : Reader) (fuel depth block lo hi : ℕ) (m : Items) (k : BafsKey)
    (generation : ℕ) (s : TreeState) : Type 0 where
  pub state : TreeState
  pub new_block : ℕ
  pub runs : delete_recursive fuel device block k generation s ≡ (ok (new_block, true), state)
  pub spent : state.next_free_block ≡ s.next_free_block + (depth + 1)
  pub tree :
      IsTree (view device state) state.next_free_block depth new_block lo hi (remove (rank k) m)
  pub extends : Extends (view device s) s.next_free_block (view device state) state.next_free_block

delete_in_leaf-found :
    (node : BafsTreeNode) (k : BafsKey) (generation block i : ℕ) (s s' : TreeState) (out : ℕ)
    → search_leaf node.leaf_items k ≡ found i
    → write_clone (remove_from_leaf node i) generation block s ≡ (ok out, s')
    → delete_in_leaf node k generation block s ≡ (ok (out, true), s')
unfolding delete_in_leaf
delete_in_leaf-found node k generation block i s s' out e w = ground (arith, e, w)

pub delete_in_leaf-insertion :
    (node : BafsTreeNode) (k : BafsKey) (generation block i : ℕ) (s : TreeState)
    → search_leaf node.leaf_items k ≡ insertion i
    → delete_in_leaf node k generation block s ≡ (err not_found, s)
unfolding delete_in_leaf
delete_in_leaf-insertion node k generation block i s e = ground (arith, e)

remove_in_part :
    (r lo low high hi : ℕ) (before held after : Items)
    → Within lo low before
    → Within high hi after
    → low ≤ r
    → r < high
    → remove r (before ++ (held ++ after)) ≡ before ++ (remove r held ++ after)
remove_in_part r lo low high hi before held after a b c d =
    remove-append_left r lo low before (held ++ after) a c
    ∙ ap (λ n. before ++ n) (remove-append_right r high hi held after b d)

module _ (device : Reader) (k : BafsKey) (kf : IsKey k) (generation : ℕ)
    (g : generation < 2 ^ 64) where
  delete-leaf :
      (fuel block lo hi : ℕ) (m : Items) (s : TreeState) {value : Bytes}
      → IsTree (view device s) s.next_free_block zero block lo hi m
      → find (rank k) m ≡ some value
      → s.next_free_block + 1 < 2 ^ 64
      → Deletion device (suc fuel) zero block lo hi m k generation s
  delete-leaf fuel block lo hi m s {value} t f free = go (search_leaf t.node.leaf_items k) refl (
      search_leaf_lem lo hi t.node.leaf_items k (subst (Within lo hi) (sym t.holds) t.sorted)
        t.shape.keys_fit kf)
    where
      f' : find (rank k) t.node.leaf_items ≡ some value
      f' = ap (find (rank k)) t.holds ∙ f

      go :
          (r : SearchResult)
          → search_leaf t.node.leaf_items k ≡ r
          → Searched t.node.leaf_items k r
          → Deletion device (suc fuel) zero block lo hi m k generation s
      go (insertion i) e miss = cc (f', miss.absent)
      go (found i) e hit =
          let c =
            clone_leaf device lo hi (remove (rank k) m) (remove_from_leaf t.node i) generation block
              s g free (remove_from_leaf_lem t.node i (rank k) t.shape hit.removed f')
              (hit.removed ∙ ap (remove (rank k)) t.holds) (All-remove IsSmall (rank k) m t.small)
              (remove-Within (rank k) lo hi m t.sorted) in
          record {
            state = c.state;
            new_block = s.next_free_block;
            runs =
                delete_recursive-leaf device fuel block k generation s t.node t.reads
                  t.shape.is_leaf
                ∙ delete_in_leaf-found t.node k generation block i s c.state s.next_free_block e
                    c.runs;
            spent = c.next;
            tree = c.tree;
            extends = c.extends;
          }

  pub delete_lem :
      (fuel depth block lo hi : ℕ) (m : Items) (s : TreeState) {value : Bytes}
      → IsTree (view device s) s.next_free_block depth block lo hi m
      → lo ≤ rank k
      → rank k < hi
      → depth < fuel
      → find (rank k) m ≡ some value
      → s.next_free_block + (depth + 1) < 2 ^ 64
      → Deletion device fuel depth block lo hi m k generation s
  delete_lem zero depth block lo hi m s t a b d f free = absurd (omega arith)
  delete_lem (suc fuel) zero block lo hi m s t a b d f free =
      delete-leaf fuel block lo hi m s t f (omega arith)
  delete_lem (suc fuel) (suc depth) block lo hi m s t a b d f free =
      let v = view device s in
      let items = t.node.internal_items in
      let i = find_child_index_for_key items k in
      let P = IsTree v s.next_free_block depth in
      let r =
        route_lem P (IsTree-Within v s.next_free_block depth) lo hi items m k t.children
          t.shape.items_fit kf a b in
      let f' =
        sym (
          find_in_part (rank k) lo r.low r.high hi r.before r.held r.after r.left r.right r.above
            r.below)
        ∙ sym (ap (find (rank k)) r.whole)
        ∙ f in
      let c =
        delete_lem fuel depth r.item.child_block r.low r.high r.held s r.child r.above r.below
          (omega arith) f' (omega arith) in
      let new_block_fits : c.new_block < 2 ^ 64 = omega (
        arith,
        c.spent,
        IsTree-allocated (view device c.state) c.state.next_free_block depth c.new_block r.low
            r.high _ c.tree,
      ) in
      let node : BafsTreeNode = record t.node {
        internal_items = modify_at i (set_child c.new_block generation) items;
      } in
      let same_length = length-modify_at i (set_child c.new_block generation) items in
      let w =
        clone_internal device lo hi (remove (rank k) m) node generation block c.state g
          (omega (arith, c.spent)) depth
          (record {
            header = record {
              level_fits = t.shape.header.level_fits;
              flags_fit = t.shape.header.flags_fit;
              address_fits = t.shape.header.address_fits;
              generation_fits = t.shape.header.generation_fits;
            };
            is_internal = t.shape.is_internal;
            items_fit =
                items_fit-modify i c.new_block generation items new_block_fits g t.shape.items_fit;
            counted = t.shape.counted ∙ sym same_length;
            no_values = t.shape.no_values;
            fits = rw same_length t.shape.fits;
          })
          t.level_is (rw same_length t.room)
          (IsAnchored-set lo i c.new_block generation items t.anchored)
          (λ state e.
            let whole =
              ap (remove (rank k)) r.whole
              ∙ remove_in_part (rank k) lo r.low r.high hi r.before r.held r.after r.left r.right
                  r.above r.below in
            let Q = IsTree (view device state) state.next_free_block depth in
            subst (Children Q lo hi node.internal_items) (sym whole) (
              r.keep Q
                (IsTree-Extends v s.next_free_block (view device state) state.next_free_block depth
                  (Extends-trans {u = view device state} {d = state.next_free_block} c.extends e))
                c.new_block generation (remove (rank k) r.held)
                (IsTree-Extends (view device c.state) c.state.next_free_block (view device state)
                  state.next_free_block depth e c.new_block r.low r.high (remove (rank k) r.held)
                  c.tree))) in
      record {
        state = w.state;
        new_block = c.state.next_free_block;
        runs =
            delete_recursive-internal device fuel block k generation s t.node r.item c.new_block
              c.state t.reads t.shape.is_internal r.at c.runs c.state.next_free_block w.state
              w.runs;
        spent = omega (arith, w.next, c.spent);
        tree = w.tree;
        extends =
            Extends-trans {u = view device w.state} {d = w.state.next_free_block} c.extends
              w.extends;
      }
