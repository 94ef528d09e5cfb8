-- ===== src/Btree/Insert/Rebuild.antt =====
-- The parent of a changed child in `insert_recursive` of src/btree.rs.
use bazzulto_bafs.Base.{
  ℕ, suc, ◌+◌, ◌^◌, ◌≤◌, ◌<◌, ◌≡◌, sym, ap, ◌∙◌, ◌++◌, length, Option, none, some, insert_at,
  modify_at, length-modify_at, length-insert_at, arith,
}
use mathlib.Core.Path.{subst}
use mathlib.Core.List.{append_assoc}
use bazzulto_bafs.Bytes.Everywhere.{All-insert_at}
use bazzulto_bafs.Device.{Reader}
use bazzulto_bafs.Btree.Key.{rank}
use bazzulto_bafs.Btree.Node.{BafsTreeNode, BafsLeafItem, BafsInternalItem, internal_max_items}
use bazzulto_bafs.Btree.Codec.Items.{IsInternalItem}
use bazzulto_bafs.Btree.Codec.RoundTrip.{IsInternalNode}
use bazzulto_bafs.Btree.Cache.{TreeState}
use bazzulto_bafs.Btree.Map.{Items, Within, put, put-append_left, put-append_right}
use bazzulto_bafs.Btree.Search.Anchors.{IsAnchored, IsAnchored-set, IsAnchored-insert}
use bazzulto_bafs.Btree.Search.Child.{Children, Routed, set_child}
use bazzulto_bafs.Btree.Tree.{
  view, IsTree, IsTree-allocated, Extends, Extends-trans, IsTree-Extends,
}
use bazzulto_bafs.Btree.Delete.Step.{items_fit-modify}
use bazzulto_bafs.Btree.Insert.{SplitResult, update_child}
use bazzulto_bafs.Btree.Insert.Outcome.{Halves, Outcome}
use bazzulto_bafs.Btree.Insert.Inner.{Later}

put_in_part :
    (new : BafsLeafItem) (lo low high hi : ℕ) (before held after : Items)
    → Within lo low before
    → Within high hi after
    → low ≤ rank new.key
    → rank new.key < high
    → put new (before ++ (held ++ after)) ≡ before ++ (put new held ++ after)
put_in_part new lo low high hi before held after a b c d =
    put-append_left new lo low before (held ++ after) a c
    ∙ ap (λ n. before ++ n) (put-append_right new high hi held after b d)

-- The updated node, with its children at every later state.
pub record Updated (device : Reader) (depth lo hi : ℕ) (m : Items) (node : BafsTreeNode)
    (s : TreeState) : Type 0 where
  pub shape : IsInternalNode node
  pub level : node.level ≡ suc depth
  pub room : length node.internal_items ≤ internal_max_items + 1
  pub anchored : IsAnchored lo node.internal_items
  pub children : Later device depth lo hi node.internal_items m s

module _ (device : Reader) (depth lo hi : ℕ) (m : Items) (node : BafsTreeNode) (i : ℕ)
    (new : BafsLeafItem) (generation : ℕ) (s s' : TreeState) (g : generation < 2 ^ 64)
    (free : s'.next_free_block < 2 ^ 64) (shape : IsInternalNode node)
    (level : node.level ≡ suc depth) (room : length node.internal_items ≤ internal_max_items)
    (anchored : IsAnchored lo node.internal_items)
    (r : Routed
      (IsTree (view device s) s.next_free_block depth)
      lo
      hi
      node.internal_items
      m
      i
      (rank new.key))
    (e : Extends (view device s) s.next_free_block (view device s') s'.next_free_block) where
  abbrev whole : put new m ≡ r.before ++ (put new r.held ++ r.after)
  whole =
      ap (put new) r.whole
      ∙ put_in_part new lo r.low r.high hi r.before r.held r.after r.left r.right r.above r.below

  update_none :
      (block : ℕ)
      → IsTree (view device s') s'.next_free_block depth block r.low r.high (put new r.held)
      → Updated device depth lo hi (put new m) (update_child node i generation block none) s'
  unfolding update_child
  update_none block t =
      let same_length = length-modify_at i (set_child block generation) node.internal_items in
      let fits : block < 2 ^ 64 = omega (
        arith,
        IsTree-allocated (view device s') s'.next_free_block depth block r.low r.high
            (put new r.held) t,
      ) in
      record {
        shape = record {
          header = record {
            level_fits = shape.header.level_fits;
            flags_fit = shape.header.flags_fit;
            address_fits = shape.header.address_fits;
            generation_fits = shape.header.generation_fits;
          };
          is_internal = shape.is_internal;
          items_fit =
              items_fit-modify i block generation node.internal_items fits g shape.items_fit;
          counted = shape.counted ∙ sym same_length;
          no_values = shape.no_values;
          fits = rw same_length shape.fits;
        };
        level = level;
        room = omega (arith, same_length);
        anchored = IsAnchored-set lo i block generation node.internal_items anchored;
        children = λ state f.
            let Q = IsTree (view device state) state.next_free_block depth in
            subst (Children Q lo hi (modify_at i (set_child block generation) node.internal_items))
              (sym whole)
              (r.keep Q
                (IsTree-Extends (view device s) s.next_free_block (view device state)
                  state.next_free_block depth
                  (Extends-trans {u = view device state} {d = state.next_free_block} e f))
                block generation (put new r.held)
                (IsTree-Extends (view device s') s'.next_free_block (view device state)
                  state.next_free_block depth f block r.low r.high (put new r.held) t));
      }

  update_some :
      (block : ℕ) (up : SplitResult)
      → Halves (view device s') s'.next_free_block depth r.low r.high (put new r.held) block up
      → i < length node.internal_items
      → Updated device depth lo hi (put new m) (update_child node i generation block (some up)) s'
  unfolding update_child
  update_some block up h inside =
      let v = view device s' in
      let b = s'.next_free_block in
      let items = modify_at i (set_child block generation) node.internal_items in
      let item : BafsInternalItem = record {
        key = up.key;
        child_block = up.child_block;
        child_generation = generation;
      } in
      let same_length = length-modify_at i (set_child block generation) node.internal_items in
      let longer = length-insert_at (i + 1) item items (omega (arith, same_length)) in
      let next : i + 1 ≡ suc i = omega arith in
      let fits1 : block < 2 ^ 64 =
        omega (arith, IsTree-allocated v b depth block r.low (rank up.key) h.left h.left_tree) in
      let fits2 : up.child_block < 2 ^ 64 = omega (
        arith,
        IsTree-allocated v b depth up.child_block (rank up.key) r.high h.right h.right_tree,
      ) in
      record {
        shape = record {
          header = record {
            level_fits = shape.header.level_fits;
            flags_fit = shape.header.flags_fit;
            address_fits = shape.header.address_fits;
            generation_fits = shape.header.generation_fits;
          };
          is_internal = shape.is_internal;
          items_fit =
              All-insert_at IsInternalItem (i + 1) item items
                (record { key_fits = h.key_fits; child_fits = fits2; generation_fits = g })
                (items_fit-modify i block generation node.internal_items fits1 g shape.items_fit);
          counted = omega (arith, longer, same_length, shape.counted, room);
          no_values = shape.no_values;
          fits = omega (arith, longer, same_length, room);
        };
        level = level;
        room = omega (arith, longer, same_length, room);
        anchored =
            IsAnchored-insert lo (i + 1) item items (omega arith) (omega (arith, same_length))
              (IsAnchored-set lo i block generation node.internal_items anchored);
        children = λ state f.
            let Q = IsTree (view device state) state.next_free_block depth in
            let parts : put new m ≡ r.before ++ (h.left ++ (h.right ++ r.after)) =
              whole
              ∙ ap (λ n. r.before ++ (n ++ r.after)) h.whole
              ∙ ap (λ n. r.before ++ n) (append_assoc h.left h.right r.after) in
            subst (λ j. Children Q lo hi (insert_at j item items) (put new m)) (sym next)
              (subst (Children Q lo hi (insert_at (suc i) item items)) (sym parts) (
                r.split Q
                  (IsTree-Extends (view device s) s.next_free_block (view device state)
                    state.next_free_block depth
                    (Extends-trans {u = view device state} {d = state.next_free_block} e f))
                  block generation item h.left h.right h.above h.below
                  (IsTree-Extends v b (view device state) state.next_free_block depth f block r.low
                    (rank up.key) h.left h.left_tree)
                  (IsTree-Extends v b (view device state) state.next_free_block depth f
                    up.child_block (rank up.key) r.high h.right h.right_tree)));
      }

  pub update_lem :
      (result : ℕ × Option SplitResult)
      → Outcome (view device s') s'.next_free_block depth r.low r.high (put new r.held) result
      → i < length node.internal_items
      → Updated device depth lo hi (put new m) (update_child node i generation result.0 result.1) s'
  update_lem (block, none) t inside = update_none block t
  update_lem (block, some up) h inside = update_some block up h inside
