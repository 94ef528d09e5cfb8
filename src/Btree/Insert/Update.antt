-- ===== src/Btree/Insert/Update.antt =====
-- The leaf into which `insert_recursive` puts the item, before its size is tested.
use bazzulto_bafs.Base.{
  ℕ, ◌+◌, ◌%◌, ◌^◌, ◌≤◌, ◌<◌, ◌≡◌, refl, sym, ap, ◌∙◌, [], length, insert_at, modify_at,
  length-insert_at, length-modify_at, arith,
}
use mathlib.Core.Path.{subst}
use bazzulto_bafs.Bytes.{Bytes, All}
use bazzulto_bafs.Btree.Key.{BafsKey, IsKey}
use bazzulto_bafs.Btree.Node.{
  BafsTreeNode, BafsLeafItem, block_size, leaf_serialised_size, total_value_bytes,
}
use bazzulto_bafs.Btree.Codec.RoundTrip.{IsHeader, IsLeafNode}
use bazzulto_bafs.Btree.Map.{Items, Within, put}
use bazzulto_bafs.Btree.Map.Sizes.{All-put, length-put, total_value_bytes-put}
use bazzulto_bafs.Btree.Search.{SearchResult, found, insertion, search_leaf}
use bazzulto_bafs.Btree.Search.Leaf.{Searched, search_leaf_lem, set_value}
use bazzulto_bafs.Btree.Tree.{IsSmall}
use bazzulto_bafs.Btree.Insert.{put_in_leaf}

-- A leaf but for its size.
pub record IsLeafUpdate (node : BafsTreeNode) (m : Items) : Type 0 where
  pub header : IsHeader node
  pub is_leaf : node.level ≡ 0
  pub keys_fit : All (λ item. IsKey item.key) node.leaf_items
  pub counted : node.item_count ≡ length node.leaf_items
  pub no_children : node.internal_items ≡ []
  pub holds : node.leaf_items ≡ m
  pub barely : leaf_serialised_size node.leaf_items ≤ block_size + 292
  pub small : All IsSmall node.leaf_items

module _ (lo hi : ℕ) (node : BafsTreeNode) (m : Items) (key : BafsKey) (value : Bytes)
    (shape : IsLeafNode node) (holds : node.leaf_items ≡ m) (small : All IsSmall m)
    (within : Within lo hi m) (kf : IsKey key) (v : length value ≤ 267) where
  abbrev new : BafsLeafItem
  new = record { key = key; value = value }

  updated :
      (items : Items) (count : ℕ)
      → items ≡ put new node.leaf_items
      → count ≡ length items
      → IsLeafUpdate (record node { leaf_items = items; item_count = count }) (put new m)
  unfolding leaf_serialised_size
  updated items count e n =
      let longer : length items ≤ length node.leaf_items + 1 =
        rw e (length-put new node.leaf_items) in
      let heavier : total_value_bytes items ≤ total_value_bytes node.leaf_items + length value =
        rw e (total_value_bytes-put new node.leaf_items) in
      record {
        header = record {
          level_fits = shape.header.level_fits;
          flags_fit = shape.header.flags_fit;
          address_fits = shape.header.address_fits;
          generation_fits = shape.header.generation_fits;
        };
        is_leaf = shape.is_leaf;
        keys_fit = rw e (All-put (λ item. IsKey item.key) new node.leaf_items kf shape.keys_fit);
        counted = n;
        no_children = shape.no_children;
        holds = e ∙ ap (put new) holds;
        barely = omega (arith, shape.fits);
        small = rw e (rw holds (All-put IsSmall new m v small));
      }

  found_eq :
      (i : ℕ)
      → search_leaf node.leaf_items key ≡ found i
      → put_in_leaf node key value
        ≡ record node { leaf_items = modify_at i (set_value value) node.leaf_items }
  unfolding put_in_leaf
  found_eq i e = ground (arith, e)

  insertion_eq :
      (i : ℕ)
      → search_leaf node.leaf_items key ≡ insertion i
      → put_in_leaf node key value ≡ record node {
        leaf_items = insert_at i new node.leaf_items;
        item_count = (node.item_count + 1) % 2 ^ 16;
      }
  unfolding put_in_leaf
  insertion_eq i e = ground (arith, e)

  few : length node.leaf_items < 1000
  unfolding leaf_serialised_size
  few = omega (arith, shape.fits)

  -- The leaf with the item put in.
  pub put_in_leaf_lem : IsLeafUpdate (put_in_leaf node key value) (put new m)
  put_in_leaf_lem = go (search_leaf node.leaf_items key) refl (
      search_leaf_lem lo hi node.leaf_items key (subst (Within lo hi) (sym holds) within)
        shape.keys_fit kf)
    where
      go :
          (r : SearchResult)
          → search_leaf node.leaf_items key ≡ r
          → Searched node.leaf_items key r
          → IsLeafUpdate (put_in_leaf node key value) (put new m)
      go (found i) e hit =
          subst (λ n. IsLeafUpdate n (put new m)) (sym (found_eq i e))
            (updated (modify_at i (set_value value) node.leaf_items) node.item_count
              (hit.replaced value)
              (shape.counted ∙ sym (length-modify_at i (set_value value) node.leaf_items)))
      go (insertion i) e miss =
          subst (λ n. IsLeafUpdate n (put new m)) (sym (insertion_eq i e))
            (updated (insert_at i new node.leaf_items) ((node.item_count + 1) % 2 ^ 16)
              (miss.inserted value)
              (omega
                (arith, shape.counted, few, length-insert_at i new node.leaf_items miss.in_range)))
