-- ===== src/Btree/Insert/Leaf.antt =====
-- The leaves in `insert_recursive` of src/btree.rs: clone or split.
use bazzulto_bafs.Base.{
  ◌⊎◌, inl, inr, ℕ, zero, suc, ◌∷◌, [], zero, ◌+◌, ◌/◌, ◌%◌, ◌^◌, ◌≤◌, ◌<◌, ◌≡◌, refl, sym, ◌∙◌, [],
  Option, none, some, take, drop, get_elem?, length, get_elem?-lt, Bool-cases, inl, inr, arith, ltb,
  ltb→lt,
}
use mathlib.Core.Path.{subst}
use bazzulto_bafs.Bytes.{All}
use bazzulto_bafs.Bytes.Everywhere.{
  length-take, length-drop, take-append-drop, get_elem?-drop, All-take, All-drop, All-get,
}
use bazzulto_bafs.Device.{Reader}
use bazzulto_bafs.Error.{ok}
use bazzulto_bafs.Btree.Key.{BafsKey, IsKey, rank}
use bazzulto_bafs.Btree.Node.{
  BafsTreeNode, BafsLeafItem, block_size, leaf_serialised_size, leaf_node_would_overflow,
}
use bazzulto_bafs.Btree.Codec.RoundTrip.{IsLeafNode, leaf-RoundTrip}
use bazzulto_bafs.Btree.Cache.{TreeState, take_next_free_block, push_freed}
use bazzulto_bafs.Btree.Map.{Items, Within, Within-le}
use bazzulto_bafs.Btree.Map.Sizes.{Within-take, Within-drop}
use bazzulto_bafs.Btree.Tree.{IsSmall}
use bazzulto_bafs.Btree.Tree.Clone.{clone_leaf, IsLeafNode-rewritten}
use bazzulto_bafs.Btree.Insert.{
  SplitResult, split_leaf_node, leaf_split_index, write_clone, write_halves, store_leaf, first_key,
}
use bazzulto_bafs.Btree.Insert.Update.{IsLeafUpdate}
use bazzulto_bafs.Btree.Insert.Split.{Middle, middle_lem}
use bazzulto_bafs.Btree.Insert.Outcome.{IsFloor, Insertion, split_state, write_halves_lem}

abbrev left_leaf : BafsTreeNode → ℕ → ℕ → ℕ → BafsTreeNode
left_leaf node i block generation = record node {
  item_count = length (take i node.leaf_items) % 2 ^ 16;
  self_block_address = block;
  generation = generation;
  leaf_items = take i node.leaf_items;
}

abbrev right_leaf : BafsTreeNode → ℕ → ℕ → ℕ → BafsTreeNode
right_leaf node i block generation = record {
  node_checksum = 0;
  level = 0;
  flags = 0;
  item_count = length (drop i node.leaf_items) % 2 ^ 16;
  self_block_address = block;
  generation = generation;
  leaf_items = drop i node.leaf_items;
  internal_items = [];
}

split_leaf_node_lem :
    (node : BafsTreeNode) (generation old i : ℕ) (item : BafsLeafItem) (s : TreeState)
    → leaf_split_index node.leaf_items ≡ i
    → get_elem? node.leaf_items i ≡ some item
    → s.next_free_block + 2 < 2 ^ 64
    → split_leaf_node node generation old s ≡ (
      ok (
        left_leaf node i (s.next_free_block + 1) generation,
        right_leaf node i s.next_free_block generation,
        item.key,
      ),
      split_state old s,
    )
unfolding split_leaf_node take_next_free_block push_freed
split_leaf_node_lem node generation old i item s e a free =
    ground (arith, e, get_elem?-drop i node.leaf_items, a)

first_floor :
    (lo i : ℕ) (items : Items) {item : BafsLeafItem}
    → get_elem? (take i items) 0 ≡ some item
    → IsFloor lo items
    → (lo ≡ 0) ⊎ (rank item.key ≤ lo)
unfolding take
first_floor lo zero items e f = cc
first_floor lo (suc i) [] e f = cc
first_floor lo (suc i) (x ∷ xs) e f = ground (arith, e)

module _ (node : BafsTreeNode) (generation old : ℕ) (s : TreeState) where
  store_leaf-fits :
      (out : ℕ) (s' : TreeState)
      → leaf_serialised_size node.leaf_items ≤ block_size
      → write_clone node generation old s ≡ (ok out, s')
      → store_leaf node generation old s ≡ (ok (out, none), s')
  unfolding store_leaf leaf_node_would_overflow
  store_leaf-fits out s' h w = ground (arith, w)

  store_leaf-split :
      (left right : BafsTreeNode) (key : BafsKey) (s1 s2 : TreeState)
      (result : ℕ × Option SplitResult)
      → block_size < leaf_serialised_size node.leaf_items
      → split_leaf_node node generation old s ≡ (ok (left, right, key), s1)
      → write_halves left right key s1 ≡ (ok result, s2)
      → store_leaf node generation old s ≡ (ok result, s2)
  unfolding store_leaf leaf_node_would_overflow
  store_leaf-split left right key s1 s2 result h e w = ground (arith, e, w)

module _ (device : Reader) (lo hi : ℕ) (m : Items) (node : BafsTreeNode) (generation old : ℕ)
    (s : TreeState) (g : generation < 2 ^ 64) (free : s.next_free_block + 2 < 2 ^ 64)
    (h : IsLeafUpdate node m) (sorted : Within lo hi m) where
  store_whole :
      leaf_serialised_size node.leaf_items ≤ block_size
      → Insertion device (store_leaf node generation old) 2 zero lo hi m s
  store_whole fits =
      let shape : IsLeafNode node = record {
        header = h.header;
        is_leaf = h.is_leaf;
        keys_fit = h.keys_fit;
        counted = h.counted;
        no_children = h.no_children;
        fits = fits;
      } in
      let c =
        clone_leaf device lo hi m node generation old s g (omega arith) shape h.holds
          (subst (All IsSmall) h.holds h.small) sorted in
      record {
        state = c.state;
        result = (s.next_free_block, none);
        runs = store_leaf-fits node generation old s s.next_free_block c.state fits c.runs;
        outcome = c.tree;
        extends = c.extends;
        spent = omega (arith, c.next);
      }

  module _ (i : ℕ) (mid : Middle node.leaf_items i) where
    short : length node.leaf_items < 2 ^ 16
    unfolding leaf_serialised_size
    short = omega (arith, h.barely)

    left_shape : IsLeafNode (left_leaf node i (s.next_free_block + 1) generation)
    left_shape = record {
      header = record {
        level_fits = h.header.level_fits;
        flags_fit = h.header.flags_fit;
        address_fits = omega arith;
        generation_fits = g;
      };
      is_leaf = h.is_leaf;
      keys_fit = All-take (λ item. IsKey item.key) i node.leaf_items h.keys_fit;
      counted = omega (arith, short, mid.inside, length-take i node.leaf_items);
      no_children = h.no_children;
      fits = mid.left_fits;
    }

    right_shape : IsLeafNode (right_leaf node i s.next_free_block generation)
    right_shape = record {
      header = record {
        level_fits = omega arith;
        flags_fit = omega arith;
        address_fits = omega arith;
        generation_fits = g;
      };
      is_leaf = refl;
      keys_fit = All-drop (λ item. IsKey item.key) i node.leaf_items h.keys_fit;
      counted = omega (arith, short, mid.inside, length-drop i node.leaf_items);
      no_children = refl;
      fits = mid.right_fits;
    }

    sealed_shape :
        (n : BafsTreeNode) (c : ℕ) → IsLeafNode n → IsLeafNode (record n { node_checksum = c })
    sealed_shape n c shape =
        IsLeafNode-rewritten n n.self_block_address n.generation c shape.header.address_fits
          shape.header.generation_fits shape

    first_of_left :
        (c : ℕ) (key : BafsKey) (item : BafsLeafItem)
        → get_elem? (take i node.leaf_items) 0 ≡ some item
        → item.key ≡ key
        → first_key
            (record (left_leaf node i (s.next_free_block + 1) generation) { node_checksum = c })
          ≡ ok key
    unfolding first_key
    first_of_left c key item e k = let l = h.is_leaf in ground (arith, e, k, l)

    store_halves :
        block_size < leaf_serialised_size node.leaf_items
        → Insertion device (store_leaf node generation old) 2 zero lo hi m s
    store_halves over =
        let (item, at) = get_elem?-lt node.leaf_items i mid.inside in
        let w =
          write_halves_lem device (left_leaf node i (s.next_free_block + 1) generation)
            (right_leaf node i s.next_free_block generation) item.key old s refl refl
            (leaf-RoundTrip _ left_shape) (leaf-RoundTrip _ right_shape) free in
        let within = subst (Within lo hi) (sym h.holds) sorted in
        let low = Within-take lo hi node.leaf_items i within at in
        let high = Within-drop lo hi node.leaf_items i within at in
        let (head, head_at) =
          get_elem?-lt (take i node.leaf_items) 0
            (omega (arith, mid.positive, mid.inside, length-take i node.leaf_items)) in
        record {
          state = w.state;
          result = (
            s.next_free_block + 1,
            some (record { key = item.key; child_block = s.next_free_block }),
          );
          runs =
              store_leaf-split node generation old s _ _ item.key (split_state old s) w.state _ over
                (split_leaf_node_lem node generation old i item s mid.index at free) w.runs;
          outcome = record {
            left = take i node.leaf_items;
            right = drop i node.leaf_items;
            whole = sym h.holds ∙ sym (take-append-drop i node.leaf_items);
            key_fits = All-get (λ x. IsKey x.key) node.leaf_items i h.keys_fit at;
            above = Within-le lo (rank item.key) _ low;
            below = Within-le (rank item.key) hi _ high;
            left_tree = record {
              node = record (left_leaf node i (s.next_free_block + 1) generation) {
                node_checksum = w.left_checksum;
              };
              allocated = omega (arith, w.next);
              reads = w.left_reads;
              shape = sealed_shape _ w.left_checksum left_shape;
              holds = refl;
              small = All-take IsSmall i node.leaf_items h.small;
              sorted = low;
            };
            right_tree = record {
              node = record (right_leaf node i s.next_free_block generation) {
                node_checksum = w.right_checksum;
              };
              allocated = omega (arith, w.next);
              reads = w.right_reads;
              shape = sealed_shape _ w.right_checksum right_shape;
              holds = refl;
              small = All-drop IsSmall i node.leaf_items h.small;
              sorted = high;
            };
            head = record {
              node = record (left_leaf node i (s.next_free_block + 1) generation) {
                node_checksum = w.left_checksum;
              };
              reads = w.left_reads;
              level_is = h.is_leaf;
              key = head.key;
              first = first_of_left w.left_checksum head.key head head_at refl;
              key_fits =
                  All-get (λ x. IsKey x.key) (take i node.leaf_items) 0
                    (All-take (λ x. IsKey x.key) i node.leaf_items h.keys_fit) head_at;
              grounded = elim [
                | inl floor ↦
                    first_floor lo i node.leaf_items head_at
                      (subst (IsFloor lo) (sym h.holds) floor)
                | inr deep ↦ absurd (omega arith)
              ];
            };
          };
          extends = w.extends;
          spent = omega (arith, w.next);
        }

  pub store_leaf_lem : Insertion device (store_leaf node generation old) 2 zero lo hi m s
  store_leaf_lem = elim (Bool-cases (ltb block_size (leaf_serialised_size node.leaf_items))) [
    | inl over ↦
        let large = ltb→lt _ _ over in
        store_halves (length node.leaf_items / 2)
          (middle_lem node.leaf_items (record { over = large; barely = h.barely; small = h.small }))
          large
    | inr under ↦ store_whole (ground arith)
  ]
