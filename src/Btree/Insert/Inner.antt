-- ===== src/Btree/Insert/Inner.antt =====
-- The internal nodes in `insert_recursive` of src/btree.rs: clone or split.
use bazzulto_bafs.Base.{
  ℕ, suc, ◌+◌, ◌/◌, ◌%◌, ◌^◌, ◌≤◌, ◌<◌, ◌≡◌, refl, [], List, Option, none, some, take, drop,
  get_elem?, length, get_elem?-lt, Bool-cases, inl, inr, arith, leb, leb→le,
}
use bazzulto_bafs.Bytes.Everywhere.{
  length-take, length-drop, take-remove_at, drop-remove_at, All-take, All-drop, All-get,
}
use bazzulto_bafs.Device.{Reader}
use bazzulto_bafs.Error.{ok}
use bazzulto_bafs.Btree.Key.{BafsKey}
use bazzulto_bafs.Btree.Node.{BafsTreeNode, BafsInternalItem, internal_max_items}
use bazzulto_bafs.Btree.Codec.Items.{IsInternalItem}
use bazzulto_bafs.Btree.Codec.RoundTrip.{IsInternalNode, internal-RoundTrip}
use bazzulto_bafs.Btree.Cache.{TreeState, take_next_free_block, push_freed}
use bazzulto_bafs.Btree.Map.{Items}
use bazzulto_bafs.Btree.Search.Anchors.{
  IsAnchored, IsAnchored-take, IsAnchored-drop, IsAnchored-first,
}
use bazzulto_bafs.Btree.Search.Child.{Children}
use bazzulto_bafs.Btree.Tree.{view, IsTree, IsTree-Within, Extends}
use bazzulto_bafs.Btree.Tree.Clone.{clone_internal, IsInternalNode-rewritten}
use bazzulto_bafs.Btree.Insert.{
  SplitResult, split_internal_node, write_clone, write_halves, store_internal, first_key,
}
use bazzulto_bafs.Btree.Insert.Split.{Children-Cut}
use bazzulto_bafs.Btree.Insert.Outcome.{Insertion, split_state, write_halves_lem}

abbrev left_node : BafsTreeNode → List BafsInternalItem → ℕ → ℕ → BafsTreeNode
left_node node items block generation = record node {
  item_count = length items % 2 ^ 16;
  self_block_address = block;
  generation = generation;
  internal_items = items;
}

abbrev right_node : BafsTreeNode → List BafsInternalItem → ℕ → ℕ → BafsTreeNode
right_node node items block generation = record {
  node_checksum = 0;
  level = node.level;
  flags = 0;
  item_count = length items % 2 ^ 16;
  self_block_address = block;
  generation = generation;
  leaf_items = [];
  internal_items = items;
}

split_internal_node_lem :
    (node : BafsTreeNode) (generation old i : ℕ) (item : BafsInternalItem) (s : TreeState)
    → length node.internal_items / 2 ≡ i
    → get_elem? node.internal_items i ≡ some item
    → s.next_free_block + 2 < 2 ^ 64
    → split_internal_node node generation old s ≡ (
      ok (
        left_node node (take i node.internal_items) (s.next_free_block + 1) generation,
        right_node node (drop i node.internal_items) s.next_free_block generation,
        item.key,
      ),
      split_state old s,
    )
unfolding split_internal_node take_next_free_block push_freed
split_internal_node_lem node generation old i item s e a free =
    ground
      (arith, e, a, take-remove_at i node.internal_items, drop-remove_at i node.internal_items a)

module _ (node : BafsTreeNode) (generation old : ℕ) (s : TreeState) where
  store_internal-fits :
      (out : ℕ) (s' : TreeState)
      → length node.internal_items ≤ internal_max_items
      → write_clone node generation old s ≡ (ok out, s')
      → store_internal node generation old s ≡ (ok (out, none), s')
  unfolding store_internal
  store_internal-fits out s' h w = ground (arith, w)

  store_internal-split :
      (left right : BafsTreeNode) (key : BafsKey) (s1 s2 : TreeState)
      (result : ℕ × Option SplitResult)
      → internal_max_items < length node.internal_items
      → split_internal_node node generation old s ≡ (ok (left, right, key), s1)
      → write_halves left right key s1 ≡ (ok result, s2)
      → store_internal node generation old s ≡ (ok result, s2)
  unfolding store_internal
  store_internal-split left right key s1 s2 result h e w = ground (arith, e, w)

-- The later states in which the node's children are to stand.
abbrev pub Later : Reader → ℕ → ℕ → ℕ → List BafsInternalItem → Items → TreeState → Type 0
Later device depth lo hi items m s =
    (state : TreeState)
    → Extends (view device s) s.next_free_block (view device state) state.next_free_block
    → Children (IsTree (view device state) state.next_free_block depth) lo hi items m

module _ (device : Reader) (depth lo hi : ℕ) (m : Items) (node : BafsTreeNode) (generation old : ℕ)
    (s : TreeState) (g : generation < 2 ^ 64) (free : s.next_free_block + 2 < 2 ^ 64)
    (shape : IsInternalNode node) (level : node.level ≡ suc depth)
    (room : length node.internal_items ≤ internal_max_items + 1)
    (anchored : IsAnchored lo node.internal_items)
    (children : Later device depth lo hi node.internal_items m s) where
  store_whole :
      length node.internal_items ≤ internal_max_items
      → Insertion device (store_internal node generation old) 2 (suc depth) lo hi m s
  store_whole fits =
      let c =
        clone_internal device lo hi m node generation old s g (omega arith) depth shape level fits
          anchored children in
      record {
        state = c.state;
        result = (s.next_free_block, none);
        runs = store_internal-fits node generation old s s.next_free_block c.state fits c.runs;
        outcome = c.tree;
        extends = c.extends;
        spent = omega (arith, c.next);
      }

  module _ (i : ℕ) (over : internal_max_items < length node.internal_items)
      (half : length node.internal_items / 2 ≡ suc i) where
    abbrev lefts : List BafsInternalItem
    lefts = take (suc i) node.internal_items

    abbrev rights : List BafsInternalItem
    rights = drop (suc i) node.internal_items

    left_length : length lefts ≡ suc i
    left_length = length-take (suc i) node.internal_items (omega arith)

    right_length : length rights + suc i ≡ length node.internal_items
    right_length = length-drop (suc i) node.internal_items (omega arith)

    left_shape : IsInternalNode (left_node node lefts (s.next_free_block + 1) generation)
    left_shape = record {
      header = record {
        level_fits = shape.header.level_fits;
        flags_fit = shape.header.flags_fit;
        address_fits = omega arith;
        generation_fits = g;
      };
      is_internal = shape.is_internal;
      items_fit = All-take IsInternalItem (suc i) node.internal_items shape.items_fit;
      counted = omega (arith, left_length);
      no_values = shape.no_values;
      fits = omega (arith, left_length);
    }

    right_shape : IsInternalNode (right_node node rights s.next_free_block generation)
    right_shape = record {
      header = record {
        level_fits = shape.header.level_fits;
        flags_fit = omega arith;
        address_fits = omega arith;
        generation_fits = g;
      };
      is_internal = shape.is_internal;
      items_fit = All-drop IsInternalItem (suc i) node.internal_items shape.items_fit;
      counted = omega (arith, right_length);
      no_values = refl;
      fits = omega (arith, right_length);
    }

    sealed_shape :
        (n : BafsTreeNode) (c : ℕ)
        → IsInternalNode n
        → IsInternalNode (record n { node_checksum = c })
    sealed_shape n c h =
        IsInternalNode-rewritten n n.self_block_address n.generation c h.header.address_fits
          h.header.generation_fits h

    first_of_left :
        (c : ℕ) (item : BafsInternalItem)
        → get_elem? lefts 0 ≡ some item
        → first_key
            (record (left_node node lefts (s.next_free_block + 1) generation) { node_checksum = c })
          ≡ ok item.key
    unfolding first_key
    first_of_left c item e = let l = shape.is_internal in ground (arith, e, l)

    store_halves : Insertion device (store_internal node generation old) 2 (suc depth) lo hi m s
    store_halves =
        let (item, at) = get_elem?-lt node.internal_items (suc i) (omega arith) in
        let left = left_node node lefts (s.next_free_block + 1) generation in
        let right = right_node node rights s.next_free_block generation in
        let w =
          write_halves_lem device left right item.key old s refl refl
            (internal-RoundTrip _ left_shape) (internal-RoundTrip _ right_shape) free in
        let v = view device w.state in
        let Q = IsTree v w.state.next_free_block depth in
        let cut =
          Children-Cut Q (IsTree-Within v w.state.next_free_block depth) lo hi node.internal_items m
            i (children w.state w.extends) at in
        let (head, head_at) = get_elem?-lt lefts 0 (omega (arith, left_length)) in
        record {
          state = w.state;
          result = (
            s.next_free_block + 1,
            some (record { key = item.key; child_block = s.next_free_block }),
          );
          runs =
              store_internal-split node generation old s left right item.key (split_state old s)
                w.state _ over
                (split_internal_node_lem node generation old (suc i) item s half at free) w.runs;
          outcome = record {
            left = cut.left;
            right = cut.right;
            whole = cut.whole;
            key_fits =
                (All-get IsInternalItem node.internal_items (suc i) shape.items_fit at).key_fits;
            above = cut.above;
            below = cut.below;
            left_tree = record {
              node = record left { node_checksum = w.left_checksum };
              allocated = omega (arith, w.next);
              reads = w.left_reads;
              shape = sealed_shape left w.left_checksum left_shape;
              level_is = level;
              room = omega (arith, left_length);
              anchored = IsAnchored-take lo i node.internal_items anchored;
              children = cut.left_children;
            };
            right_tree = record {
              node = record right { node_checksum = w.right_checksum };
              allocated = omega (arith, w.next);
              reads = w.right_reads;
              shape = sealed_shape right w.right_checksum right_shape;
              level_is = level;
              room = omega (arith, right_length);
              anchored = IsAnchored-drop (suc i) node.internal_items at;
              children = cut.right_children;
            };
            head = record {
              node = record left { node_checksum = w.left_checksum };
              reads = w.left_reads;
              level_is = level;
              key = head.key;
              first = first_of_left w.left_checksum head head_at;
              key_fits = (All-get IsInternalItem lefts 0 left_shape.items_fit head_at).key_fits;
              grounded = λ p.
                  IsAnchored-first lo lefts head_at
                    (IsAnchored-take lo i node.internal_items anchored);
            };
          };
          extends = w.extends;
          spent = omega (arith, w.next);
        }

  pub store_internal_lem :
      Insertion device (store_internal node generation old) 2 (suc depth) lo hi m s
  store_internal_lem = elim (Bool-cases (leb (length node.internal_items) internal_max_items)) [
    | inl fits ↦ store_whole (leb→le _ _ fits)
    | inr over ↦ store_halves 44 (ground arith) (ground arith)
  ]
