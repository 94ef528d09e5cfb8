-- ===== src/Btree/Insert.antt =====
-- `insert_into_tree` of src/btree.rs, with the splits.
pub mod Split
pub mod Outcome
pub mod Update
pub mod Leaf
pub mod Inner
pub mod Rebuild
pub mod Step
pub mod Root
use bazzulto_bafs.Base.{
  ℕ, zero, suc, ◌+◌, ◌-◌, ◌/◌, ◌%◌, ◌^◌, Bool, true, false, Option, none, some, List, [], ◌∷◌, ◌++◌,
  length, get_elem?, take, drop, insert_at, remove_at, modify_at, ltb, leb, ◌==◌, ◌&&◌,
  if◌then◌else◌,
}
use bazzulto_bafs.Bytes.{Bytes}
use bazzulto_bafs.Device.{Reader}
use bazzulto_bafs.Error.{Result, ok, out_of_fuel, or_panic}
use bazzulto_bafs.Exec.{Exec, pure, lift, gets, ◌>>=◌, ◌>>◌}
use bazzulto_bafs.Btree.Key.{BafsKey}
use bazzulto_bafs.Btree.Node.{
  BafsTreeNode, BafsLeafItem, BafsInternalItem, block_size, internal_max_items,
  leaf_serialised_size, leaf_node_would_overflow,
}
use bazzulto_bafs.Btree.Cache.{
  TreeState, read_tree_node, write_tree_node_to_cache, take_next_free_block, push_freed,
}
use bazzulto_bafs.Btree.Search.{
  SearchResult, found, insertion, search_leaf, find_child_index_for_key,
}
use bazzulto_bafs.Btree.Search.Leaf.{set_value}
use bazzulto_bafs.Btree.Search.Child.{set_child}
use bazzulto_bafs.Btree.Lookup.{max_depth}

pub record SplitResult : Type 0 where
  pub key : BafsKey
  pub child_block : ℕ

-- `while split_index > 1 && leaf_serialised_size(&items[..split_index]) > block_size`
shrink_left : List BafsLeafItem → ℕ → ℕ
shrink_left items zero = zero
shrink_left items (suc i) =
    let less = shrink_left items i in
    if ltb 1 (suc i) && ltb block_size (leaf_serialised_size (take (suc i) items))
    then less
    else suc i

-- `while split_index < items.len() - 1 && leaf_serialised_size(&items[split_index..]) > block_size`;
-- the index rises to the length at most.
grow_right : ℕ → List BafsLeafItem → ℕ → ℕ
grow_right zero items i = i
grow_right (suc left) items i =
    let more = grow_right left items (i + 1) in
    if ltb i (length items - 1) && ltb block_size (leaf_serialised_size (drop i items))
    then more
    else i

pub leaf_split_index : List BafsLeafItem → ℕ
unfolding shrink_left grow_right
leaf_split_index items = grow_right (length items) items (shrink_left items (length items / 2))

-- The left and the right half, and the first key of the right one.
pub split_leaf_node : BafsTreeNode → ℕ → ℕ → Exec TreeState (BafsTreeNode × BafsTreeNode × BafsKey)
split_leaf_node full_node generation old_block_address = do
  push_freed old_block_address
  let split_index = leaf_split_index full_node.leaf_items
  let left_items = take split_index full_node.leaf_items
  let right_items = drop split_index full_node.leaf_items
  first ← lift (or_panic (get_elem? right_items 0))
  right_block ← take_next_free_block
  left_block ← take_next_free_block
  pure (
    record full_node {
      item_count = length left_items % 2 ^ 16;
      self_block_address = left_block;
      generation = generation;
      leaf_items = left_items;
    },
    record {
      node_checksum = 0;
      level = 0;
      flags = 0;
      item_count = length right_items % 2 ^ 16;
      self_block_address = right_block;
      generation = generation;
      leaf_items = right_items;
      internal_items = [];
    },
    first.key,
  )

pub split_internal_node :
    BafsTreeNode → ℕ → ℕ → Exec TreeState (BafsTreeNode × BafsTreeNode × BafsKey)
split_internal_node full_node generation old_block_address = do
  push_freed old_block_address
  let split_index = length full_node.internal_items / 2
  promoted_item ← lift (or_panic (get_elem? full_node.internal_items split_index))
  let others = remove_at split_index full_node.internal_items
  let left_items = take split_index others
  let right_items = promoted_item ∷ drop split_index others
  right_block ← take_next_free_block
  left_block ← take_next_free_block
  pure (
    record full_node {
      item_count = length left_items % 2 ^ 16;
      self_block_address = left_block;
      generation = generation;
      internal_items = left_items;
    },
    record {
      node_checksum = 0;
      level = full_node.level;
      flags = 0;
      item_count = length right_items % 2 ^ 16;
      self_block_address = right_block;
      generation = generation;
      leaf_items = [];
      internal_items = right_items;
    },
    promoted_item.key,
  )

-- The node goes to the next block and its old block is superseded.
unfoldable pub write_clone : BafsTreeNode → ℕ → ℕ → Exec TreeState ℕ
write_clone node generation block_address = do
  push_freed block_address
  new_block ← take_next_free_block
  write_tree_node_to_cache (record node { self_block_address = new_block; generation = generation })
  pure new_block

-- The two halves of a split go to the cache.
pub write_halves : BafsTreeNode → BafsTreeNode → BafsKey → Exec TreeState (ℕ × Option SplitResult)
write_halves left_node right_node split_key = do
  write_tree_node_to_cache left_node
  write_tree_node_to_cache right_node
  pure (
    left_node.self_block_address,
    some (record { key = split_key; child_block = right_node.self_block_address }),
  )

pub store_leaf : BafsTreeNode → ℕ → ℕ → Exec TreeState (ℕ × Option SplitResult)
store_leaf node generation block_address = elim (leaf_node_would_overflow node.leaf_items) [
  | false ↦ do new_block ← write_clone node generation block_address; pure (new_block, none)
  | true ↦ do
    (left_node, right_node, split_key) ← split_leaf_node node generation block_address
    write_halves left_node right_node split_key
]

pub store_internal : BafsTreeNode → ℕ → ℕ → Exec TreeState (ℕ × Option SplitResult)
store_internal node generation block_address =
    elim (leb (length node.internal_items) internal_max_items) [
      | true ↦ do new_block ← write_clone node generation block_address; pure (new_block, none)
      | false ↦ do
        (left_node, right_node, split_key) ← split_internal_node node generation block_address
        write_halves left_node right_node split_key
    ]

-- The leaf with the item inserted or its value replaced.
pub put_in_leaf : BafsTreeNode → BafsKey → Bytes → BafsTreeNode
put_in_leaf node key value = elim (search_leaf node.leaf_items key) [
  | found i ↦ record node { leaf_items = modify_at i (set_value value) node.leaf_items }
  | insertion i ↦ record node {
    leaf_items = insert_at i (record { key = key; value = value }) node.leaf_items;
    item_count = (node.item_count + 1) % 2 ^ 16;
  }
]

-- The internal node with the new child, and with the promoted separator behind it.
pub update_child : BafsTreeNode → ℕ → ℕ → ℕ → Option SplitResult → BafsTreeNode
update_child node child_index generation new_child_block none = record node {
  internal_items = modify_at child_index (set_child new_child_block generation) node.internal_items;
}
update_child node child_index generation new_child_block (some promoted) = record node {
  internal_items =
      insert_at (child_index + 1)
        (record {
          key = promoted.key;
          child_block = promoted.child_block;
          child_generation = generation;
        })
        (modify_at child_index (set_child new_child_block generation) node.internal_items);
  item_count = (node.item_count + 1) % 2 ^ 16;
}

pub insert_recursive :
    ℕ → Reader → ℕ → BafsKey → Bytes → ℕ → Exec TreeState (ℕ × Option SplitResult)
insert_recursive zero device block_address key value generation = lift out_of_fuel
insert_recursive (suc fuel) device block_address key value generation = do
  dirty_cache ← gets (λ s. s.dirty_cache)
  node ← lift (read_tree_node device dirty_cache block_address)
  elim (node.level == 0) [
    | true ↦ store_leaf (put_in_leaf node key value) generation block_address
    | false ↦ do
      let child_index = find_child_index_for_key node.internal_items key
      child ← lift (or_panic (get_elem? node.internal_items child_index))
      (new_child_block, split_result) ←
          insert_recursive fuel device child.child_block key value generation
      store_internal (update_child node child_index generation new_child_block split_result)
          generation block_address
  ]

-- The first key of a node, which is not empty.
pub first_key : BafsTreeNode → Result BafsKey
first_key node = elim (node.level == 0) [
  | true ↦ elim (get_elem? node.leaf_items 0) [ none ↦ or_panic none | some item ↦ ok item.key ]
  | false ↦ elim (get_elem? node.internal_items 0) [
    | none ↦ or_panic none
    | some item ↦ ok item.key
  ]
]

-- A new root over the two halves of the old one.
pub grow_root : Reader → ℕ → ℕ → ℕ → SplitResult → Exec TreeState ℕ
unfolding first_key
grow_root device root_block_address new_root_address generation promoted_item = do
  push_freed root_block_address
  new_root_block ← take_next_free_block
  dirty_cache ← gets (λ s. s.dirty_cache)
  old_root_node ← lift (read_tree_node device dirty_cache new_root_address)
  left_first_key ← lift (first_key old_root_node)
  write_tree_node_to_cache (record {
    node_checksum = 0;
    level = (old_root_node.level + 1) % 256;
    flags = 0;
    item_count = 2;
    self_block_address = new_root_block;
    generation = generation;
    leaf_items = [];
    internal_items =
        record {
          key = left_first_key;
          child_block = new_root_address;
          child_generation = generation;
        }
        ∷ record {
          key = promoted_item.key;
          child_block = promoted_item.child_block;
          child_generation = generation;
        }
        ∷ [];
  })
  pure new_root_block

pub insert_into_tree : Reader → ℕ → BafsKey → Bytes → ℕ → Exec TreeState ℕ
insert_into_tree device root_block_address key value generation = do
  (new_root_address, split_result) ←
      insert_recursive max_depth device root_block_address key value generation
  elim split_result [
    | none ↦ pure new_root_address
    | some promoted_item ↦
        grow_root device root_block_address new_root_address generation promoted_item
  ]
