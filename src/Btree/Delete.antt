-- ===== src/Btree/Delete.antt =====
-- `delete_from_tree` and `create_empty_tree` of src/btree.rs.
pub mod Step
pub mod Absent
pub mod Root
use bazzulto_bafs.Base.{
  ℕ, zero, suc, ◌+◌, ◌-◌, ◌%◌, ◌^◌, Bool, true, false, [], get_elem?, remove_at, modify_at, ◌==◌,
}
use bazzulto_bafs.Device.{Reader}
use bazzulto_bafs.Error.{Result, out_of_fuel, or_panic, not_found}
use bazzulto_bafs.Exec.{Exec, pure, lift, fail, gets, ◌>>=◌, ◌>>◌}
use bazzulto_bafs.Btree.Key.{BafsKey}
use bazzulto_bafs.Btree.Node.{BafsTreeNode}
use bazzulto_bafs.Btree.Cache.{TreeState, read_tree_node, write_tree_node_to_cache}
use bazzulto_bafs.Btree.Search.{
  SearchResult, found, insertion, search_leaf, find_child_index_for_key,
}
use bazzulto_bafs.Btree.Search.Child.{set_child}
use bazzulto_bafs.Btree.Lookup.{max_depth}
use bazzulto_bafs.Btree.Insert.{write_clone}

-- `node.leaf_items.remove(index); node.item_count -= 1;`
abbrev pub remove_from_leaf : BafsTreeNode → ℕ → BafsTreeNode
remove_from_leaf node index = record node {
  leaf_items = remove_at index node.leaf_items;
  item_count = (node.item_count + (2 ^ 16 - 1)) % 2 ^ 16;
}

pub delete_in_leaf : BafsTreeNode → BafsKey → ℕ → ℕ → Exec TreeState (ℕ × Bool)
delete_in_leaf node target_key generation block_address =
    elim (search_leaf node.leaf_items target_key) [
      | found index ↦ do
        new_block ← write_clone (remove_from_leaf node index) generation block_address
        pure (new_block, true)
      | insertion index ↦ fail not_found
    ]

pub delete_recursive : ℕ → Reader → ℕ → BafsKey → ℕ → Exec TreeState (ℕ × Bool)
delete_recursive zero device block_address target_key generation = lift out_of_fuel
delete_recursive (suc fuel) device block_address target_key generation = do
  dirty_cache ← gets (λ s. s.dirty_cache)
  node ← lift (read_tree_node device dirty_cache block_address)
  elim (node.level == 0) [
    | true ↦ delete_in_leaf node target_key generation block_address
    | false ↦ do
      let child_index = find_child_index_for_key node.internal_items target_key
      child ← lift (or_panic (get_elem? node.internal_items child_index))
      (new_child_block, deleted) ←
          delete_recursive fuel device child.child_block target_key generation
      elim deleted [
        | false ↦ fail not_found
        | true ↦ do
          new_block ←
              write_clone
                (record node {
                  internal_items =
                      modify_at child_index (set_child new_child_block generation)
                        node.internal_items;
                })
                generation block_address
          pure (new_block, true)
      ]
  ]

pub delete_from_tree : Reader → ℕ → BafsKey → ℕ → Exec TreeState ℕ
delete_from_tree device root_block_address target_key generation = do
  (new_root, _) ← delete_recursive max_depth device root_block_address target_key generation
  pure new_root

pub create_empty_tree : ℕ → ℕ → Exec TreeState (Unit {0})
create_empty_tree block_address generation = write_tree_node_to_cache (record {
  node_checksum = 0;
  level = 0;
  flags = 0;
  item_count = 0;
  self_block_address = block_address;
  generation = generation;
  leaf_items = [];
  internal_items = [];
})
