-- ===== src/Btree/Lookup.antt =====
-- `lookup_in_tree` and `iterate_tree_range` of src/btree.rs.
pub mod Refines
pub mod Range
pub mod Scan
use bazzulto_bafs.Base.{
  ℕ, zero, suc, ◌-◌, ◌^◌, Bool, true, false, Option, none, some, List, [], ◌∷◌, ◌++◌, ◌==◌, ◌||◌,
  ◌&&◌, get_elem?, if◌then◌else◌,
}
use mathlib.Core.Option
use bazzulto_bafs.Bytes.{Bytes}
use bazzulto_bafs.Device.{Reader}
use bazzulto_bafs.Error.{Result, ok, out_of_fuel, or_panic, ◌>>=◌}
use bazzulto_bafs.Btree.Key.{BafsKey, new, key_le, key_lt}
use bazzulto_bafs.Btree.Node.{BafsTreeNode, BafsLeafItem, BafsInternalItem}
use bazzulto_bafs.Btree.Cache.{DirtyCache, read_tree_node}
use bazzulto_bafs.Btree.Search.{
  SearchResult, found, insertion, search_leaf, find_child_index_for_key,
}

-- A node's level is a byte and falls by one from a node to its children, so 256 nodes are the
-- longest path of a sound tree.
abbrev pub max_depth : ℕ
max_depth = 256

lookup_in_leaf : List BafsLeafItem → BafsKey → Result (Option Bytes)
lookup_in_leaf items key = elim (search_leaf items key) [
  | found i ↦ do item ← or_panic (get_elem? items i); ok (some item.value)
  | insertion i ↦ ok none
]

lookup_loop : ℕ → Reader → DirtyCache → ℕ → BafsKey → Result (Option Bytes)
lookup_loop zero device dirty_cache current_block_address target_key = out_of_fuel
lookup_loop (suc fuel) device dirty_cache current_block_address target_key = do
  node ← read_tree_node device dirty_cache current_block_address
  elim (node.level == 0) [
    | true ↦ lookup_in_leaf node.leaf_items target_key
    | false ↦ do
      child ←
          or_panic (
            get_elem? node.internal_items (find_child_index_for_key node.internal_items target_key))
      lookup_loop fuel device dirty_cache child.child_block target_key
  ]

pub lookup_in_tree : Reader → DirtyCache → ℕ → BafsKey → Result (Option Bytes)
lookup_in_tree device dirty_cache root_block_address target_key =
    lookup_loop max_depth device dirty_cache root_block_address target_key

-- The leaf's part of `collect_range`.
pub filter_range : BafsKey → BafsKey → List BafsLeafItem → List BafsLeafItem
filter_range min_key max_key [] = []
filter_range min_key max_key (item ∷ rest) =
    let more = filter_range min_key max_key rest in
    if key_le min_key item.key && key_le item.key max_key then item ∷ more else more

-- The upper bound of a child: the key of the next one, or the largest key.
abbrev pub child_max_key : List BafsInternalItem → BafsKey
child_max_key [] = new (2 ^ 64 - 1) 255 (2 ^ 64 - 1)
child_max_key (next ∷ _) = next.key

-- The children from one on. `collect` is `collect_range` on a child.
pub collect_children :
    (ℕ → Result (List BafsLeafItem))
    → BafsKey
    → BafsKey
    → List BafsInternalItem
    → Result (List BafsLeafItem)
collect_children collect min_key max_key [] = ok []
collect_children collect min_key max_key (item ∷ rest) =
    let others = collect_children collect min_key max_key rest in
    elim (key_lt (child_max_key rest) min_key || key_lt max_key item.key) [
      | true ↦ others
      | false ↦ do items ← collect item.child_block; more ← others; ok (items ++ more)
    ]

-- What `collect_range` pushes to `output`.
pub collect_range : ℕ → Reader → DirtyCache → BafsKey → BafsKey → ℕ → Result (List BafsLeafItem)
collect_range zero device dirty_cache min_key max_key block_address = out_of_fuel
collect_range (suc fuel) device dirty_cache min_key max_key block_address = do
  node ← read_tree_node device dirty_cache block_address
  elim (node.level == 0) [
    | true ↦ ok (filter_range min_key max_key node.leaf_items)
    | false ↦
        collect_children (collect_range fuel device dirty_cache min_key max_key) min_key max_key
          node.internal_items
  ]

pub iterate_tree_range : Reader → DirtyCache → ℕ → BafsKey → BafsKey → Result (List BafsLeafItem)
iterate_tree_range device dirty_cache root_block_address min_key max_key =
    collect_range max_depth device dirty_cache min_key max_key root_block_address
