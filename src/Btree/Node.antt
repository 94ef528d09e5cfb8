-- ===== src/Btree/Node.antt =====
-- The in-memory nodes of src/btree.rs and their capacity.
use bazzulto_bafs.Base.{ℕ, ◌+◌, ◌*◌, Bool, List, [], ◌∷◌, length, ltb}
use bazzulto_bafs.Bytes.{Bytes}
use bazzulto_bafs.Btree.Key.{BafsKey}

abbrev pub block_size : ℕ
block_size = 4096

abbrev pub sectors_per_block : ℕ
sectors_per_block = 8

abbrev pub node_header_size_bytes : ℕ
node_header_size_bytes = 24

abbrev pub leaf_item_header_size_bytes : ℕ
leaf_item_header_size_bytes = 25

abbrev pub internal_max_items : ℕ
internal_max_items = 90

pub record BafsLeafItem : Type 0 where
  pub key : BafsKey
  pub value : Bytes

pub record BafsInternalItem : Type 0 where
  pub key : BafsKey
  pub child_block : ℕ
  pub child_generation : ℕ

pub record BafsTreeNode : Type 0 where
  pub node_checksum : ℕ
  pub level : ℕ
  pub flags : ℕ
  pub item_count : ℕ
  pub self_block_address : ℕ
  pub generation : ℕ
  pub leaf_items : List BafsLeafItem
  pub internal_items : List BafsInternalItem

-- `leaf_items.iter().map(|item| item.value.len()).sum()`
unfoldable pub total_value_bytes : List BafsLeafItem → ℕ
total_value_bytes [] = 0
total_value_bytes (item ∷ rest) = length item.value + total_value_bytes rest

unfoldable pub leaf_serialised_size : List BafsLeafItem → ℕ
leaf_serialised_size leaf_items =
    node_header_size_bytes
    + length leaf_items * leaf_item_header_size_bytes
    + total_value_bytes leaf_items

unfoldable pub leaf_node_would_overflow : List BafsLeafItem → Bool
unfolding leaf_serialised_size
leaf_node_would_overflow leaf_items = ltb block_size (leaf_serialised_size leaf_items)
