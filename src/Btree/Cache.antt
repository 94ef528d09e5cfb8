-- ===== src/Btree/Cache.antt =====
-- Block I/O of src/btree.rs: the dirty-block cache before the device.
use bazzulto_bafs.Base.{ℕ, ◌+◌, ◌*◌, ◌%◌, ◌^◌, none, some, List, [], ◌∷◌, ◌++◌}
use bazzulto_bafs.Base.BTreeMap
use bazzulto_bafs.Base.BTreeMap.{BTreeMap}
use bazzulto_bafs.Bytes.{Bytes}
use bazzulto_bafs.Device.{Reader}
use bazzulto_bafs.Error
use bazzulto_bafs.Error.{Result, ok, input_output_error, ok_or}
use bazzulto_bafs.Exec.{Exec, lift, modify, ◌>>=◌}
use bazzulto_bafs.Btree.Node.{BafsTreeNode, sectors_per_block}
use bazzulto_bafs.Btree.Codec.{serialise_node_to_block, deserialise_node_from_block}

abbrev pub DirtyCache : Type 0
DirtyCache = BTreeMap Bytes

-- What a tree operation is lent: `dirty_cache`, `next_free_block` and `freed_blocks`.
pub record TreeState : Type 0 where
  pub dirty_cache : DirtyCache
  pub next_free_block : ℕ
  pub freed_blocks : List ℕ

unfoldable pub read_block : Reader → DirtyCache → ℕ → Result Bytes
read_block device dirty_cache block_address = elim (BTreeMap.get dirty_cache block_address) [
  | some cached_data ↦ ok cached_data
  | none ↦
      ok_or (device (block_address * sectors_per_block % 2 ^ 64) sectors_per_block)
        input_output_error
]

unfoldable pub write_block_to_cache : ℕ → Bytes → Exec TreeState (Unit {0})
write_block_to_cache block_address block_data =
    modify (λ s. record s { dirty_cache = BTreeMap.insert block_address block_data s.dirty_cache })

unfoldable pub read_tree_node : Reader → DirtyCache → ℕ → Result BafsTreeNode
read_tree_node device dirty_cache block_address =
    Error.◌>>=◌ (read_block device dirty_cache block_address)
      λ block_data. deserialise_node_from_block block_data block_address

unfoldable pub write_tree_node_to_cache : BafsTreeNode → Exec TreeState (Unit {0})
write_tree_node_to_cache node = do
  block_data ← lift (serialise_node_to_block node)
  write_block_to_cache node.self_block_address block_data

-- `let new_block = *next_free_block; *next_free_block += 1;`
unfoldable pub take_next_free_block : Exec TreeState ℕ
take_next_free_block s =
    (ok s.next_free_block, record s { next_free_block = (s.next_free_block + 1) % 2 ^ 64 })

-- `freed_blocks.push(block_address)`
unfoldable pub push_freed : ℕ → Exec TreeState (Unit {0})
push_freed block_address =
    modify (λ s. record s { freed_blocks = s.freed_blocks ++ (block_address ∷ []) })
