-- ===== src/Volume/Directories.antt =====
-- Lookups in directories and the removal of entries, in src/volume.rs.
pub mod Refusals
use bazzulto_bafs.Base.{
  ℕ, zero, suc, ◌+◌, ◌-◌, ◌%◌, ◌^◌, Bool, true, false, Option, none, some, List, [], ◌∷◌, ◌==◌, ltb,
  if◌then◌else◌,
}
use bazzulto_bafs.Bytes.{Bytes}
use bazzulto_bafs.Device.{BlockDevice, reader}
use bazzulto_bafs.Error
use bazzulto_bafs.Error.{Result, ok, err, ok_or, not_a_directory, not_found}
use bazzulto_bafs.Exec.{Exec, pure, fail, lift, gets, ◌>>=◌, ◌>>◌}
use bazzulto_bafs.Btree.Key.{new, item_type_extent_data, item_type_inode}
use bazzulto_bafs.Btree.Node.{BafsLeafItem}
use bazzulto_bafs.Btree.Lookup.{iterate_tree_range}
use bazzulto_bafs.Btree.Delete.{delete_from_tree}
use bazzulto_bafs.Extent.{deserialise_extent_data_from_bytes, free_blocks}
use bazzulto_bafs.Inode.{BafsInode, is_directory}
use bazzulto_bafs.Dir.{
  BafsDirEntry, directory_lookup_entry, directory_iterate, directory_unlink_entry,
}
use bazzulto_bafs.Volume.{
  BafsVolume, on_tree, set_superblock, return_freed_cow_blocks_to_free_extent_tree,
  volume_read_inode, volume_write_inode,
}

-- `saturating_add` of 64-bit numbers.
abbrev saturating_add : ℕ → ℕ → ℕ
saturating_add a b = if ltb (a + b) (2 ^ 64) then a + b else 2 ^ 64 - 1

-- The roots that the removal of an inode's extents changes, and the blocks freed so far.
pub record Roots : Type 0 where
  pub inode_root : ℕ
  pub free_extent_root : ℕ
  pub freed_blocks : List ℕ

module _ {S : Type 0} (device : BlockDevice S) where
  pub volume_lookup_directory_entry : BafsVolume S → ℕ → Bytes → Result (Option ℕ)
  volume_lookup_directory_entry volume directory_inode_number filename =
      Error.◌>>=◌ (volume_read_inode device volume directory_inode_number) λ dir_inode.
        elim (is_directory dir_inode) [
          | false ↦ err not_a_directory
          | true ↦
              Error.◌>>=◌
                (directory_lookup_entry (reader device volume.disk) volume.dirty_block_cache
                  volume.superblock.inode_tree_root_block directory_inode_number filename)
                (elim [ none ↦ ok none | some entry ↦ ok (some entry.child_inode_number) ])
        ]

  unfoldable pub volume_read_directory_entry_at_index :
      BafsVolume S → ℕ → ℕ → Result (Option BafsDirEntry)
  volume_read_directory_entry_at_index volume directory_inode_number index =
      directory_iterate (reader device volume.disk) volume.dirty_block_cache
        volume.superblock.inode_tree_root_block directory_inode_number index

  -- `for extent_item in &extent_items`
  unfoldable pub free_extents : ℕ → List BafsLeafItem → Roots → Exec (BafsVolume S) Roots
  unfolding on_tree
  free_extents generation [] roots = pure roots
  free_extents generation (extent_item ∷ rest) roots = do
    volume ← gets (λ v. v)
    extent ← lift (deserialise_extent_data_from_bytes extent_item.value)
    (free_extent_root, freed_blocks) ←
        on_tree
          (free_blocks (reader device volume.disk) roots.free_extent_root extent.first_disk_block
            extent.block_count generation)
          roots.freed_blocks
    (inode_root, freed_more) ←
        on_tree
          (delete_from_tree (reader device volume.disk) roots.inode_root extent_item.key generation)
          freed_blocks
    free_extents generation rest (record {
      inode_root = inode_root;
      free_extent_root = free_extent_root;
      freed_blocks = freed_more;
    })

  -- The extents of an inode without links, then the inode; the freed blocks come back.
  unfoldable pub remove_inode : BafsInode → ℕ → ℕ → List ℕ → Exec (BafsVolume S) (List ℕ)
  unfolding free_extents
  remove_inode child_inode child_inode_number generation unlink_freed_blocks = do
    volume ← gets (λ v. v)
    extent_items ← lift (
        iterate_tree_range (reader device volume.disk) volume.dirty_block_cache
          volume.superblock.inode_tree_root_block (new child_inode_number item_type_extent_data 0)
          (new child_inode_number item_type_extent_data (2 ^ 64 - 1)))
    roots ← free_extents generation extent_items (record {
      inode_root = volume.superblock.inode_tree_root_block;
      free_extent_root = volume.superblock.free_extent_tree_root_block;
      freed_blocks = unlink_freed_blocks;
    })
    (inode_root, freed_blocks) ←
        on_tree
          (delete_from_tree (reader device volume.disk) roots.inode_root
            (new child_inode_number item_type_inode 0) generation)
          roots.freed_blocks
    set_superblock (λ superblock. record superblock {
      inode_tree_root_block = inode_root;
      free_extent_tree_root_block = roots.free_extent_root;
      free_block_count =
          saturating_add superblock.free_block_count child_inode.allocated_block_count;
    })
    pure freed_blocks

  unfoldable pub volume_unlink_directory_entry : ℕ → Bytes → Exec (BafsVolume S) (Unit {0})
  unfolding remove_inode
  volume_unlink_directory_entry directory_inode_number filename = do
    start ← gets (λ v. v)
    let generation = start.next_transaction_id
    found ← lift (
        directory_lookup_entry (reader device start.disk) start.dirty_block_cache
          start.superblock.inode_tree_root_block directory_inode_number filename)
    child_entry ← lift (ok_or found not_found)
    (new_inode_root, unlink_freed_blocks) ←
        on_tree
          (directory_unlink_entry (reader device start.disk) start.superblock.inode_tree_root_block
            directory_inode_number filename generation)
          []
    set_superblock (λ superblock. record superblock { inode_tree_root_block = new_inode_root })
    unlinked ← gets (λ v. v)
    stored ← lift (volume_read_inode device unlinked child_entry.child_inode_number)
    let child_inode = record stored { hard_link_count = stored.hard_link_count - 1 }
    freed_blocks ← elim (child_inode.hard_link_count == 0) [
      | true ↦
          remove_inode child_inode child_entry.child_inode_number generation unlink_freed_blocks
      | false ↦ do volume_write_inode device child_inode; pure unlink_freed_blocks
    ]
    return_freed_cow_blocks_to_free_extent_tree device freed_blocks
