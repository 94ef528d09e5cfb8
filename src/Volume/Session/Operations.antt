-- ===== src/Volume/Session/Operations.antt =====
-- The operations of src/volume.rs that change files and directories, on a part of the volume that the
-- changes of the trees do not reach.
use bazzulto_bafs.Base.{
  ℕ, zero, suc, ◌+◌, ◌-◌, ◌%◌, ◌/◌, ◌^◌, ◌≡◌, refl, ◌∙◌, ◌==◌, List, [], ◌∷◌, ltb, length, drop,
}
use bazzulto_bafs.Bytes.{Bytes}
use bazzulto_bafs.Device.{BlockDevice, reader}
use bazzulto_bafs.Error.{Result, ok_or, not_found}
use bazzulto_bafs.Exec.{Exec, pure, lift, ◌>>=◌, ◌>>◌}
use bazzulto_bafs.Btree.Cache.{write_block_to_cache}
use bazzulto_bafs.Btree.Delete.{delete_from_tree}
use bazzulto_bafs.Btree.Key.{new, item_type_extent_data, item_type_inode}
use bazzulto_bafs.Btree.Lookup.{iterate_tree_range}
use bazzulto_bafs.Btree.Node.{BafsLeafItem}
use bazzulto_bafs.ChecksumTree.{store_data_block_checksum}
use bazzulto_bafs.Extent.{
  write_extent_data_to_inode_tree, deserialise_extent_data_from_bytes, free_blocks,
}
use bazzulto_bafs.Inode.{BafsInode, is_directory, is_regular_file}
use bazzulto_bafs.Dir.{directory_create_entry, directory_lookup_entry, directory_unlink_entry}
use bazzulto_bafs.Superblock.{bafs_default_block_size_bytes}
use bazzulto_bafs.Volume.{
  BafsVolume, volume_read_inode, volume_write_inode, volume_allocate_inode_number,
  set_inode_tree_root, return_freed_cow_blocks_to_free_extent_tree,
}
use bazzulto_bafs.Volume.Data.{
  block_count_needed, block_buffer, write_data_blocks, allocate_and_write_data_blocks,
}
use bazzulto_bafs.Volume.Files.{create_child, volume_write_file_data}
use bazzulto_bafs.Volume.Directories.{
  Roots, free_extents, remove_inode, volume_unlink_directory_entry,
}
use bazzulto_bafs.Volume.Session.{
  Untouched, Keeps, >>=-Keeps, either, tree_then, return_freed_cow_blocks-Keeps,
  set_inode_tree_root-Keeps, volume_write_inode-Keeps, with_trees,
}

module _ {S X : Type 0} (part : BafsVolume S → X) (u : Untouched part)
    (device : BlockDevice S) where
  -- What reads only, and what follows it.
  lift_then :
      {A B : Type 0} (found : Result A) (rest : A → Exec (BafsVolume S) B)
      → ((value : A) → Keeps part (rest value))
      → Keeps part (lift found >>= rest)
  lift_then found rest h = >>=-Keeps part (lift found) rest (λ v. refl) h

  write_data_blocks-Keeps :
      (left address generation : ℕ) (bytes : Bytes) (freed : List ℕ)
      → Keeps part (write_data_blocks device left address generation bytes freed)
  unfolding write_data_blocks
  write_data_blocks-Keeps zero address generation bytes freed v = refl
  write_data_blocks-Keeps (suc left) address generation bytes freed v =
      tree_then part u device (write_block_to_cache address (block_buffer bytes)) freed _
        (λ r.
          tree_then part u device
            (store_data_block_checksum (reader device v.disk) v.superblock.checksum_tree_root_block
              address (block_buffer bytes) generation)
            r.1 _
            (λ c w.
              write_data_blocks-Keeps left ((address + 1) % 2 ^ 64) generation
                (drop bafs_default_block_size_bytes bytes) c.1 _
              ∙ u.by_roots w.superblock.inode_tree_root_block
                  w.superblock.free_extent_tree_root_block c.0 w.superblock.free_block_count w))
        v

  allocate_and_write_data_blocks-Keeps :
      (bytes : Bytes) → Keeps part (allocate_and_write_data_blocks device bytes)
  unfolding allocate_and_write_data_blocks
  allocate_and_write_data_blocks-Keeps bytes v =
      let count = block_count_needed (length bytes) in
      either part (count == 0) _ _ (λ w. refl)
        (λ v.
          either part (ltb v.superblock.total_block_count ((v.next_free_block + count) % 2 ^ 64)) _
            _ (λ w. refl)
            (λ w.
              >>=-Keeps part
                (write_data_blocks device count v.next_free_block v.next_transaction_id bytes [])
                (λ freed. do
                  return_freed_cow_blocks_to_free_extent_tree device freed
                  pure v.next_free_block)
                (write_data_blocks-Keeps count v.next_free_block v.next_transaction_id bytes [])
                (λ freed.
                  >>=-Keeps part (return_freed_cow_blocks_to_free_extent_tree device freed) _
                    (return_freed_cow_blocks-Keeps part u device freed) (λ done w. refl))
                _
              ∙ u.by_roots w.superblock.inode_tree_root_block
                  w.superblock.free_extent_tree_root_block w.superblock.checksum_tree_root_block
                  (w.superblock.free_block_count - count)
                  (with_trees w.dirty_block_cache ((w.next_free_block + count) % 2 ^ 64) w)
              ∙ u.by_trees w.dirty_block_cache ((w.next_free_block + count) % 2 ^ 64) w)
            v)
        v

  pub volume_write_file_data-Keeps :
      (number offset : ℕ) (bytes : Bytes)
      → Keeps part (volume_write_file_data device number offset bytes)
  unfolding volume_write_file_data
  volume_write_file_data-Keeps number offset [] v = refl
  volume_write_file_data-Keeps number offset (byte ∷ bytes) v =
      lift_then (volume_read_inode device v number) _
        (λ inode.
          either part (is_regular_file inode) _ _
            (λ w.
              >>=-Keeps part (allocate_and_write_data_blocks device (byte ∷ bytes)) _
                (allocate_and_write_data_blocks-Keeps (byte ∷ bytes))
                (λ first w.
                  tree_then part u device
                    (write_extent_data_to_inode_tree (reader device w.disk)
                      w.superblock.inode_tree_root_block number
                      (record {
                        logical_byte_offset = offset;
                        first_disk_block = first;
                        block_count =
                            (length (byte ∷ bytes) + bafs_default_block_size_bytes - 1)
                            / bafs_default_block_size_bytes;
                        extent_flags = 0;
                        reserved = 0;
                      })
                      v.next_transaction_id)
                    [] _
                    (λ r.
                      >>=-Keeps part (set_inode_tree_root device r.0 r.1) _
                        (set_inode_tree_root-Keeps part u device r.0 r.1)
                        (λ done.
                          >>=-Keeps part (volume_write_inode device _) _
                            (volume_write_inode-Keeps part u device _) (λ done w. refl)))
                    w)
                w)
            (λ w. refl))
        v

  -- The entry of a new inode, after the inode was written.
  pub create_child-Keeps :
      (new_inode : ℕ → ℕ → ℕ → BafsInode) (kind parent : ℕ) (name : Bytes)
      → ((n : ℕ) (v : BafsVolume S)
          → part (record v { superblock = record v.superblock { allocated_inode_count = n } })
            ≡ part v)
      → Keeps part (create_child device new_inode kind parent name)
  unfolding create_child volume_allocate_inode_number
  create_child-Keeps new_inode kind parent name counted v =
      lift_then (volume_read_inode device v parent) _
        (λ inode.
          either part (is_directory inode) _ _
            (λ w.
              >>=-Keeps part (volume_write_inode device _) _
                (volume_write_inode-Keeps part u device _)
                (λ done w.
                  tree_then part u device
                    (directory_create_entry (reader device w.disk)
                      w.superblock.inode_tree_root_block parent name _ kind v.next_transaction_id)
                    [] _
                    (λ r.
                      >>=-Keeps part (set_inode_tree_root device r.0 r.1) _
                        (set_inode_tree_root-Keeps part u device r.0 r.1) (λ done w. refl))
                    w)
                _
              ∙ counted _ w)
            (λ w. refl))
        v

  free_extents-Keeps :
      (generation : ℕ) (items : List BafsLeafItem) (roots : Roots)
      → Keeps part (free_extents device generation items roots)
  unfolding free_extents
  free_extents-Keeps generation [] roots v = refl
  free_extents-Keeps generation (item ∷ rest) roots v =
      lift_then (deserialise_extent_data_from_bytes item.value) _
        (λ extent.
          tree_then part u device
            (free_blocks (reader device v.disk) roots.free_extent_root extent.first_disk_block
              extent.block_count generation)
            roots.freed_blocks _
            (λ r.
              tree_then part u device
                (delete_from_tree (reader device v.disk) roots.inode_root item.key generation) r.1 _
                (λ q. free_extents-Keeps generation rest _)))
        v

  remove_inode-Keeps :
      (inode : BafsInode) (number generation : ℕ) (freed : List ℕ)
      → Keeps part (remove_inode device inode number generation freed)
  unfolding remove_inode
  remove_inode-Keeps inode number generation freed v =
      lift_then
        (iterate_tree_range (reader device v.disk) v.dirty_block_cache
          v.superblock.inode_tree_root_block (new number item_type_extent_data 0)
          (new number item_type_extent_data (2 ^ 64 - 1)))
        _
        (λ items.
          >>=-Keeps part (free_extents device generation items _) _
            (free_extents-Keeps generation items _)
            (λ roots.
              tree_then part u device
                (delete_from_tree (reader device v.disk) roots.inode_root
                  (new number item_type_inode 0) generation)
                roots.freed_blocks _
                (λ r w.
                  u.by_roots r.0 roots.free_extent_root w.superblock.checksum_tree_root_block _ w)))
        v

  pub volume_unlink_directory_entry-Keeps :
      (directory : ℕ) (name : Bytes)
      → Keeps part (volume_unlink_directory_entry device directory name)
  unfolding volume_unlink_directory_entry
  volume_unlink_directory_entry-Keeps directory name v =
      lift_then
        (directory_lookup_entry (reader device v.disk) v.dirty_block_cache
          v.superblock.inode_tree_root_block directory name)
        _
        (λ found. lift_then (ok_or found not_found) _ (λ child.
          tree_then part u device
            (directory_unlink_entry (reader device v.disk) v.superblock.inode_tree_root_block
              directory name v.next_transaction_id)
            [] _
            (λ r w.
              lift_then
                (volume_read_inode device
                  (record w { superblock = record w.superblock { inode_tree_root_block = r.0 } })
                  child.child_inode_number)
                _
                (λ stored.
                  let left = record stored { hard_link_count = stored.hard_link_count - 1 } in
                  >>=-Keeps part _ _
                    (either part (left.hard_link_count == 0)
                      (remove_inode device left child.child_inode_number v.next_transaction_id r.1)
                      (volume_write_inode device left >> pure r.1)
                      (remove_inode-Keeps left child.child_inode_number v.next_transaction_id r.1)
                      (>>=-Keeps part (volume_write_inode device left) _
                        (volume_write_inode-Keeps part u device left) (λ done w. refl)))
                    (λ freed. return_freed_cow_blocks-Keeps part u device freed))
                _
              ∙ u.by_roots r.0 w.superblock.free_extent_tree_root_block
                  w.superblock.checksum_tree_root_block w.superblock.free_block_count w)))
        v
