-- ===== src/Volume/Data.antt =====
-- `allocate_and_write_data_blocks` of src/volume.rs.
use bazzulto_bafs.Base.{
  ℕ, zero, suc, ◌+◌, ◌-◌, ◌/◌, ◌%◌, ◌^◌, true, false, List, [], ◌==◌, ltb, length, take, drop,
  replicate,
}
use bazzulto_bafs.Bytes.{Bytes, overwrite}
use bazzulto_bafs.Device.{BlockDevice, reader}
use bazzulto_bafs.Error.{invalid_argument, out_of_space}
use bazzulto_bafs.Exec.{Exec, pure, fail, gets, modify, ◌>>=◌, ◌>>◌}
use bazzulto_bafs.Btree.Cache.{write_block_to_cache}
use bazzulto_bafs.ChecksumTree.{store_data_block_checksum}
use bazzulto_bafs.Superblock.{bafs_default_block_size_bytes}
use bazzulto_bafs.Volume.{
  BafsVolume, on_tree, set_superblock, return_freed_cow_blocks_to_free_extent_tree,
}

-- `data.len().div_ceil(block_size)`
unfoldable pub block_count_needed : ℕ → ℕ
block_count_needed size =
    (size + (bafs_default_block_size_bytes - 1)) / bafs_default_block_size_bytes

-- The first block of what is left of the bytes, filled up with zeros.
unfoldable pub block_buffer : Bytes → Bytes
block_buffer bytes =
    overwrite 0 (take bafs_default_block_size_bytes bytes)
      (replicate bafs_default_block_size_bytes 0)

module _ {S : Type 0} (device : BlockDevice S) where
  -- `for block_index in 0..block_count_needed`: the blocks that are left, their first address and the
  -- bytes from there on; the blocks freed so far go round.
  unfoldable pub write_data_blocks : ℕ → ℕ → ℕ → Bytes → List ℕ → Exec (BafsVolume S) (List ℕ)
  write_data_blocks zero this_block_address generation bytes freed_blocks = pure freed_blocks
  write_data_blocks (suc left) this_block_address generation bytes freed_blocks = do
    volume ← gets (λ v. v)
    (done, freed) ←
        on_tree (write_block_to_cache this_block_address (block_buffer bytes)) freed_blocks
    (new_checksum_root, freed_more) ←
        on_tree
          (store_data_block_checksum (reader device volume.disk)
            volume.superblock.checksum_tree_root_block this_block_address (block_buffer bytes)
            generation)
          freed
    set_superblock
        (λ superblock. record superblock { checksum_tree_root_block = new_checksum_root })
    write_data_blocks left ((this_block_address + 1) % 2 ^ 64) generation
        (drop bafs_default_block_size_bytes bytes) freed_more

  unfoldable pub allocate_and_write_data_blocks : Bytes → Exec (BafsVolume S) ℕ
  unfolding write_data_blocks
  allocate_and_write_data_blocks bytes = do
    let count = block_count_needed (length bytes)
    elim (count == 0) [
      | true ↦ fail invalid_argument
      | false ↦ do
        volume ← gets (λ v. v)
        elim (ltb volume.superblock.total_block_count ((volume.next_free_block + count) % 2 ^ 64)) [
          | true ↦ fail out_of_space
          | false ↦ do
            modify (λ v. record v { next_free_block = (v.next_free_block + count) % 2 ^ 64 })
            set_superblock (λ superblock. record superblock {
              free_block_count = superblock.free_block_count - count;
            })
            freed_blocks ←
                write_data_blocks count volume.next_free_block volume.next_transaction_id bytes []
            return_freed_cow_blocks_to_free_extent_tree device freed_blocks
            pure volume.next_free_block
        ]
    ]
