-- ===== src/Volume/Files.antt =====
-- Creation, writes and reads of files, and creation of directories, in src/volume.rs.
pub mod Reads
pub mod Contents
pub mod ContentsTests
pub mod Refusals
pub mod Tests
use bazzulto_bafs.Base.{
  ℕ, zero, suc, ◌+◌, ◌-◌, ◌*◌, ◌/◌, ◌%◌, ◌^◌, Bool, true, false, List, [], ◌∷◌, ◌&&◌, ltb, leb,
  length, if◌then◌else◌,
}
use bazzulto_bafs.Bytes.{Bytes, slice, overwrite}
use bazzulto_bafs.Device.{BlockDevice, reader}
use bazzulto_bafs.Error
use bazzulto_bafs.Error.{
  Result, ok, ok_or, panic, not_a_directory, not_a_regular_file, corrupted_structure,
}
use bazzulto_bafs.Exec.{Exec, pure, fail, lift, gets, resume, ◌>>=◌, ◌>>◌}
use bazzulto_bafs.Btree.Cache.{read_block}
use bazzulto_bafs.ChecksumTree.{verify_data_block_checksum}
use bazzulto_bafs.Extent.{
  BafsExtentData, read_extent_data_for_file_offset, write_extent_data_to_inode_tree,
}
use bazzulto_bafs.Inode.{BafsInode, new_regular_file, new_directory, is_directory, is_regular_file}
use bazzulto_bafs.Superblock.{bafs_default_block_size_bytes}
use bazzulto_bafs.Dir.{child_type_regular_file, child_type_directory, directory_create_entry}
use bazzulto_bafs.Volume.{
  BafsVolume, on_tree, return_freed_cow_blocks_to_free_extent_tree, volume_read_inode,
  volume_write_inode, volume_allocate_inode_number, set_inode_tree_root,
}
use bazzulto_bafs.Volume.Data.{allocate_and_write_data_blocks}

-- `min` of two sizes.
abbrev pub lesser : ℕ → ℕ → ℕ
lesser a b = if leb a b then a else b

-- `destination_buffer[position..position + count].copy_from_slice(...)` from the block.
pub copy_from_block : ℕ → ℕ → ℕ → Bytes → Exec Bytes (Unit {0})
copy_from_block position offset_within_block count block_data destination_buffer =
    if leb (offset_within_block + count) (length block_data)
      && leb (position + count) (length destination_buffer)
    then (ok tt, overwrite position (slice offset_within_block count block_data) destination_buffer)
    else (panic, destination_buffer)

-- The bytes that a round copies: to the end of the block or of the range.
abbrev pub copied : ℕ → ℕ → ℕ → ℕ
copied offset_within_block bytes_to_read bytes_read_so_far =
    lesser (bafs_default_block_size_bytes - offset_within_block) (bytes_to_read - bytes_read_so_far)

module _ {S : Type 0} (device : BlockDevice S) where
  -- The two functions that create differ in the inode and in the type of the entry.
  unfoldable pub create_child : (ℕ → ℕ → ℕ → BafsInode) → ℕ → ℕ → Bytes → Exec (BafsVolume S) ℕ
  create_child new_inode child_type parent_inode_number filename = do
    start ← gets (λ v. v)
    parent_inode ← lift (volume_read_inode device start parent_inode_number)
    elim (is_directory parent_inode) [
      | false ↦ fail not_a_directory
      | true ↦ do
        new_inode_number ← volume_allocate_inode_number device
        volume_write_inode device (new_inode new_inode_number start.next_transaction_id 0)
        volume ← gets (λ v. v)
        (new_inode_root, freed_blocks) ←
            on_tree
              (directory_create_entry (reader device volume.disk)
                volume.superblock.inode_tree_root_block parent_inode_number filename
                new_inode_number child_type start.next_transaction_id)
              []
        set_inode_tree_root device new_inode_root freed_blocks
        pure new_inode_number
    ]

  unfoldable pub volume_create_file : ℕ → Bytes → Exec (BafsVolume S) ℕ
  unfolding create_child
  volume_create_file = create_child new_regular_file child_type_regular_file

  unfoldable pub volume_create_directory : ℕ → Bytes → Exec (BafsVolume S) ℕ
  unfolding create_child
  volume_create_directory = create_child new_directory child_type_directory

  -- The inode after a write.
  pub grown_inode : BafsInode → ℕ → ℕ → ℕ → ℕ → BafsInode
  grown_inode file_inode write_offset_bytes size block_count generation =
      let end = (write_offset_bytes + size) % 2 ^ 64 in
      record file_inode {
        file_size_in_bytes =
            if leb file_inode.file_size_in_bytes end then end else file_inode.file_size_in_bytes;
        allocated_block_count = (file_inode.allocated_block_count + block_count) % 2 ^ 64;
        generation = generation;
      }

  unfoldable pub volume_write_file_data : ℕ → ℕ → Bytes → Exec (BafsVolume S) ℕ
  unfolding grown_inode
  volume_write_file_data file_inode_number write_offset_bytes [] = pure 0
  volume_write_file_data file_inode_number write_offset_bytes (byte ∷ bytes) = do
    let size = length (byte ∷ bytes)
    let block_count_allocated =
        (size + bafs_default_block_size_bytes - 1) / bafs_default_block_size_bytes
    start ← gets (λ v. v)
    file_inode ← lift (volume_read_inode device start file_inode_number)
    elim (is_regular_file file_inode) [
      | false ↦ fail not_a_regular_file
      | true ↦ do
        first_allocated_block ← allocate_and_write_data_blocks device (byte ∷ bytes)
        volume ← gets (λ v. v)
        (new_inode_root, freed_blocks) ←
            on_tree
              (write_extent_data_to_inode_tree (reader device volume.disk)
                volume.superblock.inode_tree_root_block file_inode_number
                (record {
                  logical_byte_offset = write_offset_bytes;
                  first_disk_block = first_allocated_block;
                  block_count = block_count_allocated;
                  extent_flags = 0;
                  reserved = 0;
                })
                start.next_transaction_id)
              []
        set_inode_tree_root device new_inode_root freed_blocks
        volume_write_inode device (
            grown_inode file_inode write_offset_bytes size block_count_allocated
              start.next_transaction_id)
        pure size
    ]

  -- The block that has the byte at an offset of the file, checked, and the byte's place in it.
  pub block_at : BafsVolume S → ℕ → ℕ → Result (ℕ × Bytes)
  block_at volume file_inode_number current_offset =
      Error.◌>>=◌
        (read_extent_data_for_file_offset (reader device volume.disk) volume.dirty_block_cache
          volume.superblock.inode_tree_root_block file_inode_number current_offset)
        λ covering. Error.◌>>=◌ (ok_or covering corrupted_structure) λ extent.
          let offset_within_extent = current_offset - extent.logical_byte_offset in
          let block_address =
            (extent.first_disk_block + offset_within_extent / bafs_default_block_size_bytes)
            % 2 ^ 64 in
          Error.◌>>=◌
            (read_block (reader device volume.disk) volume.dirty_block_cache block_address)
            λ block_data.
              Error.◌>>=◌
                (verify_data_block_checksum (reader device volume.disk) volume.dirty_block_cache
                  volume.superblock.checksum_tree_root_block block_address block_data)
                λ checked. ok (offset_within_extent % bafs_default_block_size_bytes, block_data)

  -- One round of the read loop: the bytes that it copies.
  pub read_step : BafsVolume S → ℕ → ℕ → ℕ → ℕ → Exec Bytes ℕ
  unfolding copy_from_block block_at
  read_step volume file_inode_number read_offset_bytes bytes_to_read bytes_read_so_far = do
    (offset_within_block, block_data) ←
        lift (block_at volume file_inode_number ((read_offset_bytes + bytes_read_so_far) % 2 ^ 64))
    copy_from_block bytes_read_so_far offset_within_block
        (copied offset_within_block bytes_to_read bytes_read_so_far) block_data
    pure (copied offset_within_block bytes_to_read bytes_read_so_far)

  -- `while bytes_read_so_far < bytes_to_read`
  pub read_loop : ℕ → BafsVolume S → ℕ → ℕ → ℕ → ℕ → Exec Bytes ℕ
  unfolding read_step
  read_loop zero volume file_inode_number read_offset_bytes bytes_to_read bytes_read_so_far =
      if ltb bytes_read_so_far bytes_to_read then lift Error.out_of_fuel else pure bytes_read_so_far
  read_loop (suc fuel) volume file_inode_number read_offset_bytes bytes_to_read bytes_read_so_far =
      elim (ltb bytes_read_so_far bytes_to_read) [
        | false ↦ pure bytes_read_so_far
        | true ↦ do
          count ←
              read_step volume file_inode_number read_offset_bytes bytes_to_read bytes_read_so_far
          read_loop fuel volume file_inode_number read_offset_bytes bytes_to_read
              (bytes_read_so_far + count)
      ]

  -- With the inode, and a buffer that is not empty.
  pub read_from_inode : BafsVolume S → ℕ → ℕ → BafsInode → Exec Bytes ℕ
  unfolding read_loop
  read_from_inode volume file_inode_number read_offset_bytes file_inode destination_buffer =
      elim (is_regular_file file_inode) [
        | false ↦ fail not_a_regular_file destination_buffer
        | true ↦ elim (leb file_inode.file_size_in_bytes read_offset_bytes) [
          | true ↦ pure 0 destination_buffer
          | false ↦
              let bytes_to_read =
                lesser (length destination_buffer)
                  (file_inode.file_size_in_bytes - read_offset_bytes) in
              read_loop bytes_to_read volume file_inode_number read_offset_bytes bytes_to_read 0
                destination_buffer
        ]
      ]

  -- The state is the destination buffer, which the caller lends.
  pub volume_read_file_data : BafsVolume S → ℕ → ℕ → Exec Bytes ℕ
  unfolding read_from_inode
  volume_read_file_data volume file_inode_number read_offset_bytes [] = pure 0 []
  volume_read_file_data volume file_inode_number read_offset_bytes (byte ∷ bytes) =
      resume (read_from_inode volume file_inode_number read_offset_bytes)
        (volume_read_inode device volume file_inode_number) (byte ∷ bytes)
