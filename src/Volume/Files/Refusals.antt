-- ===== src/Volume/Files/Refusals.antt =====
-- The errors of the functions of src/volume.rs that create and write, and what they leave.
use bazzulto_bafs.Base.{
  ℕ, ◌+◌, ◌%◌, ◌^◌, ◌<◌, ◌≡◌, ◌≢◌, ◌⊎◌, refl, sym, ap, ◌∙◌, true, false, [], ◌∷◌, length, arith,
  ◌==◌, if◌then◌else◌,
}
use bazzulto_bafs.Bytes.{Bytes}
use bazzulto_bafs.Device.{BlockDevice, reader}
use bazzulto_bafs.Error.{
  Result, panic, out_of_fuel, ok, err, BafsError, not_a_directory, not_a_regular_file,
  invalid_argument, out_of_space,
}
use bazzulto_bafs.Inode.{BafsInode, is_directory, is_regular_file, allocate_next_inode_number}
use bazzulto_bafs.Dir.Updates.{directory_create_entry-refused, new_entry}
use bazzulto_bafs.Volume.{
  BafsVolume, volume_read_inode, volume_write_inode, volume_allocate_inode_number, on_tree,
}
use bazzulto_bafs.Volume.Session.{
  volume_write_inode-Keeps, session, session-Untouched, inode_count, inode_count-Untouched,
}
use bazzulto_bafs.Volume.Data.{allocate_and_write_data_blocks, block_count_needed}
use bazzulto_bafs.Volume.Files.{
  create_child, volume_create_file, volume_create_directory, volume_write_file_data,
}

module _ {S : Type 0} (device : BlockDevice S) (v : BafsVolume S) where
  -- Creating a file or a directory in what is no directory is NotADirectory, in an inode that is not
  -- read the error of the read, and the volume stays as it was.
  pub create-refused :
      (parent : ℕ) (name : Bytes)
      → ((inode : BafsInode)
          → volume_read_inode device v parent ≡ ok inode
          → is_directory inode ≡ false
          → (volume_create_file device parent name v ≡ (err not_a_directory, v))
            × (volume_create_directory device parent name v ≡ (err not_a_directory, v)))
        × ((e : BafsError)
            → volume_read_inode device v parent ≡ err e
            → (volume_create_file device parent name v ≡ (err e, v))
              × (volume_create_directory device parent name v ≡ (err e, v)))
  unfolding create_child volume_create_file volume_create_directory
  create-refused parent name = (
    λ inode r d. (ground (arith, r, d), ground (arith, r, d)),
    λ e r. (ground (arith, r), ground (arith, r)),
  )

  -- The volume with the next inode number taken.
  abbrev pub numbered : BafsVolume S
  numbered = record v {
    superblock = record v.superblock {
      allocated_inode_count = allocate_next_inode_number v.superblock.allocated_inode_count;
    };
  }

  -- The write of the new inode, which comes before the name is looked at.
  abbrev pub inode_written : (ℕ → ℕ → ℕ → BafsInode) → Result (Unit {0}) × BafsVolume S
  inode_written new_inode =
      volume_write_inode device
        (new_inode numbered.superblock.allocated_inode_count v.next_transaction_id 0) numbered

  -- What a name that is refused makes of the outcome of that write.
  abbrev refusal : Result (Unit {0}) → Result ℕ
  refusal panic = panic
  refusal out_of_fuel = out_of_fuel
  refusal (err error) = err error
  refusal (ok done) = err invalid_argument

  refusal-no_inode : (outcome : Result (Unit {0})) (n : ℕ) → refusal outcome ≢ ok n
  refusal-no_inode panic n e = absurd (cc e)
  refusal-no_inode out_of_fuel n e = absurd (cc e)
  refusal-no_inode (err error) n e = absurd (cc e)
  refusal-no_inode (ok done) n e = absurd (cc e)

  create_child-refusal :
      (new_inode : ℕ → ℕ → ℕ → BafsInode) (kind parent : ℕ) (name : Bytes) (inode : BafsInode)
      (written : Result (Unit {0}) × BafsVolume S)
      → (length name ≡ 0) ⊎ (255 < length name)
      → volume_read_inode device v parent ≡ ok inode
      → is_directory inode ≡ true
      → inode_written new_inode ≡ written
      → create_child device new_inode kind parent name v ≡ (refusal written.0, written.1)
  unfolding create_child volume_allocate_inode_number on_tree
  create_child-refusal new_inode kind parent name inode (panic, v') bad r d w =
      ground (arith, r, d, w)
  create_child-refusal new_inode kind parent name inode (out_of_fuel, v') bad r d w =
      ground (arith, r, d, w)
  create_child-refusal new_inode kind parent name inode (err error, v') bad r d w =
      ground (arith, r, d, w)
  create_child-refusal new_inode kind parent name inode (ok done, v') bad r d w =
      let refused =
        (directory_create_entry-refused (reader device v'.disk)
            (record {
              dirty_cache = v'.dirty_block_cache;
              next_free_block = v'.next_free_block;
              freed_blocks = [];
            })
            v'.superblock.inode_tree_root_block parent name v.next_transaction_id
            numbered.superblock.allocated_inode_count kind (new_entry name 0 0)).0
          bad in
      ground (arith, r, d, w, refused)

  -- Creating a name of no bytes or of more than 255 under a parent that is read as a directory
  -- gives no inode number, whatever its writes do; the volume is left as the write of the new
  -- inode left it, with the inode count raised to the next number and the device, the transaction
  -- ids and the committed boundary as they were.
  pub create_child-orphan :
      (new_inode : ℕ → ℕ → ℕ → BafsInode) (kind parent : ℕ) (name : Bytes) (inode : BafsInode)
      → (length name ≡ 0) ⊎ (255 < length name)
      → volume_read_inode device v parent ≡ ok inode
      → is_directory inode ≡ true
      → let (outcome, v') = create_child device new_inode kind parent name v in
        ((n : ℕ) → outcome ≢ ok n)
        × (v' ≡ (inode_written new_inode).1)
        × (v'.superblock.allocated_inode_count
            ≡ allocate_next_inode_number v.superblock.allocated_inode_count)
        × (session v' ≡ session v)
  create_child-orphan new_inode kind parent name inode bad r d =
      let written = inode_written new_inode in
      let run = create_child-refusal new_inode kind parent name inode written bad r d refl in
      let left = ap (λ t. t.1) run in
      let inode = new_inode numbered.superblock.allocated_inode_count v.next_transaction_id 0 in
      (
        λ n e. refusal-no_inode written.0 n (sym (ap (λ t. t.0) run) ∙ e),
        left,
        ap inode_count left
            ∙ volume_write_inode-Keeps inode_count inode_count-Untouched device inode numbered,
        ap session left ∙ volume_write_inode-Keeps session session-Untouched device inode numbered,
      )

  -- Where the bump pointer with the blocks that the data need lies behind the end of the volume,
  -- writing data is OutOfSpace, or InvalidArgument if there are no data, and the volume stays as
  -- it was.
  pub allocate_and_write_data_blocks-refused :
      (bytes : Bytes)
      → v.superblock.total_block_count
        < (v.next_free_block + block_count_needed (length bytes)) % 2 ^ 64
      → allocate_and_write_data_blocks device bytes v ≡ (
        err (if block_count_needed (length bytes) == 0 then invalid_argument else out_of_space),
        v,
      )
  unfolding allocate_and_write_data_blocks
  allocate_and_write_data_blocks-refused bytes full = ground (arith, full)

  -- Writing no bytes returns 0, writing to what is no regular file is NotARegularFile, and the volume
  -- stays as it was.
  pub volume_write_file_data-refused :
      (number offset : ℕ)
      → (volume_write_file_data device number offset [] v ≡ (ok 0, v))
        × ((byte : ℕ) (bytes : Bytes) (inode : BafsInode)
            → volume_read_inode device v number ≡ ok inode
            → is_regular_file inode ≡ false
            → volume_write_file_data device number offset (byte ∷ bytes) v
              ≡ (err not_a_regular_file, v))
  unfolding volume_write_file_data
  volume_write_file_data-refused number offset =
      (refl, λ byte bytes inode r d. ground (arith, r, d))
