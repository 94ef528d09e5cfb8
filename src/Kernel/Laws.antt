-- ===== src/Kernel/Laws.antt =====
-- The errors, the lookup and the effects of the kernel's methods of src/kernel.rs, down to the directory tree.
use bazzulto_bafs.Base.{ℕ, ◌^◌, ◌<◌, ◌≡◌, refl, sym, ap, ◌∙◌, true, false, Option, none, ◌∷◌}
use native.Mathlib.Omega.{arith}
use bazzulto_bafs.Bytes.{Bytes}
use bazzulto_bafs.Device.{BlockDevice, reader}
use bazzulto_bafs.Error.{ok}
use bazzulto_bafs.Inode.{BafsInode, new_regular_file, new_directory, is_directory, is_regular_file}
use bazzulto_bafs.Btree.Key.{rank}
use bazzulto_bafs.Btree.Cache.{TreeState}
use bazzulto_bafs.Btree.Map.{Items, find}
use bazzulto_bafs.Dir.{
  BafsDirEntry, child_type_regular_file, child_type_directory, make_directory_entry_key,
  directory_lookup_entry,
}
use bazzulto_bafs.Dir.Lookup.{IsInodeStore, named, directory_lookup_entry_lem}
use bazzulto_bafs.Volume.{BafsVolume, volume_read_inode}
use bazzulto_bafs.Volume.Session.{session, session-Untouched}
use bazzulto_bafs.Volume.Session.Operations.{
  volume_write_file_data-Keeps, create_child-Keeps, volume_unlink_directory_entry-Keeps,
}
use bazzulto_bafs.Volume.Files.{volume_create_file, volume_create_directory}
use bazzulto_bafs.Volume.Files.Refusals.{volume_write_file_data-refused}
use bazzulto_bafs.Volume.Directories.Refusals.{
  volume_unlink_directory_entry-absent, volume_lookup-directory, child_number,
}
use bazzulto_bafs.Kernel.{
  FsError, fs_err, fs_ok, otherwise, lookup, map_bafs_error_to_fs_error, map_error, create, mkdir,
  write_at, unlink,
}

module _ {S : Type 0} (device : BlockDevice S) (v : BafsVolume S) (number : ℕ) where
  -- Whatever their arguments and outcome, writing to a file, creating a file or a directory and
  -- unlinking a name through the kernel's inode leave the device, the next and the last committed
  -- transaction id and the committed boundary of the shared volume as they were: nothing reaches
  -- the device before a flush.
  pub kernel-session :
      (offset : ℕ) (bytes name : Bytes)
      → (session (write_at device number offset bytes v).1 ≡ session v)
        × (session (create device number name v).1 ≡ session v)
        × (session (mkdir device number name v).1 ≡ session v)
        × (session (unlink device number name v).1 ≡ session v)
  unfolding write_at create mkdir unlink volume_create_file volume_create_directory
  kernel-session offset bytes name = (
    volume_write_file_data-Keeps session session-Untouched device number offset bytes v,
    create_child-Keeps session session-Untouched device new_regular_file child_type_regular_file
        number name (λ n w. refl) v,
    create_child-Keeps session session-Untouched device new_directory child_type_directory number
        name (λ n w. refl) v,
    volume_unlink_directory_entry-Keeps session session-Untouched device number name v,
  )

  -- Writing bytes to what is no regular file is NotSupported, and the shared volume stays as it was.
  pub kernel_not_regular :
      (offset byte : ℕ) (bytes : Bytes) (inode : BafsInode)
      → volume_read_inode device v number ≡ ok inode
      → is_regular_file inode ≡ false
      → write_at device number offset (byte ∷ bytes) v ≡ (fs_err FsError.not_supported, v)
  unfolding write_at map_error map_bafs_error_to_fs_error
  kernel_not_regular offset byte bytes inode r d =
      let refused =
        (volume_write_file_data-refused device v number offset).1 byte bytes inode r d in
      ground (arith, refused)

  -- Unlinking a name that the directory does not have is NotFound, and the shared volume stays as it was.
  pub kernel_missing :
      (name : Bytes)
      → directory_lookup_entry
          (reader device v.disk)
          v.dirty_block_cache
          v.superblock.inode_tree_root_block
          number
          name
        ≡ ok none
      → unlink device number name v ≡ (fs_err FsError.not_found, v)
  unfolding unlink map_error map_bafs_error_to_fs_error
  kernel_missing name missing =
      let refused = volume_unlink_directory_entry-absent device v number name missing in
      ground (arith, refused)

  -- On a volume whose inode tree, in the volume's cache, is sound, of fewer than 256 levels below
  -- its root, and has the root inode, the kernel's lookup of a name in an inode that is numbered
  -- from 1 on in 64 bits and is read as a directory gives the inode number of the entry that the
  -- tree's map holds under the directory and the hash of the name, or nothing if there is none or
  -- it has another name.
  pub kernel_lookup_lem :
      (name : Bytes) (inode : BafsInode) (s : TreeState) (depth : ℕ) (m : Items)
      (found : Option BafsDirEntry)
      → IsInodeStore (reader device v.disk) s depth v.superblock.inode_tree_root_block m
      → s.dirty_cache ≡ v.dirty_block_cache
      → 0 < number
      → number < 2 ^ 64
      → depth < 256
      → volume_read_inode device v number ≡ ok inode
      → is_directory inode ≡ true
      → named name (find (rank (make_directory_entry_key number name)) m) ≡ ok found
      → lookup device number name v ≡ fs_ok (child_number found)
  unfolding lookup otherwise
  kernel_lookup_lem name inode s depth m found store same low high d r is_dir e =
      let read =
        ap
          (λ cache.
            directory_lookup_entry (reader device v.disk) cache v.superblock.inode_tree_root_block
              number name)
          (sym same)
        ∙ directory_lookup_entry_lem (reader device v.disk) s depth
            v.superblock.inode_tree_root_block m number name store low high d
        ∙ e in
      let looked = volume_lookup-directory device v number name inode found r is_dir read in
      rw looked refl
