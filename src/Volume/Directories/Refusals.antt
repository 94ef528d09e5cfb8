-- ===== src/Volume/Directories/Refusals.antt =====
-- The errors of the directory functions of src/volume.rs, what they leave, and what a lookup gives.
use bazzulto_bafs.Base.{ℕ, ◌≡◌, Option, none, some, true, false, arith}
use bazzulto_bafs.Bytes.{Bytes}
use bazzulto_bafs.Device.{BlockDevice, reader}
use bazzulto_bafs.Error.{ok, err, not_found, not_a_directory}
use bazzulto_bafs.Dir.{BafsDirEntry, directory_lookup_entry}
use bazzulto_bafs.Inode.{BafsInode, is_directory}
use bazzulto_bafs.Volume.{BafsVolume, volume_read_inode}
use bazzulto_bafs.Volume.Directories.{volume_unlink_directory_entry, volume_lookup_directory_entry}

-- The inode number of an entry, if there is one.
abbrev pub child_number : Option BafsDirEntry → Option ℕ
child_number none = none
child_number (some entry) = some entry.child_inode_number

module _ {S : Type 0} (device : BlockDevice S) (v : BafsVolume S) where
  -- Unlinking a name that a lookup does not find is NotFound, and the volume stays as it was.
  pub volume_unlink_directory_entry-absent :
      (directory : ℕ) (name : Bytes)
      → directory_lookup_entry
          (reader device v.disk)
          v.dirty_block_cache
          v.superblock.inode_tree_root_block
          directory
          name
        ≡ ok none
      → volume_unlink_directory_entry device directory name v ≡ (err not_found, v)
  unfolding volume_unlink_directory_entry
  volume_unlink_directory_entry-absent directory name e = ground (arith, e)

  -- A lookup in what is no directory is NotADirectory.
  pub volume_lookup-not_directory :
      (directory : ℕ) (name : Bytes) (inode : BafsInode)
      → volume_read_inode device v directory ≡ ok inode
      → is_directory inode ≡ false
      → volume_lookup_directory_entry device v directory name ≡ err not_a_directory
  unfolding volume_lookup_directory_entry
  volume_lookup-not_directory directory name inode r d = ground (arith, r, d)

  -- In a directory a lookup gives the number of the entry that the inode tree has.
  pub volume_lookup-directory :
      (directory : ℕ) (name : Bytes) (inode : BafsInode) (found : Option BafsDirEntry)
      → volume_read_inode device v directory ≡ ok inode
      → is_directory inode ≡ true
      → directory_lookup_entry
          (reader device v.disk)
          v.dirty_block_cache
          v.superblock.inode_tree_root_block
          directory
          name
        ≡ ok found
      → volume_lookup_directory_entry device v directory name ≡ ok (child_number found)
  unfolding volume_lookup_directory_entry
  volume_lookup-directory directory name inode none r d e = ground (arith, r, d, e)
  volume_lookup-directory directory name inode (some entry) r d e = ground (arith, r, d, e)
