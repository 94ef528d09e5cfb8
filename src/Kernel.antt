-- ===== src/Kernel.antt =====
-- src/kernel.rs: the kernel's `Inode` interface over a shared volume. An inode is its number; the volume
-- behind the `UnsafeCell` is the state that every method is given.
pub mod Laws
pub mod Tests
use bazzulto_bafs.Base.{
  ℕ, zero, suc, ◌^◌, Bool, true, false, Option, none, some, ◌==◌, if◌then◌else◌, bit_or,
}
use bazzulto_bafs.Bytes.{Bytes}
use bazzulto_bafs.Device.{BlockDevice}
use bazzulto_bafs.Error
use bazzulto_bafs.Error.{Result, ok, err, BafsError}
use bazzulto_bafs.Exec.{Exec}
use bazzulto_bafs.Inode.{
  BafsInode, is_directory, inode_mode_regular_file, inode_mode_directory,
  inode_default_file_permissions, inode_default_directory_permissions,
}
use bazzulto_bafs.Dir.{BafsDirEntry, child_type_directory}
use bazzulto_bafs.Volume.{BafsVolume, volume_read_inode}
use bazzulto_bafs.Volume.Mount.{bafs_mount}
use bazzulto_bafs.Volume.Files.{
  volume_create_file, volume_create_directory, volume_write_file_data, volume_read_file_data,
}
use bazzulto_bafs.Volume.Directories.{
  volume_lookup_directory_entry, volume_read_directory_entry_at_index,
  volume_unlink_directory_entry,
}

pub data InodeType : Type 0 where
  regular_file directory char_device fifo symlink : InodeType

pub record InodeStat : Type 0 where
  pub inode_number : ℕ
  pub size : ℕ
  pub mode : ℕ
  pub nlinks : ℕ

abbrev pub stat_of_regular : ℕ → ℕ → InodeStat
stat_of_regular inode_number size = record {
  inode_number = inode_number;
  size = size;
  mode = bit_or inode_mode_regular_file inode_default_file_permissions;
  nlinks = 1;
}

abbrev pub stat_of_directory : ℕ → InodeStat
stat_of_directory inode_number = record {
  inode_number = inode_number;
  size = 0;
  mode = bit_or inode_mode_directory inode_default_directory_permissions;
  nlinks = 2;
}

pub record DirEntry : Type 0 where
  pub name : Bytes
  pub inode_type : InodeType
  pub inode_number : ℕ

pub data FsError : Type 0 where
  not_supported not_found not_directory already_exists directory_not_empty out_of_memory : FsError
  io_error permission_denied broken_pipe would_block too_many_links invalid_argument : FsError

-- The library's integers, over the native numbers.
pub data ℤ : Type 0 where
  pos : ℕ → ℤ
  negsuc : ℕ → ℤ

unfoldable pub to_errno : FsError → ℤ
to_errno not_supported = negsuc 37
to_errno not_found = negsuc 1
to_errno not_directory = negsuc 19
to_errno already_exists = negsuc 16
to_errno directory_not_empty = negsuc 38
to_errno out_of_memory = negsuc 11
to_errno io_error = negsuc 4
to_errno permission_denied = negsuc 12
to_errno broken_pipe = negsuc 31
to_errno would_block = negsuc 10
to_errno too_many_links = negsuc 30
to_errno invalid_argument = negsuc 21

pub map_bafs_error_to_fs_error : BafsError → FsError
map_bafs_error_to_fs_error Error.not_found = not_found
map_bafs_error_to_fs_error Error.already_exists = already_exists
map_bafs_error_to_fs_error Error.not_a_directory = not_directory
map_bafs_error_to_fs_error Error.not_a_regular_file = not_supported
map_bafs_error_to_fs_error Error.out_of_space = out_of_memory
map_bafs_error_to_fs_error Error.invalid_argument = invalid_argument
map_bafs_error_to_fs_error _ = io_error

-- The outcome of a method: `Result<_, FsError>`, or what no method returns from.
pub data FsResult (A : Type 0) : Type 0 where
  fs_panic : FsResult A
  fs_out_of_fuel : FsResult A
  fs_err : FsError → FsResult A
  fs_ok : A → FsResult A

-- `map_err(map_bafs_error_to_fs_error)`
pub map_error : {A : Type 0} → Result A → FsResult A
unfolding map_bafs_error_to_fs_error
map_error Error.panic = fs_panic
map_error Error.out_of_fuel = fs_out_of_fuel
map_error (err error) = fs_err (map_bafs_error_to_fs_error error)
map_error (ok value) = fs_ok value

-- `match`: one value for every error, another for a result.
pub otherwise : {A B : Type 0} → Result A → B → (A → B) → FsResult B
otherwise Error.panic default found = fs_panic
otherwise Error.out_of_fuel default found = fs_out_of_fuel
otherwise (err error) default found = fs_ok default
otherwise (ok value) default found = fs_ok (found value)

-- `readdir`'s entry.
pub entry_of : BafsDirEntry → DirEntry
entry_of entry = record {
  name = entry.filename;
  inode_type = if entry.child_type == child_type_directory then directory else regular_file;
  inode_number = entry.child_inode_number;
}

module _ {S : Type 0} (device : BlockDevice S) (inode_number : ℕ) where
  unfoldable pub inode_type : BafsVolume S → FsResult InodeType
  unfolding otherwise
  inode_type volume =
      otherwise (volume_read_inode device volume inode_number) regular_file
        λ inode. if is_directory inode then directory else regular_file

  unfoldable pub stat : BafsVolume S → FsResult InodeStat
  unfolding otherwise
  stat volume =
      otherwise (volume_read_inode device volume inode_number) (stat_of_regular inode_number 0)
        λ inode.
          if is_directory inode
          then stat_of_directory inode_number
          else stat_of_regular inode_number inode.file_size_in_bytes

  unfoldable pub read_at : ℕ → BafsVolume S → Bytes → FsResult ℕ × Bytes
  unfolding map_error
  read_at offset volume buf =
      let (outcome, filled) = volume_read_file_data device volume inode_number offset buf in
      (map_error outcome, filled)

  -- A method that borrows the volume mutably.
  abbrev mutably : {A : Type 0} → Exec (BafsVolume S) A → BafsVolume S → FsResult A × BafsVolume S
  mutably operation volume = let (outcome, left) = operation volume in (map_error outcome, left)

  pub write_at : ℕ → Bytes → BafsVolume S → FsResult ℕ × BafsVolume S
  unfolding map_error
  write_at offset buf = mutably (volume_write_file_data device inode_number offset buf)

  unfoldable pub truncate : ℕ → FsResult (Unit {0})
  truncate new_size = fs_err not_supported

  -- The methods that the trait defines and no inode replaces.
  unfoldable pub set_mode : ℕ → FsResult (Unit {0})
  set_mode mode = fs_ok tt

  unfoldable pub link_child : Bytes → ℕ → FsResult (Unit {0})
  link_child name child = fs_err not_supported

  -- The number of the inode that is found.
  pub lookup : Bytes → BafsVolume S → FsResult (Option ℕ)
  unfolding otherwise
  lookup name volume =
      otherwise (volume_lookup_directory_entry device volume inode_number name) none λ found. found

  unfoldable pub readdir : ℕ → BafsVolume S → FsResult (Option DirEntry)
  unfolding otherwise entry_of
  readdir index volume =
      otherwise (volume_read_directory_entry_at_index device volume inode_number index) none
        (elim [ none ↦ none | some entry ↦ some (entry_of entry) ])

  pub create : Bytes → BafsVolume S → FsResult ℕ × BafsVolume S
  unfolding map_error
  create name = mutably (volume_create_file device inode_number name)

  pub mkdir : Bytes → BafsVolume S → FsResult ℕ × BafsVolume S
  unfolding map_error
  mkdir name = mutably (volume_create_directory device inode_number name)

  pub unlink : Bytes → BafsVolume S → FsResult (Unit {0}) × BafsVolume S
  unfolding map_error
  unlink name = mutably (volume_unlink_directory_entry device inode_number name)

module _ {S : Type 0} (device : BlockDevice S) where
  -- The mounted volume and the number of its root inode.
  unfoldable pub bafs_mount_kernel_volume : S → Result (BafsVolume S × ℕ) × S
  bafs_mount_kernel_volume disk =
      let (outcome, left) = bafs_mount device disk in
      (Error.◌>>=◌ outcome λ volume. ok (volume, volume.superblock.root_inode_number), left)
