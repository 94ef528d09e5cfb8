-- ===== src/Inode.antt =====
-- src/inode.rs: the metadata of a file or directory, an item of the inode tree.
pub mod Laws
pub mod Tests
use bazzulto_bafs.Base.{
  ℕ, ◌+◌, ◌%◌, ◌^◌, Bool, Option, none, some, List, [], ◌∷◌, ◌++◌, ltb, ◌==◌, length, replicate,
  if◌then◌else◌, bit_and, bit_or,
}
use bazzulto_bafs.Bytes.{Bytes, read_le, slice}
use bazzulto_bafs.Bytes.Layout.{Fields, encode}
use bazzulto_bafs.Device.{Reader}
use bazzulto_bafs.Error.{Result, ok, err, not_found, corrupted_structure, ◌>>=◌}
use bazzulto_bafs.Exec.{Exec}
use bazzulto_bafs.Btree.Key.{BafsKey, new, item_type_inode}
use bazzulto_bafs.Btree.Cache.{TreeState, DirtyCache}
use bazzulto_bafs.Btree.Lookup.{lookup_in_tree}
use bazzulto_bafs.Btree.Insert.{insert_into_tree}

-- 0o100000, 0o040000, 0o644 and 0o755; the type bits are 0o170000.
abbrev pub inode_mode_regular_file : ℕ
inode_mode_regular_file = 0x8000

abbrev pub inode_mode_directory : ℕ
inode_mode_directory = 0x4000

abbrev pub inode_default_file_permissions : ℕ
inode_default_file_permissions = 0x1A4

abbrev pub inode_default_directory_permissions : ℕ
inode_default_directory_permissions = 0x1ED

abbrev type_bits : ℕ
type_bits = 0xF000

pub record BafsInode : Type 0 where
  pub inode_number : ℕ
  pub file_size_in_bytes : ℕ
  pub allocated_block_count : ℕ
  pub generation : ℕ
  pub creation_time_nanoseconds : ℕ
  pub modification_time_nanoseconds : ℕ
  pub status_change_time_nanoseconds : ℕ
  pub access_time_nanoseconds : ℕ
  pub posix_mode : ℕ
  pub owner_uid : ℕ
  pub owner_gid : ℕ
  pub hard_link_count : ℕ
  pub inode_flags : ℕ
  pub compression_algorithm : ℕ
  pub encryption_key_id : ℕ
  pub reserved : Bytes

unfoldable pub new_inode : ℕ → ℕ → ℕ → ℕ → ℕ → BafsInode
new_inode inode_number generation timestamp_nanoseconds mode link_count = record {
  inode_number = inode_number;
  file_size_in_bytes = 0;
  allocated_block_count = 0;
  generation = generation;
  creation_time_nanoseconds = timestamp_nanoseconds;
  modification_time_nanoseconds = timestamp_nanoseconds;
  status_change_time_nanoseconds = timestamp_nanoseconds;
  access_time_nanoseconds = timestamp_nanoseconds;
  posix_mode = mode;
  owner_uid = 0;
  owner_gid = 0;
  hard_link_count = link_count;
  inode_flags = 0;
  compression_algorithm = 0;
  encryption_key_id = 0;
  reserved = replicate 32 0;
}

unfoldable pub new_regular_file : ℕ → ℕ → ℕ → BafsInode
unfolding new_inode
new_regular_file inode_number generation timestamp_nanoseconds =
    new_inode inode_number generation timestamp_nanoseconds
      (bit_or inode_mode_regular_file inode_default_file_permissions) 1

unfoldable pub new_directory : ℕ → ℕ → ℕ → BafsInode
unfolding new_inode
new_directory inode_number generation timestamp_nanoseconds =
    new_inode inode_number generation timestamp_nanoseconds
      (bit_or inode_mode_directory inode_default_directory_permissions) 2

unfoldable pub is_regular_file : BafsInode → Bool
is_regular_file inode = bit_and inode.posix_mode type_bits == inode_mode_regular_file

pub is_directory : BafsInode → Bool
is_directory inode = bit_and inode.posix_mode type_bits == inode_mode_directory

-- The integer fields before the reserved bytes.
abbrev pub inode_fields : BafsInode → Fields
inode_fields inode =
    (8, inode.inode_number)
    ∷ (8, inode.file_size_in_bytes)
    ∷ (8, inode.allocated_block_count)
    ∷ (8, inode.generation)
    ∷ (8, inode.creation_time_nanoseconds)
    ∷ (8, inode.modification_time_nanoseconds)
    ∷ (8, inode.status_change_time_nanoseconds)
    ∷ (8, inode.access_time_nanoseconds)
    ∷ (4, inode.posix_mode)
    ∷ (4, inode.owner_uid)
    ∷ (4, inode.owner_gid)
    ∷ (4, inode.hard_link_count)
    ∷ (4, inode.inode_flags)
    ∷ (4, inode.compression_algorithm)
    ∷ (8, inode.encryption_key_id)
    ∷ []

-- The struct's bytes, on a little-endian host.
pub serialise_inode_to_bytes : BafsInode → Bytes
serialise_inode_to_bytes inode = encode (inode_fields inode) ++ inode.reserved

-- The caller has checked that there are 128 bytes.
pub deserialise_inode_from_bytes : Bytes → BafsInode
deserialise_inode_from_bytes bytes = record {
  inode_number = read_le 0 8 bytes;
  file_size_in_bytes = read_le 8 8 bytes;
  allocated_block_count = read_le 16 8 bytes;
  generation = read_le 24 8 bytes;
  creation_time_nanoseconds = read_le 32 8 bytes;
  modification_time_nanoseconds = read_le 40 8 bytes;
  status_change_time_nanoseconds = read_le 48 8 bytes;
  access_time_nanoseconds = read_le 56 8 bytes;
  posix_mode = read_le 64 4 bytes;
  owner_uid = read_le 68 4 bytes;
  owner_gid = read_le 72 4 bytes;
  hard_link_count = read_le 76 4 bytes;
  inode_flags = read_le 80 4 bytes;
  compression_algorithm = read_le 84 4 bytes;
  encryption_key_id = read_le 88 8 bytes;
  reserved = slice 96 32 bytes;
}

abbrev pub inode_key : ℕ → BafsKey
inode_key inode_number = new inode_number item_type_inode 0

-- What a lookup found, as an inode.
pub inode_of_value : Option Bytes → Result BafsInode
inode_of_value none = err not_found
inode_of_value (some value_bytes) =
    if ltb (length value_bytes) 128
    then err corrupted_structure
    else ok (deserialise_inode_from_bytes value_bytes)

pub read_inode_from_tree : Reader → DirtyCache → ℕ → ℕ → Result BafsInode
read_inode_from_tree device dirty_cache inode_tree_root_block inode_number =
    lookup_in_tree device dirty_cache inode_tree_root_block (inode_key inode_number)
    >>= λ found_value. inode_of_value found_value

unfoldable pub write_inode_to_tree : Reader → ℕ → BafsInode → ℕ → Exec TreeState ℕ
write_inode_to_tree device inode_tree_root_block inode generation =
    insert_into_tree device inode_tree_root_block (inode_key inode.inode_number)
      (serialise_inode_to_bytes inode) generation

unfoldable pub allocate_next_inode_number : ℕ → ℕ
allocate_next_inode_number current_inode_count = (current_inode_count + 1) % 2 ^ 64
