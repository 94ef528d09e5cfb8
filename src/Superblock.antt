-- ===== src/Superblock.antt =====
-- src/superblock.rs: the root of the filesystem's state, in two copies on the disk.
pub mod RoundTrip
pub mod Writes
pub mod Tests
use bazzulto_bafs.Base.{
  ℕ, zero, suc, ◌+◌, ◌*◌, ◌/◌, ◌%◌, ◌^◌, Bool, true, false, Option, none, some, List, [], ◌∷◌, ◌++◌,
  ltb, ◌==◌, ◌&&◌, length, take, drop, replicate, if◌then◌else◌,
}
use bazzulto_bafs.Bytes.{Bytes, to_le_bytes, read_le, slice, overwrite}
use bazzulto_bafs.Bytes.Layout.{Fields, encode}
use bazzulto_bafs.Checksum.{compute_crc32c, verify_crc32c}
use bazzulto_bafs.Device.{BlockDevice, Reader}
use bazzulto_bafs.Error
use bazzulto_bafs.Error.{
  Result, ok, err, ok_or, input_output_error, invalid_magic_number, unsupported_version,
  invalid_checksum,
}
use bazzulto_bafs.Exec.{Exec, pure, fail, ◌>>=◌, ◌>>◌}

-- "BAFS", 0x1B and three zeros.
abbrev pub bafs_magic_number : Bytes
bafs_magic_number = 0x42 ∷ 0x41 ∷ 0x46 ∷ 0x53 ∷ 0x1B ∷ 0 ∷ 0 ∷ 0 ∷ []

abbrev pub bafs_supported_version : ℕ
bafs_supported_version = 1

abbrev pub bafs_default_block_size_bytes : ℕ
bafs_default_block_size_bytes = 4096

abbrev pub bafs_sectors_per_block : ℕ
bafs_sectors_per_block = 8

abbrev pub bafs_primary_superblock_block_address : ℕ
bafs_primary_superblock_block_address = 1

abbrev pub bafs_backup_superblock_block_address : ℕ
bafs_backup_superblock_block_address = 2

abbrev pub bafs_journal_start_block_address : ℕ
bafs_journal_start_block_address = 3

abbrev pub bafs_journal_size_min_blocks : ℕ
bafs_journal_size_min_blocks = 256

abbrev pub bafs_journal_size_max_blocks : ℕ
bafs_journal_size_max_blocks = 16384

-- `one_percent_of_total.max(MIN).min(MAX)`
unfoldable pub compute_journal_size_in_blocks : ℕ → ℕ
compute_journal_size_in_blocks total_block_count =
    let one_percent_of_total = total_block_count / 100 in
    let at_least =
      if ltb one_percent_of_total bafs_journal_size_min_blocks
      then bafs_journal_size_min_blocks
      else one_percent_of_total in
    if ltb bafs_journal_size_max_blocks at_least then bafs_journal_size_max_blocks else at_least

unfoldable pub compute_data_area_start_block : ℕ → ℕ
compute_data_area_start_block total_block_count =
    bafs_journal_start_block_address + compute_journal_size_in_blocks total_block_count

pub record BafsSuperblock : Type 0 where
  pub magic_number : Bytes
  pub version : ℕ
  pub block_size_in_bytes : ℕ
  pub total_block_count : ℕ
  pub free_block_count : ℕ
  pub allocated_inode_count : ℕ
  pub last_committed_transaction_id : ℕ
  pub root_inode_number : ℕ
  pub inode_tree_root_block : ℕ
  pub free_extent_tree_root_block : ℕ
  pub checksum_tree_root_block : ℕ
  pub journal_start_block : ℕ
  pub journal_size_in_blocks : ℕ
  pub volume_uuid : ℕ × ℕ
  pub volume_label : ℕ × ℕ × ℕ × ℕ
  pub feature_flags : ℕ
  pub checksum_algorithm : ℕ
  pub next_cow_block_address : ℕ
  pub reserved : Bytes
  pub superblock_checksum : ℕ

-- The integer fields between the magic number and the reserved bytes.
abbrev pub superblock_fields : BafsSuperblock → Fields
superblock_fields superblock =
    (4, superblock.version)
    ∷ (4, superblock.block_size_in_bytes)
    ∷ (8, superblock.total_block_count)
    ∷ (8, superblock.free_block_count)
    ∷ (8, superblock.allocated_inode_count)
    ∷ (8, superblock.last_committed_transaction_id)
    ∷ (8, superblock.root_inode_number)
    ∷ (8, superblock.inode_tree_root_block)
    ∷ (8, superblock.free_extent_tree_root_block)
    ∷ (8, superblock.checksum_tree_root_block)
    ∷ (8, superblock.journal_start_block)
    ∷ (8, superblock.journal_size_in_blocks)
    ∷ (8, superblock.volume_uuid.0)
    ∷ (8, superblock.volume_uuid.1)
    ∷ (8, superblock.volume_label.0)
    ∷ (8, superblock.volume_label.1)
    ∷ (8, superblock.volume_label.2)
    ∷ (8, superblock.volume_label.3)
    ∷ (4, superblock.feature_flags)
    ∷ (4, superblock.checksum_algorithm)
    ∷ (8, superblock.next_cow_block_address)
    ∷ []

-- The struct's bytes, on a little-endian host.
unfoldable pub serialise_superblock_to_bytes : BafsSuperblock → Bytes
serialise_superblock_to_bytes superblock =
    superblock.magic_number
    ++ (encode (superblock_fields superblock)
        ++ (superblock.reserved ++ encode ((4, superblock.superblock_checksum) ∷ [])))

unfoldable pub deserialise_superblock_from_bytes : Bytes → BafsSuperblock
deserialise_superblock_from_bytes bytes = record {
  magic_number = slice 0 8 bytes;
  version = read_le 8 4 bytes;
  block_size_in_bytes = read_le 12 4 bytes;
  total_block_count = read_le 16 8 bytes;
  free_block_count = read_le 24 8 bytes;
  allocated_inode_count = read_le 32 8 bytes;
  last_committed_transaction_id = read_le 40 8 bytes;
  root_inode_number = read_le 48 8 bytes;
  inode_tree_root_block = read_le 56 8 bytes;
  free_extent_tree_root_block = read_le 64 8 bytes;
  checksum_tree_root_block = read_le 72 8 bytes;
  journal_start_block = read_le 80 8 bytes;
  journal_size_in_blocks = read_le 88 8 bytes;
  volume_uuid = (read_le 96 8 bytes, read_le 104 8 bytes);
  volume_label =
      (read_le 112 8 bytes, read_le 120 8 bytes, read_le 128 8 bytes, read_le 136 8 bytes);
  feature_flags = read_le 144 4 bytes;
  checksum_algorithm = read_le 148 4 bytes;
  next_cow_block_address = read_le 152 8 bytes;
  reserved = slice 160 348 bytes;
  superblock_checksum = read_le 508 4 bytes;
}

unfoldable pub compute_checksum : BafsSuperblock → ℕ
compute_checksum superblock = compute_crc32c (take 508 (serialise_superblock_to_bytes superblock))

unfoldable pub seal_with_checksum : BafsSuperblock → BafsSuperblock
seal_with_checksum superblock = record superblock {
  superblock_checksum = compute_checksum superblock;
}

unfoldable pub verify_checksum : BafsSuperblock → Bool
verify_checksum superblock =
    verify_crc32c (take 508 (serialise_superblock_to_bytes superblock))
      superblock.superblock_checksum

-- `==` of byte arrays.
unfoldable pub same_bytes : Bytes → Bytes → Bool
same_bytes [] [] = true
same_bytes (x ∷ xs) (y ∷ ys) = (x == y) && same_bytes xs ys
same_bytes _ _ = false

-- The three checks, in their order.
unfoldable pub validate_superblock : ℕ → BafsSuperblock → Result BafsSuperblock
validate_superblock block_address superblock =
    if same_bytes superblock.magic_number bafs_magic_number
    then if superblock.version == bafs_supported_version
      then if verify_checksum superblock
        then ok superblock
        else err (invalid_checksum block_address)
      else err (unsupported_version superblock.version)
    else err invalid_magic_number

unfoldable pub read_superblock_from_device : Reader → ℕ → Result BafsSuperblock
read_superblock_from_device device block_address =
    Error.◌>>=◌
      (ok_or (device (block_address * bafs_sectors_per_block % 2 ^ 64) bafs_sectors_per_block)
        input_output_error)
      λ block_buffer.
        validate_superblock block_address
          (deserialise_superblock_from_bytes (take 512 block_buffer))

-- The closure `write_at_block`.
unfoldable pub write_at_block : {S : Type 0} → BlockDevice S → Bytes → ℕ → Exec S (Unit {0})
write_at_block device serialised block_address s =
    let block_buffer = overwrite 0 serialised (replicate bafs_default_block_size_bytes 0) in
    let (success, s') =
      device.write_sectors (block_address * bafs_sectors_per_block % 2 ^ 64) bafs_sectors_per_block
        block_buffer s in
    elim success [ true ↦ pure tt s' | false ↦ fail input_output_error s' ]

-- The caller's superblock is `seal_with_checksum superblock` from then on, whatever the outcome.
unfoldable pub write_superblock_to_device :
    {S : Type 0} → BlockDevice S → BafsSuperblock → Exec S (Unit {0})
write_superblock_to_device device superblock = do
  let serialised = serialise_superblock_to_bytes (seal_with_checksum superblock)
  write_at_block device serialised bafs_backup_superblock_block_address
  write_at_block device serialised bafs_primary_superblock_block_address
