-- ===== src/ChecksumTree.antt =====
-- src/checksum_tree.rs: the checksums of the data blocks, in a tree of their own.
pub mod Laws
pub mod Tests
use bazzulto_bafs.Base.{
  ℕ, zero, suc, ◌+◌, ◌^◌, Bool, true, false, Option, none, some, [], ◌∷◌, ltb, length, replicate,
  if◌then◌else◌,
}
use bazzulto_bafs.Bytes.{Bytes, to_le_bytes, read_le, overwrite}
use bazzulto_bafs.Checksum.{compute_crc32c, verify_crc32c}
use bazzulto_bafs.Device.{Reader}
use bazzulto_bafs.Error.{Result, ok, err, corrupted_structure, invalid_checksum, ◌>>=◌}
use bazzulto_bafs.Exec.{Exec}
use bazzulto_bafs.Btree.Key.{BafsKey, new, item_type_checksum_entry}
use bazzulto_bafs.Btree.Cache.{TreeState, DirtyCache}
use bazzulto_bafs.Btree.Lookup.{lookup_in_tree}
use bazzulto_bafs.Btree.Insert.{insert_into_tree}

abbrev pub bafs_checksum_object_id : ℕ
bafs_checksum_object_id = 0xFFFF_FFFF_FFFF_FFFD

pub record BafsChecksumItem : Type 0 where
  pub block_address : ℕ
  pub crc32c_checksum : ℕ
  pub reserved : ℕ

unfoldable pub serialise_checksum_item_to_bytes : BafsChecksumItem → Bytes
serialise_checksum_item_to_bytes item = overwrite 12 (to_le_bytes 4 item.reserved) (
    overwrite 8 (to_le_bytes 4 item.crc32c_checksum)
      (overwrite 0 (to_le_bytes 8 item.block_address) (replicate 16 0)))

-- The caller has checked that there are 16 bytes.
unfoldable pub deserialise_checksum_item_from_bytes : Bytes → BafsChecksumItem
deserialise_checksum_item_from_bytes bytes = record {
  block_address = read_le 0 8 bytes;
  crc32c_checksum = read_le 8 4 bytes;
  reserved = read_le 12 4 bytes;
}

abbrev pub checksum_key : ℕ → BafsKey
checksum_key data_block_address =
    new bafs_checksum_object_id item_type_checksum_entry data_block_address

unfoldable pub store_data_block_checksum : Reader → ℕ → ℕ → Bytes → ℕ → Exec TreeState ℕ
store_data_block_checksum device checksum_tree_root_block data_block_address block_data generation =
    insert_into_tree device checksum_tree_root_block (checksum_key data_block_address)
      (serialise_checksum_item_to_bytes (record {
        block_address = data_block_address;
        crc32c_checksum = compute_crc32c block_data;
        reserved = 0;
      }))
      generation

-- The comparison with what the tree has for the block.
unfoldable pub verify_against : ℕ → Bytes → Option Bytes → Result (Unit {0})
verify_against data_block_address block_data none = ok tt
verify_against data_block_address block_data (some value_bytes) =
    if ltb (length value_bytes) 16
    then err corrupted_structure
    else if verify_crc32c block_data
        (deserialise_checksum_item_from_bytes value_bytes).crc32c_checksum
    then ok tt
    else err (invalid_checksum data_block_address)

unfoldable pub verify_data_block_checksum : Reader → DirtyCache → ℕ → ℕ → Bytes → Result (Unit {0})
verify_data_block_checksum device dirty_cache checksum_tree_root_block data_block_address
      block_data =
    lookup_in_tree device dirty_cache checksum_tree_root_block (checksum_key data_block_address)
    >>= λ found_value. verify_against data_block_address block_data found_value
