-- ===== src/Extent.antt =====
-- src/extent.rs: the extents of files and the pool of free extents, in two trees.
pub mod RoundTrip
pub mod Errors
pub mod Covering
pub mod Tests
use bazzulto_bafs.Base.{
  ℕ, zero, suc, ◌+◌, ◌-◌, ◌*◌, ◌%◌, ◌^◌, Bool, true, false, Option, none, some, List, [], ◌∷◌, ◌++◌,
  ◌==◌, ◌&&◌, ltb, leb, length, if◌then◌else◌,
}
use mathlib.Core.List.{reverse}
use bazzulto_bafs.Bytes.{Bytes, read_le}
use bazzulto_bafs.Bytes.Layout.{Fields, encode}
use bazzulto_bafs.Device.{Reader}
use bazzulto_bafs.Error
use bazzulto_bafs.Error.{Result, ok, panic, ok_or, out_of_space}
use bazzulto_bafs.Exec.{Exec, pure, lift, gets, ◌>>=◌, ◌>>◌}
use bazzulto_bafs.Btree.Key.{BafsKey, new, item_type_extent_data}
use bazzulto_bafs.Btree.Node.{BafsLeafItem, block_size}
use bazzulto_bafs.Btree.Cache.{TreeState, DirtyCache}
use bazzulto_bafs.Btree.Lookup.{iterate_tree_range}
use bazzulto_bafs.Btree.Insert.{insert_into_tree}
use bazzulto_bafs.Btree.Delete.{delete_from_tree}

abbrev pub bafs_free_extent_object_id : ℕ
bafs_free_extent_object_id = 0xFFFF_FFFF_FFFF_FFFE

pub record BafsExtentData : Type 0 where
  pub logical_byte_offset : ℕ
  pub first_disk_block : ℕ
  pub block_count : ℕ
  pub extent_flags : ℕ
  pub reserved : ℕ

pub record BafsFreeExtent : Type 0 where
  pub block_address : ℕ
  pub block_count : ℕ

abbrev pub extent_data_fields : BafsExtentData → Fields
extent_data_fields extent =
    (8, extent.logical_byte_offset)
    ∷ (8, extent.first_disk_block)
    ∷ (8, extent.block_count)
    ∷ (4, extent.extent_flags)
    ∷ (4, extent.reserved)
    ∷ []

unfoldable pub serialise_extent_data_to_bytes : BafsExtentData → Bytes
serialise_extent_data_to_bytes extent = encode (extent_data_fields extent)

-- A value of fewer than 32 bytes fails the `debug_assert!`, and without it the read is undefined.
unfoldable pub deserialise_extent_data_from_bytes : Bytes → Result BafsExtentData
deserialise_extent_data_from_bytes bytes =
    if leb 32 (length bytes)
    then ok (record {
      logical_byte_offset = read_le 0 8 bytes;
      first_disk_block = read_le 8 8 bytes;
      block_count = read_le 16 8 bytes;
      extent_flags = read_le 24 4 bytes;
      reserved = read_le 28 4 bytes;
    })
    else panic

unfoldable pub serialise_free_extent_to_bytes : BafsFreeExtent → Bytes
serialise_free_extent_to_bytes free_extent =
    encode ((8, free_extent.block_address) ∷ (8, free_extent.block_count) ∷ [])

-- As for `BafsExtentData`, with 16 bytes.
unfoldable pub deserialise_free_extent_from_bytes : Bytes → Result BafsFreeExtent
deserialise_free_extent_from_bytes bytes =
    if leb 16 (length bytes)
    then ok (record { block_address = read_le 0 8 bytes; block_count = read_le 8 8 bytes })
    else panic

unfoldable pub write_extent_data_to_inode_tree :
    Reader → ℕ → ℕ → BafsExtentData → ℕ → Exec TreeState ℕ
write_extent_data_to_inode_tree device inode_tree_root_block inode_number extent generation =
    insert_into_tree device inode_tree_root_block
      (new inode_number item_type_extent_data extent.logical_byte_offset)
      (serialise_extent_data_to_bytes extent) generation

-- Does the extent cover the offset?
pub covers : ℕ → BafsExtentData → Bool
covers file_byte_offset extent =
    leb extent.logical_byte_offset file_byte_offset
    && ltb file_byte_offset
        ((extent.logical_byte_offset + extent.block_count * block_size % 2 ^ 64) % 2 ^ 64)

-- `for item in &all_extent_items`
pub find_covering : ℕ → List BafsLeafItem → Result (Option BafsExtentData)
find_covering file_byte_offset [] = ok none
find_covering file_byte_offset (item ∷ rest) =
    let later = find_covering file_byte_offset rest in
    Error.◌>>=◌ (deserialise_extent_data_from_bytes item.value)
      λ extent. if covers file_byte_offset extent then ok (some extent) else later

pub read_extent_data_for_file_offset :
    Reader → DirtyCache → ℕ → ℕ → ℕ → Result (Option BafsExtentData)
read_extent_data_for_file_offset device dirty_cache inode_tree_root_block inode_number
      file_byte_offset =
    Error.◌>>=◌
      (iterate_tree_range device dirty_cache inode_tree_root_block
        (new inode_number item_type_extent_data 0)
        (new inode_number item_type_extent_data (2 ^ 64 - 1)))
      λ all_extent_items. find_covering file_byte_offset all_extent_items

unfoldable pub insert_free_extent_into_tree : Reader → ℕ → ℕ → ℕ → ℕ → Exec TreeState ℕ
insert_free_extent_into_tree device free_extent_tree_root_block block_address block_count
      generation =
    insert_into_tree device free_extent_tree_root_block
      (new bafs_free_extent_object_id item_type_extent_data block_address)
      (serialise_free_extent_to_bytes
        (record { block_address = block_address; block_count = block_count }))
      generation

-- `iter().find` over items whose values are free extents.
pub find_extent : (BafsFreeExtent → Bool) → List BafsLeafItem → Result (Option BafsLeafItem)
find_extent test [] = ok none
find_extent test (item ∷ rest) =
    let later = find_extent test rest in
    Error.◌>>=◌ (deserialise_free_extent_from_bytes item.value)
      λ extent. if test extent then ok (some item) else later

-- The range scan over all free extents.
abbrev pub all_free_extents : Reader → DirtyCache → ℕ → Result (List BafsLeafItem)
all_free_extents device dirty_cache free_extent_tree_root_block =
    iterate_tree_range device dirty_cache free_extent_tree_root_block
      (new bafs_free_extent_object_id item_type_extent_data 0)
      (new bafs_free_extent_object_id item_type_extent_data (2 ^ 64 - 1))

-- The address that is allocated and the new root.
pub allocate_blocks : Reader → ℕ → ℕ → ℕ → Exec TreeState (ℕ × ℕ)
allocate_blocks device free_extent_tree_root_block requested_block_count generation = do
  dirty_cache ← gets (λ s. s.dirty_cache)
  all_free_items ← lift (all_free_extents device dirty_cache free_extent_tree_root_block)
  chosen ← lift (
      find_extent (λ extent. leb requested_block_count extent.block_count) (reverse all_free_items))
  chosen_free_extent ← lift (ok_or chosen out_of_space)
  free_extent ← lift (deserialise_free_extent_from_bytes chosen_free_extent.value)
  let extent_end = (free_extent.block_address + free_extent.block_count) % 2 ^ 64
  let allocated_block_address = (extent_end + (2 ^ 64 - requested_block_count)) % 2 ^ 64
  current_root ←
      delete_from_tree device free_extent_tree_root_block chosen_free_extent.key generation
  elim (ltb free_extent.block_address allocated_block_address) [
    | true ↦ do
      new_root ←
          insert_free_extent_into_tree device current_root free_extent.block_address
            (allocated_block_address - free_extent.block_address) generation
      pure (allocated_block_address, new_root)
    | false ↦ pure (allocated_block_address, current_root)
  ]

-- The range so far, and the root after its neighbour was removed.
pub record Merge : Type 0 where
  pub merged_start : ℕ
  pub merged_count : ℕ
  pub current_root : ℕ

merge_predecessor : Reader → ℕ → Merge → Option BafsLeafItem → Exec TreeState Merge
merge_predecessor device generation merge none = pure merge
merge_predecessor device generation merge (some predecessor_item) = do
  extent ← lift (deserialise_free_extent_from_bytes predecessor_item.value)
  new_root ← delete_from_tree device merge.current_root predecessor_item.key generation
  pure (record {
    merged_start = extent.block_address;
    merged_count = (merge.merged_count + extent.block_count) % 2 ^ 64;
    current_root = new_root;
  })

merge_successor : Reader → ℕ → Merge → Option BafsLeafItem → Exec TreeState Merge
merge_successor device generation merge none = pure merge
merge_successor device generation merge (some successor_item) = do
  extent ← lift (deserialise_free_extent_from_bytes successor_item.value)
  new_root ← delete_from_tree device merge.current_root successor_item.key generation
  pure (record merge {
    merged_count = (merge.merged_count + extent.block_count) % 2 ^ 64;
    current_root = new_root;
  })

pub free_blocks : Reader → ℕ → ℕ → ℕ → ℕ → Exec TreeState ℕ
free_blocks device free_extent_tree_root_block block_address block_count generation = do
  dirty_cache ← gets (λ s. s.dirty_cache)
  all_free_items ← lift (all_free_extents device dirty_cache free_extent_tree_root_block)
  predecessor ← lift (
      find_extent (λ extent. (extent.block_address + extent.block_count) % 2 ^ 64 == block_address)
        all_free_items)
  merge ←
      merge_predecessor device generation
        (record {
          merged_start = block_address;
          merged_count = block_count;
          current_root = free_extent_tree_root_block;
        })
        predecessor
  updated_cache ← gets (λ s. s.dirty_cache)
  updated_free_items ← lift (all_free_extents device updated_cache merge.current_root)
  successor ← lift (
      find_extent
        (λ extent. extent.block_address == (merge.merged_start + merge.merged_count) % 2 ^ 64)
        updated_free_items)
  final ← merge_successor device generation merge successor
  insert_free_extent_into_tree device final.current_root final.merged_start final.merged_count
      generation
