-- ===== src/Volume/Files/ContentsTests.antt =====
-- A read of src/volume.rs of a file of two bytes. One tree has the inode, the extent and the checksum;
-- it and the data block are in the cache.
use bazzulto_bafs.Base.{
  ℕ, zero, suc, ◌%◌, ◌+◌, ◌*◌, ◌^◌, ◌≤◌, ◌<◌, ◌≡◌, ◌≢◌, refl, sym, ap, ◌∙◌, [], ◌∷◌, ◌==◌,
  length-replicate, replicate, take, drop, arith, false, true, if◌then◌else◌,
}
use bazzulto_bafs.Base.BTreeMap
use bazzulto_bafs.Base.BTreeMap.{get-insert}
use bazzulto_bafs.Bytes.{Bytes, slice, overwrite}
use bazzulto_bafs.Checksum.{compute_crc32c}
use bazzulto_bafs.Error.{Result, out_of_fuel, ok, err, invalid_checksum}
use bazzulto_bafs.Btree.Cache.{TreeState, read_block, read_tree_node}
use bazzulto_bafs.Btree.Key.{rank, new, IsKey}
use bazzulto_bafs.Btree.Map.{Items, find, put, between}
use bazzulto_bafs.Btree.Tree.{view}
use bazzulto_bafs.Btree.Store.{Restored, IsStore-Extends, store-insert, store-lookup}
use bazzulto_bafs.Btree.Insert.{insert_into_tree}
use bazzulto_bafs.Btree.Tests.{no_device}
use bazzulto_bafs.ChecksumTree.{
  BafsChecksumItem, verify_data_block_checksum, checksum_key, serialise_checksum_item_to_bytes,
}
use bazzulto_bafs.ChecksumTree.Laws
use bazzulto_bafs.ChecksumTree.Laws.{checksum_key-IsKey, verify-reads, verify_against-stored}
use bazzulto_bafs.Extent.{
  BafsExtentData, read_extent_data_for_file_offset, serialise_extent_data_to_bytes,
}
use bazzulto_bafs.Extent.RoundTrip.{
  IsExtentData, length-serialise_extent_data, extent_data-RoundTrip,
}
use bazzulto_bafs.Extent.Covering.{first_covering, read_extent_data_for_file_offset_lem}
use bazzulto_bafs.Inode.{
  BafsInode, is_regular_file, new_regular_file, new_inode, inode_key, serialise_inode_to_bytes,
}
use bazzulto_bafs.Inode.Laws.{IsInode, length-serialise, inode_key-IsKey, reads_value, stored_value}
use bazzulto_bafs.Superblock.Tests.{sample}
use bazzulto_bafs.Dir.Lookup.{root_rank, IsInodeStore}
use bazzulto_bafs.Dir.Updates.{inode_least}
use bazzulto_bafs.Volume.Format.Sound.{root_item}
use bazzulto_bafs.Volume.{BafsVolume, volume_read_inode}
use bazzulto_bafs.Volume.Files.{read_loop, block_at, volume_read_file_data, copied}
use bazzulto_bafs.Volume.Files.Tests.{broken_device, formatted, lent, lent_store}
use bazzulto_bafs.Volume.Files.Reads.{read_loop-Terminates}
use bazzulto_bafs.Volume.Files.Contents.{ReadableAt, volume_read_file_data-contents}

-- The data block, at an address that no tree has reached.
abbrev block : Bytes
block = replicate 4096 7

abbrev data_address : ℕ
data_address = 1000000

abbrev short_file : BafsInode
short_file = record (new_regular_file 2 2 0) { file_size_in_bytes = 2 }

abbrev extent : BafsExtentData
extent = record {
  logical_byte_offset = 0;
  first_disk_block = data_address;
  block_count = 1;
  extent_flags = 0;
  reserved = 0;
}

abbrev checksum : BafsChecksumItem
checksum = record {
  block_address = data_address;
  crc32c_checksum = compute_crc32c block;
  reserved = 0;
}

short_file-IsInode : IsInode short_file
unfolding new_regular_file new_inode
short_file-IsInode = record {
  fields_fit = (
    omega arith,
    (
      omega arith,
      (
        omega arith,
        (
          omega arith,
          (
            omega arith,
            (
              omega arith,
              (
                omega arith,
                (
                  omega arith,
                  (
                    omega arith,
                    (
                      omega arith,
                      (omega arith, (omega arith, (omega arith, (omega arith, (omega arith, tt))))),
                    ),
                  ),
                ),
              ),
            ),
          ),
        ),
      ),
    ),
  );
  reserved_size = length-replicate {A = ℕ} 32 0;
}

extent-IsExtentData : IsExtentData extent
extent-IsExtentData = record {
  offset_fits = omega arith;
  block_fits = omega arith;
  count_fits = omega arith;
  flags_fit = omega arith;
  reserved_fits = omega arith;
}

new_extent-IsKey : (offset : ℕ) → offset < 2 ^ 64 → IsKey (new 2 3 offset)
new_extent-IsKey offset h = record {
  object_fits = omega arith;
  type_fits = omega arith;
  offset_fits = h;
}

above_root : (offset : ℕ) → root_rank ≤ rank (new 2 3 offset)
unfolding rank
above_root offset = omega arith

above_root_too : root_rank ≤ rank (checksum_key data_address)
unfolding rank
above_root_too = omega arith

abbrev map1 : Items
map1 =
    put (record { key = inode_key 2; value = serialise_inode_to_bytes short_file }) (root_item ∷ [])

abbrev map2 : Items
map2 = put (record { key = new 2 3 0; value = serialise_extent_data_to_bytes extent }) map1

abbrev map3 : Items
map3 =
    put
      (record {
        key = checksum_key data_address;
        value = serialise_checksum_item_to_bytes checksum;
      })
      map2

abbrev d : ℕ
d = formatted.inode_height

with_inode :
    Restored no_device
      (insert_into_tree no_device formatted.roots.inode_root
        (inode_key 2)
        (serialise_inode_to_bytes short_file)
        2)
      (2 * (d + 1) + 1)
      root_rank
      d
      formatted.roots.inode_root
      (root_item ∷ [])
      map1
      lent
with_inode =
    store-insert no_device lent root_rank d formatted.roots.inode_root (root_item ∷ []) lent_store
      (inode_key 2) (inode_key-IsKey 2 (omega arith)) (serialise_inode_to_bytes short_file) 2
      (inode_least 2 (omega arith)) (omega (arith, length-serialise short_file short_file-IsInode))
      (omega arith) (omega (arith, formatted.inode_height_le))
      (omega (arith, formatted.inode_height_le, formatted.pointer))

with_extent :
    Restored no_device
      (insert_into_tree no_device with_inode.new_root
        (new 2 3 0)
        (serialise_extent_data_to_bytes extent)
        2)
      (2 * (with_inode.height + 1) + 1)
      root_rank
      with_inode.height
      with_inode.new_root
      map1
      map2
      with_inode.state
with_extent =
    store-insert no_device with_inode.state root_rank with_inode.height with_inode.new_root map1
      with_inode.store (new 2 3 0) (new_extent-IsKey 0 (omega arith))
      (serialise_extent_data_to_bytes extent) 2 (above_root 0)
      (omega (arith, length-serialise_extent_data extent)) (omega arith)
      (omega (arith, formatted.inode_height_le, with_inode.height_le))
      (omega (
        arith, formatted.inode_height_le, formatted.pointer, with_inode.height_le, with_inode.spent,
      ))

with_checksum :
    Restored no_device
      (insert_into_tree no_device with_extent.new_root
        (checksum_key data_address)
        (serialise_checksum_item_to_bytes checksum)
        2)
      (2 * (with_extent.height + 1) + 1)
      root_rank
      with_extent.height
      with_extent.new_root
      map2
      map3
      with_extent.state
with_checksum =
    store-insert no_device with_extent.state root_rank with_extent.height with_extent.new_root map2
      with_extent.store (checksum_key data_address) (checksum_key-IsKey data_address (omega arith))
      (serialise_checksum_item_to_bytes checksum) 2 above_root_too
      (omega (arith, Laws.length-serialise checksum)) (omega arith)
      (omega (arith, formatted.inode_height_le, with_inode.height_le, with_extent.height_le))
      (omega (
        arith, formatted.inode_height_le, formatted.pointer, with_inode.height_le, with_inode.spent,
        with_extent.height_le, with_extent.spent,
      ))

abbrev height : ℕ
height = with_checksum.height

abbrev root : ℕ
root = with_checksum.new_root

height-le : height ≤ 4
height-le = omega (
  arith, formatted.inode_height_le, with_inode.height_le, with_extent.height_le,
  with_checksum.height_le,
)

-- No tree has reached the data block.
unreached : with_checksum.state.next_free_block < data_address
unreached = omega (
  arith, formatted.inode_height_le, formatted.pointer, with_inode.height_le, with_inode.spent,
  with_extent.height_le, with_extent.spent, with_checksum.spent,
)

abbrev with_data : TreeState
with_data = record with_checksum.state {
  dirty_cache = BTreeMap.insert data_address block with_checksum.state.dirty_cache;
}

nodes_stay :
    (b : ℕ)
    → b < with_checksum.state.next_free_block
    → view no_device with_data b ≡ view no_device with_checksum.state b
unfolding read_tree_node read_block
nodes_stay b h =
    let other : (data_address == b) ≡ false = ground (arith, unreached) in
    let got = get-insert data_address b block with_checksum.state.dirty_cache in
    ground (arith, got, other)

tree : IsInodeStore no_device with_data height root map3
tree =
    IsStore-Extends no_device with_checksum.state root_rank height root map3 with_checksum.store
      with_data (record { grows = omega arith; agrees = nodes_stay })

abbrev volume : BafsVolume Unit
volume = record {
  disk = tt;
  superblock = record sample { inode_tree_root_block = root; checksum_tree_root_block = root };
  dirty_block_cache = with_data.dirty_cache;
  next_transaction_id = 2;
  next_free_block = data_address + 1;
}

inode_read : volume_read_inode broken_device volume 2 ≡ ok short_file
unfolding volume_read_inode find put rank
inode_read =
    reads_value no_device with_data root 2 _ (
      store-lookup no_device with_data root_rank height root map3 tree (inode_key 2)
        (inode_key-IsKey 2 (omega arith)) (inode_least 2 (omega arith)) (omega (arith, height-le)))
    ∙ stored_value short_file short_file-IsInode

extent_found :
    (offset : ℕ)
    → read_extent_data_for_file_offset no_device with_data.dirty_cache root 2 offset
      ≡ ok (first_covering offset (extent ∷ []))
unfolding between find put rank
extent_found offset =
    read_extent_data_for_file_offset_lem no_device with_data with_data.next_free_block 2 height root
      root_rank map3 offset (extent ∷ []) tree.tree tree.positive (omega (arith, height-le))
      (omega arith) (extent_data-RoundTrip extent extent-IsExtentData, tt) (omega arith, tt)

block_read : read_block no_device with_data.dirty_cache data_address ≡ ok block
unfolding read_block
block_read =
    let got = get-insert data_address data_address block with_checksum.state.dirty_cache in
    ground (arith, got)

same_verdict :
    (c : ℕ)
    → ◌≡◌ {A = Result (Unit {0})}
        (if c == c then ok tt else err (invalid_checksum data_address))
        (ok tt)
same_verdict c = ground arith

block_verified :
    verify_data_block_checksum no_device with_data.dirty_cache root data_address block ≡ ok tt
unfolding find put rank
block_verified =
    verify-reads no_device with_data root data_address block _ (
      store-lookup no_device with_data root_rank height root map3 tree (checksum_key data_address)
        (checksum_key-IsKey data_address (omega arith)) above_root_too (omega (arith, height-le)))
    ∙ verify_against-stored data_address block block (omega arith)
    ∙ same_verdict (compute_crc32c block)

located : (i : ℕ) → i < 2 → block_at broken_device volume 2 i ≡ ok (i, block)
unfolding block_at first_covering
located zero h =
    let found = extent_found 0 in
    let read = block_read in let checked = block_verified in ground (arith, found, read, checked)
located (suc zero) h =
    let found = extent_found 1 in
    let read = block_read in let checked = block_verified in ground (arith, found, read, checked)
located (suc (suc i)) h = absurd (omega arith)

abbrev content : Bytes
content = 7 ∷ 7 ∷ []

agree : (i : ℕ) → i < 2 → slice i (copied i 2 i) block ≡ take (copied i 2 i) (drop i content)
unfolding slice take drop replicate
agree zero h = refl
agree (suc zero) h = refl
agree (suc (suc i)) h = absurd (omega arith)

readable : (i : ℕ) → i < 2 → ReadableAt broken_device volume 2 0 content i
readable i h =
    let here : (0 + i) % 2 ^ 64 ≡ i = omega arith in
    record {
      offset_within_block = i;
      block = block;
      located = rw here (located i h);
      inside = omega arith;
      whole = length-replicate {A = ℕ} 4096 7;
      agrees = agree i h;
    }

regular : is_regular_file short_file ≡ true
unfolding is_regular_file new_regular_file new_inode
regular = refl

volume_read_file_data-contents_example :
    volume_read_file_data broken_device volume 2 0 (0 ∷ 0 ∷ 0 ∷ [])
    ≡ (ok 2, overwrite 0 content (0 ∷ 0 ∷ 0 ∷ []))
volume_read_file_data-contents_example =
    volume_read_file_data-contents broken_device volume 2 0 content short_file inode_read regular
      readable (0 ∷ 0 ∷ 0 ∷ []) refl

lookups_end : (i : ℕ) → i < 2 → block_at broken_device volume 2 ((0 + i) % 2 ^ 64) ≢ out_of_fuel
lookups_end i h stuck =
    let here : (0 + i) % 2 ^ 64 ≡ i = omega arith in
    let found : ◌≡◌ {A = Result (ℕ × Bytes)} (ok (i, block)) out_of_fuel =
      sym (located i h) ∙ sym (ap (block_at broken_device volume 2) here) ∙ stuck in
    absurd (cc found)

read_loop-Terminates_example :
    ((read_loop broken_device 2 volume 2 0 2 0 (0 ∷ 0 ∷ 0 ∷ [])).0 ≢ out_of_fuel)
    × (read_loop broken_device 2 volume 2 0 2 0 (0 ∷ 0 ∷ 0 ∷ [])
        ≡ read_loop broken_device 9 volume 2 0 2 0 (0 ∷ 0 ∷ 0 ∷ []))
read_loop-Terminates_example =
    read_loop-Terminates broken_device volume 2 0 2 2 9 0 (0 ∷ 0 ∷ 0 ∷ []) lookups_end (omega arith)
      (omega arith) (omega arith)
