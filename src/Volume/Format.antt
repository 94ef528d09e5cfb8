-- ===== src/Volume/Format.antt =====
-- `bafs_format` of src/volume.rs.
pub mod Trees
pub mod Sound
use bazzulto_bafs.Base.{
  ℕ, zero, suc, ◌+◌, ◌-◌, ◌/◌, ◌%◌, ◌^◌, Bool, true, false, List, [], ◌∷◌, ◌==◌, ltb, replicate,
}
use bazzulto_bafs.Bytes.{Bytes, read_le}
use bazzulto_bafs.Device.{BlockDevice, Reader, reader}
use bazzulto_bafs.Error
use bazzulto_bafs.Error.{Result, ok, err, out_of_space}
use bazzulto_bafs.Exec.{Exec, pure, fail, lift, gets, resume, ◌>>=◌, ◌>>◌}
use bazzulto_bafs.Btree.Key.{new, item_type_extent_data}
use bazzulto_bafs.Btree.Cache.{TreeState}
use bazzulto_bafs.Btree.Delete.{delete_from_tree, create_empty_tree}
use bazzulto_bafs.Extent.{insert_free_extent_into_tree, bafs_free_extent_object_id}
use bazzulto_bafs.Inode.{new_directory, write_inode_to_tree}
use bazzulto_bafs.Journal.{write_home, write_all_home}
use bazzulto_bafs.Superblock.{
  BafsSuperblock, bafs_magic_number, bafs_supported_version, bafs_default_block_size_bytes,
  bafs_sectors_per_block, bafs_journal_start_block_address, compute_journal_size_in_blocks,
  compute_data_area_start_block, write_superblock_to_device,
}

pub record BafsFormatOptions : Type 0 where
  pub volume_uuid_lower : ℕ
  pub volume_label : Bytes

-- The roots of the three trees of a new volume.
pub record FormatRoots : Type 0 where
  pub inode_root : ℕ
  pub free_extent_root : ℕ
  pub checksum_root : ℕ

abbrev pub root_inode_number : ℕ
root_inode_number = 1

abbrev pub checksum_algorithm_crc32c : ℕ
checksum_algorithm_crc32c = 0

-- `format_generation`
abbrev pub format_generation : ℕ
format_generation = 1

-- (5b): the free extent from the bump pointer on, inserted a second time when the first insertion
-- moved the pointer.
pub insert_remaining_space : Reader → ℕ → ℕ → Exec TreeState ℕ
insert_remaining_space device total_block_count free_extent_root = do
  free_start_first_attempt ← gets (λ t. t.next_free_block)
  elim (total_block_count - free_start_first_attempt == 0) [
    | true ↦ fail out_of_space
    | false ↦ do
      first_root ←
          insert_free_extent_into_tree device free_extent_root free_start_first_attempt
            (total_block_count - free_start_first_attempt) format_generation
      after_first ← gets (λ t. t.next_free_block)
      elim (ltb free_start_first_attempt after_first) [
        | false ↦ pure first_root
        | true ↦ do
          emptied_root ←
              delete_from_tree device first_root
                (new bafs_free_extent_object_id item_type_extent_data free_start_first_attempt)
                format_generation
          free_start_final ← gets (λ t. t.next_free_block)
          elim (ltb 0 (total_block_count - free_start_final)) [
            | false ↦ pure emptied_root
            | true ↦
                insert_free_extent_into_tree device emptied_root free_start_final
                  (total_block_count - free_start_final) format_generation
          ]
      ]
  ]

-- (1) to (5b): the three trees with the root inode and the free extent.
pub build_trees : Reader → ℕ → ℕ → Exec TreeState FormatRoots
unfolding insert_remaining_space
build_trees device total_block_count data_area_start_block = do
  create_empty_tree data_area_start_block format_generation
  create_empty_tree (data_area_start_block + 1) format_generation
  create_empty_tree (data_area_start_block + 2) format_generation
  inode_root ←
      write_inode_to_tree device data_area_start_block
        (new_directory root_inode_number format_generation 0) format_generation
  free_extent_root ← insert_remaining_space device total_block_count (data_area_start_block + 1)
  pure (record {
    inode_root = inode_root;
    free_extent_root = free_extent_root;
    checksum_root = data_area_start_block + 2;
  })

-- The superblock of a new volume; the label is copied into four words.
pub new_superblock : BafsFormatOptions → ℕ → FormatRoots → ℕ → BafsSuperblock
new_superblock options total_block_count roots next_free_block = record {
  magic_number = bafs_magic_number;
  version = bafs_supported_version;
  block_size_in_bytes = bafs_default_block_size_bytes;
  total_block_count = total_block_count;
  free_block_count = total_block_count - next_free_block;
  allocated_inode_count = 1;
  last_committed_transaction_id = 1;
  root_inode_number = root_inode_number;
  inode_tree_root_block = roots.inode_root;
  free_extent_tree_root_block = roots.free_extent_root;
  checksum_tree_root_block = roots.checksum_root;
  journal_start_block = bafs_journal_start_block_address;
  journal_size_in_blocks = compute_journal_size_in_blocks total_block_count;
  volume_uuid = (options.volume_uuid_lower, 0);
  volume_label = (
    read_le 0 8 options.volume_label,
    read_le 8 8 options.volume_label,
    read_le 16 8 options.volume_label,
    read_le 24 8 options.volume_label,
  );
  feature_flags = 0;
  checksum_algorithm = checksum_algorithm_crc32c;
  next_cow_block_address = next_free_block;
  reserved = replicate 348 0;
  superblock_checksum = 0;
}

module _ {S : Type 0} (device : BlockDevice S) where
  -- (6): `for journal_block_index in 0..journal_size_in_blocks`
  pub zero_journal : ℕ → ℕ → Exec S (Unit {0})
  zero_journal zero block_address = pure tt
  zero_journal (suc left) block_address = do
    write_home device block_address (replicate bafs_default_block_size_bytes 0)
    zero_journal left (block_address + 1)

  -- (6) to (9): the journal, the dirty blocks, the superblock.
  pub write_volume : TreeState → BafsSuperblock → Exec S (Unit {0})
  unfolding zero_journal
  write_volume trees superblock = do
    zero_journal superblock.journal_size_in_blocks bafs_journal_start_block_address
    write_all_home device trees.dirty_cache
    write_superblock_to_device device superblock

  unfoldable pub bafs_format : BafsFormatOptions → Exec S (Unit {0})
  unfolding build_trees new_superblock write_volume
  bafs_format options disk =
      let total_block_count = device.total_sector_count disk / bafs_sectors_per_block in
      let data_area_start_block = compute_data_area_start_block total_block_count in
      let (roots, trees) =
        build_trees (reader device disk) total_block_count data_area_start_block (record {
          dirty_cache = [];
          next_free_block = data_area_start_block + 3;
          freed_blocks = [];
        }) in
      elim (ltb total_block_count (data_area_start_block + 3 + 10)) [
        | true ↦ fail out_of_space disk
        | false ↦
            resume
              (λ r.
                write_volume trees
                  (new_superblock options total_block_count r trees.next_free_block))
              roots disk
      ]
