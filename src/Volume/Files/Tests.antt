-- ===== src/Volume/Files/Tests.antt =====
-- Reads and creations of src/volume.rs on the inode tree of a new volume.
use bazzulto_bafs.Base.{
  ℕ, ◌+◌, ◌*◌, ◌≤◌, ◌≡◌, ◌≢◌, inl, refl, ◌∙◌, none, [], ◌∷◌, List, length-replicate, arith, false,
}
use bazzulto_bafs.Bytes.{All}
use bazzulto_bafs.Device.{BlockDevice}
use bazzulto_bafs.Error.{ok}
use bazzulto_bafs.Btree.Cache.{TreeState}
use bazzulto_bafs.Btree.Tests.{no_device}
use bazzulto_bafs.Superblock.Tests.{sample}
use bazzulto_bafs.Inode.{
  BafsInode, new_regular_file, allocate_next_inode_number, new_inode, inode_key,
  serialise_inode_to_bytes, write_inode_to_tree,
}
use bazzulto_bafs.Inode.Laws.{
  new_inode_types, IsInode, length-serialise, inode_key-IsKey, reads_value, stored_value,
}
use bazzulto_bafs.Btree.Map.{find, put}
use bazzulto_bafs.Btree.Key.{rank}
use bazzulto_bafs.Btree.Store.{Restored, store-insert, store-lookup}
use bazzulto_bafs.Dir.Lookup.{root_rank, IsInodeStore}
use bazzulto_bafs.Dir.Updates.{inode_least}
use bazzulto_bafs.Volume.Freed.{return_freed_cow_blocks-intra}
use bazzulto_bafs.Volume.Format.Sound.{
  Formatted, build_trees_lem, root_item, root_inode, root_inode-IsInode,
}
use bazzulto_bafs.Volume.Files.Refusals.{create_child-orphan, inode_written}
use bazzulto_bafs.Volume.Session.{session}
use bazzulto_bafs.Volume.{
  BafsVolume, volume_read_inode, volume_write_inode, on_tree, set_inode_tree_root,
}
use bazzulto_bafs.Volume.Files.{create_child}

-- A device that fails every transfer.
abbrev pub broken_device : BlockDevice Unit
broken_device = record {
  read_sectors = λ lba count s. none;
  write_sectors = λ lba count buffer s. (false, s);
  total_sector_count = λ s. 0;
}

-- A new volume, all of it in the cache, and the root directory in its inode tree.
abbrev pub formatted : Formatted no_device 1000 259
formatted = build_trees_lem no_device 1000 259 (omega arith) (omega arith)

abbrev pub fresh : BafsVolume Unit
fresh = record {
  disk = tt;
  superblock = record sample {
    inode_tree_root_block = formatted.roots.inode_root;
    next_cow_block_address = 0;
  };
  dirty_block_cache = formatted.state.dirty_cache;
  next_transaction_id = 2;
  next_free_block = formatted.state.next_free_block;
}

abbrev pub lent : TreeState
lent = record {
  dirty_cache = formatted.state.dirty_cache;
  next_free_block = formatted.state.next_free_block;
  freed_blocks = [];
}

pub lent_store :
    IsInodeStore no_device lent formatted.inode_height formatted.roots.inode_root (root_item ∷ [])
lent_store = record {
  tree = formatted.inodes.tree;
  positive = formatted.inodes.positive;
  starts = formatted.inodes.starts;
}

pub root_reads : volume_read_inode broken_device fresh 1 ≡ ok root_inode
unfolding volume_read_inode find rank
root_reads =
    reads_value no_device lent formatted.roots.inode_root 1 _ (
      store-lookup no_device lent root_rank formatted.inode_height formatted.roots.inode_root
        (root_item ∷ []) lent_store (inode_key 1) (inode_key-IsKey 1 (omega arith)) (omega arith)
        (omega (arith, formatted.inode_height_le)))
    ∙ stored_value root_inode root_inode-IsInode

abbrev new_file : BafsInode
new_file = new_regular_file 2 2 0

new_file-IsInode : IsInode new_file
unfolding new_regular_file new_inode
new_file-IsInode = record {
  fields_fit = (
    omega arith,
    (
      omega arith,
      (
        omega arith,
        (
          omega arith,
          (
            omega arith,
            (
              omega arith,
              (
                omega arith,
                (
                  omega arith,
                  (
                    omega arith,
                    (
                      omega arith,
                      (omega arith, (omega arith, (omega arith, (omega arith, (omega arith, tt))))),
                    ),
                  ),
                ),
              ),
            ),
          ),
        ),
      ),
    ),
  );
  reserved_size = length-replicate {A = ℕ} 32 0;
}

written :
    Restored no_device
      (write_inode_to_tree no_device formatted.roots.inode_root new_file 2)
      (2 * (formatted.inode_height + 1) + 1)
      root_rank
      formatted.inode_height
      formatted.roots.inode_root
      (root_item ∷ [])
      (put
        (record { key = inode_key 2; value = serialise_inode_to_bytes new_file })
        (root_item ∷ []))
      lent
unfolding write_inode_to_tree new_regular_file new_inode
written =
    store-insert no_device lent root_rank formatted.inode_height formatted.roots.inode_root
      (root_item ∷ []) lent_store (inode_key 2) (inode_key-IsKey 2 (omega arith))
      (serialise_inode_to_bytes new_file) 2 (inode_least 2 (omega arith))
      (omega (arith, length-serialise new_file new_file-IsInode)) (omega arith)
      (omega (arith, formatted.inode_height_le))
      (omega (arith, formatted.inode_height_le, formatted.pointer))

All-zero : (bs : List ℕ) → All (λ b. 0 ≤ b) bs
All-zero [] = tt
All-zero (b ∷ rest) = (omega arith, All-zero rest)

abbrev taken : BafsVolume Unit
taken = record fresh {
  superblock = record fresh.superblock { allocated_inode_count = allocate_next_inode_number 1 };
}

abbrev with_file : BafsVolume Unit
with_file = record taken {
  superblock = record taken.superblock { inode_tree_root_block = written.new_root };
  dirty_block_cache = written.state.dirty_cache;
  next_free_block = written.state.next_free_block;
}

-- The write of the new file's inode succeeds.
file_written :
    volume_write_inode broken_device (new_regular_file (allocate_next_inode_number 1) 2 0) taken
    ≡ (ok tt, with_file)
unfolding volume_write_inode on_tree set_inode_tree_root allocate_next_inode_number
file_written =
    let run = written.runs in
    let freed =
      return_freed_cow_blocks-intra broken_device with_file written.state.freed_blocks
        (All-zero written.state.freed_blocks) in
    ground (arith, run, freed)

create_child-orphan_example :
    let (outcome, v') = create_child broken_device new_regular_file 8 1 [] fresh in
    ((n : ℕ) → outcome ≢ ok n)
    × (v' ≡ (inode_written broken_device fresh new_regular_file).1)
    × (v'.superblock.allocated_inode_count
        ≡ allocate_next_inode_number fresh.superblock.allocated_inode_count)
    × (session v' ≡ session fresh)
create_child-orphan_example =
    create_child-orphan broken_device fresh new_regular_file 8 1 [] root_inode (inl refl) root_reads
      (new_inode_types 1 1 0).2
