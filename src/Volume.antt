-- ===== src/Volume.antt =====
-- src/volume.rs: a mounted volume, which owns the device, the superblock and the dirty-block cache.
pub mod Freed
pub mod Session
pub mod Format
pub mod Mount
pub mod Data
pub mod Files
pub mod Directories
pub mod Tests
use bazzulto_bafs.Base.{
  ℕ, zero, suc, ◌+◌, ◌%◌, ◌^◌, Bool, true, false, List, [], ◌∷◌, leb, if◌then◌else◌,
}
use bazzulto_bafs.Device.{BlockDevice, reader}
use bazzulto_bafs.Error
use bazzulto_bafs.Error.{Result, ok}
use bazzulto_bafs.Exec.{Exec, pure, lift, gets, modify, resume, ◌>>=◌, ◌>>◌}
use bazzulto_bafs.Btree.Cache.{TreeState, DirtyCache}
use bazzulto_bafs.Extent.{free_blocks}
use bazzulto_bafs.Superblock.{BafsSuperblock}
use bazzulto_bafs.Inode.{
  BafsInode, read_inode_from_tree, write_inode_to_tree, allocate_next_inode_number,
}

-- `disk` is the state of the device.
pub record BafsVolume (S : Type 0) : Type 0 where
  pub disk : S
  pub superblock : BafsSuperblock
  pub dirty_block_cache : DirtyCache
  pub next_transaction_id : ℕ
  pub next_free_block : ℕ

module _ {S : Type 0} where
  -- A tree operation that is lent the cache, the bump pointer and the caller's list of freed blocks,
  -- which it gives back with its value.
  unfoldable pub on_tree :
      {V : Type 0} → Exec TreeState V → List ℕ → Exec (BafsVolume S) (V × List ℕ)
  on_tree operation freed_blocks volume =
      let (outcome, left) = operation (record {
        dirty_cache = volume.dirty_block_cache;
        next_free_block = volume.next_free_block;
        freed_blocks = freed_blocks;
      }) in
      (
        Error.◌>>=◌ outcome (λ value. ok (value, left.freed_blocks)),
        record volume {
          dirty_block_cache = left.dirty_cache;
          next_free_block = left.next_free_block;
        },
      )

  abbrev pub set_superblock : (BafsSuperblock → BafsSuperblock) → Exec (BafsVolume S) (Unit {0})
  set_superblock change = modify (λ volume. record volume { superblock = change volume.superblock })

module _ {S : Type 0} (device : BlockDevice S) where
  -- `for block_address in freed_blocks`, with the blocks that the calls themselves free.
  pub return_each : ℕ → ℕ → List ℕ → List ℕ → Exec (BafsVolume S) (List ℕ)
  unfolding on_tree
  return_each committed_boundary generation [] secondary_freed = pure secondary_freed
  return_each committed_boundary generation (block_address ∷ rest) secondary_freed =
      elim (leb committed_boundary block_address) [
        | true ↦ return_each committed_boundary generation rest secondary_freed
        | false ↦ do
          volume ← gets (λ v. v)
          (new_root, freed) ←
              on_tree
                (free_blocks (reader device volume.disk)
                  volume.superblock.free_extent_tree_root_block block_address 1 generation)
                secondary_freed
          set_superblock (λ superblock. record superblock {
            free_extent_tree_root_block = new_root;
            free_block_count = (superblock.free_block_count + 1) % 2 ^ 64;
          })
          return_each committed_boundary generation rest freed
      ]

  -- The recursion on what the calls freed, on fuel.
  pub return_freed : ℕ → List ℕ → Exec (BafsVolume S) (Unit {0})
  unfolding return_each
  return_freed fuel [] = pure tt
  return_freed zero (block_address ∷ rest) = lift Error.out_of_fuel
  return_freed (suc fuel) (block_address ∷ rest) = do
    volume ← gets (λ v. v)
    secondary_freed ←
        return_each volume.superblock.next_cow_block_address volume.next_transaction_id
          (block_address ∷ rest) []
    return_freed fuel secondary_freed

  pub return_freed_cow_blocks_to_free_extent_tree : List ℕ → Exec (BafsVolume S) (Unit {0})
  unfolding return_freed
  return_freed_cow_blocks_to_free_extent_tree freed_blocks volume =
      return_freed (suc (suc volume.superblock.next_cow_block_address)) freed_blocks volume

  unfoldable pub volume_read_inode : BafsVolume S → ℕ → Result BafsInode
  volume_read_inode volume inode_number =
      read_inode_from_tree (reader device volume.disk) volume.dirty_block_cache
        volume.superblock.inode_tree_root_block inode_number

  -- The root of the inode tree, and the blocks that were freed for it.
  unfoldable pub set_inode_tree_root : ℕ → List ℕ → Exec (BafsVolume S) (Unit {0})
  set_inode_tree_root new_root freed_blocks = do
    set_superblock (λ superblock. record superblock { inode_tree_root_block = new_root })
    return_freed_cow_blocks_to_free_extent_tree freed_blocks

  unfoldable pub volume_write_inode : BafsInode → Exec (BafsVolume S) (Unit {0})
  unfolding on_tree
  volume_write_inode inode = do
    volume ← gets (λ v. v)
    (new_root, freed_blocks) ←
        on_tree
          (write_inode_to_tree (reader device volume.disk) volume.superblock.inode_tree_root_block
            inode volume.next_transaction_id)
          []
    set_inode_tree_root new_root freed_blocks

  unfoldable pub volume_allocate_inode_number : Exec (BafsVolume S) ℕ
  volume_allocate_inode_number volume =
      let new_inode_number = allocate_next_inode_number volume.superblock.allocated_inode_count in
      (
        ok new_inode_number,
        record volume {
          superblock = record volume.superblock { allocated_inode_count = new_inode_number };
        },
      )
