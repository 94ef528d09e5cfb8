-- ===== src/Volume/Session.antt =====
-- What the operations of src/volume.rs leave alone between two flushes, whatever their outcome.
pub mod Operations
use bazzulto_bafs.Base.{
  ℕ, zero, suc, ◌+◌, ◌%◌, ◌^◌, ◌≡◌, refl, ◌∙◌, true, false, Bool, List, [], ◌∷◌, leb,
}
use bazzulto_bafs.Bytes.{Bytes}
use bazzulto_bafs.Device.{BlockDevice, reader}
use bazzulto_bafs.Error.{Result, ok, err, panic, out_of_fuel}
use bazzulto_bafs.Exec.{Exec, pure, fail, lift, gets, resume, ◌>>=◌, ◌>>◌}
use bazzulto_bafs.Btree.Cache.{TreeState, DirtyCache}
use bazzulto_bafs.Extent.{free_blocks}
use bazzulto_bafs.Inode.{BafsInode, write_inode_to_tree}
use bazzulto_bafs.Volume.{
  BafsVolume, on_tree, set_superblock, return_each, return_freed,
  return_freed_cow_blocks_to_free_extent_tree, set_inode_tree_root, volume_write_inode,
}

-- The volume after changes of the cache, the bump pointer, the tree roots and the count of free blocks.
module _ {S : Type 0} where
  abbrev pub with_trees : DirtyCache → ℕ → BafsVolume S → BafsVolume S
  with_trees dirty_cache next_free_block volume = record volume {
    dirty_block_cache = dirty_cache;
    next_free_block = next_free_block;
  }

  abbrev pub with_roots : ℕ → ℕ → ℕ → ℕ → BafsVolume S → BafsVolume S
  with_roots inode_root free_extent_root checksum_root free_block_count volume = record volume {
    superblock = record volume.superblock {
      inode_tree_root_block = inode_root;
      free_extent_tree_root_block = free_extent_root;
      checksum_tree_root_block = checksum_root;
      free_block_count = free_block_count;
    };
  }

-- A part of the volume that those changes do not reach.
pub record Untouched {S X : Type 0} (part : BafsVolume S → X) : Type 0 where
  pub by_trees :
      (dirty_cache : DirtyCache) (next : ℕ) (v : BafsVolume S)
      → part (with_trees dirty_cache next v) ≡ part v
  pub by_roots :
      (inode_root free_extent_root checksum_root count : ℕ) (v : BafsVolume S)
      → part (with_roots inode_root free_extent_root checksum_root count v) ≡ part v

module _ {S X : Type 0} (part : BafsVolume S → X) where
  -- However it ends, the operation leaves the part alone.
  abbrev pub Keeps : {A : Type 0} → Exec (BafsVolume S) A → Type 0
  Keeps run = (v : BafsVolume S) → part (run v).1 ≡ part v

  resume-Keeps :
      {A B : Type 0} (rest : A → Exec (BafsVolume S) B)
      → ((value : A) → Keeps (rest value))
      → (outcome : Result A) (left : BafsVolume S) → part (resume rest outcome left).1 ≡ part left
  resume-Keeps rest h panic left = refl
  resume-Keeps rest h out_of_fuel left = refl
  resume-Keeps rest h (err error) left = refl
  resume-Keeps rest h (ok value) left = h value left

  pub >>=-Keeps :
      {A B : Type 0} (start : Exec (BafsVolume S) A) (rest : A → Exec (BafsVolume S) B)
      → Keeps start
      → ((value : A) → Keeps (rest value))
      → Keeps (start >>= rest)
  >>=-Keeps start rest h k v = resume-Keeps rest k (start v).0 (start v).1 ∙ h v

  pub either :
      {A : Type 0} (c : Bool) (one other : Exec (BafsVolume S) A)
      → Keeps one
      → Keeps other
      → Keeps (elim c [ true ↦ one | false ↦ other ])
  either true one other h k = h
  either false one other h k = k

module _ {S X : Type 0} (part : BafsVolume S → X) (u : Untouched part)
    (device : BlockDevice S) where
  pub on_tree-Keeps :
      {A : Type 0} (operation : Exec TreeState A) (freed : List ℕ)
      → Keeps part (on_tree operation freed)
  unfolding on_tree
  on_tree-Keeps operation freed v =
      let left =
        (operation (record {
          dirty_cache = v.dirty_block_cache;
          next_free_block = v.next_free_block;
          freed_blocks = freed;
        })).1 in
      u.by_trees left.dirty_cache left.next_free_block v

  -- A tree operation and what follows it.
  pub tree_then :
      {A B : Type 0} (operation : Exec TreeState A) (freed : List ℕ)
      (rest : A × List ℕ → Exec (BafsVolume S) B)
      → ((r : A × List ℕ) → Keeps part (rest r))
      → Keeps part (on_tree operation freed >>= rest)
  tree_then operation freed rest h =
      >>=-Keeps part (on_tree operation freed) rest (on_tree-Keeps operation freed) h

  return_each-Keeps :
      (boundary generation : ℕ) (freed secondary : List ℕ)
      → Keeps part (return_each device boundary generation freed secondary)
  unfolding return_each
  return_each-Keeps boundary generation [] secondary v = refl
  return_each-Keeps boundary generation (b ∷ rest) secondary v =
      either part (leb boundary b) _ _ (return_each-Keeps boundary generation rest secondary)
        (λ v.
          tree_then
            (free_blocks (reader device v.disk) v.superblock.free_extent_tree_root_block b 1
              generation)
            secondary _
            (λ r w.
              return_each-Keeps boundary generation rest r.1 _
              ∙ u.by_roots w.superblock.inode_tree_root_block r.0
                  w.superblock.checksum_tree_root_block
                  ((w.superblock.free_block_count + 1) % 2 ^ 64) w)
            v)
        v

  return_freed-Keeps : (fuel : ℕ) (freed : List ℕ) → Keeps part (return_freed device fuel freed)
  unfolding return_freed
  return_freed-Keeps fuel [] v = refl
  return_freed-Keeps zero (b ∷ rest) v = refl
  return_freed-Keeps (suc fuel) (b ∷ rest) v =
      >>=-Keeps part
        (return_each device v.superblock.next_cow_block_address v.next_transaction_id (b ∷ rest) [])
        (return_freed device fuel)
        (return_each-Keeps v.superblock.next_cow_block_address v.next_transaction_id (b ∷ rest) [])
        (return_freed-Keeps fuel) v

  pub return_freed_cow_blocks-Keeps :
      (freed : List ℕ) → Keeps part (return_freed_cow_blocks_to_free_extent_tree device freed)
  unfolding return_freed_cow_blocks_to_free_extent_tree
  return_freed_cow_blocks-Keeps freed v =
      return_freed-Keeps (suc (suc v.superblock.next_cow_block_address)) freed v

  pub set_inode_tree_root-Keeps :
      (root : ℕ) (freed : List ℕ) → Keeps part (set_inode_tree_root device root freed)
  unfolding set_inode_tree_root
  set_inode_tree_root-Keeps root freed v =
      return_freed_cow_blocks-Keeps freed _
      ∙ u.by_roots root v.superblock.free_extent_tree_root_block
          v.superblock.checksum_tree_root_block v.superblock.free_block_count v

  pub volume_write_inode-Keeps : (inode : BafsInode) → Keeps part (volume_write_inode device inode)
  unfolding volume_write_inode
  volume_write_inode-Keeps inode v =
      tree_then
        (write_inode_to_tree (reader device v.disk) v.superblock.inode_tree_root_block inode
          v.next_transaction_id)
        [] _ (λ r. set_inode_tree_root-Keeps r.0 r.1) v

module _ {S : Type 0} where
  -- What belongs to the last commit: the device, the transaction ids and the committed boundary.
  abbrev pub session : BafsVolume S → S × ℕ × ℕ × ℕ
  session v = (
    v.disk, v.next_transaction_id, v.superblock.last_committed_transaction_id,
    v.superblock.next_cow_block_address,
  )

  pub session-Untouched : Untouched session
  session-Untouched = record {
    by_trees = λ dirty_cache next v. refl;
    by_roots = λ inode_root free_extent_root checksum_root count v. refl;
  }

  abbrev pub inode_count : BafsVolume S → ℕ
  inode_count v = v.superblock.allocated_inode_count

  pub inode_count-Untouched : Untouched inode_count
  inode_count-Untouched = record {
    by_trees = λ dirty_cache next v. refl;
    by_roots = λ inode_root free_extent_root checksum_root count v. refl;
  }
