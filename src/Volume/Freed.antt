-- ===== src/Volume/Freed.antt =====
-- `return_freed_cow_blocks_to_free_extent_tree` of src/volume.rs on blocks of the current session.
use bazzulto_bafs.Base.{ℕ, suc, ◌≤◌, ◌≡◌, refl, List, [], ◌∷◌, arith}
use bazzulto_bafs.Bytes.{All}
use bazzulto_bafs.Device.{BlockDevice}
use bazzulto_bafs.Error.{ok}
use bazzulto_bafs.Volume.{
  BafsVolume, return_each, return_freed, return_freed_cow_blocks_to_free_extent_tree,
}

module _ {S : Type 0} (device : BlockDevice S) (v : BafsVolume S) where
  return_each-intra :
      (boundary generation : ℕ) (freed secondary : List ℕ)
      → All (λ b. boundary ≤ b) freed
      → return_each device boundary generation freed secondary v ≡ (ok secondary, v)
  unfolding return_each
  return_each-intra boundary generation [] secondary h = refl
  return_each-intra boundary generation (b ∷ rest) secondary (h, hs) =
      let later = return_each-intra boundary generation rest secondary hs in ground (arith, later)

  return_freed-intra :
      (fuel : ℕ) (freed : List ℕ)
      → All (λ b. v.superblock.next_cow_block_address ≤ b) freed
      → return_freed device (suc fuel) freed v ≡ (ok tt, v)
  unfolding return_freed
  return_freed-intra fuel [] h = refl
  return_freed-intra fuel (b ∷ rest) h =
      let none =
        return_each-intra v.superblock.next_cow_block_address v.next_transaction_id (b ∷ rest) []
          h in
      ground (arith, none)

  -- Freed blocks that were all allocated since the last commit leave the volume as it is.
  pub return_freed_cow_blocks-intra :
      (freed : List ℕ)
      → All (λ b. v.superblock.next_cow_block_address ≤ b) freed
      → return_freed_cow_blocks_to_free_extent_tree device freed v ≡ (ok tt, v)
  unfolding return_freed_cow_blocks_to_free_extent_tree
  return_freed_cow_blocks-intra freed h =
      return_freed-intra (suc v.superblock.next_cow_block_address) freed h
