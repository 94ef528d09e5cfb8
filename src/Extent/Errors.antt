-- ===== src/Extent/Errors.antt =====
-- The free-extent pool of src/extent.rs when a scan fails or finds nothing.
use bazzulto_bafs.Base.{
  ℕ, ◌+◌, ◌%◌, ◌^◌, ◌≡◌, refl, Bool, false, none, List, [], ◌∷◌, leb, ◌==◌, arith,
}
use bazzulto_bafs.Bytes.{All}
use mathlib.Core.List.{reverse}
use bazzulto_bafs.Device.{Reader}
use bazzulto_bafs.Error.{ok, err, BafsError, out_of_space}
use bazzulto_bafs.Btree.Node.{BafsLeafItem}
use bazzulto_bafs.Btree.Cache.{TreeState}
use bazzulto_bafs.Extent.{
  BafsFreeExtent, find_extent, all_free_extents, allocate_blocks, free_blocks, merge_predecessor,
  merge_successor, insert_free_extent_into_tree, deserialise_free_extent_from_bytes,
}

module _ (device : Reader) (root requested generation : ℕ) (s : TreeState) where
  pub allocate_blocks-out_of_space :
      (items : List BafsLeafItem)
      → all_free_extents device s.dirty_cache root ≡ ok items
      → find_extent (λ extent. leb requested extent.block_count) (reverse items) ≡ ok none
      → allocate_blocks device root requested generation s ≡ (err out_of_space, s)
  unfolding allocate_blocks
  allocate_blocks-out_of_space items e f = rw (e, f) refl

  pub free_blocks-scan_fails :
      (count : ℕ) (error : BafsError)
      → all_free_extents device s.dirty_cache root ≡ err error
      → free_blocks device root requested count generation s ≡ (err error, s)
  unfolding free_blocks
  free_blocks-scan_fails count error e = rw e refl

  -- A range without neighbours is inserted as it is.
  pub free_blocks-isolated :
      (count : ℕ) (items : List BafsLeafItem)
      → all_free_extents device s.dirty_cache root ≡ ok items
      → find_extent
          (λ extent. (extent.block_address + extent.block_count) % 2 ^ 64 == requested)
          items
        ≡ ok none
      → find_extent (λ extent. extent.block_address == (requested + count) % 2 ^ 64) items ≡ ok none
      → free_blocks device root requested count generation s
        ≡ insert_free_extent_into_tree device root requested count generation s
  unfolding free_blocks merge_predecessor merge_successor
  free_blocks-isolated count items e before after = rw (e, before) (rw (e, after) refl)

-- No extent is found when none passes the test.
pub find_extent-none :
    (test : BafsFreeExtent → Bool) (items : List BafsLeafItem)
    → All
        (λ item.
          (e : BafsFreeExtent) × (deserialise_free_extent_from_bytes item.value ≡ ok e)
          × (test e ≡ false))
        items
    → find_extent test items ≡ ok none
unfolding find_extent
find_extent-none test [] h = refl
find_extent-none test (item ∷ rest) ((e, read, fails), hs) =
    let later = find_extent-none test rest hs in ground (arith, read, fails, later)
