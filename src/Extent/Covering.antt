-- ===== src/Extent/Covering.antt =====
-- The extent that covers an offset of a file, found by scanning the file's extents.
use bazzulto_bafs.Base.{
  ℕ, ◌+◌, ◌*◌, ◌-◌, ◌^◌, ◌<◌, ◌≡◌, refl, Option, none, some, List, [], ◌∷◌, leb, ltb, ◌&&◌, arith,
  if◌then◌else◌,
}
use bazzulto_bafs.Bytes.{All}
use bazzulto_bafs.Device.{Reader}
use bazzulto_bafs.Error.{ok}
use bazzulto_bafs.Btree.Key.{IsKey, rank, rank_limit, new, item_type_extent_data}
use bazzulto_bafs.Btree.Node.{block_size}
use bazzulto_bafs.Btree.Cache.{TreeState}
use bazzulto_bafs.Btree.Map.{Items, between}
use bazzulto_bafs.Btree.Tree.{view, IsTree}
use bazzulto_bafs.Btree.Lookup.{max_depth}
use bazzulto_bafs.Btree.Lookup.Scan.{scan_lem}
use bazzulto_bafs.Extent.{
  BafsExtentData, deserialise_extent_data_from_bytes, covers, find_covering,
  read_extent_data_for_file_offset,
}

-- The items hold extents, in order.
abbrev pub Holds : Items → List BafsExtentData → Type 0
Holds [] [] = Unit
Holds [] (e ∷ es) = ⊥
Holds (i ∷ is) [] = ⊥
Holds (i ∷ is) (e ∷ es) = (deserialise_extent_data_from_bytes i.value ≡ ok e) × Holds is es

-- The first extent whose bytes contain the offset.
unfoldable pub first_covering : ℕ → List BafsExtentData → Option BafsExtentData
first_covering offset [] = none
first_covering offset (e ∷ es) =
    let later = first_covering offset es in
    if leb e.logical_byte_offset offset
      && ltb offset (e.logical_byte_offset + e.block_count * block_size)
    then some e
    else later

-- The end of the extent is a 64-bit number.
abbrev pub Ends : BafsExtentData → Type 0
Ends e = e.logical_byte_offset + e.block_count * block_size < 2 ^ 64

find_covering_lem :
    (offset : ℕ) (items : Items) (es : List BafsExtentData)
    → Holds items es
    → All Ends es
    → find_covering offset items ≡ ok (first_covering offset es)
unfolding find_covering covers first_covering
find_covering_lem offset [] [] h b = refl
find_covering_lem offset [] (e ∷ es) h b = absurd h
find_covering_lem offset (i ∷ rest) [] h b = absurd h
find_covering_lem offset (i ∷ rest) (e ∷ es) (h, hs) (b, bs) =
    ground (arith, h, find_covering_lem offset rest es hs bs)

module _ (device : Reader) (s : TreeState) (bound inode : ℕ) where
  -- On a sound tree of fewer than 256 levels below its root whose ranks start above 0 and whose
  -- items of a 64-bit inode number hold the extents es, each ending below 2^64, the lookup of a
  -- file offset returns the first extent of es that covers it, or none.
  pub read_extent_data_for_file_offset_lem :
      (depth root lo : ℕ) (m : Items) (offset : ℕ) (es : List BafsExtentData)
      → IsTree (view device s) bound depth root lo rank_limit m
      → 0 < lo
      → depth < max_depth
      → inode < 2 ^ 64
      → Holds
          (between
            (rank (new inode item_type_extent_data 0))
            (rank (new inode item_type_extent_data (2 ^ 64 - 1)))
            m)
          es
      → All Ends es
      → read_extent_data_for_file_offset device s.dirty_cache root inode offset
        ≡ ok (first_covering offset es)
  unfolding read_extent_data_for_file_offset
  read_extent_data_for_file_offset_lem depth root lo m offset es t positive d i h b =
      let fits : (o : ℕ) → o < 2 ^ 64 → IsKey (new inode item_type_extent_data o) =
        λ o f. record { object_fits = i; type_fits = omega arith; offset_fits = f } in
      let scan =
        scan_lem device s bound (new inode item_type_extent_data 0)
          (new inode item_type_extent_data (2 ^ 64 - 1)) (fits 0 (omega arith))
          (fits (2 ^ 64 - 1) (omega arith)) depth root lo m t positive d in
      rw scan (find_covering_lem offset _ es h b)
