-- ===== src/Extent/Tests.antt =====
-- The theorems on extents at concrete ones.
use bazzulto_bafs.Base.{ℕ, zero, ◌≤◌, ◌-◌, ◌^◌, ◌≡◌, refl, sym, arith, drop, [], ◌∷◌, some}
use mathlib.Core.Path.{subst}
use bazzulto_bafs.Checksum.{compute_crc32c}
use bazzulto_bafs.Btree.Key.{IsKey, rank, rank_limit, rank-lt, new}
use bazzulto_bafs.Btree.Node.{BafsTreeNode, BafsLeafItem, leaf_serialised_size, total_value_bytes}
use bazzulto_bafs.Btree.Codec.RoundTrip.{IsLeafNode, RoundTrip, leaf-RoundTrip}
use bazzulto_bafs.Btree.Cache.{TreeState}
use bazzulto_bafs.Btree.Map.{between}
use bazzulto_bafs.Btree.Tree.{IsTree, view}
use bazzulto_bafs.Btree.Tree.Writes.{cached, read_written}
use bazzulto_bafs.Btree.Tree.Clone.{IsLeafNode-rewritten}
use bazzulto_bafs.Btree.Tests.{no_device, start}
use bazzulto_bafs.Btree.Lookup.{iterate_tree_range}
use bazzulto_bafs.Btree.Lookup.Range.{iterate_tree_range_lem}
use bazzulto_bafs.Extent.Covering.{Holds, first_covering, read_extent_data_for_file_offset_lem}
use bazzulto_bafs.Error.{ok}
use bazzulto_bafs.Extent.{
  BafsExtentData, BafsFreeExtent, read_extent_data_for_file_offset, serialise_extent_data_to_bytes,
  deserialise_extent_data_from_bytes, serialise_free_extent_to_bytes,
  deserialise_free_extent_from_bytes,
}
use bazzulto_bafs.Extent.RoundTrip.{
  length-serialise_extent_data, IsExtentData, extent_data-RoundTrip, free_extent-RoundTrip,
}

abbrev extent : BafsExtentData
extent = record {
  logical_byte_offset = 8192;
  first_disk_block = 5000;
  block_count = 3;
  extent_flags = 0;
  reserved = 0;
}

abbrev free_run : BafsFreeExtent
free_run = record { block_address = 700; block_count = 64836 }

extent-IsExtentData : IsExtentData extent
extent-IsExtentData = record {
  offset_fits = omega arith;
  block_fits = omega arith;
  count_fits = omega arith;
  flags_fit = omega arith;
  reserved_fits = omega arith;
}

extent_data-RoundTrip_example :
    deserialise_extent_data_from_bytes (serialise_extent_data_to_bytes extent) ≡ ok extent
extent_data-RoundTrip_example = extent_data-RoundTrip extent extent-IsExtentData

free_extent-RoundTrip_example :
    deserialise_free_extent_from_bytes (serialise_free_extent_to_bytes free_run) ≡ ok free_run
free_extent-RoundTrip_example = free_extent-RoundTrip free_run (omega arith) (omega arith)

abbrev extent_item : BafsLeafItem
extent_item = record { key = new 5 3 8192; value = serialise_extent_data_to_bytes extent }

-- A leaf with the extent of inode 5 at its offset.
abbrev leaf : BafsTreeNode
leaf = record {
  node_checksum = 0;
  level = 0;
  flags = 0;
  item_count = 1;
  self_block_address = 40;
  generation = 1;
  leaf_items = extent_item ∷ [];
  internal_items = [];
}

extent_place-IsKey : IsKey (new 5 3 8192)
extent_place-IsKey = record {
  object_fits = omega arith;
  type_fits = omega arith;
  offset_fits = omega arith;
}

leaf-IsLeafNode : IsLeafNode leaf
unfolding leaf_serialised_size total_value_bytes
leaf-IsLeafNode = record {
  header = record {
    level_fits = omega arith;
    flags_fit = omega arith;
    address_fits = omega arith;
    generation_fits = omega arith;
  };
  is_leaf = refl;
  keys_fit = (extent_place-IsKey, tt);
  counted = refl;
  no_children = refl;
  fits = omega (arith, length-serialise_extent_data extent);
}

abbrev block : RoundTrip leaf
block = leaf-RoundTrip leaf leaf-IsLeafNode

abbrev after_write : TreeState
after_write = cached leaf block.block start

leaf-IsTree :
    (lo : ℕ)
    → lo ≤ rank extent_item.key
    → IsTree (view no_device after_write) 100 zero 40 lo rank_limit (extent_item ∷ [])
leaf-IsTree lo h = record {
  node = record leaf { node_checksum = compute_crc32c (drop 4 block.block) };
  allocated = omega arith;
  reads = read_written no_device [] leaf block 40 refl;
  shape =
      IsLeafNode-rewritten leaf 40 1 (compute_crc32c (drop 4 block.block)) (omega arith)
        (omega arith) leaf-IsLeafNode;
  holds = refl;
  small = (omega (arith, length-serialise_extent_data extent), tt);
  sorted = (h, omega (arith, rank-lt (new 5 3 8192) extent_place-IsKey));
}

above : 1 ≤ rank extent_item.key
unfolding rank
above = omega arith

in_range :
    between (rank (new 5 3 0)) (rank (new 5 3 (2 ^ 64 - 1))) (extent_item ∷ []) ≡ extent_item ∷ []
unfolding between rank
in_range = ground arith

holds :
    Holds
      (between (rank (new 5 3 0)) (rank (new 5 3 (2 ^ 64 - 1))) (extent_item ∷ []))
      (extent ∷ [])
holds =
    subst (λ m. Holds m (extent ∷ [])) (sym in_range)
      (extent_data-RoundTrip extent extent-IsExtentData, tt)

iterate_tree_range_lem_example :
    iterate_tree_range no_device after_write.dirty_cache 40 (new 5 3 0) (new 5 3 (2 ^ 64 - 1))
    ≡ ok (between (rank (new 5 3 0)) (rank (new 5 3 (2 ^ 64 - 1))) (extent_item ∷ []))
iterate_tree_range_lem_example =
    iterate_tree_range_lem no_device after_write 100 (new 5 3 0) (new 5 3 (2 ^ 64 - 1))
      (record { object_fits = omega arith; type_fits = omega arith; offset_fits = omega arith })
      (record { object_fits = omega arith; type_fits = omega arith; offset_fits = omega arith }) 0
      40 (extent_item ∷ []) (leaf-IsTree 0 (omega arith)) tt (omega arith)

read_extent_data_for_file_offset_lem_example :
    read_extent_data_for_file_offset no_device after_write.dirty_cache 40 5 9000
    ≡ ok (first_covering 9000 (extent ∷ []))
read_extent_data_for_file_offset_lem_example =
    read_extent_data_for_file_offset_lem no_device after_write 100 5 0 40 1 (extent_item ∷ []) 9000
      (extent ∷ []) (leaf-IsTree 1 above) (omega arith) (omega arith) (omega arith) holds
      (omega arith, tt)

-- The extent of three blocks from byte 8192 covers byte 9000.
first_covering-9000 : first_covering 9000 (extent ∷ []) ≡ some extent
unfolding first_covering
first_covering-9000 = refl
