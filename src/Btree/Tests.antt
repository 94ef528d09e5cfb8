-- ===== src/Btree/Tests.antt =====
-- The theorems on the trees at concrete inputs.
use bazzulto_bafs.Base.{◌+◌, ◌≡◌, refl, ◌==◌, if◌then◌else◌, none, some, [], ◌∷◌, arith, compare}
use bazzulto_bafs.Bytes.{Bytes}
use bazzulto_bafs.Device.{Reader}
use bazzulto_bafs.Error.{ok, err, not_found}
use bazzulto_bafs.Btree.Key.{BafsKey, IsKey, rank, rank_limit, rank-lt, new, cmp, cmp-rank}
use bazzulto_bafs.Btree.Node.{
  BafsTreeNode, BafsLeafItem, BafsInternalItem, leaf_serialised_size, total_value_bytes,
}
use bazzulto_bafs.Btree.Codec.RoundTrip.{
  IsLeafNode, IsInternalNode, RoundTrip, leaf-RoundTrip, internal-RoundTrip,
}
use bazzulto_bafs.Btree.Search.{search_leaf}
use bazzulto_bafs.Btree.Search.Leaf.{Searched, search_leaf_lem}
use bazzulto_bafs.Btree.Cache.{TreeState}
use bazzulto_bafs.Btree.Map.{find, put, remove, Within}
use bazzulto_bafs.Btree.Lookup.{lookup_in_tree}
use bazzulto_bafs.Btree.Lookup.Refines.{lookup_in_tree_lem}
use bazzulto_bafs.Btree.Insert.{insert_into_tree}
use bazzulto_bafs.Btree.Insert.Root.{Rooted, insert_into_tree_lem}
use bazzulto_bafs.Btree.Delete.{delete_from_tree}
use bazzulto_bafs.Btree.Delete.Root.{
  Created, create_empty_tree_lem, delete_from_tree_lem, delete_from_tree-absent,
}
use bazzulto_bafs.Btree.Refinement.{Commits, lookup-insert, lookup-delete}

abbrev pub no_device : Reader
no_device sector count = none

abbrev pub start : TreeState
start = record { dirty_cache = []; next_free_block = 100; freed_blocks = [] }

abbrev key_a : BafsKey
key_a = new 2 1 7

abbrev key_b : BafsKey
key_b = new 2 1 9

key_a-IsKey : IsKey key_a
key_a-IsKey = record {
  object_fits = omega arith;
  type_fits = omega arith;
  offset_fits = omega arith;
}

key_b-IsKey : IsKey key_b
key_b-IsKey = record {
  object_fits = omega arith;
  type_fits = omega arith;
  offset_fits = omega arith;
}

abbrev value_a : Bytes
value_a = 1 ∷ 2 ∷ 3 ∷ []

abbrev item_a : BafsLeafItem
item_a = record { key = key_a; value = value_a }

create_empty_tree_lem_example : Created no_device 40 1 start
create_empty_tree_lem_example =
    create_empty_tree_lem no_device 40 1 start (omega arith) (omega arith) (omega arith)

pub created : Created no_device 40 1 start
created = create_empty_tree_lem no_device 40 1 start (omega arith) (omega arith) (omega arith)

lookup_in_tree_lem_example :
    lookup_in_tree no_device created.state.dirty_cache 40 key_a ≡ ok (find (rank key_a) [])
lookup_in_tree_lem_example =
    lookup_in_tree_lem no_device created.state created.state.next_free_block key_a key_a-IsKey 0 40
      0 rank_limit [] created.tree (omega arith) (rank-lt key_a key_a-IsKey) (omega arith)

insert_into_tree_lem_example :
    Rooted no_device
      (insert_into_tree no_device 40 key_a value_a 2)
      3
      0
      (put item_a [])
      created.state
insert_into_tree_lem_example =
    insert_into_tree_lem no_device 40 key_a value_a 2 created.state 0 [] created.tree key_a-IsKey
      (omega arith) (omega arith) (omega arith) (omega (arith, created.next))

inserted :
    Rooted no_device
      (insert_into_tree no_device 40 key_a value_a 2)
      3
      0
      (put item_a [])
      created.state
inserted =
    insert_into_tree_lem no_device 40 key_a value_a 2 created.state 0 [] created.tree key_a-IsKey
      (omega arith) (omega arith) (omega arith) (omega (arith, created.next))

reads_a : find (rank key_a) (put item_a []) ≡ some value_a
unfolding find put
reads_a = ground arith

misses_b : find (rank key_b) (put item_a []) ≡ none
unfolding find put rank
misses_b = ground arith

lookup-insert_example :
    Commits no_device
      (insert_into_tree no_device inserted.root key_b value_a 3)
      inserted.root
      inserted.state
      (λ r. if rank key_b == r then some value_a else find r (put item_a []))
lookup-insert_example =
    lookup-insert no_device inserted.root inserted.height (put item_a []) inserted.state
      inserted.tree key_b value_a 3 key_b-IsKey (omega arith) (omega arith)
      (omega (arith, inserted.height_le))
      (omega (arith, inserted.height_le, inserted.spent, created.next))

lookup-delete_example :
    Commits no_device
      (delete_from_tree no_device inserted.root key_a 3)
      inserted.root
      inserted.state
      (λ r. if rank key_a == r then none else find r (put item_a []))
lookup-delete_example =
    lookup-delete no_device inserted.root inserted.height (put item_a []) inserted.state
      inserted.tree key_a 3 value_a key_a-IsKey (omega arith) (omega (arith, inserted.height_le))
      (omega (arith, inserted.height_le, inserted.spent, created.next)) reads_a

delete_from_tree-absent_example :
    delete_from_tree no_device inserted.root key_b 3 inserted.state
    ≡ (err not_found, inserted.state)
delete_from_tree-absent_example =
    delete_from_tree-absent no_device inserted.root key_b 3 inserted.state inserted.height
      (put item_a []) inserted.tree key_b-IsKey (omega (arith, inserted.height_le)) misses_b

delete_from_tree_lem_example :
    Rooted no_device
      (delete_from_tree no_device inserted.root key_a 3)
      (inserted.height + 1)
      inserted.height
      (remove (rank key_a) (put item_a []))
      inserted.state
delete_from_tree_lem_example =
    delete_from_tree_lem no_device inserted.root key_a 3 inserted.state inserted.height
      (put item_a []) inserted.tree key_a-IsKey (omega arith) (omega (arith, inserted.height_le))
      (omega (arith, inserted.height_le, inserted.spent, created.next)) reads_a

abbrev leaf : BafsTreeNode
leaf = record {
  node_checksum = 0;
  level = 0;
  flags = 0;
  item_count = 1;
  self_block_address = 40;
  generation = 1;
  leaf_items = item_a ∷ [];
  internal_items = [];
}

leaf-IsLeafNode : IsLeafNode leaf
unfolding leaf_serialised_size total_value_bytes
leaf-IsLeafNode = record {
  header = record {
    level_fits = omega arith;
    flags_fit = omega arith;
    address_fits = omega arith;
    generation_fits = omega arith;
  };
  is_leaf = refl;
  keys_fit = (key_a-IsKey, tt);
  counted = refl;
  no_children = refl;
  fits = omega arith;
}

leaf-RoundTrip_example : RoundTrip leaf
leaf-RoundTrip_example = leaf-RoundTrip leaf leaf-IsLeafNode

abbrev child_a : BafsInternalItem
child_a = record { key = key_a; child_block = 40; child_generation = 1 }

abbrev child_b : BafsInternalItem
child_b = record { key = key_b; child_block = 41; child_generation = 1 }

abbrev inner : BafsTreeNode
inner = record {
  node_checksum = 0;
  level = 1;
  flags = 0;
  item_count = 2;
  self_block_address = 42;
  generation = 1;
  leaf_items = [];
  internal_items = child_a ∷ child_b ∷ [];
}

inner-IsInternalNode : IsInternalNode inner
inner-IsInternalNode = record {
  header = record {
    level_fits = omega arith;
    flags_fit = omega arith;
    address_fits = omega arith;
    generation_fits = omega arith;
  };
  is_internal = omega arith;
  items_fit = (
    record { key_fits = key_a-IsKey; child_fits = omega arith; generation_fits = omega arith },
    (
      record { key_fits = key_b-IsKey; child_fits = omega arith; generation_fits = omega arith },
      tt,
    ),
  );
  counted = refl;
  no_values = refl;
  fits = omega arith;
}

internal-RoundTrip_example : RoundTrip inner
internal-RoundTrip_example = internal-RoundTrip inner inner-IsInternalNode

one_leaf : Within 0 rank_limit (item_a ∷ [])
one_leaf = (omega arith, omega (arith, rank-lt key_a key_a-IsKey))

search_leaf_lem_example : Searched (item_a ∷ []) key_b (search_leaf (item_a ∷ []) key_b)
search_leaf_lem_example =
    search_leaf_lem 0 rank_limit (item_a ∷ []) key_b one_leaf (key_a-IsKey, tt) key_b-IsKey

cmp-rank_example : cmp key_a key_b ≡ compare (rank key_a) (rank key_b)
cmp-rank_example = cmp-rank key_a key_b key_a-IsKey key_b-IsKey
