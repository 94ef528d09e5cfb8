-- ===== src/Dir/Tests.antt =====
-- The directories of src/dir.rs on the inode tree of a freshly formatted volume.
use bazzulto_bafs.Base.{
  ℕ, ◌+◌, ◌-◌, ◌*◌, ◌^◌, ◌<◌, ◌≡◌, refl, sym, ap, ◌∙◌, none, some, [], ◌∷◌, get_elem?, arith,
  if◌then◌else◌,
}
use bazzulto_bafs.Bytes.{Bytes}
use bazzulto_bafs.Error.{ok}
use bazzulto_bafs.Btree.Key.{BafsKey, rank, IsKey, new, item_type_directory_entry}
use bazzulto_bafs.Btree.Map.{Items, find, put, remove, between}
use bazzulto_bafs.Btree.Tests.{no_device}
use bazzulto_bafs.Btree.Lookup.{iterate_tree_range}
use bazzulto_bafs.Btree.Lookup.Scan.{scan_lem}
use bazzulto_bafs.Superblock.{same_bytes}
use bazzulto_bafs.Volume.Format.Sound.{Formatted, build_trees_lem, root_item}
use bazzulto_bafs.Dir.Utf8.{from_utf8_lossy}
use bazzulto_bafs.Dir.Hash.{consume}
use mathlib.Core.Path.{subst}
use bazzulto_bafs.Dir.Hash.Loops.{xxhash64_with_seed_zero-lt, consume-Terminates}
use bazzulto_bafs.Dir.Codec.{IsDirEntry, dir_entry-RoundTrip}
use bazzulto_bafs.Dir.Lookup.{root_rank, named, root_rank-lt, directory_lookup_entry_lem}
use bazzulto_bafs.Dir.Listing.{
  Holds, entries_of, directory_list_all_entries_lem, directory_iterate_complete,
}
use bazzulto_bafs.Dir.Updates.{
  IsName, new_entry, EntryChange, directory_create_entry_lem, directory_unlink_entry_lem,
}
use bazzulto_bafs.Dir.{
  BafsDirEntry, serialise_dir_entry_to_bytes, deserialise_dir_entry_from_bytes,
  make_directory_entry_key, directory_lookup_entry, directory_create_entry, directory_unlink_entry,
  directory_iterate, directory_list_all_entries,
}

-- "a.txt"
abbrev pub file_name : Bytes
file_name = 97 ∷ 46 ∷ 116 ∷ 120 ∷ 116 ∷ []

pub file_name-IsName : IsName file_name
unfolding from_utf8_lossy
file_name-IsName = record { utf8 = refl; some_bytes = omega arith; not_long = omega arith }

abbrev pub file_entry : BafsDirEntry
file_entry = new_entry file_name 2 8

file_entry-IsDirEntry : IsDirEntry file_entry
file_entry-IsDirEntry = record {
  fields_fit = (omega arith, (omega arith, (omega arith, (omega arith, tt))));
  name_size = refl;
  name_utf8 = file_name-IsName.utf8;
}

dir_entry-RoundTrip_example :
    deserialise_dir_entry_from_bytes (serialise_dir_entry_to_bytes file_entry) ≡ ok file_entry
dir_entry-RoundTrip_example = dir_entry-RoundTrip file_entry file_entry-IsDirEntry

consume-Terminates_example :
    (consume 9 file_name ≡ consume 5 file_name) × ((consume 9 file_name).1 ≡ 5)
consume-Terminates_example = consume-Terminates 9 file_name (omega arith)

abbrev pub formatted : Formatted no_device 1000 259
formatted = build_trees_lem no_device 1000 259 (omega arith) (omega arith)

abbrev map : Items
map = root_item ∷ []

abbrev depth : ℕ
depth = formatted.inode_height

abbrev root : ℕ
root = formatted.roots.inode_root

abbrev pub key_rank : ℕ
key_rank = rank (make_directory_entry_key 1 file_name)

nothing_there : find key_rank map ≡ none
unfolding find
nothing_there = ground (arith, root_rank-lt 1 file_name (omega arith))

directory_lookup_entry_lem_example :
    directory_lookup_entry no_device formatted.state.dirty_cache root 1 file_name
    ≡ named file_name (find key_rank map)
directory_lookup_entry_lem_example =
    directory_lookup_entry_lem no_device formatted.state depth root map 1 file_name formatted.inodes
      (omega arith) (omega arith) (omega (arith, formatted.inode_height_le))

pub missing :
    directory_lookup_entry no_device formatted.state.dirty_cache root 1 file_name ≡ ok none
unfolding named
missing =
    directory_lookup_entry_lem no_device formatted.state depth root map 1 file_name formatted.inodes
      (omega arith) (omega arith) (omega (arith, formatted.inode_height_le))
    ∙ ap (named file_name) nothing_there

pub room : formatted.state.next_free_block + (2 * (depth + 1) + 1) < 2 ^ 64
room = omega (arith, formatted.pointer, formatted.inode_height_le)

abbrev pub created_map : Items
created_map =
    put
      (record {
        key = make_directory_entry_key 1 file_name;
        value = serialise_dir_entry_to_bytes file_entry;
      })
      map

abbrev Created : Type 0
Created =
    EntryChange no_device (directory_create_entry no_device root 1 file_name 2 8 1) depth root map
      created_map 1 file_name
      (λ name'. if same_bytes file_name name' then ok (some file_entry) else ok none)
      formatted.state

directory_create_entry_lem_example : Created
directory_create_entry_lem_example =
    directory_create_entry_lem no_device formatted.state depth root map formatted.inodes 1 file_name
      (omega arith) (omega arith) 1 (omega arith) (omega (arith, formatted.inode_height_le)) room 2
      8 file_name-IsName (omega arith) (omega arith) missing

abbrev pub created : Created
created =
    directory_create_entry_lem no_device formatted.state depth root map formatted.inodes 1 file_name
      (omega arith) (omega arith) 1 (omega arith) (omega (arith, formatted.inode_height_le)) room 2
      8 file_name-IsName (omega arith) (omega arith) missing

abbrev new_root : ℕ
new_root = created.tree.new_root

pub there :
    directory_lookup_entry no_device created.tree.state.dirty_cache new_root 1 file_name
    ≡ ok (some file_entry)
unfolding same_bytes
there = let e = created.lookups 1 file_name (omega arith) (omega arith) in ground (arith, e)

directory_unlink_entry_lem_example :
    EntryChange no_device
      (directory_unlink_entry no_device new_root 1 file_name 1)
      created.tree.height
      new_root
      created_map
      (remove key_rank created_map)
      1
      file_name
      (λ name'. ok none)
      created.tree.state
directory_unlink_entry_lem_example =
    directory_unlink_entry_lem no_device created.tree.state created.tree.height new_root created_map
      created.tree.store 1 file_name (omega arith) (omega arith) 1 (omega arith)
      (omega (arith, created.tree.height_le, formatted.inode_height_le))
      (omega (
        arith, created.tree.height_le, created.tree.spent, formatted.inode_height_le,
        formatted.pointer,
      ))
      file_entry there

directory_iterate_complete_example :
    (i : ℕ) × (directory_iterate no_device created.tree.state.dirty_cache new_root 1 i
      ≡ ok (some file_entry))
directory_iterate_complete_example =
    directory_iterate_complete no_device created.tree.state created.tree.height new_root created_map
      1 file_name file_entry created.tree.store (omega arith) (omega arith)
      (omega (arith, created.tree.height_le, formatted.inode_height_le)) there

abbrev lowest : BafsKey
lowest = new 1 item_type_directory_entry 0

abbrev highest : BafsKey
highest = new 1 item_type_directory_entry (2 ^ 64 - 1)

lowest-IsKey : IsKey lowest
lowest-IsKey = record {
  object_fits = omega arith;
  type_fits = omega arith;
  offset_fits = omega arith;
}

highest-IsKey : IsKey highest
highest-IsKey = record {
  object_fits = omega arith;
  type_fits = omega arith;
  offset_fits = omega arith;
}

scan_lem_example :
    iterate_tree_range no_device formatted.state.dirty_cache root lowest highest
    ≡ ok (between (rank lowest) (rank highest) map)
scan_lem_example =
    scan_lem no_device formatted.state formatted.state.next_free_block lowest highest lowest-IsKey
      highest-IsKey depth root root_rank map formatted.inodes.tree formatted.inodes.positive
      (omega (arith, formatted.inode_height_le))

-- The new entry is the only one of the root directory.
one_entry :
    entries_of 1 created_map
    ≡ record {
      key = make_directory_entry_key 1 file_name;
      value = serialise_dir_entry_to_bytes file_entry;
    }
      ∷ []
unfolding between put rank make_directory_entry_key
one_entry = ground (arith, xxhash64_with_seed_zero-lt file_name)

one_entry_held : Holds (entries_of 1 created_map) (file_entry ∷ [])
one_entry_held =
    subst (λ items. Holds items (file_entry ∷ [])) (sym one_entry)
      (dir_entry-RoundTrip file_entry file_entry-IsDirEntry, tt)

directory_list_all_entries_lem_example :
    (directory_list_all_entries no_device created.tree.state.dirty_cache new_root 1
      ≡ ok (file_entry ∷ []))
    × ((i : ℕ)
        → directory_iterate no_device created.tree.state.dirty_cache new_root 1 i
          ≡ ok (get_elem? (file_entry ∷ []) i))
directory_list_all_entries_lem_example =
    directory_list_all_entries_lem no_device created.tree.state created.tree.height new_root
      created_map 1 (file_entry ∷ []) created.tree.store (omega arith)
      (omega (arith, created.tree.height_le, formatted.inode_height_le)) one_entry_held
