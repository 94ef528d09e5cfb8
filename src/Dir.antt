-- ===== src/Dir.antt =====
-- src/dir.rs: the entries of directories, items of the inode tree under the hash of their names.
pub mod Hash
pub mod Utf8
pub mod Codec
pub mod Lookup
pub mod Listing
pub mod Updates
pub mod Tests
use bazzulto_bafs.Base.{
  ℕ, zero, suc, ◌+◌, ◌-◌, ◌%◌, ◌^◌, Bool, true, false, Option, none, some, List, [], ◌∷◌, ◌++◌,
  ◌||◌, ◌==◌, ltb, length, get_elem?, if◌then◌else◌,
}
use bazzulto_bafs.Bytes.{Bytes, read_le, slice}
use bazzulto_bafs.Bytes.Layout.{Fields, encode}
use bazzulto_bafs.Device.{Reader}
use bazzulto_bafs.Error
use bazzulto_bafs.Error.{
  Result, ok, err, corrupted_structure, invalid_argument, already_exists, not_found,
}
use bazzulto_bafs.Exec.{Exec, fail, lift, gets, ◌>>=◌}
use bazzulto_bafs.Btree.Key.{BafsKey, new, item_type_directory_entry}
use bazzulto_bafs.Btree.Node.{BafsLeafItem}
use bazzulto_bafs.Btree.Cache.{TreeState, DirtyCache}
use bazzulto_bafs.Btree.Lookup.{iterate_tree_range}
use bazzulto_bafs.Btree.Insert.{insert_into_tree}
use bazzulto_bafs.Btree.Delete.{delete_from_tree}
use bazzulto_bafs.Superblock.{same_bytes}
use Hash.{xxhash64_with_seed_zero}
use Utf8.{from_utf8_lossy}

abbrev pub child_type_directory : ℕ
child_type_directory = 4

abbrev pub child_type_regular_file : ℕ
child_type_regular_file = 8

-- The name is the bytes of the `String`.
pub record BafsDirEntry : Type 0 where
  pub child_inode_number : ℕ
  pub child_type : ℕ
  pub name_length_bytes : ℕ
  pub filename : Bytes

-- The twelve bytes before the name.
abbrev pub entry_fields : BafsDirEntry → Fields
entry_fields entry =
    (8, entry.child_inode_number)
    ∷ (1, entry.child_type)
    ∷ (1, entry.name_length_bytes)
    ∷ (2, 0)
    ∷ []

pub serialise_dir_entry_to_bytes : BafsDirEntry → Bytes
serialise_dir_entry_to_bytes entry = encode (entry_fields entry) ++ entry.filename

pub deserialise_dir_entry_from_bytes : Bytes → Result BafsDirEntry
deserialise_dir_entry_from_bytes bytes =
    let name_length_bytes = read_le 9 1 bytes in
    if ltb (length bytes) 12
    then err corrupted_structure
    else if ltb (length bytes) (12 + name_length_bytes)
    then err corrupted_structure
    else ok (record {
      child_inode_number = read_le 0 8 bytes;
      child_type = read_le 8 1 bytes;
      name_length_bytes = name_length_bytes;
      filename = from_utf8_lossy (slice 12 name_length_bytes bytes);
    })

unfoldable pub make_directory_entry_key : ℕ → Bytes → BafsKey
make_directory_entry_key parent_inode_number filename =
    new parent_inode_number item_type_directory_entry (xxhash64_with_seed_zero filename)

-- `for item in &matching_items`
pub find_named : Bytes → List BafsLeafItem → Result (Option BafsDirEntry)
find_named target_filename [] = ok none
find_named target_filename (item ∷ rest) =
    let later = find_named target_filename rest in
    Error.◌>>=◌ (deserialise_dir_entry_from_bytes item.value)
      λ entry. if same_bytes entry.filename target_filename then ok (some entry) else later

pub directory_lookup_entry : Reader → DirtyCache → ℕ → ℕ → Bytes → Result (Option BafsDirEntry)
directory_lookup_entry device dirty_cache inode_tree_root_block parent_inode_number
      target_filename =
    let search_key = make_directory_entry_key parent_inode_number target_filename in
    Error.◌>>=◌ (iterate_tree_range device dirty_cache inode_tree_root_block search_key search_key)
      λ matching_items. find_named target_filename matching_items

pub directory_create_entry : Reader → ℕ → ℕ → Bytes → ℕ → ℕ → ℕ → Exec TreeState ℕ
directory_create_entry device inode_tree_root_block parent_inode_number child_filename
      child_inode_number child_type generation =
    elim (length child_filename == 0 || ltb 255 (length child_filename)) [
      | true ↦ fail invalid_argument
      | false ↦ do
        dirty_cache ← gets (λ s. s.dirty_cache)
        existing ← lift (
            directory_lookup_entry device dirty_cache inode_tree_root_block parent_inode_number
              child_filename)
        elim existing [
          | some _ ↦ fail already_exists
          | none ↦
              insert_into_tree device inode_tree_root_block
                (make_directory_entry_key parent_inode_number child_filename)
                (serialise_dir_entry_to_bytes (record {
                  child_inode_number = child_inode_number;
                  child_type = child_type;
                  name_length_bytes = length child_filename % 2 ^ 8;
                  filename = child_filename;
                }))
                generation
        ]
    ]

pub directory_unlink_entry : Reader → ℕ → ℕ → Bytes → ℕ → Exec TreeState ℕ
directory_unlink_entry device inode_tree_root_block parent_inode_number target_filename generation =
    do
      dirty_cache ← gets (λ s. s.dirty_cache)
      existing_entry ← lift (
          directory_lookup_entry device dirty_cache inode_tree_root_block parent_inode_number
            target_filename)
      elim existing_entry [
        | none ↦ fail not_found
        | some _ ↦
            delete_from_tree device inode_tree_root_block
              (make_directory_entry_key parent_inode_number target_filename) generation
      ]

-- The scan over all entries of a directory.
abbrev pub all_entries : Reader → DirtyCache → ℕ → ℕ → Result (List BafsLeafItem)
all_entries device dirty_cache inode_tree_root_block parent_inode_number =
    iterate_tree_range device dirty_cache inode_tree_root_block
      (new parent_inode_number item_type_directory_entry 0)
      (new parent_inode_number item_type_directory_entry (2 ^ 64 - 1))

-- The entry of the item at an index, if there is one.
entry_of_item : Option BafsLeafItem → Result (Option BafsDirEntry)
entry_of_item none = ok none
entry_of_item (some item) =
    Error.◌>>=◌ (deserialise_dir_entry_from_bytes item.value) λ entry. ok (some entry)

pub directory_iterate : Reader → DirtyCache → ℕ → ℕ → ℕ → Result (Option BafsDirEntry)
directory_iterate device dirty_cache inode_tree_root_block parent_inode_number entry_index =
    Error.◌>>=◌ (all_entries device dirty_cache inode_tree_root_block parent_inode_number)
      λ items. entry_of_item (get_elem? items entry_index)

-- `map(...).collect()`, which ends at the first error.
deserialise_all : List BafsLeafItem → Result (List BafsDirEntry)
deserialise_all [] = ok []
deserialise_all (item ∷ rest) =
    Error.◌>>=◌ (deserialise_dir_entry_from_bytes item.value)
      λ entry. Error.◌>>=◌ (deserialise_all rest) λ entries. ok (entry ∷ entries)

pub directory_list_all_entries : Reader → DirtyCache → ℕ → ℕ → Result (List BafsDirEntry)
directory_list_all_entries device dirty_cache inode_tree_root_block parent_inode_number =
    Error.◌>>=◌ (all_entries device dirty_cache inode_tree_root_block parent_inode_number)
      λ all_items. deserialise_all all_items
