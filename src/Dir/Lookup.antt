-- ===== src/Dir/Lookup.antt =====
-- `directory_lookup_entry` of src/dir.rs on an inode tree that has the root inode.
use bazzulto_bafs.Base.{
  ℕ, ◌^◌, ◌<◌, ◌≡◌, refl, ap, ◌∙◌, inl, inr, Option, none, some, [], ◌∷◌, true, arith,
  if◌then◌else◌,
}
use bazzulto_bafs.Bytes.{Bytes}
use bazzulto_bafs.Device.{Reader}
use bazzulto_bafs.Error.{Result, ok, ◌>>=◌}
use bazzulto_bafs.Btree.Key.{IsKey, rank, rank_limit, new, item_type_inode}
use bazzulto_bafs.Btree.Cache.{TreeState, DirtyCache}
use bazzulto_bafs.Btree.Map.{Items, find}
use bazzulto_bafs.Btree.Map.Single.{Single, between-Single}
use bazzulto_bafs.Btree.Lookup.{iterate_tree_range}
use bazzulto_bafs.Btree.Store.{IsStore, IsStore-Within, store-scan}
use bazzulto_bafs.Superblock.{same_bytes}
use bazzulto_bafs.Dir.Hash.Loops.{xxhash64_with_seed_zero-lt}
use bazzulto_bafs.Dir.{
  BafsDirEntry, deserialise_dir_entry_from_bytes, make_directory_entry_key, find_named,
  directory_lookup_entry,
}

-- The least key of an inode tree is that of the root inode.
abbrev pub root_rank : ℕ
root_rank = rank (new 1 item_type_inode 0)

abbrev pub IsInodeStore : Reader → TreeState → ℕ → ℕ → Items → Type 0
IsInodeStore device s depth root m = IsStore device s root_rank depth root m

-- The entry that a stored value is for a name: none under another name.
unfoldable pub named : Bytes → Option Bytes → Result (Option BafsDirEntry)
named target_filename none = ok none
named target_filename (some value) = deserialise_dir_entry_from_bytes value >>= λ entry.
    if same_bytes entry.filename target_filename then ok (some entry) else ok none

pub same_bytes_refl : (bs : Bytes) → same_bytes bs bs ≡ true
unfolding same_bytes
same_bytes_refl [] = refl
same_bytes_refl (b ∷ bs) = ground (arith, same_bytes_refl bs)

pub make_directory_entry_key-IsKey :
    (parent : ℕ) (name : Bytes) → parent < 2 ^ 64 → IsKey (make_directory_entry_key parent name)
unfolding make_directory_entry_key
make_directory_entry_key-IsKey parent name h = record {
  object_fits = h;
  type_fits = omega arith;
  offset_fits = xxhash64_with_seed_zero-lt name;
}

pub root_rank-lt :
    (parent : ℕ) (name : Bytes)
    → 0 < parent
    → root_rank < rank (make_directory_entry_key parent name)
unfolding make_directory_entry_key rank
root_rank-lt parent name h = omega arith

find_named-none : (name : Bytes) → find_named name [] ≡ named name none
unfolding find_named named
find_named-none name = refl

find_named-Single :
    (name : Bytes) (r : ℕ) (m : Items) (one : Single r m)
    → find_named name (one.item ∷ []) ≡ named name (find r m)
unfolding find_named named
find_named-Single name r m one = let f = one.finds in ground (arith, f)

scanned :
    (device : Reader) (cache : DirtyCache) (root parent : ℕ) (name : Bytes) {items : Items}
    → iterate_tree_range device cache root
        (make_directory_entry_key parent name)
        (make_directory_entry_key parent name)
      ≡ ok items
    → directory_lookup_entry device cache root parent name ≡ find_named name items
unfolding directory_lookup_entry
scanned device cache root parent name e = ground (arith, e)

-- A lookup in a sound inode tree of fewer than 256 levels below its root that has the root inode,
-- under a directory with a number from 1 on of 64 bits, reads what the map has under the key of
-- the directory and the hash of the name, if its name is the one looked for.
pub directory_lookup_entry_lem :
    (device : Reader) (s : TreeState) (depth root : ℕ) (m : Items) (parent : ℕ) (name : Bytes)
    → IsInodeStore device s depth root m
    → 0 < parent
    → parent < 2 ^ 64
    → depth < 256
    → directory_lookup_entry device s.dirty_cache root parent name
      ≡ named name (find (rank (make_directory_entry_key parent name)) m)
directory_lookup_entry_lem device s depth root m parent name h p fits d =
    let key = make_directory_entry_key parent name in
    let kf = make_directory_entry_key-IsKey parent name fits in
    let scan = store-scan device s root_rank depth root m h key kf key kf d in
    elim (between-Single (rank key) root_rank rank_limit m
      (IsStore-Within device s root_rank depth root m h)) [
        | inl (absent, nothing) ↦
            scanned device s.dirty_cache root parent name (scan ∙ ap ok nothing)
            ∙ find_named-none name
            ∙ ap (named name) (absent_sym absent)
        | inr one ↦
            scanned device s.dirty_cache root parent name (scan ∙ ap ok one.alone)
            ∙ find_named-Single name (rank key) m one
      ]
  where
    absent_sym : {o : Option Bytes} → o ≡ none → none ≡ o
    absent_sym e = cc
