-- ===== src/Dir/Listing.antt =====
-- `directory_iterate` and `directory_list_all_entries` of src/dir.rs, against each other and against
-- lookups.
use bazzulto_bafs.Base.{
  ℕ, zero, suc, ◌-◌, ◌^◌, ◌≤◌, ◌<◌, ◌≡◌, refl, sym, ap, ◌∙◌, Option, none, some, List, [], ◌∷◌,
  ◌==◌, Bool, leb, get_elem?, true, false, ◌&&◌, Bool-cases, inl, inr, arith, if◌then◌else◌,
}
use bazzulto_bafs.Bytes.{Bytes}
use bazzulto_bafs.Device.{Reader}
use bazzulto_bafs.Error.{ok, >>=_ok}
use bazzulto_bafs.Btree.Key.{rank, new, item_type_directory_entry}
use bazzulto_bafs.Btree.Node.{BafsLeafItem}
use bazzulto_bafs.Btree.Cache.{TreeState, DirtyCache}
use bazzulto_bafs.Btree.Map.{Items, find, between}
use bazzulto_bafs.Btree.Store.{store-scan}
use bazzulto_bafs.Superblock.{same_bytes}
use bazzulto_bafs.Dir.Hash.Loops.{xxhash64_with_seed_zero-lt}
use bazzulto_bafs.Dir.Lookup.{root_rank, IsInodeStore, named, directory_lookup_entry_lem}
use bazzulto_bafs.Dir.{
  BafsDirEntry, deserialise_dir_entry_from_bytes, make_directory_entry_key, all_entries,
  entry_of_item, deserialise_all, directory_lookup_entry, directory_iterate,
  directory_list_all_entries,
}

-- The items hold the entries, in order.
abbrev pub Holds : Items → List BafsDirEntry → Type 0
Holds [] [] = Unit
Holds [] (entry ∷ entries) = ⊥
Holds (item ∷ items) [] = ⊥
Holds (item ∷ items) (entry ∷ entries) =
    (deserialise_dir_entry_from_bytes item.value ≡ ok entry) × Holds items entries

deserialise_all-Holds :
    (items : Items) (entries : List BafsDirEntry)
    → Holds items entries
    → deserialise_all items ≡ ok entries
unfolding deserialise_all
deserialise_all-Holds [] [] h = refl
deserialise_all-Holds [] (entry ∷ entries) h = absurd h
deserialise_all-Holds (item ∷ items) [] h = absurd h
deserialise_all-Holds (item ∷ items) (entry ∷ entries) (h, hs) =
    let rest = deserialise_all-Holds items entries hs in rw (h, rest) refl

entry_of_item-Holds :
    (items : Items) (entries : List BafsDirEntry) (i : ℕ)
    → Holds items entries
    → entry_of_item (get_elem? items i) ≡ ok (get_elem? entries i)
unfolding entry_of_item
entry_of_item-Holds [] [] i h = refl
entry_of_item-Holds [] (entry ∷ entries) i h = absurd h
entry_of_item-Holds (item ∷ items) [] i h = absurd h
entry_of_item-Holds (item ∷ items) (entry ∷ entries) zero (h, hs) = rw h refl
entry_of_item-Holds (item ∷ items) (entry ∷ entries) (suc i) (h, hs) =
    entry_of_item-Holds items entries i hs

module _ (device : Reader) (cache : DirtyCache) (root parent : ℕ) where
  iterate_items :
      (items : List BafsLeafItem) (i : ℕ)
      → all_entries device cache root parent ≡ ok items
      → directory_iterate device cache root parent i ≡ entry_of_item (get_elem? items i)
  unfolding directory_iterate
  iterate_items items i e = ground (arith, e)

  list_items :
      (items : List BafsLeafItem)
      → all_entries device cache root parent ≡ ok items
      → directory_list_all_entries device cache root parent ≡ deserialise_all items
  unfolding directory_list_all_entries
  list_items items e = ground (arith, e)

-- The scan over the entries of a directory.
abbrev pub entries_of : ℕ → Items → Items
entries_of parent m =
    between (rank (new parent item_type_directory_entry 0))
      (rank (new parent item_type_directory_entry (2 ^ 64 - 1))) m

scans_entries :
    (device : Reader) (s : TreeState) (depth root : ℕ) (m : Items) (parent : ℕ)
    → IsInodeStore device s depth root m
    → parent < 2 ^ 64
    → depth < 256
    → all_entries device s.dirty_cache root parent ≡ ok (entries_of parent m)
scans_entries device s depth root m parent h fits d =
    store-scan device s root_rank depth root m h (new parent item_type_directory_entry 0)
      (record { object_fits = fits; type_fits = omega arith; offset_fits = omega arith })
      (new parent item_type_directory_entry (2 ^ 64 - 1))
      (record { object_fits = fits; type_fits = omega arith; offset_fits = omega arith }) d

-- In a sound inode tree of fewer than 256 levels below its root that has the root inode, where the
-- items of a directory with a 64-bit number hold the entries, the listing of the directory is
-- these entries in the order of the tree, and the iteration gives at each index the entry of the
-- listing, and nothing from its end on.
pub directory_list_all_entries_lem :
    (device : Reader) (s : TreeState) (depth root : ℕ) (m : Items) (parent : ℕ)
    (entries : List BafsDirEntry)
    → IsInodeStore device s depth root m
    → parent < 2 ^ 64
    → depth < 256
    → Holds (entries_of parent m) entries
    → (directory_list_all_entries device s.dirty_cache root parent ≡ ok entries)
      × ((i : ℕ) → directory_iterate device s.dirty_cache root parent i ≡ ok (get_elem? entries i))
directory_list_all_entries_lem device s depth root m parent entries h fits d holds =
    let scan = scans_entries device s depth root m parent h fits d in
    (
      list_items device s.dirty_cache root parent _ scan ∙ deserialise_all-Holds _ entries holds,
      λ i.
          iterate_items device s.dirty_cache root parent _ i scan
          ∙ entry_of_item-Holds _ entries i holds,
    )

-- Where an item stands among those of a range.
record Listed (value : Bytes) (items : Items) : Type 0 where
  index : ℕ
  item : BafsLeafItem
  at : get_elem? items index ≡ some item
  same : item.value ≡ value

between-Listed :
    (lo hi r : ℕ) (m : Items) (value : Bytes)
    → lo ≤ r
    → r ≤ hi
    → find r m ≡ some value
    → Listed value (between lo hi m)
unfolding find between
between-Listed lo hi r [] value a b f = cc
between-Listed lo hi r (x ∷ rest) value a b f = elim (Bool-cases (rank x.key == r)) [
  | inl here ↦ record { index = 0; item = x; at = ground arith; same = ground (arith, f) }
  | inr apart ↦
      let l = between-Listed lo hi r rest value a b (ground (arith, f)) in
      later l (leb lo (rank x.key) && leb (rank x.key) hi)
]
  where
    later :
        Listed value (between lo hi rest)
        → (b : Bool) → Listed value (if b then x ∷ between lo hi rest else between lo hi rest)
    later l true = record { index = suc l.index; item = l.item; at = l.at; same = l.same }
    later l false = l

-- A directory entry that a lookup finds, in a sound inode tree of fewer than 256 levels below its
-- root that has the root inode, under a directory with a number from 1 on of 64 bits, stands at
-- some index of the iteration too.
pub directory_iterate_complete :
    (device : Reader) (s : TreeState) (depth root : ℕ) (m : Items) (parent : ℕ) (name : Bytes)
    (entry : BafsDirEntry)
    → IsInodeStore device s depth root m
    → 0 < parent
    → parent < 2 ^ 64
    → depth < 256
    → directory_lookup_entry device s.dirty_cache root parent name ≡ ok (some entry)
    → (i : ℕ) × (directory_iterate device s.dirty_cache root parent i ≡ ok (some entry))
unfolding entry_of_item make_directory_entry_key rank named
directory_iterate_complete device s depth root m parent name entry h p fits d found =
    let key = make_directory_entry_key parent name in
    let lowest = new parent item_type_directory_entry 0 in
    let highest = new parent item_type_directory_entry (2 ^ 64 - 1) in
    let stored =
      sym (directory_lookup_entry_lem device s depth root m parent name h p fits d) ∙ found in
    let (value, here, reads) = is_stored (find (rank key) m) stored in
    let l =
      between-Listed (rank lowest) (rank highest) (rank key) m value (omega arith)
        (omega (arith, xxhash64_with_seed_zero-lt name)) here in
    let scan = scans_entries device s depth root m parent h fits d in
    (
      l.index,
      iterate_items device s.dirty_cache root parent _ l.index scan
          ∙ ap entry_of_item l.at
          ∙ item_reads l.item value l.same reads,
    )
  where
    same_entry :
        (stored : BafsDirEntry) (b : Bool)
        → (if b then ok (some stored) else ok none) ≡ ok (some entry)
        → ok stored ≡ ok entry
    same_entry stored true e = cc
    same_entry stored false e = cc

    is_stored :
        (o : Option Bytes)
        → named name o ≡ ok (some entry)
        → (value : Bytes) × (o ≡ some value) × (deserialise_dir_entry_from_bytes value ≡ ok entry)
    is_stored none e = cc
    is_stored (some value) e =
        let (stored, reads, named_so) = >>=_ok _ _ _ e in
        (value, refl, reads ∙ same_entry stored (same_bytes stored.filename name) named_so)

    item_reads :
        (item : BafsLeafItem) (value : Bytes)
        → item.value ≡ value
        → deserialise_dir_entry_from_bytes value ≡ ok entry
        → entry_of_item (some item) ≡ ok (some entry)
    item_reads item value e f = ground (arith, e, f)
