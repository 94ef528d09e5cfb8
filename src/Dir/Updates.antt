-- ===== src/Dir/Updates.antt =====
-- `directory_create_entry` and `directory_unlink_entry` of src/dir.rs on an inode tree that has the root
-- inode, as changes of what every lookup reads.
use bazzulto_bafs.Base.{
  ℕ, ◌+◌, ◌*◌, ◌^◌, ◌%◌, ◌≤◌, ◌<◌, ◌≡◌, ◌⊎◌, Bool, refl, sym, ap, ◌∙◌, Option, none, some, ◌==◌,
  true, false, length, arith, if◌then◌else◌,
}
use bazzulto_bafs.Bytes.{Bytes}
use bazzulto_bafs.Device.{Reader}
use bazzulto_bafs.Error.{Result, ok, err, invalid_argument, already_exists, not_found}
use bazzulto_bafs.Exec.{Exec}
use bazzulto_bafs.Btree.Key.{rank, rank_limit}
use bazzulto_bafs.Btree.Cache.{TreeState}
use bazzulto_bafs.Btree.Map.{Items, find, put, remove, find-put, find-remove}
use bazzulto_bafs.Btree.Insert.{insert_into_tree}
use bazzulto_bafs.Btree.Delete.{delete_from_tree}
use bazzulto_bafs.Btree.Store.{Restored, IsStore-Within, store-insert, store-delete, store-lookup}
use bazzulto_bafs.Superblock.{same_bytes}
use bazzulto_bafs.Inode.{inode_key, inode_of_value, read_inode_from_tree}
use bazzulto_bafs.Inode.Laws.{inode_key-IsKey, reads_value}
use bazzulto_bafs.Dir.Utf8.{IsUtf8}
use bazzulto_bafs.Dir.Hash.Loops.{xxhash64_with_seed_zero-lt}
use bazzulto_bafs.Dir.Codec.{IsDirEntry, length-serialise_dir_entry, dir_entry-RoundTrip}
use bazzulto_bafs.Dir.Lookup.{
  root_rank, IsInodeStore, named, make_directory_entry_key-IsKey, root_rank-lt,
  directory_lookup_entry_lem,
}
use bazzulto_bafs.Dir.{
  BafsDirEntry, serialise_dir_entry_to_bytes, deserialise_dir_entry_from_bytes,
  make_directory_entry_key, directory_lookup_entry, directory_create_entry, directory_unlink_entry,
}

-- A name that can be created: a `str` of 1 to 255 bytes.
pub record IsName (name : Bytes) : Type 0 where
  pub utf8 : IsUtf8 name
  pub some_bytes : 0 < length name
  pub not_long : length name ≤ 255

abbrev pub new_entry : Bytes → ℕ → ℕ → BafsDirEntry
new_entry name number kind = record {
  child_inode_number = number;
  child_type = kind;
  name_length_bytes = length name % 2 ^ 8;
  filename = name;
}

new_entry-IsDirEntry :
    (name : Bytes) (number kind : ℕ)
    → IsName name
    → number < 2 ^ 64
    → kind < 256
    → IsDirEntry (new_entry name number kind)
new_entry-IsDirEntry name number kind h n k =
    let short = h.not_long in
    record {
      fields_fit = (omega arith, (omega arith, (omega arith, (omega arith, tt))));
      name_size = omega arith;
      name_utf8 = h.utf8;
    }

-- Is it the same place of the tree: the same directory and the same hash?
abbrev pub same_key : ℕ → Bytes → ℕ → Bytes → Bool
same_key parent name parent' name' =
    rank (make_directory_entry_key parent name) == rank (make_directory_entry_key parent' name')

module _ (device : Reader) (s : TreeState) (root parent : ℕ) (name : Bytes) (generation : ℕ) where
  create_runs :
      (number kind : ℕ) (out : Result ℕ × TreeState)
      → IsName name
      → directory_lookup_entry device s.dirty_cache root parent name ≡ ok none
      → insert_into_tree device root
          (make_directory_entry_key parent name)
          (serialise_dir_entry_to_bytes (new_entry name number kind))
          generation
          s
        ≡ out
      → directory_create_entry device root parent name number kind generation s ≡ out
  unfolding directory_create_entry
  create_runs number kind out h e r =
      let positive = h.some_bytes in let short = h.not_long in ground (arith, e, r)

  -- A name of no bytes or of more than 255 is refused, a name that a lookup finds is refused too, and
  -- the cache, the next free block and the freed blocks stay as they were.
  pub directory_create_entry-refused :
      (number kind : ℕ) (entry : BafsDirEntry)
      → ((length name ≡ 0) ⊎ (255 < length name)
          → directory_create_entry device root parent name number kind generation s
            ≡ (err invalid_argument, s))
        × (0 < length name
            → length name ≤ 255
            → directory_lookup_entry device s.dirty_cache root parent name ≡ ok (some entry)
            → directory_create_entry device root parent name number kind generation s
              ≡ (err already_exists, s))
  unfolding directory_create_entry
  directory_create_entry-refused number kind entry =
      (λ bad. ground arith, λ p l e. ground (arith, e))

  unlink_runs :
      (entry : BafsDirEntry) (out : Result ℕ × TreeState)
      → directory_lookup_entry device s.dirty_cache root parent name ≡ ok (some entry)
      → delete_from_tree device root (make_directory_entry_key parent name) generation s ≡ out
      → directory_unlink_entry device root parent name generation s ≡ out
  unfolding directory_unlink_entry
  unlink_runs entry out e r = ground (arith, e, r)

  -- A name that a lookup does not find is refused with NotFound, and the cache, the next free block
  -- and the freed blocks stay as they were.
  pub directory_unlink_entry-absent :
      directory_lookup_entry device s.dirty_cache root parent name ≡ ok none
      → directory_unlink_entry device root parent name generation s ≡ (err not_found, s)
  unfolding directory_unlink_entry
  directory_unlink_entry-absent e = ground (arith, e)

-- What every lookup and every read of an inode gives after a run that replaced what is stored at one
-- place; `there` is what a lookup of a name finds at that place now.
pub record EntryChange (device : Reader) (run : Exec TreeState ℕ) (depth root : ℕ) (m m' : Items)
    (parent : ℕ) (name : Bytes) (there : Bytes → Result (Option BafsDirEntry)) (s : TreeState)
    : Type 0 where
  pub tree : Restored device run (2 * (depth + 1) + 1) root_rank depth root m m' s
  pub lookups :
      (parent' : ℕ) (name' : Bytes)
      → 0 < parent'
      → parent' < 2 ^ 64
      → directory_lookup_entry device tree.state.dirty_cache tree.new_root parent' name' ≡ (
          if same_key parent name parent' name'
          then there name'
          else directory_lookup_entry device s.dirty_cache root parent' name')
  pub inodes :
      (number : ℕ)
      → 0 < number
      → number < 2 ^ 64
      → read_inode_from_tree device tree.state.dirty_cache tree.new_root number
        ≡ read_inode_from_tree device s.dirty_cache root number

key_apart :
    (parent : ℕ) (name : Bytes) (number : ℕ)
    → (rank (make_directory_entry_key parent name) == rank (inode_key number)) ≡ false
unfolding make_directory_entry_key rank
key_apart parent name number = ground (arith, xxhash64_with_seed_zero-lt name)

pub inode_least : (number : ℕ) → 0 < number → root_rank ≤ rank (inode_key number)
unfolding rank
inode_least number h = omega arith

module _ (device : Reader) (s : TreeState) (depth root : ℕ) (m : Items)
    (h : IsInodeStore device s depth root m) (parent : ℕ) (name : Bytes) (p : 0 < parent)
    (fits : parent < 2 ^ 64) (generation : ℕ) (g : generation < 2 ^ 64) (d : depth < 255)
    (free : s.next_free_block + (2 * (depth + 1) + 1) < 2 ^ 64) where
  entry_change :
      (run : Exec TreeState ℕ) (m' : Items) (stored : Option Bytes)
      (there : Bytes → Result (Option BafsDirEntry))
      → Restored device run (2 * (depth + 1) + 1) root_rank depth root m m' s
      → ((r : ℕ)
          → find r m'
            ≡ (if rank (make_directory_entry_key parent name) == r then stored else find r m))
      → ((name' : Bytes) → named name' stored ≡ there name')
      → EntryChange device run depth root m m' parent name there s
  entry_change run m' stored there c finds found = record {
    tree = c;
    lookups = λ parent' name' p' f'.
        let after =
          directory_lookup_entry_lem device c.state c.height c.new_root m' parent' name' c.store p'
            f' (omega (arith, c.height_le)) in
        let before =
          directory_lookup_entry_lem device s depth root m parent' name' h p' f' (omega arith) in
        let here = finds (rank (make_directory_entry_key parent' name')) in
        let one = found name' in
        after
        ∙ ap (named name') here
        ∙ choose (same_key parent name parent' name') name' _ one before;
    inodes = λ number p' f'.
        let k = inode_key-IsKey number f' in
        let least : root_rank ≤ rank (inode_key number) = inode_least number p' in
        let after =
          store-lookup device c.state root_rank c.height c.new_root m' c.store (inode_key number) k
            least (omega (arith, c.height_le)) in
        let before =
          store-lookup device s root_rank depth root m h (inode_key number) k least (omega arith) in
        let same = finds (rank (inode_key number)) in
        let apart = key_apart parent name number in
        reads_value device c.state c.new_root number _ after
        ∙ ap inode_of_value (unchanged number m' stored same apart)
        ∙ sym (reads_value device s root number _ before);
  }
    where
      choose :
          (b : Bool) (name' : Bytes) (value : Option Bytes) {old : Result (Option BafsDirEntry)}
          → named name' stored ≡ there name'
          → old ≡ named name' value
          → named name' (if b then stored else value) ≡ (if b then there name' else old)
      choose true name' value one before = one
      choose false name' value one before = sym before

      unchanged :
          (number : ℕ) (m' : Items) (stored : Option Bytes)
          → find (rank (inode_key number)) m' ≡ (
              if rank (make_directory_entry_key parent name) == rank (inode_key number)
              then stored
              else find (rank (inode_key number)) m)
          → (rank (make_directory_entry_key parent name) == rank (inode_key number)) ≡ false
          → find (rank (inode_key number)) m' ≡ find (rank (inode_key number)) m
      unchanged number m' stored same apart = ground (arith, same, apart)

  -- Creating an entry of a `str` of 1 to 255 bytes that a lookup does not find, for a 64-bit inode
  -- number and a type of one byte, under a directory with a number from 1 on of 64 bits in a sound
  -- inode tree of fewer than 255 levels below its root that has the root inode, with block numbers
  -- left and a 64-bit generation, succeeds; under the new root the name reads as the entry, any
  -- other name with its hash in that directory as missing, every other name and every inode from 1
  -- on as before, and the old tree is still what it was.
  pub directory_create_entry_lem :
      (number kind : ℕ)
      → IsName name
      → number < 2 ^ 64
      → kind < 256
      → directory_lookup_entry device s.dirty_cache root parent name ≡ ok none
      → EntryChange device
          (directory_create_entry device root parent name number kind generation)
          depth
          root
          m
          (put
            (record {
              key = make_directory_entry_key parent name;
              value = serialise_dir_entry_to_bytes (new_entry name number kind);
            })
            m)
          parent
          name
          (λ name'.
            if same_bytes name name' then ok (some (new_entry name number kind)) else ok none)
          s
  unfolding named
  directory_create_entry_lem number kind n nf kf missing =
      let key = make_directory_entry_key parent name in
      let e = new_entry name number kind in
      let value = serialise_dir_entry_to_bytes e in
      let valid = new_entry-IsDirEntry name number kind n nf kf in
      let c =
        store-insert device s root_rank depth root m h key
          (make_directory_entry_key-IsKey parent name fits) value generation
          (omega (arith, root_rank-lt parent name p))
          (omega (arith, length-serialise_dir_entry e, n.not_long)) g d free in
      entry_change _ _ (some value) _
        (record {
          state = c.state;
          new_root = c.new_root;
          height = c.height;
          runs = create_runs device s root parent name generation number kind _ n missing c.runs;
          store = c.store;
          snapshot = c.snapshot;
          extends = c.extends;
          spent = c.spent;
          height_le = c.height_le;
        })
        (λ r.
          find-put (record { key = key; value = value }) r root_rank rank_limit m
            (IsStore-Within device s root_rank depth root m h))
        (λ name'. reads name' (dir_entry-RoundTrip e valid))
    where
      reads :
          (name' : Bytes)
          → deserialise_dir_entry_from_bytes
              (serialise_dir_entry_to_bytes (new_entry name number kind))
            ≡ ok (new_entry name number kind)
          → named name' (some (serialise_dir_entry_to_bytes (new_entry name number kind)))
            ≡ (if same_bytes name name' then ok (some (new_entry name number kind)) else ok none)
      reads name' e = ground (arith, e)

  -- Unlinking a name that a lookup finds, under a directory with a number from 1 on of 64 bits in
  -- a sound inode tree of fewer than 255 levels below its root that has the root inode, with block
  -- numbers left and a 64-bit generation, succeeds; under the new root no name with its hash is
  -- found in that directory, every other name and every inode from 1 on reads as before, and the
  -- old tree is still what it was.
  pub directory_unlink_entry_lem :
      (entry : BafsDirEntry)
      → directory_lookup_entry device s.dirty_cache root parent name ≡ ok (some entry)
      → EntryChange device
          (directory_unlink_entry device root parent name generation)
          depth
          root
          m
          (remove (rank (make_directory_entry_key parent name)) m)
          parent
          name
          (λ name'. ok none)
          s
  unfolding named
  directory_unlink_entry_lem entry found =
      let key = make_directory_entry_key parent name in
      let lookup =
        directory_lookup_entry_lem device s depth root m parent name h p fits (omega arith) in
      let (value, stored) = is_stored (find (rank key) m) (sym lookup ∙ found) in
      let c =
        store-delete device s root_rank depth root m h key
          (make_directory_entry_key-IsKey parent name fits) generation (root_rank-lt parent name p)
          g d (omega arith) stored in
      entry_change _ _ none _
        (record {
          state = c.state;
          new_root = c.new_root;
          height = c.height;
          runs = unlink_runs device s root parent name generation entry _ found c.runs;
          store = c.store;
          snapshot = c.snapshot;
          extends = c.extends;
          spent = omega (arith, c.spent);
          height_le = c.height_le;
        })
        (λ r.
          find-remove (rank key) r root_rank rank_limit m
            (IsStore-Within device s root_rank depth root m h))
        (λ name'. refl)
    where
      is_stored :
          (o : Option Bytes) → named name o ≡ ok (some entry) → (value : Bytes) × (o ≡ some value)
      is_stored none e = cc
      is_stored (some value) e = (value, refl)
