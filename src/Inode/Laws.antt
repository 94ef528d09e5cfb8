-- ===== src/Inode/Laws.antt =====
-- The bytes of an inode of src/inode.rs, and reads of the inode tree after a write.
use bazzulto_bafs.Base.{
  ℕ, ◌+◌, ◌*◌, ◌^◌, ◌<◌, ◌≡◌, refl, sym, ◌∙◌, ◌==◌, true, false, Option, some, [], ◌++◌, ltb,
  length, length-append, if◌then◌else◌, arith,
}
use mathlib.Core.Path.{subst}
use mathlib.Core.List.{append-nil}
use bazzulto_bafs.Bytes.{Bytes, slice}
use bazzulto_bafs.Bytes.Layout.{encode, FitWidths, encode-HasFields, slice-append, length-encode}
use bazzulto_bafs.Device.{Reader}
use bazzulto_bafs.Error.{ok}
use bazzulto_bafs.Btree.Key.{IsKey, rank, rank_limit, rank-lt}
use bazzulto_bafs.Btree.Cache.{TreeState}
use bazzulto_bafs.Btree.Map.{Items, find}
use bazzulto_bafs.Btree.Tree.{view, IsTree}
use bazzulto_bafs.Btree.Lookup.{lookup_in_tree}
use bazzulto_bafs.Btree.Lookup.Refines.{lookup_in_tree_lem}
use bazzulto_bafs.Btree.Refinement.{lookup-insert}
use bazzulto_bafs.Inode.{
  BafsInode, new_regular_file, new_directory, is_regular_file, is_directory, inode_fields,
  serialise_inode_to_bytes, deserialise_inode_from_bytes, inode_key, inode_of_value,
  read_inode_from_tree, write_inode_to_tree,
}

-- The fields fit their places in the struct.
pub record IsInode (i : BafsInode) : Type 0 where
  pub fields_fit : FitWidths (inode_fields i)
  pub reserved_size : length i.reserved ≡ 32

module _ (i : BafsInode) (h : IsInode i) where
  pub length-serialise : length (serialise_inode_to_bytes i) ≡ 128
  unfolding serialise_inode_to_bytes
  length-serialise = omega (
    arith,
    length-append (encode (inode_fields i)) i.reserved,
    length-encode (inode_fields i),
    h.reserved_size,
  )

  reserved_read : slice 96 32 (serialise_inode_to_bytes i) ≡ i.reserved
  unfolding serialise_inode_to_bytes
  reserved_read =
      let front = encode (inode_fields i) in
      subst (λ bs. slice 96 32 (front ++ bs) ≡ i.reserved) (append-nil i.reserved)
        (subst (λ p. slice p 32 (front ++ (i.reserved ++ [])) ≡ i.reserved)
          (length-encode (inode_fields i))
          (subst (λ n. slice (length front) n (front ++ (i.reserved ++ [])) ≡ i.reserved)
            h.reserved_size (slice-append front i.reserved [])))

  -- An inode whose fields fit their places is read back from its bytes.
  pub inode-RoundTrip : deserialise_inode_from_bytes (serialise_inode_to_bytes i) ≡ i
  unfolding deserialise_inode_from_bytes serialise_inode_to_bytes
  inode-RoundTrip =
      let (
        r1,
        (r2, (r3, (r4, (r5, (r6, (r7, (r8, (r9, (r10, (r11, (r12, (r13, (r14, (r15, _)))))))))))))),
      ) =
        encode-HasFields (inode_fields i) [] i.reserved 0 h.fields_fit refl in
      rw (reserved_read, r1, r2, r3, r4, r5, r6, r7, r8, r9, r10, r11, r12, r13, r14, r15) refl

  pub stored_value : inode_of_value (some (serialise_inode_to_bytes i)) ≡ ok i
  unfolding inode_of_value
  stored_value =
      let long : ltb (length (serialise_inode_to_bytes i)) 128 ≡ false =
        ground (arith, length-serialise) in
      rw (long, inode-RoundTrip) refl

-- A new regular file is a regular file and no directory, and a new directory is a directory and no
-- regular file.
pub new_inode_types :
    (number generation time : ℕ)
    → (is_regular_file (new_regular_file number generation time) ≡ true)
      × (is_directory (new_regular_file number generation time) ≡ false)
      × (is_directory (new_directory number generation time) ≡ true)
      × (is_regular_file (new_directory number generation time) ≡ false)
unfolding is_regular_file is_directory new_regular_file new_directory
new_inode_types number generation time = (refl, refl, refl, refl)

pub reads_value :
    (device : Reader) (s : TreeState) (root number : ℕ) (found : Option Bytes)
    → lookup_in_tree device s.dirty_cache root (inode_key number) ≡ ok found
    → read_inode_from_tree device s.dirty_cache root number ≡ inode_of_value found
unfolding read_inode_from_tree
reads_value device s root number found e = rw e refl

pub inode_key-IsKey : (number : ℕ) → number < 2 ^ 64 → IsKey (inode_key number)
inode_key-IsKey number h = record {
  object_fits = h;
  type_fits = omega arith;
  offset_fits = omega arith;
}

rank-inode_key : (a b : ℕ) → (rank (inode_key a) == rank (inode_key b)) ≡ (a == b)
unfolding rank
rank-inode_key a b = ground arith

-- The inodes under the new root, after one was written.
pub record Updated (device : Reader) (root : ℕ) (inode : BafsInode) (generation : ℕ) (s : TreeState)
    : Type 0 where
  pub state : TreeState
  pub new_root : ℕ
  pub runs : write_inode_to_tree device root inode generation s ≡ (ok new_root, state)
  pub reads :
      (number : ℕ)
      → number < 2 ^ 64
      → read_inode_from_tree device state.dirty_cache new_root number ≡ (
          if inode.inode_number == number
          then ok inode
          else read_inode_from_tree device s.dirty_cache root number)
  pub snapshot :
      (number : ℕ)
      → number < 2 ^ 64
      → read_inode_from_tree device state.dirty_cache root number
        ≡ read_inode_from_tree device s.dirty_cache root number

module _ (device : Reader) (root depth : ℕ) (m : Items) (s : TreeState)
    (t : IsTree (view device s) s.next_free_block depth root 0 rank_limit m) where
  -- Writing an inode whose fields fit, under a 64-bit generation, to a sound tree of fewer than
  -- 255 levels below its root, with block numbers left, succeeds; under the new root its number
  -- reads as the inode and every other number reads as under the old root, where all inodes still
  -- read as before.
  pub write_inode_to_tree_lem :
      (inode : BafsInode) (generation : ℕ)
      → IsInode inode
      → inode.inode_number < 2 ^ 64
      → generation < 2 ^ 64
      → depth < 255
      → s.next_free_block + (2 * (depth + 1) + 1) < 2 ^ 64
      → Updated device root inode generation s
  unfolding write_inode_to_tree
  write_inode_to_tree_lem inode generation h n g d free =
      let value = serialise_inode_to_bytes inode in
      let c =
        lookup-insert device root depth m s t (inode_key inode.inode_number) value generation
          (inode_key-IsKey inode.inode_number n) (omega (arith, length-serialise inode h)) g d
          free in
      record {
        state = c.state;
        new_root = c.new_root;
        runs = c.runs;
        reads = λ number b.
            let k = inode_key-IsKey number b in
            let before =
              lookup_in_tree_lem device s s.next_free_block (inode_key number) k depth root 0
                rank_limit m t (omega arith) (rank-lt (inode_key number) k) (omega arith) in
            reads_value device c.state c.new_root number _ (c.new_reads (inode_key number) k)
            ∙ choose inode h number (rank-inode_key inode.inode_number number) before;
        snapshot = λ number b.
            let k = inode_key-IsKey number b in
            let before =
              lookup_in_tree_lem device s s.next_free_block (inode_key number) k depth root 0
                rank_limit m t (omega arith) (rank-lt (inode_key number) k) (omega arith) in
            reads_value device c.state root number _ (c.old_reads (inode_key number) k ∙ before)
            ∙ sym (reads_value device s root number _ before);
      }
    where
      choose :
          (inode : BafsInode) (h : IsInode inode) (number : ℕ)
          → (rank (inode_key inode.inode_number) == rank (inode_key number))
            ≡ (inode.inode_number == number)
          → lookup_in_tree device s.dirty_cache root (inode_key number)
            ≡ ok (find (rank (inode_key number)) m)
          → inode_of_value (
              if rank (inode_key inode.inode_number) == rank (inode_key number)
              then some (serialise_inode_to_bytes inode)
              else find (rank (inode_key number)) m)
            ≡ (if inode.inode_number == number
                then ok inode
                else read_inode_from_tree device s.dirty_cache root number)
      choose inode h number e before =
          ground (arith, stored_value inode h, reads_value device s root number _ before)
