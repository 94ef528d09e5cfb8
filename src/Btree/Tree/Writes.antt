-- ===== src/Btree/Tree/Writes.antt =====
-- Writing a node to the next free block, and reading through the cache afterwards.
use bazzulto_bafs.Base.{
  ℕ, ◌+◌, ◌%◌, ◌^◌, ◌<◌, ◌≡◌, refl, ◌∙◌, ◌==◌, ◌++◌, ◌∷◌, [], some, drop, true, false, arith,
}
use bazzulto_bafs.Base.BTreeMap
use bazzulto_bafs.Base.BTreeMap.{get-insert}
use bazzulto_bafs.Bytes.{Bytes}
use bazzulto_bafs.Checksum.{compute_crc32c}
use bazzulto_bafs.Device.{Reader}
use bazzulto_bafs.Error.{ok}
use bazzulto_bafs.Btree.Node.{BafsTreeNode}
use bazzulto_bafs.Btree.Codec.{deserialise_node_from_block}
use bazzulto_bafs.Btree.Codec.RoundTrip.{RoundTrip}
use bazzulto_bafs.Btree.Cache.{
  TreeState, DirtyCache, read_block, read_tree_node, write_block_to_cache, write_tree_node_to_cache,
  take_next_free_block, push_freed,
}
use bazzulto_bafs.Btree.Insert.{write_clone}
use bazzulto_bafs.Btree.Tree.{view, Extends}

abbrev pub cached : BafsTreeNode → Bytes → TreeState → TreeState
cached node block s = record s {
  dirty_cache = BTreeMap.insert node.self_block_address block s.dirty_cache;
}

pub write_tree_node_to_cache_lem :
    (node : BafsTreeNode) (s : TreeState) (r : RoundTrip node)
    → write_tree_node_to_cache node s ≡ (ok tt, cached node r.block s)
unfolding write_tree_node_to_cache write_block_to_cache
write_tree_node_to_cache_lem node s r = rw r.written refl

abbrev pub sealed : BafsTreeNode → Bytes → BafsTreeNode
sealed node block = record node { node_checksum = compute_crc32c (drop 4 block) }

module _ (device : Reader) (cache : DirtyCache) (node : BafsTreeNode) (r : RoundTrip node) where
  read_cases :
      (c : DirtyCache) (b : ℕ) (block : Bytes)
      → BTreeMap.get c b ≡ some block
      → read_tree_node device c b ≡ deserialise_node_from_block block b
  unfolding read_tree_node read_block
  read_cases c b block e = ground (arith, e)

  read_same :
      (c d : DirtyCache) (b : ℕ)
      → BTreeMap.get c b ≡ BTreeMap.get d b
      → read_tree_node device c b ≡ read_tree_node device d b
  unfolding read_tree_node read_block
  read_same c d b e = ground (arith, e)

  pub read_written :
      (b : ℕ)
      → b ≡ node.self_block_address
      → read_tree_node device (BTreeMap.insert node.self_block_address r.block cache) b
        ≡ ok (sealed node r.block)
  read_written b e =
      let hit : (node.self_block_address == b) ≡ true = ground arith in
      read_cases _ b r.block (rw (get-insert node.self_block_address b r.block cache, hit) refl)
      ∙ r.read b

  pub read_other :
      (b : ℕ)
      → (node.self_block_address == b) ≡ false
      → read_tree_node device (BTreeMap.insert node.self_block_address r.block cache) b
        ≡ read_tree_node device cache b
  read_other b e =
      read_same _ cache b (rw (get-insert node.self_block_address b r.block cache, e) refl)

abbrev pub moved : BafsTreeNode → ℕ → ℕ → BafsTreeNode
moved node block generation = record node { self_block_address = block; generation = generation }

pub record Cloned (device : Reader) (node : BafsTreeNode) (generation old : ℕ) (s : TreeState)
    : Type 0 where
  pub state : TreeState
  pub checksum : ℕ
  pub runs : write_clone node generation old s ≡ (ok s.next_free_block, state)
  pub next : state.next_free_block ≡ s.next_free_block + 1
  pub reads :
      view device state s.next_free_block
      ≡ ok (record (moved node s.next_free_block generation) { node_checksum = checksum })
  pub extends :
      Extends (view device s) s.next_free_block (view device state) (s.next_free_block + 1)
  pub freed : state.freed_blocks ≡ s.freed_blocks ++ (old ∷ [])

pub write_clone_lem :
    (device : Reader) (node : BafsTreeNode) (generation old : ℕ) (s : TreeState)
    → RoundTrip (moved node s.next_free_block generation)
    → s.next_free_block + 1 < 2 ^ 64
    → Cloned device node generation old s
unfolding write_clone take_next_free_block push_freed
write_clone_lem device node generation old s r h =
    let new = moved node s.next_free_block generation in
    let s1 : TreeState = record s {
      freed_blocks = s.freed_blocks ++ (old ∷ []);
      next_free_block = (s.next_free_block + 1) % 2 ^ 64;
    } in
    record {
      state = cached new r.block s1;
      checksum = compute_crc32c (drop 4 r.block);
      runs = rw (write_tree_node_to_cache_lem new s1 r) refl;
      next = omega arith;
      reads = read_written device s.dirty_cache new r s.next_free_block refl;
      extends = record {
        grows = omega arith;
        agrees = λ b l. read_other device s.dirty_cache new r b (ground arith);
      };
      freed = refl;
    }
