-- ===== src/Btree/Delete/Root.antt =====
-- `delete_from_tree` and `create_empty_tree` on the map that the tree holds.
use bazzulto_bafs.Base.{
  ℕ, zero, ◌+◌, ◌^◌, ◌≤◌, ◌<◌, ◌≡◌, refl, drop, ◌==◌, true, false, none, some, [], arith,
}
use bazzulto_bafs.Bytes.{Bytes}
use bazzulto_bafs.Checksum.{compute_crc32c}
use bazzulto_bafs.Device.{Reader}
use bazzulto_bafs.Error.{ok, err, not_found}
use bazzulto_bafs.Btree.Key.{BafsKey, IsKey, rank, rank_limit, rank-lt}
use bazzulto_bafs.Btree.Node.{BafsTreeNode, leaf_serialised_size, total_value_bytes}
use bazzulto_bafs.Btree.Codec.RoundTrip.{IsLeafNode, leaf-RoundTrip}
use bazzulto_bafs.Btree.Cache.{TreeState}
use bazzulto_bafs.Btree.Map.{Items, find, remove}
use bazzulto_bafs.Btree.Lookup.{max_depth}
use bazzulto_bafs.Btree.Tree.{view, IsTree}
use bazzulto_bafs.Btree.Tree.Writes.{cached, write_tree_node_to_cache_lem, read_written, read_other}
use bazzulto_bafs.Btree.Tree.Clone.{IsLeafNode-rewritten}
use bazzulto_bafs.Btree.Insert.Root.{Planted, Rooted}
use bazzulto_bafs.Btree.Delete.{delete_recursive, delete_from_tree, create_empty_tree}
use bazzulto_bafs.Btree.Delete.Step.{delete_lem}
use bazzulto_bafs.Btree.Delete.Absent.{absent_lem}

module _ (device : Reader) (root : ℕ) (k : BafsKey) (generation : ℕ) (s : TreeState) where
  runs-found :
      (new_root : ℕ) (s' : TreeState)
      → delete_recursive max_depth device root k generation s ≡ (ok (new_root, true), s')
      → delete_from_tree device root k generation s ≡ (ok new_root, s')
  unfolding delete_from_tree
  runs-found new_root s' e = ground (arith, e)

  runs-absent :
      delete_recursive max_depth device root k generation s ≡ (err not_found, s)
      → delete_from_tree device root k generation s ≡ (err not_found, s)
  unfolding delete_from_tree
  runs-absent e = ground (arith, e)

  -- For a tree whose ranks start at `lo`.
  pub delete_above :
      (lo depth : ℕ) (m : Items) {value : Bytes}
      → IsTree (view device s) s.next_free_block depth root lo rank_limit m
      → lo ≤ rank k
      → IsKey k
      → generation < 2 ^ 64
      → depth < 256
      → s.next_free_block + (depth + 1) < 2 ^ 64
      → find (rank k) m ≡ some value
      → Planted lo device
          (delete_from_tree device root k generation)
          (depth + 1)
          depth
          (remove (rank k) m)
          s
  delete_above lo depth m t least kf g d free f =
      let c =
        delete_lem device k kf generation g max_depth depth root lo rank_limit m s t least
          (rank-lt k kf) d f free in
      record {
        state = c.state;
        root = c.new_block;
        height = depth;
        runs = runs-found c.new_block c.state c.runs;
        tree = c.tree;
        extends = c.extends;
        spent = omega (arith, c.spent);
        height_le = omega arith;
      }

  -- Deleting a key that a sound tree of fewer than 256 levels below its root holds, with block
  -- numbers left and a key and a generation of their widths, returns the root of a sound tree that
  -- holds the map without the key; it takes at most one new block for each level, and no block
  -- that was allocated before changes.
  pub delete_from_tree_lem :
      (depth : ℕ) (m : Items) {value : Bytes}
      → IsTree (view device s) s.next_free_block depth root 0 rank_limit m
      → IsKey k
      → generation < 2 ^ 64
      → depth < 256
      → s.next_free_block + (depth + 1) < 2 ^ 64
      → find (rank k) m ≡ some value
      → Rooted device
          (delete_from_tree device root k generation)
          (depth + 1)
          depth
          (remove (rank k) m)
          s
  delete_from_tree_lem depth m t kf g d free f =
      delete_above 0 depth m t (omega arith) kf g d free f

  -- Deleting a key of its width that a sound tree of fewer than 256 levels below its root does not
  -- hold is the error NotFound, and the cache, the next free block and the freed blocks stay as
  -- they were.
  pub delete_from_tree-absent :
      (depth : ℕ) (m : Items)
      → IsTree (view device s) s.next_free_block depth root 0 rank_limit m
      → IsKey k
      → depth < 256
      → find (rank k) m ≡ none
      → delete_from_tree device root k generation s ≡ (err not_found, s)
  delete_from_tree-absent depth m t kf d f = runs-absent (
      absent_lem device k kf generation s.next_free_block s max_depth depth root 0 rank_limit m t
        (omega arith) (rank-lt k kf) d f)

abbrev empty_node : ℕ → ℕ → BafsTreeNode
empty_node block generation = record {
  node_checksum = 0;
  level = 0;
  flags = 0;
  item_count = 0;
  self_block_address = block;
  generation = generation;
  leaf_items = [];
  internal_items = [];
}

-- A tree that was created at an allocated block.
pub record Created (device : Reader) (block generation : ℕ) (s : TreeState) : Type 0 where
  pub state : TreeState
  pub runs : create_empty_tree block generation s ≡ (ok tt, state)
  pub next : state.next_free_block ≡ s.next_free_block
  pub tree : IsTree (view device state) state.next_free_block zero block 0 rank_limit []
  pub tree_above :
      (lo : ℕ)
      → lo ≤ rank_limit
      → IsTree (view device state) state.next_free_block zero block lo rank_limit []
  pub elsewhere : (b : ℕ) → (block == b) ≡ false → view device state b ≡ view device s b

-- Creating a tree at an allocated 64-bit block with a 64-bit generation succeeds without taking
-- another block, and leaves there a sound tree that holds the empty map.
pub create_empty_tree_lem :
    (device : Reader) (block generation : ℕ) (s : TreeState)
    → block < s.next_free_block
    → block < 2 ^ 64
    → generation < 2 ^ 64
    → Created device block generation s
unfolding create_empty_tree leaf_serialised_size total_value_bytes
create_empty_tree_lem device block generation s a b g =
    let node = empty_node block generation in
    let shape : IsLeafNode node = record {
      header = record {
        level_fits = omega arith;
        flags_fit = omega arith;
        address_fits = b;
        generation_fits = g;
      };
      is_leaf = refl;
      keys_fit = tt;
      counted = refl;
      no_children = refl;
      fits = omega arith;
    } in
    let r = leaf-RoundTrip node shape in
    let c = compute_crc32c (drop 4 r.block) in
    record {
      state = cached node r.block s;
      runs = write_tree_node_to_cache_lem node s r;
      next = refl;
      tree = record {
        node = record node { node_checksum = c };
        allocated = a;
        reads = read_written device s.dirty_cache node r block refl;
        shape = IsLeafNode-rewritten node block generation c b g shape;
        holds = refl;
        small = tt;
        sorted = omega arith;
      };
      tree_above = λ lo h. record {
        node = record node { node_checksum = c };
        allocated = a;
        reads = read_written device s.dirty_cache node r block refl;
        shape = IsLeafNode-rewritten node block generation c b g shape;
        holds = refl;
        small = tt;
        sorted = h;
      };
      elsewhere = λ other apart. read_other device s.dirty_cache node r other apart;
    }
