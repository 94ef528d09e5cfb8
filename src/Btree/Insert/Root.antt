-- ===== src/Btree/Insert/Root.antt =====
-- `insert_into_tree` on a sound tree, with the new root over a split.
use bazzulto_bafs.Base.{
  inl, ℕ, suc, ◌+◌, ◌*◌, ◌%◌, ◌^◌, ◌≤◌, ◌<◌, ◌≡◌, refl, ◌∙◌, ◌++◌, ◌∷◌, [], length, drop, Option,
  none, some, arith,
}
use bazzulto_bafs.Bytes.{Bytes}
use bazzulto_bafs.Device.{Reader}
use bazzulto_bafs.Checksum.{compute_crc32c}
use bazzulto_bafs.Error.{ok}
use bazzulto_bafs.Exec.{Exec}
use bazzulto_bafs.Btree.Key.{BafsKey, IsKey, rank, rank_limit, rank-lt}
use bazzulto_bafs.Btree.Node.{BafsTreeNode}
use bazzulto_bafs.Btree.Codec.RoundTrip.{IsInternalNode, internal-RoundTrip}
use bazzulto_bafs.Btree.Cache.{TreeState, take_next_free_block, push_freed}
use bazzulto_bafs.Btree.Map.{Items, put}
use bazzulto_bafs.Btree.Lookup.{max_depth}
use bazzulto_bafs.Btree.Tree.{
  view, IsTree, IsTree-allocated, Extends, Extends-trans, IsTree-Extends,
}
use bazzulto_bafs.Btree.Tree.Writes.{cached, write_tree_node_to_cache_lem, read_written, read_other}
use bazzulto_bafs.Btree.Tree.Clone.{IsInternalNode-rewritten}
use bazzulto_bafs.Btree.Insert.{SplitResult, insert_recursive, insert_into_tree, grow_root}
use bazzulto_bafs.Btree.Insert.Outcome.{IsFloor, Halves, Outcome}
use bazzulto_bafs.Btree.Insert.Step.{insert_lem}

-- The tree at a new root that holds the map `m`, with keys of ranks from `lo` on.
pub record Planted (lo : ℕ) (device : Reader) (run : Exec TreeState ℕ) (cost depth : ℕ) (m : Items)
    (s : TreeState) : Type 0 where
  pub state : TreeState
  pub root : ℕ
  pub height : ℕ
  pub runs : run s ≡ (ok root, state)
  pub tree : IsTree (view device state) state.next_free_block height root lo rank_limit m
  pub extends : Extends (view device s) s.next_free_block (view device state) state.next_free_block
  pub spent : state.next_free_block ≤ s.next_free_block + cost
  pub height_le : height ≤ depth + 1

abbrev pub Rooted : Reader → Exec TreeState ℕ → ℕ → ℕ → Items → TreeState → Type 0
Rooted = Planted 0

abbrev root_node : ℕ → ℕ → ℕ → ℕ → BafsKey → SplitResult → BafsTreeNode
root_node level block generation left_block key up = record {
  node_checksum = 0;
  level = (level + 1) % 256;
  flags = 0;
  item_count = 2;
  self_block_address = block;
  generation = generation;
  leaf_items = [];
  internal_items =
      record { key = key; child_block = left_block; child_generation = generation }
      ∷ record { key = up.key; child_block = up.child_block; child_generation = generation }
      ∷ [];
}

module _ (device : Reader) (lo depth old left_block generation : ℕ) (m : Items) (up : SplitResult)
    (s : TreeState) (g : generation < 2 ^ 64) (d : depth + 1 < 256)
    (free : s.next_free_block + 1 < 2 ^ 64)
    (h : Halves (view device s) s.next_free_block depth lo rank_limit m left_block up)
    (floor : IsFloor lo m) where
  abbrev node : BafsTreeNode
  node = root_node h.head.node.level s.next_free_block generation left_block h.head.key up

  abbrev s1 : TreeState
  s1 = record s {
    freed_blocks = s.freed_blocks ++ (old ∷ []);
    next_free_block = (s.next_free_block + 1) % 2 ^ 64;
  }

  root_shape : IsInternalNode node
  root_shape =
      let l = h.head.level_is in
      let fits1 : left_block < 2 ^ 64 = omega (
        arith,
        IsTree-allocated (view device s) s.next_free_block depth left_block lo (rank up.key) h.left
            h.left_tree,
      ) in
      let fits2 : up.child_block < 2 ^ 64 = omega (
        arith,
        IsTree-allocated (view device s) s.next_free_block depth up.child_block (rank up.key)
            rank_limit h.right h.right_tree,
      ) in
      record {
        header = record {
          level_fits = omega arith;
          flags_fit = omega arith;
          address_fits = omega arith;
          generation_fits = g;
        };
        is_internal = omega arith;
        items_fit = (
          record { key_fits = h.head.key_fits; child_fits = fits1; generation_fits = g },
          (record { key_fits = h.key_fits; child_fits = fits2; generation_fits = g }, tt),
        );
        counted = refl;
        no_values = refl;
        fits = omega arith;
      }

  grow_root_runs :
      grow_root device old left_block generation up s
      ≡ (ok s.next_free_block, cached node (internal-RoundTrip node root_shape).block s1)
  unfolding grow_root take_next_free_block push_freed
  grow_root_runs =
      let r = internal-RoundTrip node root_shape in
      let e = h.head.reads in
      let k = h.head.first in ground (arith, e, k, write_tree_node_to_cache_lem node s1 r)

  pub grow_root_lem : Planted lo device (grow_root device old left_block generation up) 1 depth m s
  grow_root_lem =
      let r = internal-RoundTrip node root_shape in
      let s2 = cached node r.block s1 in
      let v = view device s in
      let w = view device s2 in
      let e : Extends v s.next_free_block w s2.next_free_block = record {
        grows = omega arith;
        agrees = λ b l. read_other device s.dirty_cache node r b (ground arith);
      } in
      let stays = IsTree-Extends v s.next_free_block w s2.next_free_block depth e in
      let c = compute_crc32c (drop 4 r.block) in
      let l = h.head.level_is in
      record {
        state = s2;
        root = s.next_free_block;
        height = suc depth;
        runs = grow_root_runs;
        tree = record {
          node = record node { node_checksum = c };
          allocated = omega arith;
          reads = read_written device s.dirty_cache node r s.next_free_block refl;
          shape =
              IsInternalNode-rewritten node s.next_free_block generation c (omega arith) g
                root_shape;
          level_is = omega arith;
          room = omega arith;
          anchored = h.head.grounded (inl floor);
          children = (
            h.left,
            h.right,
            h.whole,
            h.above,
            stays left_block lo (rank up.key) h.left h.left_tree,
            stays up.child_block (rank up.key) rank_limit h.right h.right_tree,
          );
        };
        extends = e;
        spent = omega arith;
        height_le = omega arith;
      }

module _ (device : Reader) (root : ℕ) (key : BafsKey) (value : Bytes) (generation : ℕ)
    (s : TreeState) where
  runs-none :
      (new_root : ℕ) (s' : TreeState)
      → insert_recursive max_depth device root key value generation s ≡ (ok (new_root, none), s')
      → insert_into_tree device root key value generation s ≡ (ok new_root, s')
  unfolding insert_into_tree
  runs-none new_root s' e = ground (arith, e)

  runs-some :
      (new_root : ℕ) (up : SplitResult) (s' : TreeState)
      → insert_recursive max_depth device root key value generation s ≡ (ok (new_root, some up), s')
      → insert_into_tree device root key value generation s
        ≡ grow_root device root new_root generation up s'
  unfolding insert_into_tree
  runs-some new_root up s' e = ground (arith, e)

  module _ (lo depth : ℕ) (m : Items)
      (t : IsTree (view device s) s.next_free_block depth root lo rank_limit m) (kf : IsKey key)
      (least : lo ≤ rank key) (v : length value ≤ 267) (g : generation < 2 ^ 64)
      (d : depth + 1 < 256) (free : s.next_free_block + (2 * (depth + 1) + 1) < 2 ^ 64)
      (floor : IsFloor lo (put (record { key = key; value = value }) m)) where
    abbrev PlantedPut : Type 0
    PlantedPut =
        Planted lo device (insert_into_tree device root key value generation) (2 * (depth + 1) + 1)
          depth (put (record { key = key; value = value }) m) s

    planted :
        (result : ℕ × Option SplitResult) (s' : TreeState)
        → insert_recursive max_depth device root key value generation s ≡ (ok result, s')
        → Outcome
            (view device s')
            s'.next_free_block
            depth
            lo
            rank_limit
            (put (record { key = key; value = value }) m)
            result
        → Extends (view device s) s.next_free_block (view device s') s'.next_free_block
        → s'.next_free_block ≤ s.next_free_block + 2 * (depth + 1)
        → PlantedPut
    planted (new_root, none) s' e t' x spent = record {
      state = s';
      root = new_root;
      height = depth;
      runs = runs-none new_root s' e;
      tree = t';
      extends = x;
      spent = omega arith;
      height_le = omega arith;
    }
    planted (new_root, some up) s' e h x spent =
        let o =
          grow_root_lem device lo depth root new_root generation _ up s' g d (omega arith) h
            floor in
        record {
          state = o.state;
          root = o.root;
          height = o.height;
          runs = runs-some new_root up s' e ∙ o.runs;
          tree = o.tree;
          extends =
              Extends-trans {u = view device o.state} {d = o.state.next_free_block} x o.extends;
          spent = omega (arith, o.spent);
          height_le = o.height_le;
        }

    -- The same for a tree whose ranks start at `lo`.
    pub insert_above : PlantedPut
    insert_above =
        let c =
          insert_lem device key value generation kf v g max_depth depth root lo rank_limit m s t
            least (rank-lt key kf) (omega arith) (omega arith) in
        planted c.result c.state c.runs c.outcome c.extends c.spent

  IsFloor-zero : (m : Items) → IsFloor 0 m
  IsFloor-zero [] = tt
  IsFloor-zero (item ∷ _) = inl refl

  -- Inserting a value of at most 267 bytes under a key and a generation of their widths into a
  -- sound tree of fewer than 255 levels below its root that holds m, with block numbers left,
  -- returns the root of a sound tree that holds m with the item put in; it takes at most two new
  -- blocks for each level and one for a new root, the tree grows by at most one level, and no
  -- block that was allocated before changes.
  pub insert_into_tree_lem :
      (depth : ℕ) (m : Items)
      → IsTree (view device s) s.next_free_block depth root 0 rank_limit m
      → IsKey key
      → length value ≤ 267
      → generation < 2 ^ 64
      → depth + 1 < 256
      → s.next_free_block + (2 * (depth + 1) + 1) < 2 ^ 64
      → Rooted device
          (insert_into_tree device root key value generation)
          (2 * (depth + 1) + 1)
          depth
          (put (record { key = key; value = value }) m)
          s
  insert_into_tree_lem depth m t kf v g d free =
      insert_above 0 depth m t kf (omega arith) v g d free (IsFloor-zero _)
