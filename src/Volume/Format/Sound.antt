-- ===== src/Volume/Format/Sound.antt =====
-- `bafs_format` of src/volume.rs: the state in which its trees are.
use bazzulto_bafs.Base.{
  ℕ, zero, ◌+◌, ◌^◌, ◌≤◌, ◌<◌, ◌≡◌, inr, sym, ◌∙◌, [], ◌∷◌, length-replicate, arith,
}
use mathlib.Core.Path.{subst}
use bazzulto_bafs.Device.{Reader}
use bazzulto_bafs.Error.{ok}
use bazzulto_bafs.Btree.Key.{rank, rank_limit}
use bazzulto_bafs.Btree.Node.{BafsLeafItem}
use bazzulto_bafs.Btree.Cache.{TreeState}
use bazzulto_bafs.Btree.Map.{Items}
use bazzulto_bafs.Btree.Tree.{View, view, LeafAt, IsTree, IsTree-Extends}
use bazzulto_bafs.Btree.Insert.Outcome.{IsFloor}
use bazzulto_bafs.Btree.Insert.Root.{Planted, insert_above}
use bazzulto_bafs.Btree.Delete.Root.{Created, create_empty_tree_lem}
use bazzulto_bafs.Inode.{
  BafsInode, new_directory, new_inode, inode_key, serialise_inode_to_bytes, write_inode_to_tree,
}
use bazzulto_bafs.Inode.Laws.{IsInode, length-serialise, inode_key-IsKey}
use bazzulto_bafs.Dir.Lookup.{root_rank, IsInodeStore}
use bazzulto_bafs.Volume.Format.Trees.{FreeUpTo, FreeTree, free_tree, put-one}
use bazzulto_bafs.Volume.Format.{FormatRoots, root_inode_number, format_generation, build_trees}

-- A leaf whose block reads the same in another view with no fewer allocated blocks.
leaf_stays :
    (v v' : View) (bound bound' block lo hi : ℕ) (m : Items)
    → v' block ≡ v block
    → bound ≤ bound'
    → LeafAt v bound block lo hi m
    → LeafAt v' bound' block lo hi m
leaf_stays v v' bound bound' block lo hi m e grows t = record {
  node = t.node;
  allocated = omega (arith, t.allocated);
  reads = e ∙ t.reads;
  shape = t.shape;
  holds = t.holds;
  small = t.small;
  sorted = t.sorted;
}

abbrev pub root_inode : BafsInode
root_inode = new_directory root_inode_number format_generation 0

pub root_inode-IsInode : IsInode root_inode
unfolding new_directory new_inode
root_inode-IsInode = record {
  fields_fit = (
    omega arith,
    (
      omega arith,
      (
        omega arith,
        (
          omega arith,
          (
            omega arith,
            (
              omega arith,
              (
                omega arith,
                (
                  omega arith,
                  (
                    omega arith,
                    (
                      omega arith,
                      (omega arith, (omega arith, (omega arith, (omega arith, (omega arith, tt))))),
                    ),
                  ),
                ),
              ),
            ),
          ),
        ),
      ),
    ),
  );
  reserved_size = length-replicate {A = ℕ} 32 0;
}

abbrev pub root_item : BafsLeafItem
root_item = record {
  key = inode_key root_inode_number;
  value = serialise_inode_to_bytes root_inode;
}

abbrev pub initial_state : ℕ → TreeState
initial_state data_area_start_block = record {
  dirty_cache = [];
  next_free_block = data_area_start_block + 3;
  freed_blocks = [];
}

-- The three trees of a new volume: the root inode alone, the rest of the volume as one free extent at
-- most, and no checksums.
pub record Formatted (device : Reader) (total start : ℕ) : Type 0 where
  pub state : TreeState
  pub roots : FormatRoots
  pub inode_height : ℕ
  pub free_height : ℕ
  pub free_map : Items
  pub runs : build_trees device total start (initial_state start) ≡ (ok roots, state)
  pub inodes : IsInodeStore device state inode_height roots.inode_root (root_item ∷ [])
  pub free :
      IsTree
        (view device state)
        state.next_free_block
        free_height
        roots.free_extent_root
        0
        rank_limit
        free_map
  pub free_up_to : FreeUpTo total free_map
  pub checksums :
      IsTree (view device state) state.next_free_block zero roots.checksum_root 0 rank_limit []
  pub inode_height_le : inode_height ≤ 1
  pub pointer : state.next_free_block ≤ start + 20

module _ (device : Reader) (total start : ℕ) (room : start + 13 ≤ total)
    (fits : total < 2 ^ 62) where
  abbrev c1 : Created device start 1 (initial_state start)
  c1 =
      create_empty_tree_lem device start 1 (initial_state start) (omega arith) (omega arith)
        (omega arith)

  abbrev c2 : Created device (start + 1) 1 c1.state
  c2 =
      create_empty_tree_lem device (start + 1) 1 c1.state (omega (arith, c1.next)) (omega arith)
        (omega arith)

  abbrev c3 : Created device (start + 2) 1 c2.state
  c3 =
      create_empty_tree_lem device (start + 2) 1 c2.state (omega (arith, c1.next, c2.next))
        (omega arith) (omega arith)

  next3 : c3.state.next_free_block ≡ start + 3
  next3 = c3.next ∙ c2.next ∙ c1.next

  -- The inode tree and the tree of free extents before anything is inserted.
  inode_leaf :
      IsTree (view device c3.state) c3.state.next_free_block zero start root_rank rank_limit []
  unfolding rank
  inode_leaf =
      leaf_stays (view device c1.state) (view device c3.state) c1.state.next_free_block
        c3.state.next_free_block start root_rank rank_limit []
        (c3.elsewhere start (ground arith) ∙ c2.elsewhere start (ground arith))
        (omega (arith, c2.next, c3.next)) (c1.tree_above root_rank (omega arith))

  free_leaf :
      IsTree (view device c3.state) c3.state.next_free_block zero (start + 1) 0 rank_limit []
  free_leaf =
      leaf_stays (view device c2.state) (view device c3.state) c2.state.next_free_block
        c3.state.next_free_block (start + 1) 0 rank_limit []
        (c3.elsewhere (start + 1) (ground arith)) (omega (arith, c3.next)) c2.tree

  root-Planted :
      Planted root_rank device
        (write_inode_to_tree device start root_inode format_generation)
        3
        zero
        (root_item ∷ [])
        c3.state
  unfolding write_inode_to_tree new_directory new_inode
  root-Planted =
      let n = next3 in
      subst
        (λ m.
          Planted root_rank device (write_inode_to_tree device start root_inode format_generation) 3
            zero m c3.state)
        (put-one root_item)
        (insert_above device start (inode_key root_inode_number)
          (serialise_inode_to_bytes root_inode) format_generation c3.state root_rank zero []
          inode_leaf (inode_key-IsKey root_inode_number (omega arith)) (omega arith)
          (omega (arith, length-serialise root_inode root_inode-IsInode)) (omega arith)
          (omega arith) (omega arith)
          (subst (IsFloor root_rank) (sym (put-one root_item)) (inr (omega arith))))

  module _
      (p : Planted root_rank device
        (write_inode_to_tree device start root_inode format_generation)
        3
        zero
        (root_item ∷ [])
        c3.state) where
    free_built : FreeTree device total (start + 1) p.state
    free_built =
        free_tree device total (start + 1) p.state
          (IsTree-Extends (view device c3.state) c3.state.next_free_block (view device p.state)
            p.state.next_free_block zero p.extends (start + 1) 0 rank_limit [] free_leaf)
          (omega (arith, p.spent, next3)) fits

    module _ (f : FreeTree device total (start + 1) p.state) where
      abbrev roots : FormatRoots
      roots = record {
        inode_root = p.root;
        free_extent_root = f.new_root;
        checksum_root = start + 2;
      }

      trees_run : build_trees device total start (initial_state start) ≡ (ok roots, f.state)
      unfolding build_trees
      trees_run =
          let r1 = c1.runs in
          let r2 = c2.runs in
          let r3 = c3.runs in
          let r4 = p.runs in let r5 = f.runs in ground (arith, r1, r2, r3, r4, r5)

      formatted : Formatted device total start
      unfolding rank
      formatted =
          let v = view device p.state in
          let w = view device f.state in
          record {
            state = f.state;
            roots = roots;
            inode_height = p.height;
            free_height = f.height;
            free_map = f.map;
            runs = trees_run;
            inodes = record {
              tree =
                  IsTree-Extends v p.state.next_free_block w f.state.next_free_block p.height
                    f.extends p.root root_rank rank_limit (root_item ∷ []) p.tree;
              positive = omega arith;
              starts = omega arith;
            };
            free = f.tree;
            free_up_to = f.contents;
            checksums =
                IsTree-Extends v p.state.next_free_block w f.state.next_free_block zero f.extends
                  (start + 2) 0 rank_limit []
                  (IsTree-Extends (view device c3.state) c3.state.next_free_block v
                    p.state.next_free_block zero p.extends (start + 2) 0 rank_limit [] c3.tree);
            inode_height_le = p.height_le;
            pointer = omega (arith, f.spent, p.spent, next3);
          }

  -- On a volume of fewer than 2^62 blocks with at least ten behind the three roots, building the
  -- trees succeeds with at most seventeen more blocks: a sound inode tree with the root
  -- directory's inode alone, a sound tree of free extents with one extent up to the end of the
  -- volume at most, and a sound checksum tree without items.
  pub build_trees_lem : Formatted device total start
  build_trees_lem = let p = root-Planted in formatted p (free_built p)
