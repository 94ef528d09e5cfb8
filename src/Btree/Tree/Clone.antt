-- ===== src/Btree/Tree/Clone.antt =====
-- Copy-on-write clones of nodes, as roots of subtrees over the new view.
use bazzulto_bafs.Base.{ℕ, zero, suc, ◌+◌, ◌^◌, ◌≤◌, ◌<◌, ◌≡◌, length, arith}
use bazzulto_bafs.Bytes.{All}
use bazzulto_bafs.Device.{Reader}
use bazzulto_bafs.Error.{ok}
use bazzulto_bafs.Btree.Node.{BafsTreeNode, internal_max_items}
use bazzulto_bafs.Btree.Codec.RoundTrip.{
  IsHeader, IsLeafNode, IsInternalNode, leaf-RoundTrip, internal-RoundTrip,
}
use bazzulto_bafs.Btree.Cache.{TreeState}
use bazzulto_bafs.Btree.Insert.{write_clone}
use bazzulto_bafs.Btree.Map.{Items, Within}
use bazzulto_bafs.Btree.Search.Anchors.{IsAnchored}
use bazzulto_bafs.Btree.Search.Child.{Children}
use bazzulto_bafs.Btree.Tree.{view, IsSmall, IsTree, Extends}
use bazzulto_bafs.Btree.Tree.Writes.{write_clone_lem, moved}

module _ (node : BafsTreeNode) (block generation c : ℕ) (b : block < 2 ^ 64)
    (g : generation < 2 ^ 64) where
  abbrev rewritten : BafsTreeNode
  rewritten = record (moved node block generation) { node_checksum = c }

  pub IsHeader-rewritten : IsHeader node → IsHeader rewritten
  IsHeader-rewritten h = record {
    level_fits = h.level_fits;
    flags_fit = h.flags_fit;
    address_fits = b;
    generation_fits = g;
  }

  pub IsLeafNode-rewritten : IsLeafNode node → IsLeafNode rewritten
  IsLeafNode-rewritten h = record {
    header = IsHeader-rewritten h.header;
    is_leaf = h.is_leaf;
    keys_fit = h.keys_fit;
    counted = h.counted;
    no_children = h.no_children;
    fits = h.fits;
  }

  pub IsInternalNode-rewritten : IsInternalNode node → IsInternalNode rewritten
  IsInternalNode-rewritten h = record {
    header = IsHeader-rewritten h.header;
    is_internal = h.is_internal;
    items_fit = h.items_fit;
    counted = h.counted;
    no_values = h.no_values;
    fits = h.fits;
  }

-- After writing a clone: the new tree at the new block, everything allocated before unchanged.
pub record Grown (device : Reader) (depth lo hi : ℕ) (m : Items) (node : BafsTreeNode)
    (generation old : ℕ) (s : TreeState) : Type 0 where
  pub state : TreeState
  pub runs : write_clone node generation old s ≡ (ok s.next_free_block, state)
  pub next : state.next_free_block ≡ s.next_free_block + 1
  pub tree : IsTree (view device state) state.next_free_block depth s.next_free_block lo hi m
  pub extends : Extends (view device s) s.next_free_block (view device state) state.next_free_block

module _ (device : Reader) (lo hi : ℕ) (m : Items) (node : BafsTreeNode) (generation old : ℕ)
    (s : TreeState) (g : generation < 2 ^ 64) (free : s.next_free_block + 1 < 2 ^ 64) where
  abbrev here : s.next_free_block < 2 ^ 64
  here = omega arith

  widen :
      (state : TreeState)
      → state.next_free_block ≡ s.next_free_block + 1
      → Extends (view device s) s.next_free_block (view device state) (s.next_free_block + 1)
      → Extends (view device s) s.next_free_block (view device state) state.next_free_block
  widen state n e = record { grows = omega arith; agrees = e.agrees }

  pub clone_leaf :
      IsLeafNode node
      → node.leaf_items ≡ m
      → All IsSmall m
      → Within lo hi m
      → Grown device zero lo hi m node generation old s
  clone_leaf h holds small sorted =
      let c =
        write_clone_lem device node generation old s
          (leaf-RoundTrip _
            (IsLeafNode-rewritten node s.next_free_block generation node.node_checksum here g h))
          free in
      record {
        state = c.state;
        runs = c.runs;
        next = c.next;
        extends = widen c.state c.next c.extends;
        tree = record {
          node = record (moved node s.next_free_block generation) { node_checksum = c.checksum };
          allocated = omega (arith, c.next);
          reads = c.reads;
          shape = IsLeafNode-rewritten node s.next_free_block generation c.checksum here g h;
          holds = holds;
          small = small;
          sorted = sorted;
        };
      }

  pub clone_internal :
      (depth : ℕ)
      → IsInternalNode node
      → node.level ≡ suc depth
      → length node.internal_items ≤ internal_max_items
      → IsAnchored lo node.internal_items
      → ((state : TreeState)
          → Extends (view device s) s.next_free_block (view device state) state.next_free_block
          → Children
              (IsTree (view device state) state.next_free_block depth)
              lo
              hi
              node.internal_items
              m)
      → Grown device (suc depth) lo hi m node generation old s
  clone_internal depth h level room anchored children =
      let c =
        write_clone_lem device node generation old s
          (internal-RoundTrip _ (
            IsInternalNode-rewritten node s.next_free_block generation node.node_checksum here g h))
          free in
      let e = widen c.state c.next c.extends in
      record {
        state = c.state;
        runs = c.runs;
        next = c.next;
        extends = e;
        tree = record {
          node = record (moved node s.next_free_block generation) { node_checksum = c.checksum };
          allocated = omega (arith, c.next);
          reads = c.reads;
          shape = IsInternalNode-rewritten node s.next_free_block generation c.checksum here g h;
          level_is = level;
          room = room;
          anchored = anchored;
          children = children c.state e;
        };
      }
