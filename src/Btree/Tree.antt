-- ===== src/Btree/Tree.antt =====
-- The blocks of a sound tree, and the map that it holds.
pub mod Writes
pub mod Clone
use bazzulto_bafs.Base.{ℕ, zero, suc, ◌+◌, ◌≤◌, ◌<◌, ◌≡◌, ◌∙◌, length, arith}
use bazzulto_bafs.Bytes.{Bytes, All}
use bazzulto_bafs.Device.{Reader}
use bazzulto_bafs.Error.{Result, ok}
use bazzulto_bafs.Btree.Key.{BafsKey}
use bazzulto_bafs.Btree.Node.{BafsTreeNode, BafsLeafItem, internal_max_items}
use bazzulto_bafs.Btree.Codec.RoundTrip.{IsLeafNode, IsInternalNode}
use bazzulto_bafs.Btree.Cache.{TreeState, read_tree_node}
use bazzulto_bafs.Btree.Map.{Items, Within}
use bazzulto_bafs.Btree.Search.Anchors.{IsAnchored}
use bazzulto_bafs.Btree.Search.Child.{Claim, Children, Children-map, Children-Within}

-- What is read at a block.
abbrev pub View : Type 0
View = ℕ → Result BafsTreeNode

abbrev pub view : Reader → TreeState → View
view device s block_address = read_tree_node device s.dirty_cache block_address

-- The largest value that is stored: a directory entry with a name of 255 bytes.
abbrev pub max_value_size : ℕ
max_value_size = 267

abbrev pub IsSmall : BafsLeafItem → Type 0
IsSmall item = length item.value ≤ max_value_size

-- A leaf at a block below `bound`.
pub record LeafAt (v : View) (bound block lo hi : ℕ) (m : Items) : Type 0 where
  pub node : BafsTreeNode
  pub allocated : block < bound
  pub reads : v block ≡ ok node
  pub shape : IsLeafNode node
  pub holds : node.leaf_items ≡ m
  pub small : All IsSmall m
  pub sorted : Within lo hi m

-- An internal node whose children satisfy P.
pub record InternalAt (P : Claim) (depth : ℕ) (v : View) (bound block lo hi : ℕ) (m : Items)
    : Type 0 where
  pub node : BafsTreeNode
  pub allocated : block < bound
  pub reads : v block ≡ ok node
  pub shape : IsInternalNode node
  pub level_is : node.level ≡ depth
  pub room : length node.internal_items ≤ internal_max_items
  pub anchored : IsAnchored lo node.internal_items
  pub children : Children P lo hi node.internal_items m

-- The subtree at a block: of this depth, with keys of ranks in [lo, hi), holding the items m.
abbrev pub IsTree : View → ℕ → ℕ → Claim
IsTree v bound zero = LeafAt v bound
IsTree v bound (suc depth) = InternalAt (IsTree v bound depth) (suc depth) v bound

pub IsTree-Within :
    (v : View) (bound depth block lo hi : ℕ) (m : Items)
    → IsTree v bound depth block lo hi m
    → Within lo hi m
IsTree-Within v bound zero block lo hi m t = t.sorted
IsTree-Within v bound (suc depth) block lo hi m t =
    Children-Within (IsTree v bound depth) (IsTree-Within v bound depth) lo hi t.node.internal_items
      m t.children

pub IsTree-allocated :
    (v : View) (bound depth block lo hi : ℕ) (m : Items)
    → IsTree v bound depth block lo hi m
    → block < bound
IsTree-allocated v bound zero block lo hi m t = t.allocated
IsTree-allocated v bound (suc depth) block lo hi m t = t.allocated

-- The later view agrees with the earlier one on all blocks that were allocated.
pub record Extends (v : View) (bound : ℕ) (v' : View) (bound' : ℕ) : Type 0 where
  pub grows : bound ≤ bound'
  pub agrees : (block : ℕ) → block < bound → v' block ≡ v block

pub Extends-trans : {v w u : View} {b c d : ℕ} → Extends v b w c → Extends w c u d → Extends v b u d
Extends-trans {v} {w} {u} {b} {c} {d} e f = record {
  grows = omega (arith, e.grows, f.grows);
  agrees = λ block h. f.agrees block (omega (arith, e.grows)) ∙ e.agrees block h;
}

-- A tree stays what it was when new blocks are written.
pub IsTree-Extends :
    (v : View) (bound : ℕ) (v' : View) (bound' depth : ℕ)
    → Extends v bound v' bound'
    → (block lo hi : ℕ) (m : Items) → IsTree v bound depth block lo hi m
    → IsTree v' bound' depth block lo hi m
IsTree-Extends v bound v' bound' zero e block lo hi m t = record {
  node = t.node;
  allocated = omega (arith, t.allocated, e.grows);
  reads = e.agrees block t.allocated ∙ t.reads;
  shape = t.shape;
  holds = t.holds;
  small = t.small;
  sorted = t.sorted;
}
IsTree-Extends v bound v' bound' (suc depth) e block lo hi m t = record {
  node = t.node;
  allocated = omega (arith, t.allocated, e.grows);
  reads = e.agrees block t.allocated ∙ t.reads;
  shape = t.shape;
  level_is = t.level_is;
  room = t.room;
  anchored = t.anchored;
  children =
      Children-map (IsTree v bound depth) (IsTree v' bound' depth) lo hi t.node.internal_items m
        (IsTree-Extends v bound v' bound' depth e) t.children;
}
