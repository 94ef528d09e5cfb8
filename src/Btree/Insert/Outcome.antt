-- ===== src/Btree/Insert/Outcome.antt =====
-- What an insertion leaves at the place of a node: one tree, or two with a key between them.
use bazzulto_bafs.Base.{
  ℕ, ◌+◌, ◌%◌, ◌^◌, ◌≤◌, ◌<◌, ◌≡◌, ◌⊎◌, sym, ◌∙◌, ◌++◌, ◌∷◌, [], Option, none, some, drop, arith,
}
use bazzulto_bafs.Device.{Reader}
use bazzulto_bafs.Error.{ok}
use bazzulto_bafs.Exec.{Exec}
use bazzulto_bafs.Checksum.{compute_crc32c}
use bazzulto_bafs.Btree.Key.{BafsKey, IsKey, rank}
use bazzulto_bafs.Btree.Node.{BafsTreeNode}
use bazzulto_bafs.Btree.Codec.RoundTrip.{RoundTrip}
use bazzulto_bafs.Btree.Cache.{TreeState}
use bazzulto_bafs.Btree.Map.{Items}
use bazzulto_bafs.Btree.Tree.{View, view, IsTree, Extends}
use bazzulto_bafs.Btree.Tree.Writes.{cached, write_tree_node_to_cache_lem, read_written, read_other}
use bazzulto_bafs.Btree.Insert.{SplitResult, write_halves, first_key}

-- The first item of the map is where the ranks start, or they start at 0. Then a new root that is
-- split off a leaf has its leftmost separator there.
abbrev pub IsFloor : ℕ → Items → Type 0
IsFloor lo [] = Unit
IsFloor lo (item ∷ _) = (lo ≡ 0) ⊎ (rank item.key ≤ lo)

-- The first key of the node at the block, which `grow_root` reads.
pub record Headed (v : View) (block depth lo : ℕ) (m : Items) : Type 0 where
  pub node : BafsTreeNode
  pub reads : v block ≡ ok node
  pub level_is : node.level ≡ depth
  pub key : BafsKey
  pub first : first_key node ≡ ok key
  pub key_fits : IsKey key
  pub grounded : IsFloor lo m ⊎ (0 < depth) → (lo ≡ 0) ⊎ (rank key ≤ lo)

pub record Halves (v : View) (bound depth lo hi : ℕ) (m : Items) (block : ℕ) (up : SplitResult)
    : Type 0 where
  pub left : Items
  pub right : Items
  pub whole : m ≡ left ++ right
  pub key_fits : IsKey up.key
  pub above : lo ≤ rank up.key
  pub below : rank up.key ≤ hi
  pub left_tree : IsTree v bound depth block lo (rank up.key) left
  pub right_tree : IsTree v bound depth up.child_block (rank up.key) hi right
  pub head : Headed v block depth lo m

abbrev pub Outcome : View → ℕ → ℕ → ℕ → ℕ → Items → ℕ × Option SplitResult → Type 0
Outcome v bound depth lo hi m (block, none) = IsTree v bound depth block lo hi m
Outcome v bound depth lo hi m (block, some up) = Halves v bound depth lo hi m block up

-- A run of at most `cost` allocations that puts the map `m` in place of the node.
pub record Insertion (device : Reader) (run : Exec TreeState (ℕ × Option SplitResult))
    (cost depth lo hi : ℕ) (m : Items) (s : TreeState) : Type 0 where
  pub state : TreeState
  pub result : ℕ × Option SplitResult
  pub runs : run s ≡ (ok result, state)
  pub outcome : Outcome (view device state) state.next_free_block depth lo hi m result
  pub extends : Extends (view device s) s.next_free_block (view device state) state.next_free_block
  pub spent : state.next_free_block ≤ s.next_free_block + cost

-- The state in which a split writes its halves.
abbrev pub split_state : ℕ → TreeState → TreeState
split_state old s = record s {
  freed_blocks = s.freed_blocks ++ (old ∷ []);
  next_free_block = ((s.next_free_block + 1) % 2 ^ 64 + 1) % 2 ^ 64;
}

-- Both halves are read back, and nothing that was allocated changes.
pub record Written (device : Reader) (left right : BafsTreeNode) (key : BafsKey) (old : ℕ)
    (s : TreeState) : Type 0 where
  pub state : TreeState
  pub left_checksum : ℕ
  pub right_checksum : ℕ
  pub runs : write_halves left right key (split_state old s) ≡ (
    ok (s.next_free_block + 1, some (record { key = key; child_block = s.next_free_block })),
    state,
  )
  pub next : state.next_free_block ≡ s.next_free_block + 2
  pub left_reads :
      view device state (s.next_free_block + 1) ≡ ok (record left { node_checksum = left_checksum })
  pub right_reads :
      view device state s.next_free_block ≡ ok (record right { node_checksum = right_checksum })
  pub extends : Extends (view device s) s.next_free_block (view device state) state.next_free_block

pub write_halves_lem :
    (device : Reader) (left right : BafsTreeNode) (key : BafsKey) (old : ℕ) (s : TreeState)
    → left.self_block_address ≡ s.next_free_block + 1
    → right.self_block_address ≡ s.next_free_block
    → RoundTrip left
    → RoundTrip right
    → s.next_free_block + 2 < 2 ^ 64
    → Written device left right key old s
unfolding write_halves
write_halves_lem device left right key old s la ra l r free =
    let s1 = split_state old s in
    let s2 = cached left l.block s1 in
    let s3 = cached right r.block s2 in
    record {
      state = s3;
      left_checksum = compute_crc32c (drop 4 l.block);
      right_checksum = compute_crc32c (drop 4 r.block);
      runs =
          ground (
            arith,
            write_tree_node_to_cache_lem left s1 l,
            write_tree_node_to_cache_lem right s2 r,
          );
      next = omega arith;
      left_reads =
          read_other device s2.dirty_cache right r (s.next_free_block + 1) (ground arith)
          ∙ read_written device s1.dirty_cache left l (s.next_free_block + 1) (sym la);
      right_reads = read_written device s2.dirty_cache right r s.next_free_block (sym ra);
      extends = record {
        grows = omega arith;
        agrees = λ b h.
            read_other device s2.dirty_cache right r b (ground arith)
            ∙ read_other device s1.dirty_cache left l b (ground arith);
      };
    }
