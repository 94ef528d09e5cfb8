-- ===== src/Btree/Refinement.antt =====
-- The tree operations against each other: what a lookup reads after an insertion or a deletion, under
-- the new root and under the old one.
use bazzulto_bafs.Base.{
  ℕ, ◌+◌, ◌*◌, ◌^◌, ◌≤◌, ◌<◌, ◌≡◌, sym, ap, ◌∙◌, ◌==◌, if◌then◌else◌, Option, none, some, arith,
}
use bazzulto_bafs.Bytes.{Bytes}
use bazzulto_bafs.Base.{length}
use bazzulto_bafs.Device.{Reader}
use bazzulto_bafs.Error.{ok}
use bazzulto_bafs.Exec.{Exec}
use bazzulto_bafs.Btree.Key.{BafsKey, IsKey, rank, rank_limit, rank-lt}
use bazzulto_bafs.Btree.Cache.{TreeState}
use bazzulto_bafs.Btree.Map.{Items, find, find-put, find-remove}
use bazzulto_bafs.Btree.Lookup.{lookup_in_tree}
use bazzulto_bafs.Btree.Lookup.Refines.{lookup_in_tree_lem}
use bazzulto_bafs.Btree.Tree.{view, IsTree, IsTree-Within, IsTree-Extends}
use bazzulto_bafs.Btree.Insert.{insert_into_tree}
use bazzulto_bafs.Btree.Insert.Root.{Rooted, insert_into_tree_lem}
use bazzulto_bafs.Btree.Delete.{delete_from_tree}
use bazzulto_bafs.Btree.Delete.Root.{delete_from_tree_lem}

-- The run returns a root under which every key reads as `expected`, and under the old root every key
-- reads what it read before.
pub record Commits (device : Reader) (run : Exec TreeState ℕ) (root : ℕ) (s : TreeState)
    (expected : ℕ → Option Bytes) : Type 0 where
  pub state : TreeState
  pub new_root : ℕ
  pub runs : run s ≡ (ok new_root, state)
  pub new_reads :
      (q : BafsKey)
      → IsKey q
      → lookup_in_tree device state.dirty_cache new_root q ≡ ok (expected (rank q))
  pub old_reads :
      (q : BafsKey)
      → IsKey q
      → lookup_in_tree device state.dirty_cache root q ≡ lookup_in_tree device s.dirty_cache root q

module _ (device : Reader) (root depth : ℕ) (m : Items) (s : TreeState)
    (t : IsTree (view device s) s.next_free_block depth root 0 rank_limit m) where
  commits :
      (run : Exec TreeState ℕ) (cost : ℕ) (m' : Items) (expected : ℕ → Option Bytes)
      → depth < 255
      → Rooted device run cost depth m' s
      → ((r : ℕ) → find r m' ≡ expected r)
      → Commits device run root s expected
  commits run cost m' expected d r reads = record {
    state = r.state;
    new_root = r.root;
    runs = r.runs;
    new_reads = λ q kq.
        lookup_in_tree_lem device r.state r.state.next_free_block q kq r.height r.root 0 rank_limit
          m' r.tree (omega arith) (rank-lt q kq) (omega (arith, r.height_le))
        ∙ ap ok (reads (rank q));
    old_reads = λ q kq.
        lookup_in_tree_lem device r.state r.state.next_free_block q kq depth root 0 rank_limit m
          (IsTree-Extends (view device s) s.next_free_block (view device r.state)
            r.state.next_free_block depth r.extends root 0 rank_limit m t)
          (omega arith) (rank-lt q kq) (omega arith)
        ∙ sym (
            lookup_in_tree_lem device s s.next_free_block q kq depth root 0 rank_limit m t
              (omega arith) (rank-lt q kq) (omega arith));
  }

  -- On a sound tree of fewer than 255 levels below its root that holds the map m, with block
  -- numbers left, inserting a value of at most 267 bytes under a key and a generation of their
  -- widths succeeds; under the new root the key reads as the value and every other key as in m,
  -- and under the old root every key reads what it read before.
  pub lookup-insert :
      (key : BafsKey) (value : Bytes) (generation : ℕ)
      → IsKey key
      → length value ≤ 267
      → generation < 2 ^ 64
      → depth < 255
      → s.next_free_block + (2 * (depth + 1) + 1) < 2 ^ 64
      → Commits device
          (insert_into_tree device root key value generation)
          root
          s
          (λ r. if rank key == r then some value else find r m)
  lookup-insert key value generation kf v g d free =
      commits (insert_into_tree device root key value generation) (2 * (depth + 1) + 1) _ _ d
        (insert_into_tree_lem device root key value generation s depth m t kf v g (omega arith)
          free)
        (λ r.
          find-put (record { key = key; value = value }) r 0 rank_limit m
            (IsTree-Within (view device s) s.next_free_block depth root 0 rank_limit m t))

  -- On a sound tree of fewer than 255 levels below its root that holds a value under the key, with
  -- block numbers left and a key and a generation of their widths, the deletion succeeds; under
  -- the new root the key reads as absent and every other key as in m, and under the old root every
  -- key reads what it read before.
  pub lookup-delete :
      (key : BafsKey) (generation : ℕ) (value : Bytes)
      → IsKey key
      → generation < 2 ^ 64
      → depth < 255
      → s.next_free_block + (depth + 1) < 2 ^ 64
      → find (rank key) m ≡ some value
      → Commits device
          (delete_from_tree device root key generation)
          root
          s
          (λ r. if rank key == r then none else find r m)
  lookup-delete key generation value kf g d free f =
      commits (delete_from_tree device root key generation) (depth + 1) _ _ d
        (delete_from_tree_lem device root key generation s depth m t kf g (omega arith) free f)
        (λ r.
          find-remove (rank key) r 0 rank_limit m
            (IsTree-Within (view device s) s.next_free_block depth root 0 rank_limit m t))
