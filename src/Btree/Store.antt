-- ===== src/Btree/Store.antt =====
-- A tree of src/btree.rs that is never without its least key, as the inode tree is never without the
-- root inode: what each operation does to it, for the directories, extents and inodes that share it.
use bazzulto_bafs.Base.{ℕ, ◌+◌, ◌*◌, ◌^◌, ◌≤◌, ◌<◌, ◌≡◌, inr, [], ◌∷◌, some, length, arith}
use bazzulto_bafs.Bytes.{Bytes}
use bazzulto_bafs.Device.{Reader}
use bazzulto_bafs.Error.{ok}
use bazzulto_bafs.Exec.{Exec}
use bazzulto_bafs.Btree.Key.{BafsKey, IsKey, rank, rank_limit, rank-lt}
use bazzulto_bafs.Btree.Node.{BafsLeafItem}
use bazzulto_bafs.Btree.Cache.{TreeState}
use bazzulto_bafs.Btree.Map.{Items, Within, find, put, remove, between}
use bazzulto_bafs.Btree.Tree.{view, IsTree, IsTree-Within, IsTree-Extends, Extends}
use bazzulto_bafs.Btree.Lookup.{lookup_in_tree, iterate_tree_range}
use bazzulto_bafs.Btree.Lookup.Refines.{lookup_in_tree_lem}
use bazzulto_bafs.Btree.Lookup.Scan.{scan_lem}
use bazzulto_bafs.Btree.Insert.{insert_into_tree}
use bazzulto_bafs.Btree.Insert.Outcome.{IsFloor}
use bazzulto_bafs.Btree.Insert.Root.{Planted, insert_above}
use bazzulto_bafs.Btree.Delete.{delete_from_tree}
use bazzulto_bafs.Btree.Delete.Root.{delete_above}

-- The map has an item, and the first one has the rank `lo` or less.
abbrev pub StartsAt : ℕ → Items → Type 0
StartsAt lo [] = ⊥
StartsAt lo (item ∷ _) = rank item.key ≤ lo

StartsAt-IsFloor : (lo : ℕ) (m : Items) → StartsAt lo m → IsFloor lo m
StartsAt-IsFloor lo [] h = tt
StartsAt-IsFloor lo (item ∷ _) h = inr h

StartsAt-put :
    (lo : ℕ) (new : BafsLeafItem) (m : Items)
    → StartsAt lo m
    → lo ≤ rank new.key
    → StartsAt lo (put new m)
unfolding put
StartsAt-put lo new [] h l = absurd h
StartsAt-put lo new (item ∷ rest) h l = ground arith

StartsAt-remove : (lo r : ℕ) (m : Items) → StartsAt lo m → lo < r → StartsAt lo (remove r m)
unfolding remove
StartsAt-remove lo r [] h l = absurd h
StartsAt-remove lo r (item ∷ rest) h l = ground arith

pub record IsStore (device : Reader) (s : TreeState) (lo depth root : ℕ) (m : Items) : Type 0 where
  pub tree : IsTree (view device s) s.next_free_block depth root lo rank_limit m
  pub positive : 0 < lo
  pub starts : StartsAt lo m

-- After a run: the new tree with its map, and the old tree as it was.
pub record Restored (device : Reader) (run : Exec TreeState ℕ) (cost lo depth root : ℕ)
    (m m' : Items) (s : TreeState) : Type 0 where
  pub state : TreeState
  pub new_root : ℕ
  pub height : ℕ
  pub runs : run s ≡ (ok new_root, state)
  pub store : IsStore device state lo height new_root m'
  pub snapshot : IsStore device state lo depth root m
  pub extends : Extends (view device s) s.next_free_block (view device state) state.next_free_block
  pub spent : state.next_free_block ≤ s.next_free_block + cost
  pub height_le : height ≤ depth + 1

module _ (device : Reader) (s : TreeState) (lo depth root : ℕ) (m : Items)
    (h : IsStore device s lo depth root m) where
  pub IsStore-Extends :
      (s' : TreeState)
      → Extends (view device s) s.next_free_block (view device s') s'.next_free_block
      → IsStore device s' lo depth root m
  IsStore-Extends s' e = record {
    tree =
        IsTree-Extends (view device s) s.next_free_block (view device s') s'.next_free_block depth e
          root lo rank_limit m h.tree;
    positive = h.positive;
    starts = h.starts;
  }

  pub IsStore-Within : Within lo rank_limit m
  IsStore-Within = IsTree-Within (view device s) s.next_free_block depth root lo rank_limit m h.tree

  restored :
      (run : Exec TreeState ℕ) (cost : ℕ) (m' : Items)
      → Planted lo device run cost depth m' s
      → StartsAt lo m'
      → Restored device run cost lo depth root m m' s
  restored run cost m' p starts = record {
    state = p.state;
    new_root = p.root;
    height = p.height;
    runs = p.runs;
    store = record { tree = p.tree; positive = h.positive; starts = starts };
    snapshot = IsStore-Extends p.state p.extends;
    extends = p.extends;
    spent = p.spent;
    height_le = p.height_le;
  }

  module _ (key : BafsKey) (kf : IsKey key) where
    -- Inserting a value of at most 267 bytes under a key that is not below the least one.
    pub store-insert :
        (value : Bytes) (generation : ℕ)
        → lo ≤ rank key
        → length value ≤ 267
        → generation < 2 ^ 64
        → depth < 255
        → s.next_free_block + (2 * (depth + 1) + 1) < 2 ^ 64
        → Restored device
            (insert_into_tree device root key value generation)
            (2 * (depth + 1) + 1)
            lo
            depth
            root
            m
            (put (record { key = key; value = value }) m)
            s
    store-insert value generation least v g d free =
        let starts = StartsAt-put lo (record { key = key; value = value }) m h.starts least in
        restored _ _ _
          (insert_above device root key value generation s lo depth m h.tree kf least v g
            (omega arith) free (StartsAt-IsFloor lo _ starts))
          starts

    -- Deleting a key above the least one that the map holds.
    pub store-delete :
        (generation : ℕ) {value : Bytes}
        → lo < rank key
        → generation < 2 ^ 64
        → depth < 255
        → s.next_free_block + (depth + 1) < 2 ^ 64
        → find (rank key) m ≡ some value
        → Restored device
            (delete_from_tree device root key generation)
            (depth + 1)
            lo
            depth
            root
            m
            (remove (rank key) m)
            s
    store-delete generation above g d free f =
        restored _ _ _
          (delete_above device root key generation s lo depth m h.tree (omega arith) kf g
            (omega arith) free f)
          (StartsAt-remove lo (rank key) m h.starts above)

    pub store-lookup :
        lo ≤ rank key
        → depth < 256
        → lookup_in_tree device s.dirty_cache root key ≡ ok (find (rank key) m)
    store-lookup least d =
        lookup_in_tree_lem device s s.next_free_block key kf depth root lo rank_limit m h.tree least
          (rank-lt key kf) d

    pub store-scan :
        (max_key : BafsKey)
        → IsKey max_key
        → depth < 256
        → iterate_tree_range device s.dirty_cache root key max_key
          ≡ ok (between (rank key) (rank max_key) m)
    store-scan max_key mf d =
        scan_lem device s s.next_free_block key max_key kf mf depth root lo m h.tree h.positive d
