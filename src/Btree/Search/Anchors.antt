-- ===== src/Btree/Search/Anchors.antt =====
-- The leftmost separators of internal nodes, which src/btree.rs never updates: `collect_range` reads
-- them, `find_child_index_for_key` does not.
use bazzulto_bafs.Base.{
  ℕ, zero, suc, ◌≤◌, ◌<◌, ◌≡◌, ◌⊎◌, inr, some, List, [], ◌∷◌, length, get_elem?, take, drop,
  insert_at, modify_at, arith,
}
use bazzulto_bafs.Btree.Key.{rank}
use bazzulto_bafs.Btree.Node.{BafsInternalItem}
use bazzulto_bafs.Btree.Search.Child.{set_child}

-- The leftmost separator is not above the least rank of the subtree. A subtree that reaches down to
-- rank 0 may have any.
abbrev pub IsAnchored : ℕ → List BafsInternalItem → Type 0
IsAnchored lo [] = Unit
IsAnchored lo (c ∷ _) = (lo ≡ 0) ⊎ (rank c.key ≤ lo)

pub IsAnchored-take :
    (lo i : ℕ) (items : List BafsInternalItem)
    → IsAnchored lo items
    → IsAnchored lo (take (suc i) items)
unfolding take
IsAnchored-take lo i [] h = tt
IsAnchored-take lo i (c ∷ rest) h = h

pub IsAnchored-drop :
    (i : ℕ) (items : List BafsInternalItem) {item : BafsInternalItem}
    → get_elem? items i ≡ some item
    → IsAnchored (rank item.key) (drop i items)
unfolding drop
IsAnchored-drop i [] e = cc
IsAnchored-drop zero (c ∷ rest) e = inr (ground (arith, e))
IsAnchored-drop (suc i) (c ∷ rest) e = IsAnchored-drop i rest e

pub IsAnchored-first :
    (lo : ℕ) (items : List BafsInternalItem) {item : BafsInternalItem}
    → get_elem? items 0 ≡ some item
    → IsAnchored lo items
    → (lo ≡ 0) ⊎ (rank item.key ≤ lo)
IsAnchored-first lo [] e h = cc
IsAnchored-first lo (c ∷ rest) e h = ground (arith, e)

pub IsAnchored-set :
    (lo i block generation : ℕ) (items : List BafsInternalItem)
    → IsAnchored lo items
    → IsAnchored lo (modify_at i (set_child block generation) items)
unfolding modify_at
IsAnchored-set lo i block generation [] h = tt
IsAnchored-set lo zero block generation (c ∷ rest) h = h
IsAnchored-set lo (suc i) block generation (c ∷ rest) h = h

pub IsAnchored-insert :
    (lo i : ℕ) (new : BafsInternalItem) (items : List BafsInternalItem)
    → 0 < i
    → 0 < length items
    → IsAnchored lo items
    → IsAnchored lo (insert_at i new items)
unfolding insert_at
IsAnchored-insert lo zero new items p l h = absurd (omega arith)
IsAnchored-insert lo (suc i) new [] p l h = absurd (omega arith)
IsAnchored-insert lo (suc i) new (c ∷ rest) p l h = h
