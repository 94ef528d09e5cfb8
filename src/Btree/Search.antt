-- ===== src/Btree/Search.antt =====
-- The searches in a node: the standard library's `binary_search_by` and `partition_point`, and
-- `find_child_index_for_key` of src/btree.rs.
pub mod Laws
pub mod Leaf
pub mod Child
pub mod Anchors
pub mod Route
use Prim.Native.Nat.Ordering.{lt, eq, gt}
use bazzulto_bafs.Base.{
  ℕ, zero, suc, ◌+◌, ◌-◌, ◌/◌, Bool, true, false, Option, none, some, List, length, Ordering,
  get_elem?, ltb, ◌==◌, if◌then◌else◌,
}
use bazzulto_bafs.Btree.Key.{BafsKey, cmp, key_le}
use bazzulto_bafs.Btree.Node.{BafsLeafItem, BafsInternalItem}

-- `Ok(index)` and `Err(index)`.
pub data SearchResult : Type 0 where
  found : ℕ → SearchResult
  insertion : ℕ → SearchResult

-- The loop of `binary_search_by`: it halves `size` while that is above 1. `f` compares the element
-- at an index with the target.
abbrev narrow : Ordering → ℕ → ℕ → ℕ
narrow gt base mid = base
narrow _ base mid = mid

search_loop : (ℕ → Ordering) → ℕ → ℕ → ℕ → ℕ
search_loop f zero base size = base
search_loop f (suc fuel) base size = elim (ltb 1 size) [
  | true ↦
      search_loop f fuel (narrow (f (base + size / 2)) base (base + size / 2)) (size - size / 2)
  | false ↦ base
]

-- What the last comparison, of the element at `base`, says.
abbrev pub conclude : Ordering → ℕ → SearchResult
conclude eq base = found base
conclude lt base = insertion (base + 1)
conclude gt base = insertion base

-- `unwrap_or_else(|i| i)`
abbrev pub index_of : SearchResult → ℕ
index_of (found i) = i
index_of (insertion i) = i

pub binary_search_by : ℕ → (ℕ → Ordering) → SearchResult
binary_search_by size f =
    if size == 0
    then insertion 0
    else let base = search_loop f size 0 size in conclude (f base) base

pub partition_point : ℕ → (ℕ → Bool) → ℕ
unfolding binary_search_by
partition_point size pred = index_of (binary_search_by size (λ i. if pred i then lt else gt))

-- The key of the element at an index against the target; the index is in range.
abbrev pub compare_leaf_at : List BafsLeafItem → BafsKey → ℕ → Ordering
compare_leaf_at items key i = elim (get_elem? items i) [ none ↦ gt | some item ↦ cmp item.key key ]

abbrev pub internal_le_at : List BafsInternalItem → BafsKey → ℕ → Bool
internal_le_at items key i = elim (get_elem? items i) [
  | none ↦ false
  | some item ↦ key_le item.key key
]

-- `leaf_items.binary_search_by_key(&key, |item| item.key)`
pub search_leaf : List BafsLeafItem → BafsKey → SearchResult
search_leaf items key = binary_search_by (length items) (compare_leaf_at items key)

-- `partition_point(..).saturating_sub(1)`
pub find_child_index_for_key : List BafsInternalItem → BafsKey → ℕ
find_child_index_for_key internal_items target_key =
    partition_point (length internal_items) (internal_le_at internal_items target_key) - 1
