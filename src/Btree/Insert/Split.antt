-- ===== src/Btree/Insert/Split.antt =====
-- The split points of `split_leaf_node` and `split_internal_node` of src/btree.rs.
use bazzulto_bafs.Base.{
  ℕ, zero, suc, ◌+◌, ◌/◌, ◌≤◌, ◌<◌, ◌≡◌, refl, sym, ap, ◌∙◌, List, [], ◌∷◌, ◌++◌, length, take,
  drop, get_elem?, some, arith,
}
use mathlib.Core.Path.{subst}
use mathlib.Core.List.{append_assoc}
use bazzulto_bafs.Bytes.{All}
use bazzulto_bafs.Bytes.Everywhere.{length-take, length-drop, take-append-drop, All-take, All-drop}
use bazzulto_bafs.Btree.Key.{rank}
use bazzulto_bafs.Btree.Node.{BafsInternalItem, block_size, leaf_serialised_size, total_value_bytes}
use bazzulto_bafs.Btree.Map.{Items, Within, Within-le}
use bazzulto_bafs.Btree.Map.Sizes.{total_value_bytes-le, total_value_bytes-append}
use bazzulto_bafs.Btree.Search.Child.{Claim, Children, Children-Within}
use bazzulto_bafs.Btree.Tree.{IsSmall}
use bazzulto_bafs.Btree.Insert.{shrink_left, grow_right, leaf_split_index}

-- A leaf that was full and got one more item of the largest size at most.
pub record Overfull (m : Items) : Type 0 where
  pub over : block_size < leaf_serialised_size m
  pub barely : leaf_serialised_size m ≤ block_size + 292
  pub small : All IsSmall m

pub record Middle (m : Items) (i : ℕ) : Type 0 where
  pub index : leaf_split_index m ≡ i
  pub positive : 0 < i
  pub inside : i < length m
  pub left_fits : leaf_serialised_size (take i m) ≤ block_size
  pub right_fits : leaf_serialised_size (drop i m) ≤ block_size

shrink_left_lem :
    (m : Items) (i : ℕ) → leaf_serialised_size (take i m) ≤ block_size → shrink_left m i ≡ i
unfolding shrink_left
shrink_left_lem m zero h = refl
shrink_left_lem m (suc i) h = ground arith

grow_right_lem :
    (n : ℕ) (m : Items) (i : ℕ)
    → leaf_serialised_size (drop i m) ≤ block_size
    → grow_right n m i ≡ i
unfolding grow_right
grow_right_lem zero m i h = refl
grow_right_lem (suc n) m i h = ground arith

-- No side of the middle can hold all but a few of the bytes: the other side has many items too.
pub middle_lem : (m : Items) → Overfull m → Middle m (length m / 2)
unfolding leaf_split_index leaf_serialised_size
middle_lem m h =
    let i = length m / 2 in
    let in_range : i ≤ length m = omega arith in
    let t = length-take i m in_range in
    let d = length-drop i m in_range in
    let bytes : total_value_bytes (take i m) + total_value_bytes (drop i m) ≡ total_value_bytes m =
      sym (total_value_bytes-append (take i m) (drop i m))
      ∙ ap total_value_bytes (take-append-drop i m) in
    let most_left = total_value_bytes-le (take i m) (All-take IsSmall i m h.small) in
    let most_right = total_value_bytes-le (drop i m) (All-drop IsSmall i m h.small) in
    let over = h.over in
    let barely = h.barely in
    let left : leaf_serialised_size (take i m) ≤ block_size = omega arith in
    let right : leaf_serialised_size (drop i m) ≤ block_size = omega arith in
    record {
      index =
          ap (grow_right (length m) m) (shrink_left_lem m i left)
          ∙ grow_right_lem (length m) m i right;
      positive = omega arith;
      inside = omega arith;
      left_fits = left;
      right_fits = right;
    }

-- The children of the two halves of a node.
pub record Cut (P : Claim) (lo hi : ℕ) (items : List BafsInternalItem) (m : Items) (i key : ℕ)
    : Type 0 where
  pub left : Items
  pub right : Items
  pub whole : m ≡ left ++ right
  pub above : lo ≤ key
  pub below : key ≤ hi
  pub left_children : Children P lo key (take i items) left
  pub right_children : Children P key hi (drop i items) right

module _ (P : Claim) (bounded : (b l h : ℕ) (n : Items) → P b l h n → Within l h n) where
  pub Children-Cut :
      (lo hi : ℕ) (items : List BafsInternalItem) (m : Items) (i : ℕ) {item : BafsInternalItem}
      → Children P lo hi items m
      → get_elem? items (suc i) ≡ some item
      → Cut P lo hi items m (suc i) (rank item.key)
  unfolding take drop
  Children-Cut lo hi [] m i h e = absurd h
  Children-Cut lo hi (c ∷ []) m i h e = cc
  Children-Cut lo hi (c ∷ d ∷ rest) m zero {item} (m1, m2, w, l, h, hs) e =
      let same : d ≡ item = cc in
      subst (λ x. Cut P lo hi (c ∷ d ∷ rest) m 1 (rank x.key)) same
        (record {
          left = m1;
          right = m2;
          whole = w;
          above = l;
          below =
              Within-le (rank d.key) hi m2
                (Children-Within P bounded (rank d.key) hi (d ∷ rest) m2 hs);
          left_children = h;
          right_children = hs;
        })
  Children-Cut lo hi (c ∷ d ∷ rest) m (suc i) (m1, m2, w, l, h, hs) e =
      let r = Children-Cut (rank d.key) hi (d ∷ rest) m2 i hs e in
      record {
        left = m1 ++ r.left;
        right = r.right;
        whole = w ∙ ap (λ n. m1 ++ n) r.whole ∙ sym (append_assoc m1 r.left r.right);
        above = omega (arith, l, r.above);
        below = r.below;
        left_children = (m1, r.left, refl, l, h, r.left_children);
        right_children = r.right_children;
      }
