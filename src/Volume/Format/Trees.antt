-- ===== src/Volume/Format/Trees.antt =====
-- The three trees that `bafs_format` of src/volume.rs builds.
use bazzulto_bafs.Base.{
  ℕ, zero, ◌+◌, ◌-◌, ◌*◌, ◌^◌, ◌≤◌, ◌<◌, ◌≡◌, ◌⊎◌, inl, inr, refl, Bool-cases, some, [], ◌∷◌, ltb,
  arith,
}
use mathlib.Core.Path.{subst}
use bazzulto_bafs.Device.{Reader}
use bazzulto_bafs.Error.{ok}
use bazzulto_bafs.Btree.Key.{IsKey, rank, rank_limit, new, item_type_extent_data}
use bazzulto_bafs.Btree.Node.{BafsLeafItem}
use bazzulto_bafs.Btree.Cache.{TreeState}
use bazzulto_bafs.Btree.Map.{Items, find, put, remove}
use bazzulto_bafs.Btree.Tree.{view, IsTree, Extends, Extends-trans}
use bazzulto_bafs.Btree.Insert.{insert_into_tree}
use bazzulto_bafs.Btree.Insert.Root.{Rooted, insert_into_tree_lem}
use bazzulto_bafs.Btree.Delete.{delete_from_tree}
use bazzulto_bafs.Btree.Delete.Root.{delete_from_tree_lem}
use bazzulto_bafs.Extent.{
  insert_free_extent_into_tree, serialise_free_extent_to_bytes, bafs_free_extent_object_id,
}
use bazzulto_bafs.Extent.RoundTrip.{length-serialise_free_extent}
use bazzulto_bafs.Volume.Format.{insert_remaining_space, format_generation}

-- The item of a free extent.
abbrev pub free_item : ℕ → ℕ → BafsLeafItem
free_item block_address block_count = record {
  key = new bafs_free_extent_object_id item_type_extent_data block_address;
  value =
      serialise_free_extent_to_bytes
        (record { block_address = block_address; block_count = block_count });
}

new_free_extent-IsKey :
    (block : ℕ)
    → block < 2 ^ 64
    → IsKey (new bafs_free_extent_object_id item_type_extent_data block)
new_free_extent-IsKey block h = record {
  object_fits = omega arith;
  type_fits = omega arith;
  offset_fits = h;
}

-- A free tree after the format: nothing, or one extent up to the end of the volume.
abbrev pub FreeUpTo : ℕ → Items → Type 0
FreeUpTo total m =
    (m ≡ []) ⊎ ((start : ℕ) × (start < total) × (m ≡ free_item start (total - start) ∷ []))

pub put-one : (item : BafsLeafItem) → put item [] ≡ item ∷ []
unfolding put
put-one item = refl

remove-one : (item : BafsLeafItem) → remove (rank item.key) (item ∷ []) ≡ []
unfolding remove
remove-one item = ground arith

find-one : (item : BafsLeafItem) → find (rank item.key) (item ∷ []) ≡ some item.value
unfolding find
find-one item = ground arith

-- The tree of free extents that the last step leaves.
pub record FreeTree (device : Reader) (total root : ℕ) (s : TreeState) : Type 0 where
  pub state : TreeState
  pub new_root : ℕ
  pub height : ℕ
  pub map : Items
  pub runs : insert_remaining_space device total root s ≡ (ok new_root, state)
  pub tree : IsTree (view device state) state.next_free_block height new_root 0 rank_limit map
  pub contents : FreeUpTo total map
  pub extends : Extends (view device s) s.next_free_block (view device state) state.next_free_block
  pub spent : state.next_free_block ≤ s.next_free_block + 14

module _ (device : Reader) (total root : ℕ) (s : TreeState)
    (t : IsTree (view device s) s.next_free_block zero root 0 rank_limit [])
    (room : s.next_free_block < total) (fits : total < 2 ^ 62) where
  abbrev first_item : BafsLeafItem
  first_item = free_item s.next_free_block (total - s.next_free_block)

  insert_free :
      (s' : TreeState) (root' height start : ℕ)
      → IsTree (view device s') s'.next_free_block height root' 0 rank_limit []
      → start < 2 ^ 62
      → height ≤ 2
      → s'.next_free_block < 2 ^ 63
      → Rooted device
          (insert_free_extent_into_tree device root' start (total - start) format_generation)
          (2 * (height + 1) + 1)
          height
          (free_item start (total - start) ∷ [])
          s'
  unfolding insert_free_extent_into_tree
  insert_free s' root' height start t' h d n =
      let item = free_item start (total - start) in
      subst
        (λ m.
          Rooted device (insert_into_tree device root' item.key item.value format_generation)
            (2 * (height + 1) + 1) height m s')
        (put-one item)
        (insert_into_tree_lem device root' item.key item.value format_generation s' height [] t'
          (new_free_extent-IsKey start (omega arith))
          (omega (
            arith,
            length-serialise_free_extent
                (record { block_address = start; block_count = total - start }),
          ))
          (omega arith) (omega arith) (omega arith))

  module _
      (f : Rooted device
        (insert_free_extent_into_tree device root s.next_free_block
          (total - s.next_free_block)
          format_generation)
        3
        zero
        (first_item ∷ [])
        s) where
    same_pointer :
        f.state.next_free_block ≡ s.next_free_block
        → insert_remaining_space device total root s ≡ (ok f.root, f.state)
    unfolding insert_remaining_space
    same_pointer e = let run = f.runs in ground (arith, run, e)

    emptied :
        Rooted device
          (delete_from_tree device f.root first_item.key format_generation)
          (f.height + 1)
          f.height
          []
          f.state
    emptied =
        subst
          (λ m.
            Rooted device (delete_from_tree device f.root first_item.key format_generation)
              (f.height + 1) f.height m f.state)
          (remove-one first_item)
          (delete_from_tree_lem device f.root first_item.key format_generation f.state f.height
            (first_item ∷ []) f.tree (new_free_extent-IsKey s.next_free_block (omega arith))
            (omega arith) (omega (arith, f.height_le)) (omega (arith, f.height_le, f.spent))
            (find-one first_item))

    module _
        (d : Rooted device
          (delete_from_tree device f.root first_item.key format_generation)
          (f.height + 1)
          f.height
          []
          f.state)
        (moved : s.next_free_block < f.state.next_free_block) where
      nothing_left :
          total - d.state.next_free_block ≡ 0
          → insert_remaining_space device total root s ≡ (ok d.root, d.state)
      unfolding insert_remaining_space
      nothing_left e = let first = f.runs in let second = d.runs in ground (arith, first, second, e)

      second_start :
          (g : Rooted device
            (insert_free_extent_into_tree device d.root d.state.next_free_block
              (total - d.state.next_free_block)
              format_generation)
            (2 * (d.height + 1) + 1)
            d.height
            (free_item d.state.next_free_block (total - d.state.next_free_block) ∷ [])
            d.state)
          → 0 < total - d.state.next_free_block
          → insert_remaining_space device total root s ≡ (ok g.root, g.state)
      unfolding insert_remaining_space
      second_start g e =
          let first = f.runs in
          let second = d.runs in let third = g.runs in ground (arith, first, second, third, e)

      after_second : FreeTree device total root s
      after_second = elim (Bool-cases (ltb 0 (total - d.state.next_free_block))) [
        | inr none_left ↦ record {
          state = d.state;
          new_root = d.root;
          height = d.height;
          map = [];
          runs = nothing_left (ground arith);
          tree = d.tree;
          contents = inl refl;
          extends =
              Extends-trans {u = view device d.state} {d = d.state.next_free_block} f.extends
                d.extends;
          spent = omega (arith, f.spent, d.spent, f.height_le);
        }
        | inl some_left ↦
            let g =
              insert_free d.state d.root d.height d.state.next_free_block d.tree (ground arith)
                (omega (arith, f.height_le, d.height_le))
                (omega (arith, f.spent, d.spent, f.height_le)) in
            let left : 0 < total - d.state.next_free_block = ground arith in
            record {
              state = g.state;
              new_root = g.root;
              height = g.height;
              map = free_item d.state.next_free_block (total - d.state.next_free_block) ∷ [];
              runs = second_start g left;
              tree = g.tree;
              contents = inr (d.state.next_free_block, omega arith, refl);
              extends =
                  Extends-trans {u = view device g.state} {d = g.state.next_free_block}
                    (Extends-trans {u = view device d.state} {d = d.state.next_free_block} f.extends
                      d.extends)
                    g.extends;
              spent = omega (arith, f.spent, d.spent, g.spent, f.height_le, d.height_le);
            }
      ]

  pub free_tree : FreeTree device total root s
  free_tree =
      let f =
        insert_free s root zero s.next_free_block t (omega arith) (omega arith) (omega arith) in
      elim (Bool-cases (ltb s.next_free_block f.state.next_free_block)) [
        | inl moved ↦ after_second f (emptied f) (ground arith)
        | inr still ↦ record {
          state = f.state;
          new_root = f.root;
          height = f.height;
          map = first_item ∷ [];
          runs = same_pointer f (let grows = f.extends.grows in ground arith);
          tree = f.tree;
          contents = inr (s.next_free_block, room, refl);
          extends = f.extends;
          spent = omega (arith, f.spent);
        }
      ]
