-- ===== src/Btree/Lookup/Range.antt =====
-- `iterate_tree_range` of src/btree.rs on a sound tree.
use bazzulto_bafs.Base.{
  ℕ, zero, suc, ◌+◌, ◌≤◌, ◌<◌, ◌≡◌, ◌⊎◌, inl, inr, refl, sym, ap, ◌∙◌, ◌||◌, ◌++◌, ◌∷◌, [], List,
  true, false, Bool-cases, ltb, ltb→lt, arith,
}
use mathlib.Core.Path.{subst}
use mathlib.Core.List.{append-nil}
use bazzulto_bafs.Bytes.{All}
use bazzulto_bafs.Device.{Reader}
use bazzulto_bafs.Error.{Result, ok}
use bazzulto_bafs.Btree.Key.{
  BafsKey, IsKey, rank, rank_limit, rank-lt, key_lt, key_le-rank, key_lt-rank,
}
use bazzulto_bafs.Btree.Node.{BafsTreeNode, BafsInternalItem}
use bazzulto_bafs.Btree.Codec.Items.{IsInternalItem}
use bazzulto_bafs.Btree.Cache.{TreeState, DirtyCache, read_tree_node}
use bazzulto_bafs.Btree.Map.{Items, Within, Within-le, between, between-append}
use bazzulto_bafs.Btree.Search.Child.{Claim, Children, Children-Within}
use bazzulto_bafs.Btree.Tree.{View, view, IsTree, IsTree-Within}
use bazzulto_bafs.Btree.Lookup.{
  max_depth, filter_range, child_max_key, collect_children, collect_range, iterate_tree_range,
}

-- The leftmost separators of all nodes below are not above `top`.
abbrev pub HeadsBelow : ℕ → List BafsInternalItem → Type 0
HeadsBelow top [] = Unit
HeadsBelow top (c ∷ _) = rank c.key ≤ top

pub record InternalReaches (P : ℕ → Type 0) (v : View) (top block : ℕ) : Type 0 where
  pub node : BafsTreeNode
  pub reads : v block ≡ ok node
  pub head : HeadsBelow top node.internal_items
  pub children : All (λ c. P c.child_block) node.internal_items

abbrev pub Reaches : View → ℕ → ℕ → ℕ → Type 0
Reaches v top zero = λ block. Unit
Reaches v top (suc depth) = InternalReaches (Reaches v top depth) v top

between_below : (lo hi a b : ℕ) (m : Items) → Within a b m → b ≤ lo → between lo hi m ≡ []
unfolding between
between_below lo hi a b [] w h = refl
between_below lo hi a b (x ∷ xs) (l, w) h =
    ground (arith, between_below lo hi (rank x.key + 1) b xs w h, Within-le (rank x.key + 1) b xs w)

between_above : (lo hi a b : ℕ) (m : Items) → Within a b m → hi < a → between lo hi m ≡ []
unfolding between
between_above lo hi a b [] w h = refl
between_above lo hi a b (x ∷ xs) (l, w) h =
    ground (arith, between_above lo hi (rank x.key + 1) b xs w (omega arith))

between-nil : (lo hi : ℕ) → between lo hi [] ≡ []
unfolding between
between-nil lo hi = refl

module _ (min_key max_key : BafsKey) (fmin : IsKey min_key) (fmax : IsKey max_key) where
  pub filter_range_lem :
      (items : Items)
      → All (λ item. IsKey item.key) items
      → filter_range min_key max_key items ≡ between (rank min_key) (rank max_key) items
  unfolding filter_range between
  filter_range_lem [] h = refl
  filter_range_lem (x ∷ xs) (h, hs) = ground (
    arith,
    filter_range_lem xs hs,
    key_le-rank min_key x.key fmin h,
    key_le-rank x.key max_key h fmax,
  )

  -- Skipped children hold nothing in the range.
  child_max_key-IsKey :
      (rest : List BafsInternalItem) → All IsInternalItem rest → IsKey (child_max_key rest)
  child_max_key-IsKey [] h = record {
    object_fits = omega arith;
    type_fits = omega arith;
    offset_fits = omega arith;
  }
  child_max_key-IsKey (d ∷ rest) (h, hs) = h.key_fits

  module _ (collect : ℕ → Result Items) where
    abbrev Collected : ℕ → Items → Type 0
    Collected block m = collect block ≡ ok (between (rank min_key) (rank max_key) m)

    skips :
        (c : BafsInternalItem) (rest : List BafsInternalItem) (more : Items)
        → collect_children collect min_key max_key rest ≡ ok more
        → (key_lt (child_max_key rest) min_key || key_lt max_key c.key) ≡ true
        → collect_children collect min_key max_key (c ∷ rest) ≡ ok more
    unfolding collect_children
    skips c rest more e h = ground (arith, e, h)

    visits :
        (c : BafsInternalItem) (rest : List BafsInternalItem) (items more : Items)
        → collect_children collect min_key max_key rest ≡ ok more
        → collect c.child_block ≡ ok items
        → (key_lt (child_max_key rest) min_key || key_lt max_key c.key) ≡ false
        → collect_children collect min_key max_key (c ∷ rest) ≡ ok (items ++ more)
    unfolding collect_children
    visits c rest items more e f h = ground (arith, e, f, h)

    -- One child before the rest.
    step :
        (c : BafsInternalItem) (rest : List BafsInternalItem) (lo hi : ℕ) (m1 m2 : Items)
        → IsInternalItem c
        → All IsInternalItem rest
        → Within lo hi m1
        → Collected c.child_block m1
        → (rank c.key ≤ rank max_key) ⊎ (rank c.key ≤ lo)
        → (rank (child_max_key rest) < rank min_key → hi ≤ rank min_key)
        → collect_children collect min_key max_key rest
          ≡ ok (between (rank min_key) (rank max_key) m2)
        → collect_children collect min_key max_key (c ∷ rest)
          ≡ ok (between (rank min_key) (rank max_key) (m1 ++ m2))
    step c rest lo hi m1 m2 cf rf w e head below rec =
        elim (Bool-cases (key_lt (child_max_key rest) min_key || key_lt max_key c.key)) [
          | inl skip ↦
              skips c rest _ rec skip
              ∙ ap ok (
                  sym (
                    between-append (rank min_key) (rank max_key) m1 m2
                    ∙ ap (λ n. n ++ between (rank min_key) (rank max_key) m2) (nothing skip)))
          | inr visit ↦
              visits c rest _ _ rec e visit
              ∙ ap ok (sym (between-append (rank min_key) (rank max_key) m1 m2))
        ]
      where
        nothing :
            (key_lt (child_max_key rest) min_key || key_lt max_key c.key) ≡ true
            → between (rank min_key) (rank max_key) m1 ≡ []
        nothing skip =
            let a = key_lt-rank (child_max_key rest) min_key (child_max_key-IsKey rest rf) fmin in
            let b = key_lt-rank max_key c.key fmax cf.key_fits in
            elim (Bool-cases (ltb (rank (child_max_key rest)) (rank min_key))) [
              | inl before ↦
                  between_below (rank min_key) (rank max_key) lo hi m1 w (below (ltb→lt _ _ before))
              | inr other ↦
                  let after : rank max_key < rank c.key = ground arith in
                  elim head [
                    | inl covered ↦ absurd (omega arith)
                    | inr starts ↦
                        between_above (rank min_key) (rank max_key) lo hi m1 w (omega arith)
                  ]
            ]

    abbrev pub Head : ℕ → List BafsInternalItem → Type 0
    Head lo [] = Unit
    Head lo (c ∷ _) = (rank c.key ≤ rank max_key) ⊎ (rank c.key ≤ lo)

    no_children : collect_children collect min_key max_key [] ≡ ok []
    unfolding collect_children
    no_children = refl

    largest : rank (child_max_key []) + 1 ≡ rank_limit
    unfolding rank
    largest = omega arith

    pub collect_children_lem :
        (P : Claim) (R : ℕ → Type 0)
        → ((b l h : ℕ) (n : Items) → P b l h n → Within l h n)
        → ((b l h : ℕ) (n : Items) → h ≤ rank_limit → P b l h n → R b → Collected b n)
        → (lo hi : ℕ) (items : List BafsInternalItem) (m : Items) → hi ≤ rank_limit
        → Children P lo hi items m
        → All IsInternalItem items
        → All (λ c. R c.child_block) items
        → Head lo items
        → collect_children collect min_key max_key items
          ≡ ok (between (rank min_key) (rank max_key) m)
    collect_children_lem P R bounded reads lo hi [] m top h fits rs head = absurd h
    collect_children_lem P R bounded reads lo hi (x ∷ []) m top h (f, fs) (r, rs) head =
        step x [] lo hi m [] f tt (bounded x.child_block lo hi m h)
          (reads x.child_block lo hi m top h r) head
          (λ b. absurd (omega (arith, largest, rank-lt min_key fmin)))
          (no_children ∙ nothing_between)
        ∙ ap (λ n. ok (between (rank min_key) (rank max_key) n)) (append-nil m)
      where
        nothing_between : ok [] ≡ ok (between (rank min_key) (rank max_key) [])
        nothing_between = ap ok (sym (between-nil (rank min_key) (rank max_key)))
    collect_children_lem P R bounded reads lo hi (x ∷ d ∷ more) m top (m1, m2, whole, l, h, hs)
          (f, fs) (r, rs) head =
        let w = Children-Within P bounded (rank d.key) hi (d ∷ more) m2 hs in
        let t : rank d.key ≤ rank_limit = omega (arith, Within-le (rank d.key) hi m2 w) in
        step x (d ∷ more) lo (rank d.key) m1 m2 f fs (bounded x.child_block lo (rank d.key) m1 h)
          (reads x.child_block lo (rank d.key) m1 t h r) head (λ b. omega arith)
          (collect_children_lem P R bounded reads (rank d.key) hi (d ∷ more) m2 top hs fs rs
            (inr (omega arith)))
        ∙ ap (λ n. ok (between (rank min_key) (rank max_key) n)) (sym whole)

module _ (device : Reader) (cache : DirtyCache) (min_key max_key : BafsKey) (fuel block : ℕ)
    (node : BafsTreeNode) where
  pub collect_range-leaf :
      read_tree_node device cache block ≡ ok node
      → node.level ≡ 0
      → collect_range (suc fuel) device cache min_key max_key block
        ≡ ok (filter_range min_key max_key node.leaf_items)
  unfolding collect_range
  collect_range-leaf e l = ground (arith, e)

  pub collect_range-internal :
      read_tree_node device cache block ≡ ok node
      → 0 < node.level
      → collect_range (suc fuel) device cache min_key max_key block
        ≡ collect_children
            (collect_range fuel device cache min_key max_key)
            min_key
            max_key
            node.internal_items
  unfolding collect_range
  collect_range-internal e l = ground (arith, e)

module _ (device : Reader) (s : TreeState) (bound : ℕ) (min_key max_key : BafsKey)
    (fmin : IsKey min_key) (fmax : IsKey max_key) where
  collect_range_lem :
      (fuel depth block lo hi : ℕ) (m : Items)
      → hi ≤ rank_limit
      → IsTree (view device s) bound depth block lo hi m
      → Reaches (view device s) (rank max_key) depth block
      → depth < fuel
      → collect_range fuel device s.dirty_cache min_key max_key block
        ≡ ok (between (rank min_key) (rank max_key) m)
  collect_range_lem zero depth block lo hi m top t r d = absurd (omega arith)
  collect_range_lem (suc fuel) zero block lo hi m top t r d =
      collect_range-leaf device s.dirty_cache min_key max_key fuel block t.node t.reads
        t.shape.is_leaf
      ∙ ap ok (filter_range_lem min_key max_key fmin fmax t.node.leaf_items t.shape.keys_fit)
      ∙ ap (λ items. ok (between (rank min_key) (rank max_key) items)) t.holds
  collect_range_lem (suc fuel) (suc depth) block lo hi m top t r d =
      let v = view device s in
      let same : r.node ≡ t.node = cc (r.reads, t.reads) in
      let head = subst (λ n. HeadsBelow (rank max_key) n.internal_items) same r.head in
      let below =
        subst (λ n. All (λ c. Reaches v (rank max_key) depth c.child_block) n.internal_items) same
          r.children in
      collect_range-internal device s.dirty_cache min_key max_key fuel block t.node t.reads
        t.shape.is_internal
      ∙ collect_children_lem min_key max_key fmin fmax
          (collect_range fuel device s.dirty_cache min_key max_key) (IsTree v bound depth)
          (Reaches v (rank max_key) depth) (IsTree-Within v bound depth)
          (λ b l h n top' t' r'. collect_range_lem fuel depth b l h n top' t' r' (omega arith)) lo
          hi t.node.internal_items m top t.children t.shape.items_fit below
          (first t.node.internal_items head)
    where
      first :
          (items : List BafsInternalItem)
          → HeadsBelow (rank max_key) items
          → Head min_key max_key fmin fmax
              (collect_range fuel device s.dirty_cache min_key max_key)
              lo
              items
      first [] h = tt
      first (c ∷ _) h = inl h

  -- The range scan between two keys of their widths of a sound tree of fewer than 256 levels below
  -- its root, in which no leftmost separator is above the upper key, returns the items of the map
  -- whose keys lie between the two keys, in order.
  pub iterate_tree_range_lem :
      (depth root : ℕ) (m : Items)
      → IsTree (view device s) bound depth root 0 rank_limit m
      → Reaches (view device s) (rank max_key) depth root
      → depth < max_depth
      → iterate_tree_range device s.dirty_cache root min_key max_key
        ≡ ok (between (rank min_key) (rank max_key) m)
  unfolding iterate_tree_range
  iterate_tree_range_lem depth root m t r d =
      collect_range_lem max_depth depth root 0 rank_limit m (omega arith) t r d
