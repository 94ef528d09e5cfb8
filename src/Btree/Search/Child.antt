-- ===== src/Btree/Search/Child.antt =====
-- The choice of a child, on the children of an internal node and the parts of the map they hold.
use bazzulto_bafs.Base.{
  ℕ, zero, suc, ◌≤◌, ◌<◌, ◌≡◌, refl, sym, ap, ◌∙◌, some, List, [], ◌∷◌, ◌++◌, get_elem?, insert_at,
  modify_at, arith,
}
use mathlib.Core.List.{append_assoc, append-nil}
use bazzulto_bafs.Btree.Key.{rank}
use bazzulto_bafs.Btree.Node.{BafsInternalItem}
use bazzulto_bafs.Btree.Map.{Items, Within, Within-append}

-- A claim on the subtree at a block, with the ranks that bound it and the items that it holds.
abbrev pub Claim : Type 1
Claim = (block lo hi : ℕ) → Items → Type 0

-- The children cover [lo, hi); the key of each but the first is the lower bound of its subtree.
abbrev pub Children : Claim → ℕ → ℕ → List BafsInternalItem → Items → Type 0
Children P lo hi [] m = ⊥
Children P lo hi (c ∷ []) m = P c.child_block lo hi m
Children P lo hi (c ∷ d ∷ rest) m =
    (m1 : Items) × (m2 : Items) × (m ≡ m1 ++ m2)
    × (lo ≤ rank d.key)
    × P c.child_block lo (rank d.key) m1
    × Children P (rank d.key) hi (d ∷ rest) m2

-- `internal_items[i].child_block = child; internal_items[i].child_generation = generation`
abbrev pub set_child : ℕ → ℕ → BafsInternalItem → BafsInternalItem
set_child child generation item = record item { child_block = child; child_generation = generation }

-- The key t belongs to the child at index i.
abbrev pub Fits : List BafsInternalItem → ℕ → ℕ → Type 0
Fits [] i t = ⊥
Fits (c ∷ []) zero t = Unit
Fits (c ∷ []) (suc i) t = ⊥
Fits (c ∷ d ∷ rest) zero t = t < rank d.key
Fits (c ∷ d ∷ rest) (suc i) t = (rank d.key ≤ t) × Fits (d ∷ rest) i t

-- What is known of the child at index i and of the rest; a claim Q that all P-children satisfy may
-- be rebuilt with a new child, or with two in its place.
pub record Routed (P : Claim) (lo hi : ℕ) (items : List BafsInternalItem) (m : Items) (i t : ℕ)
    : Type 1 where
  pub item : BafsInternalItem
  pub at : get_elem? items i ≡ some item
  pub low : ℕ
  pub high : ℕ
  pub before : Items
  pub held : Items
  pub after : Items
  pub whole : m ≡ before ++ (held ++ after)
  pub child : P item.child_block low high held
  pub above : low ≤ t
  pub below : t < high
  pub left : Within lo low before
  pub right : Within high hi after
  pub keep :
      (Q : Claim)
      → ((b l h : ℕ) (n : Items) → P b l h n → Q b l h n)
      → (block generation : ℕ) (held' : Items) → Q block low high held'
      → Children Q lo hi
          (modify_at i (set_child block generation) items)
          (before ++ (held' ++ after))
  pub split :
      (Q : Claim)
      → ((b l h : ℕ) (n : Items) → P b l h n → Q b l h n)
      → (block1 generation : ℕ) (new : BafsInternalItem) (held1 held2 : Items) → low ≤ rank new.key
      → rank new.key ≤ high
      → Q block1 low (rank new.key) held1
      → Q new.child_block (rank new.key) high held2
      → Children Q lo hi
          (insert_at (suc i) new (modify_at i (set_child block1 generation) items))
          (before ++ (held1 ++ (held2 ++ after)))

module _ (P : Claim) (bounded : (b l h : ℕ) (n : Items) → P b l h n → Within l h n) where
  pub Children-Within :
      (lo hi : ℕ) (items : List BafsInternalItem) (m : Items)
      → Children P lo hi items m
      → Within lo hi m
  Children-Within lo hi [] m h = absurd h
  Children-Within lo hi (c ∷ []) m h = bounded c.child_block lo hi m h
  Children-Within lo hi (c ∷ d ∷ rest) m (m1, m2, e, l, h, hs) = rw e (
      Within-append lo (rank d.key) hi m1 m2 (bounded c.child_block lo (rank d.key) m1 h)
        (Children-Within (rank d.key) hi (d ∷ rest) m2 hs))

pub Children-map :
    (P Q : Claim) (lo hi : ℕ) (items : List BafsInternalItem) (m : Items)
    → ((b l h : ℕ) (n : Items) → P b l h n → Q b l h n)
    → Children P lo hi items m
    → Children Q lo hi items m
Children-map P Q lo hi [] m mono h = absurd h
Children-map P Q lo hi (c ∷ []) m mono h = mono c.child_block lo hi m h
Children-map P Q lo hi (c ∷ d ∷ rest) m mono (m1, m2, e, l, h, hs) = (
  m1,
  m2,
  e,
  l,
  mono c.child_block lo (rank d.key) m1 h,
  Children-map P Q (rank d.key) hi (d ∷ rest) m2 mono hs,
)

module _ (Q : Claim) (lo hi block generation : ℕ) (c d : BafsInternalItem)
    (rest : List BafsInternalItem) (m1 m2 : Items) where
  Children-cons :
      (i : ℕ)
      → lo ≤ rank d.key
      → Q c.child_block lo (rank d.key) m1
      → Children Q (rank d.key) hi (modify_at i (set_child block generation) (d ∷ rest)) m2
      → Children Q lo hi (c ∷ modify_at i (set_child block generation) (d ∷ rest)) (m1 ++ m2)
  unfolding modify_at
  Children-cons zero l h hs = (m1, m2, refl, l, h, hs)
  Children-cons (suc i) l h hs = (m1, m2, refl, l, h, hs)

  Children-cons_split :
      (i : ℕ) (new : BafsInternalItem)
      → lo ≤ rank d.key
      → Q c.child_block lo (rank d.key) m1
      → Children Q
          (rank d.key)
          hi
          (insert_at (suc i) new (modify_at i (set_child block generation) (d ∷ rest)))
          m2
      → Children Q lo hi
          (c ∷ insert_at (suc i) new (modify_at i (set_child block generation) (d ∷ rest)))
          (m1 ++ m2)
  unfolding modify_at insert_at
  Children-cons_split zero new l h hs = (m1, m2, refl, l, h, hs)
  Children-cons_split (suc i) new l h hs = (m1, m2, refl, l, h, hs)

module _ (P : Claim) (bounded : (b l h : ℕ) (n : Items) → P b l h n → Within l h n) where
  pub Children-route :
      (lo hi : ℕ) (items : List BafsInternalItem) (m : Items) (i t : ℕ)
      → Children P lo hi items m
      → Fits items i t
      → lo ≤ t
      → t < hi
      → Routed P lo hi items m i t
  unfolding modify_at insert_at
  Children-route lo hi [] m i t h f a b = absurd h
  Children-route lo hi (c ∷ []) m zero t h f a b = record {
    item = c;
    at = refl;
    low = lo;
    high = hi;
    before = [];
    held = m;
    after = [];
    whole = sym (append-nil m);
    child = h;
    above = a;
    below = b;
    left = omega arith;
    right = omega arith;
    keep = λ Q mono block generation held' q. rw append-nil q;
    split = λ Q mono block1 generation new held1 held2 l1 l2 q1 q2.
        rw append-nil (held1, held2, refl, l1, q1, q2);
  }
  Children-route lo hi (c ∷ []) m (suc i) t h f a b = absurd f
  Children-route lo hi (c ∷ d ∷ rest) m zero t (m1, m2, e, l, h, hs) f a b = record {
    item = c;
    at = refl;
    low = lo;
    high = rank d.key;
    before = [];
    held = m1;
    after = m2;
    whole = e;
    child = h;
    above = a;
    below = f;
    left = omega arith;
    right = Children-Within P bounded (rank d.key) hi (d ∷ rest) m2 hs;
    keep = λ Q mono block generation held' q.
        (held', m2, refl, l, q, Children-map P Q (rank d.key) hi (d ∷ rest) m2 mono hs);
    split = λ Q mono block1 generation new held1 held2 l1 l2 q1 q2. (
      held1,
      held2 ++ m2,
      refl,
      l1,
      q1,
      (held2, m2, refl, l2, q2, Children-map P Q (rank d.key) hi (d ∷ rest) m2 mono hs),
    );
  }
  Children-route lo hi (c ∷ d ∷ rest) m (suc i) t (m1, m2, e, l, h, hs) (f, fs) a b =
      let r = Children-route (rank d.key) hi (d ∷ rest) m2 i t hs fs f b in
      record {
        item = r.item;
        at = r.at;
        low = r.low;
        high = r.high;
        before = m1 ++ r.before;
        held = r.held;
        after = r.after;
        whole = e ∙ ap (λ n. m1 ++ n) r.whole ∙ sym (append_assoc m1 r.before (r.held ++ r.after));
        child = r.child;
        above = r.above;
        below = r.below;
        left =
            Within-append lo (rank d.key) r.low m1 r.before
              (bounded c.child_block lo (rank d.key) m1 h) r.left;
        right = r.right;
        keep = λ Q mono block generation held' q. rw append_assoc (
            Children-cons Q lo hi block generation c d rest m1 (r.before ++ (held' ++ r.after)) i l
              (mono c.child_block lo (rank d.key) m1 h) (r.keep Q mono block generation held' q));
        split = λ Q mono block1 generation new held1 held2 l1 l2 q1 q2. rw append_assoc (
            Children-cons_split Q lo hi block1 generation c d rest m1
              (r.before ++ (held1 ++ (held2 ++ r.after))) i new l
              (mono c.child_block lo (rank d.key) m1 h)
              (r.split Q mono block1 generation new held1 held2 l1 l2 q1 q2));
      }
