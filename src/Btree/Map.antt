-- ===== src/Btree/Map.antt =====
-- The abstract view of a tree: its items in the order of their keys, as a finite map.
pub mod Sizes
pub mod Single
use bazzulto_bafs.Base.{
  ℕ, zero, suc, ◌+◌, ◌≤◌, ◌<◌, ◌≡◌, refl, ap, Bool, true, false, Option, none, some, List, [], ◌∷◌,
  ◌++◌, length, get_elem?, ltb, ◌==◌, ◌&&◌, leb, if◌then◌else◌, arith,
}
use bazzulto_bafs.Bytes.{Bytes}
use bazzulto_bafs.Btree.Key.{BafsKey, rank}
use bazzulto_bafs.Btree.Node.{BafsLeafItem}

abbrev pub Items : Type 0
Items = List BafsLeafItem

-- Ranks rise strictly from `lo` on and stay below `hi`.
abbrev pub Within : ℕ → ℕ → Items → Type 0
Within lo hi [] = lo ≤ hi
Within lo hi (item ∷ rest) = (lo ≤ rank item.key) × Within (rank item.key + 1) hi rest

-- The value under the key of rank r.
unfoldable pub find : ℕ → Items → Option Bytes
find r [] = none
find r (item ∷ rest) = if rank item.key == r then some item.value else find r rest

-- Insert, or replace the item of the same key.
unfoldable pub put : BafsLeafItem → Items → Items
put new [] = new ∷ []
put new (item ∷ rest) =
    let more = put new rest in
    if ltb (rank new.key) (rank item.key)
    then new ∷ item ∷ rest
    else if rank item.key == rank new.key
    then new ∷ rest
    else item ∷ more

unfoldable pub remove : ℕ → Items → Items
remove r [] = []
remove r (item ∷ rest) =
    let more = remove r rest in if rank item.key == r then rest else item ∷ more

-- The items whose ranks lie in [lo, hi].
unfoldable pub between : ℕ → ℕ → Items → Items
between lo hi [] = []
between lo hi (item ∷ rest) =
    let more = between lo hi rest in
    if leb lo (rank item.key) && leb (rank item.key) hi then item ∷ more else more

pub Within-le : (lo hi : ℕ) (m : Items) → Within lo hi m → lo ≤ hi
Within-le lo hi [] w = w
Within-le lo hi (item ∷ rest) (h, w) = omega (arith, Within-le (rank item.key + 1) hi rest w)

pub Within-weaken :
    (lo hi lo' hi' : ℕ) (m : Items) → lo' ≤ lo → hi ≤ hi' → Within lo hi m → Within lo' hi' m
Within-weaken lo hi lo' hi' [] a b w = omega arith
Within-weaken lo hi lo' hi' (item ∷ rest) a b (h, w) =
    (omega arith, Within-weaken (rank item.key + 1) hi _ hi' rest (omega arith) b w)

pub Within-append :
    (lo mid hi : ℕ) (m n : Items) → Within lo mid m → Within mid hi n → Within lo hi (m ++ n)
Within-append lo mid hi [] n w v = Within-weaken mid hi lo hi n w (omega arith) v
Within-append lo mid hi (item ∷ rest) n (h, w) v =
    (h, Within-append (rank item.key + 1) mid hi rest n w v)

pub get_elem?-ge :
    (lo hi : ℕ) (m : Items) (i : ℕ) {item : BafsLeafItem}
    → Within lo hi m
    → get_elem? m i ≡ some item
    → lo ≤ rank item.key
get_elem?-ge lo hi [] i w e = cc
get_elem?-ge lo hi (x ∷ xs) zero w e = ground arith
get_elem?-ge lo hi (x ∷ xs) (suc i) (h, w) e =
    omega (arith, get_elem?-ge (rank x.key + 1) hi xs i w e)

-- A key outside the bounds is not there.
pub find_below : (r lo hi : ℕ) (m : Items) → Within lo hi m → r < lo → find r m ≡ none
unfolding find
find_below r lo hi [] w h = refl
find_below r lo hi (x ∷ xs) (l, w) h =
    ground (arith, find_below r (rank x.key + 1) hi xs w (omega arith))

pub find_above : (r lo hi : ℕ) (m : Items) → Within lo hi m → hi ≤ r → find r m ≡ none
unfolding find
find_above r lo hi [] w h = refl
find_above r lo hi (x ∷ xs) (l, w) h =
    ground (arith, find_above r (rank x.key + 1) hi xs w h, Within-le (rank x.key + 1) hi xs w)

pub find-append_left :
    (r lo mid : ℕ) (m n : Items) → Within lo mid m → mid ≤ r → find r (m ++ n) ≡ find r n
unfolding find
find-append_left r lo mid [] n w h = refl
find-append_left r lo mid (x ∷ xs) n (l, w) h =
    ground
      (arith, find-append_left r (rank x.key + 1) mid xs n w h, Within-le (rank x.key + 1) mid xs w)

pub find-append_right :
    (r mid hi : ℕ) (m n : Items) → Within mid hi n → r < mid → find r (m ++ n) ≡ find r m
unfolding find
find-append_right r mid hi [] n w h = find_below r mid hi n w h
find-append_right r mid hi (x ∷ xs) n w h = ground (arith, find-append_right r mid hi xs n w h)

pub put-append_left :
    (new : BafsLeafItem) (lo mid : ℕ) (m n : Items)
    → Within lo mid m
    → mid ≤ rank new.key
    → put new (m ++ n) ≡ m ++ put new n
unfolding put
put-append_left new lo mid [] n w h = refl
put-append_left new lo mid (x ∷ xs) n (l, w) h =
    ground (
      arith,
      put-append_left new (rank x.key + 1) mid xs n w h,
      Within-le (rank x.key + 1) mid xs w,
    )

put_below :
    (new : BafsLeafItem) (mid hi : ℕ) (n : Items)
    → Within mid hi n
    → rank new.key < mid
    → put new n ≡ new ∷ n
unfolding put
put_below new mid hi [] w h = refl
put_below new mid hi (x ∷ xs) (l, w) h = ground arith

pub put-append_right :
    (new : BafsLeafItem) (mid hi : ℕ) (m n : Items)
    → Within mid hi n
    → rank new.key < mid
    → put new (m ++ n) ≡ put new m ++ n
unfolding put
put-append_right new mid hi [] n w h = put_below new mid hi n w h
put-append_right new mid hi (x ∷ xs) n w h = ground (arith, put-append_right new mid hi xs n w h)

pub remove-append_left :
    (r lo mid : ℕ) (m n : Items) → Within lo mid m → mid ≤ r → remove r (m ++ n) ≡ m ++ remove r n
unfolding remove
remove-append_left r lo mid [] n w h = refl
remove-append_left r lo mid (x ∷ xs) n (l, w) h =
    ground (
      arith,
      remove-append_left r (rank x.key + 1) mid xs n w h,
      Within-le (rank x.key + 1) mid xs w,
    )

remove_below : (r mid hi : ℕ) (n : Items) → Within mid hi n → r < mid → remove r n ≡ n
unfolding remove
remove_below r mid hi [] w h = refl
remove_below r mid hi (x ∷ xs) (l, w) h =
    ground (arith, remove_below r (rank x.key + 1) hi xs w (omega arith))

pub remove-append_right :
    (r mid hi : ℕ) (m n : Items) → Within mid hi n → r < mid → remove r (m ++ n) ≡ remove r m ++ n
unfolding remove
remove-append_right r mid hi [] n w h = remove_below r mid hi n w h
remove-append_right r mid hi (x ∷ xs) n w h = ground (arith, remove-append_right r mid hi xs n w h)

pub between-append :
    (lo hi : ℕ) (m n : Items) → between lo hi (m ++ n) ≡ between lo hi m ++ between lo hi n
unfolding between
between-append lo hi [] n = refl
between-append lo hi (x ∷ xs) n = ground (arith, between-append lo hi xs n)

pub put-Within :
    (new : BafsLeafItem) (lo hi : ℕ) (m : Items)
    → Within lo hi m
    → lo ≤ rank new.key
    → rank new.key < hi
    → Within lo hi (put new m)
unfolding put
put-Within new lo hi [] w a b = omega arith
put-Within new lo hi (x ∷ xs) (l, w) a b = ground (arith, put-Within new (rank x.key + 1) hi xs w)

-- What is read after an insertion.
pub find-put :
    (new : BafsLeafItem) (r lo hi : ℕ) (m : Items)
    → Within lo hi m
    → find r (put new m) ≡ (if rank new.key == r then some new.value else find r m)
unfolding find put
find-put new r lo hi [] w = refl
find-put new r lo hi (x ∷ xs) (l, w) = ground (arith, find-put new r (rank x.key + 1) hi xs w)

-- What is read after a removal.
pub find-remove :
    (q r lo hi : ℕ) (m : Items)
    → Within lo hi m
    → find r (remove q m) ≡ (if q == r then none else find r m)
unfolding find remove
find-remove q r lo hi [] w = ground arith
find-remove q r lo hi (x ∷ xs) (l, w) =
    ground (arith, find-remove q r (rank x.key + 1) hi xs w, find_below r (rank x.key + 1) hi xs w)
