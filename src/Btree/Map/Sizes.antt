-- ===== src/Btree/Map/Sizes.antt =====
-- How the operations on the map change its length and its bytes, and what stays true of its items.
use bazzulto_bafs.Base.{
  ℕ, zero, suc, ◌+◌, ◌≤◌, ◌≡◌, some, [], ◌∷◌, ◌++◌, ◌*◌, length, get_elem?, take, drop, arith,
}
use mathlib.Core.Path.{subst}
use bazzulto_bafs.Bytes.{Bytes, All}
use bazzulto_bafs.Btree.Key.{rank}
use bazzulto_bafs.Btree.Node.{BafsLeafItem, total_value_bytes}
use bazzulto_bafs.Btree.Map.{Items, Within, Within-weaken, find, put, remove}

module _ (P : BafsLeafItem → Type 0) where
  pub All-remove : (r : ℕ) (m : Items) → All P m → All P (remove r m)
  unfolding remove
  All-remove r [] h = tt
  All-remove r (x ∷ xs) (h, hs) = ground (arith, All-remove r xs hs)

  pub All-put : (new : BafsLeafItem) (m : Items) → P new → All P m → All P (put new m)
  unfolding put
  All-put new [] h hs = (h, tt)
  All-put new (x ∷ xs) h (y, ys) = ground (arith, All-put new xs h ys)

pub remove-Within : (r lo hi : ℕ) (m : Items) → Within lo hi m → Within lo hi (remove r m)
unfolding remove
remove-Within r lo hi [] w = w
remove-Within r lo hi (x ∷ xs) (l, w) =
    let rest = remove-Within r (rank x.key + 1) hi xs w in
    let all = Within-weaken (rank x.key + 1) hi lo hi xs (omega arith) (omega arith) w in
    ground (arith, rest, all)

pub length-remove :
    (r : ℕ) (m : Items) {value : Bytes} → find r m ≡ some value → length (remove r m) + 1 ≡ length m
unfolding remove find
length-remove r [] h = cc
length-remove r (x ∷ xs) {value} h = ground (arith, length-remove r xs {value = value})

pub total_value_bytes-remove :
    (r : ℕ) (m : Items) → total_value_bytes (remove r m) ≤ total_value_bytes m
unfolding remove total_value_bytes
total_value_bytes-remove r [] = omega arith
total_value_bytes-remove r (x ∷ xs) = ground (arith, total_value_bytes-remove r xs)

pub length-put : (new : BafsLeafItem) (m : Items) → length (put new m) ≤ length m + 1
unfolding put
length-put new [] = omega arith
length-put new (x ∷ xs) = ground (arith, length-put new xs)

pub total_value_bytes-put :
    (new : BafsLeafItem) (m : Items)
    → total_value_bytes (put new m) ≤ total_value_bytes m + length new.value
unfolding put total_value_bytes
total_value_bytes-put new [] = omega arith
total_value_bytes-put new (x ∷ xs) = ground (arith, total_value_bytes-put new xs)

pub total_value_bytes-append :
    (m n : Items) → total_value_bytes (m ++ n) ≡ total_value_bytes m + total_value_bytes n
unfolding total_value_bytes
total_value_bytes-append [] n = omega arith
total_value_bytes-append (x ∷ xs) n = omega (arith, total_value_bytes-append xs n)

pub total_value_bytes-le :
    (m : Items) → All (λ item. length item.value ≤ 267) m → total_value_bytes m ≤ length m * 267
unfolding total_value_bytes
total_value_bytes-le [] h = omega arith
total_value_bytes-le (x ∷ xs) (h, hs) = omega (arith, total_value_bytes-le xs hs)

-- Both sides of a cut, at the key of the item there.
pub Within-take :
    (lo hi : ℕ) (m : Items) (i : ℕ) {item : BafsLeafItem}
    → Within lo hi m
    → get_elem? m i ≡ some item
    → Within lo (rank item.key) (take i m)
unfolding take
Within-take lo hi [] i w e = cc
Within-take lo hi (x ∷ xs) zero {item} (l, w) e =
    let same : x ≡ item = cc in subst (λ y. lo ≤ rank y.key) same l
Within-take lo hi (x ∷ xs) (suc i) (l, w) e = (l, Within-take (rank x.key + 1) hi xs i w e)

pub Within-drop :
    (lo hi : ℕ) (m : Items) (i : ℕ) {item : BafsLeafItem}
    → Within lo hi m
    → get_elem? m i ≡ some item
    → Within (rank item.key) hi (drop i m)
unfolding drop
Within-drop lo hi [] i w e = cc
Within-drop lo hi (x ∷ xs) zero {item} (l, w) e =
    let same : x ≡ item = cc in subst (λ y. Within (rank y.key) hi (x ∷ xs)) same (omega arith, w)
Within-drop lo hi (x ∷ xs) (suc i) (l, w) e = Within-drop (rank x.key + 1) hi xs i w e
