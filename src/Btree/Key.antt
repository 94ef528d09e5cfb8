-- ===== src/Btree/Key.antt =====
-- The three-part key of src/btree.rs, compared lexicographically.
use Prim.Native.Nat.Ordering.{lt, eq, gt}
use bazzulto_bafs.Base.{
  ℕ, ◌+◌, ◌*◌, ◌^◌, ◌<◌, ◌≡◌, Bool, true, false, arith, compare, Ordering, leb, ltb,
}

abbrev pub item_type_inode : ℕ
item_type_inode = 1

abbrev pub item_type_directory_entry : ℕ
item_type_directory_entry = 2

abbrev pub item_type_extent_data : ℕ
item_type_extent_data = 3

abbrev pub item_type_checksum_entry : ℕ
item_type_checksum_entry = 5

pub record BafsKey : Type 0 where
  pub object_id : ℕ
  pub item_type : ℕ
  pub offset : ℕ

-- `BafsKey::new`
abbrev pub new : ℕ → ℕ → ℕ → BafsKey
new object_id item_type offset = record {
  object_id = object_id;
  item_type = item_type;
  offset = offset;
}

abbrev then : Ordering → Ordering → Ordering
then eq second = second
then first _ = first

-- The derived `Ord`.
unfoldable pub cmp : BafsKey → BafsKey → Ordering
cmp a b =
    then (compare a.object_id b.object_id)
      (then (compare a.item_type b.item_type) (compare a.offset b.offset))

-- `a <= b`, `a < b`
unfoldable pub key_le : BafsKey → BafsKey → Bool
key_le a b = elim (cmp a b) [ gt ↦ false | _ ↦ true ]

unfoldable pub key_lt : BafsKey → BafsKey → Bool
key_lt a b = elim (cmp a b) [ lt ↦ true | _ ↦ false ]

-- The fields fit u64, u8 and u64.
pub record IsKey (k : BafsKey) : Type 0 where
  pub object_fits : k.object_id < 2 ^ 64
  pub type_fits : k.item_type < 256
  pub offset_fits : k.offset < 2 ^ 64

-- The place of a key among all keys; it orders them as `cmp` does.
unfoldable pub rank : BafsKey → ℕ
rank k = k.object_id * 2 ^ 72 + k.item_type * 2 ^ 64 + k.offset

abbrev pub rank_limit : ℕ
rank_limit = 2 ^ 136

-- The derived order of keys whose fields fit their widths is the order of their ranks.
pub cmp-rank : (a b : BafsKey) → IsKey a → IsKey b → cmp a b ≡ compare (rank a) (rank b)
unfolding cmp rank
cmp-rank a b ha hb = ground arith

pub key_le-rank : (a b : BafsKey) → IsKey a → IsKey b → key_le a b ≡ leb (rank a) (rank b)
unfolding key_le
key_le-rank a b ha hb = ground (arith, cmp-rank a b)

pub key_lt-rank : (a b : BafsKey) → IsKey a → IsKey b → key_lt a b ≡ ltb (rank a) (rank b)
unfolding key_lt
key_lt-rank a b ha hb = ground (arith, cmp-rank a b)

pub rank-lt : (a : BafsKey) → IsKey a → rank a < rank_limit
unfolding rank
rank-lt a h = omega arith

pub rank_injective : (a b : BafsKey) → IsKey a → IsKey b → rank a ≡ rank b → a ≡ b
unfolding rank
rank_injective a b ha hb e = ground arith
