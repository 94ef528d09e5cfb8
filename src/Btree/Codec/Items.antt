-- ===== src/Btree/Codec/Items.antt =====
-- The loops over the items of a node in `serialise_node_to_block` and `deserialise_node_from_block`.
use bazzulto_bafs.Base.{
  ℕ, suc, ◌+◌, ◌-◌, ◌*◌, ◌%◌, ◌^◌, ◌≤◌, ◌<◌, ◌≡◌, refl, ◌∙◌, inl, inr, List, [], ◌∷◌, length, arith,
  ltb, false, drop,
}
use native.Mathlib.Nat.{add_assoc, add-zero}
use bazzulto_bafs.Bytes.{
  Bytes, All, to_le_bytes, read_le, slice, overwrite, from_le_bytes-to_le_bytes, length-to_le_bytes,
}
use bazzulto_bafs.Bytes.Slices.{
  length-overwrite, slice-overwrite, slice-overwrite_before, slice-overwrite_after, slice-drop,
}
use bazzulto_bafs.Error.{ok}
use bazzulto_bafs.Btree.Key.{BafsKey, IsKey}
use bazzulto_bafs.Btree.Node.{BafsLeafItem, BafsInternalItem, total_value_bytes, block_size}
use bazzulto_bafs.Btree.Codec.{
  write_internal_items, write_leaf_items, read_internal_items, read_leaf_items, deserialise_key,
}
use bazzulto_bafs.Btree.Codec.Writes.{
  HasFields, SameOutside, write_fields, write_fields-SameOutside, write_fields-HasFields,
  HasFields-SameOutside, internal_fields, leaf_fields, internal_item_ok, leaf_item_ok, fields_size,
}

pub SameOutside-trans :
    (lo1 hi1 lo2 hi2 lo hi : ℕ) {a b c : Bytes}
    → lo ≤ lo1
    → lo ≤ lo2
    → hi1 ≤ hi
    → hi2 ≤ hi
    → SameOutside lo1 hi1 a b
    → SameOutside lo2 hi2 b c
    → SameOutside lo hi a c
SameOutside-trans lo1 hi1 lo2 hi2 lo hi l1 l2 h1 h2 s t = record {
  same_length = t.same_length ∙ s.same_length;
  low = λ q n h. t.low q n (omega arith) ∙ s.low q n (omega arith);
  high = λ q n h. t.high q n (omega arith) ∙ s.high q n (omega arith);
}

pub SameOutside-refl : (lo hi : ℕ) (a : Bytes) → SameOutside lo hi a a
SameOutside-refl lo hi a = record { same_length = refl; low = λ q n h. refl; high = λ q n h. refl }

pub record IsInternalItem (item : BafsInternalItem) : Type 0 where
  pub key_fits : IsKey item.key
  pub child_fits : item.child_block < 2 ^ 64
  pub generation_fits : item.child_generation < 2 ^ 64

abbrev pub HasInternal : List BafsInternalItem → ℕ → Bytes → Type 0
HasInternal [] p buf = Unit
HasInternal (item ∷ rest) p buf =
    HasFields (internal_fields item) p buf × HasInternal rest (p + 33) buf

internal_fields_size : (item : BafsInternalItem) → fields_size (internal_fields item) ≡ 33
internal_fields_size item = simp length-to_le_bytes

leaf_fields_size : (item : BafsLeafItem) (at : ℕ) → fields_size (leaf_fields item at) ≡ 25
leaf_fields_size item at = simp length-to_le_bytes

pub record InternalWritten (items : List BafsInternalItem) (p : ℕ) (buf : Bytes) : Type 0 where
  pub buffer : Bytes
  pub written : write_internal_items items p buf ≡ ok buffer
  pub outside : SameOutside p (p + 33 * length items) buf buffer
  pub has : HasInternal items p buffer

pub write_internal_items_lem :
    (items : List BafsInternalItem) (p : ℕ) (buf : Bytes)
    → p + 33 * length items ≤ length buf
    → InternalWritten items p buf
unfolding write_internal_items
write_internal_items_lem [] p buf h = record {
  buffer = buf;
  written = refl;
  outside = SameOutside-refl p _ buf;
  has = tt;
}
write_internal_items_lem (item ∷ rest) p buf h =
    let fs = internal_fields item in
    let buf1 = write_fields fs p buf in
    let size = internal_fields_size item in
    let out1 = write_fields-SameOutside fs p buf in
    let ih = write_internal_items_lem rest (p + 33) buf1 (omega (arith, out1.same_length)) in
    record {
      buffer = ih.buffer;
      written = rw (internal_item_ok item p buf (omega arith)) ih.written;
      outside =
          SameOutside-trans p (p + fields_size fs) (p + 33) (p + 33 + 33 * length rest) p
            (p + 33 * suc (length rest)) (omega arith) (omega arith) (omega arith) (omega arith)
            out1 ih.outside;
      has = (
        HasFields-SameOutside fs p (p + 33) (p + 33 + 33 * length rest) buf1 ih.buffer ih.outside
            (inl (omega arith)) (write_fields-HasFields fs p buf (omega arith)),
        ih.has,
      );
    }

-- An integer read where it was written.
pub read_le_of :
    (n v p : ℕ) (buf : Bytes) → slice p n buf ≡ to_le_bytes n v → v < 256 ^ n → read_le p n buf ≡ v
unfolding read_le
read_le_of n v p buf e h = rw e (from_le_bytes-to_le_bytes n v h)

read_le-drop : (k p n : ℕ) (buf : Bytes) → read_le p n (drop k buf) ≡ read_le (k + p) n buf
unfolding read_le
read_le-drop k p n buf = rw slice-drop

key_read :
    (k : BafsKey) (p : ℕ) (buf : Bytes)
    → IsKey k
    → slice p 8 buf ≡ to_le_bytes 8 k.object_id
    → slice (p + 8) 1 buf ≡ to_le_bytes 1 k.item_type
    → slice (p + 9) 8 buf ≡ to_le_bytes 8 k.offset
    → deserialise_key (drop p buf) ≡ k
unfolding deserialise_key
key_read k p buf h e1 e2 e3 = ground (
  arith,
  read_le-drop p 0 8 buf,
  read_le-drop p 8 1 buf,
  read_le-drop p 9 8 buf,
  add-zero p,
  read_le_of 8 k.object_id p buf e1 (omega arith),
  read_le_of 1 k.item_type (p + 8) buf e2 (omega arith),
  read_le_of 8 k.offset (p + 9) buf e3 (omega arith),
)

internal_item_read :
    (item : BafsInternalItem) (p : ℕ) (buf : Bytes)
    → IsInternalItem item
    → HasFields (internal_fields item) p buf
    → (deserialise_key (drop p buf) ≡ item.key)
      × (read_le (p + 17) 8 buf ≡ item.child_block)
      × (read_le (p + 25) 8 buf ≡ item.child_generation)
internal_item_read item p buf h f =
    let (e1, r1) = simp (length-to_le_bytes, add_assoc) at f in
    let (e2, r2) = r1 in
    let (e3, r3) = r2 in
    let (e4, r4) = r3 in
    let (e5, _) = r4 in
    (
      key_read item.key p buf h.key_fits e1 e2 e3,
      read_le_of 8 item.child_block (p + 17) buf e4 h.child_fits,
      read_le_of 8 item.child_generation (p + 25) buf e5 h.generation_fits,
    )

pub read_internal_items_lem :
    (items : List BafsInternalItem) (p : ℕ) (buf : Bytes)
    → All IsInternalItem items
    → HasInternal items p buf
    → read_internal_items (length items) p buf ≡ items
unfolding read_internal_items
read_internal_items_lem [] p buf h f = refl
read_internal_items_lem (item ∷ rest) p buf (h, hs) (f, fs) =
    let (e1, e2, e3) = internal_item_read item p buf h f in
    rw (e1, e2, e3, read_internal_items_lem rest (p + 33) buf hs fs) refl

abbrev pub HasLeaf : List BafsLeafItem → ℕ → ℕ → Bytes → Type 0
HasLeaf [] p vc buf = Unit
HasLeaf (item ∷ rest) p vc buf =
    HasFields (leaf_fields item (vc - length item.value)) p buf
    × (slice (vc - length item.value) (length item.value) buf ≡ item.value)
    × HasLeaf rest (p + 25) (vc - length item.value) buf

pub record LeafWritten (items : List BafsLeafItem) (p vc : ℕ) (buf : Bytes) : Type 0 where
  pub buffer : Bytes
  pub written : write_leaf_items items p vc buf ≡ ok buffer
  pub outside : SameOutside p vc buf buffer
  pub has : HasLeaf items p vc buffer

pub write_leaf_items_lem :
    (items : List BafsLeafItem) (p vc : ℕ) (buf : Bytes)
    → p + 25 * length items + total_value_bytes items ≤ vc
    → vc ≤ length buf
    → LeafWritten items p vc buf
unfolding write_leaf_items total_value_bytes
write_leaf_items_lem [] p vc buf h hv = record {
  buffer = buf;
  written = refl;
  outside = SameOutside-refl p vc buf;
  has = tt;
}
write_leaf_items_lem (item ∷ rest) p vc buf h hv =
    let size = length item.value in
    let at = vc - size in
    let fs = leaf_fields item at in
    let buf0 = overwrite at item.value buf in
    let buf1 = write_fields fs p buf0 in
    let fsize = leaf_fields_size item at in
    let len0 = length-overwrite at item.value buf in
    let out0 : SameOutside p vc buf buf0 = record {
      same_length = len0;
      low = λ q n below. slice-overwrite_before q n at item.value buf (omega arith);
      high = λ q n above. slice-overwrite_after q n at item.value buf (omega arith);
    } in
    let out1 = write_fields-SameOutside fs p buf0 in
    let ih =
      write_leaf_items_lem rest (p + 25) at buf1 (omega arith) (omega (arith, out1.same_length)) in
    record {
      buffer = ih.buffer;
      written = rw (leaf_item_ok item p vc buf (omega arith) hv (omega arith)) ih.written;
      outside =
          SameOutside-trans p vc p vc p vc (omega arith) (omega arith) (omega arith) (omega arith)
            out0
            (SameOutside-trans p (p + fields_size fs) (p + 25) at p vc (omega arith) (omega arith)
              (omega arith) (omega arith) out1 ih.outside);
      has = (
        HasFields-SameOutside fs p (p + 25) at buf1 ih.buffer ih.outside (inl (omega arith))
            (write_fields-HasFields fs p buf0 (omega arith)),
        ih.outside.high at size (omega arith)
            ∙ out1.high at size (omega arith)
            ∙ slice-overwrite at size item.value buf refl (omega arith),
        ih.has,
      );
    }

leaf_item_read :
    (item : BafsLeafItem) (p at : ℕ) (buf : Bytes)
    → IsKey item.key
    → at + length item.value ≤ block_size
    → HasFields (leaf_fields item at) p buf
    → (deserialise_key (drop p buf) ≡ item.key)
      × (read_le (p + 17) 4 buf ≡ at)
      × (read_le (p + 21) 4 buf ≡ length item.value)
leaf_item_read item p at buf h fits f =
    let (e1, r1) = simp (length-to_le_bytes, add_assoc) at f in
    let (e2, r2) = r1 in
    let (e3, r3) = r2 in
    let (e4, r4) = r3 in
    let (e5, _) = r4 in
    (
      key_read item.key p buf h e1 e2 e3,
      read_le_of 4 (at % 2 ^ 32) (p + 17) buf e4 (omega arith) ∙ omega arith,
      read_le_of 4 (length item.value % 2 ^ 32) (p + 21) buf e5 (omega arith) ∙ omega arith,
    )

pub read_leaf_items_lem :
    (items : List BafsLeafItem) (p vc : ℕ) (buf : Bytes)
    → All (λ item. IsKey item.key) items
    → total_value_bytes items ≤ vc
    → vc ≤ block_size
    → HasLeaf items p vc buf
    → read_leaf_items (length items) p buf ≡ ok items
unfolding read_leaf_items total_value_bytes
read_leaf_items_lem [] p vc buf h ht hv f = refl
read_leaf_items_lem (item ∷ rest) p vc buf (h, hs) ht hv (f, v, fs) =
    let at = vc - length item.value in
    let (e1, e2, e3) = leaf_item_read item p at buf h (omega arith) f in
    let ih = read_leaf_items_lem rest (p + 25) at buf hs (omega arith) (omega arith) fs in
    rw (e1, e2, e3, not_over, v, ih) refl
  where
    not_over : ltb block_size (vc - length item.value + length item.value) ≡ false
    not_over = ground arith

-- What was written survives a later write before it.
pub HasInternal-above :
    (items : List BafsInternalItem) (p lo hi : ℕ) (a b : Bytes)
    → SameOutside lo hi a b
    → hi ≤ p
    → HasInternal items p a
    → HasInternal items p b
HasInternal-above [] p lo hi a b s h f = tt
HasInternal-above (item ∷ rest) p lo hi a b s h (f, fs) = (
  HasFields-SameOutside (internal_fields item) p lo hi a b s (inr h) f,
  HasInternal-above rest (p + 33) lo hi a b s (omega arith) fs,
)

pub HasLeaf-above :
    (items : List BafsLeafItem) (p vc lo hi : ℕ) (a b : Bytes)
    → SameOutside lo hi a b
    → hi ≤ p
    → p + 25 * length items + total_value_bytes items ≤ vc
    → HasLeaf items p vc a
    → HasLeaf items p vc b
unfolding total_value_bytes
HasLeaf-above [] p vc lo hi a b s h hv f = tt
HasLeaf-above (item ∷ rest) p vc lo hi a b s h hv (f, v, fs) =
    let size = length item.value in
    (
      HasFields-SameOutside (leaf_fields item (vc - size)) p lo hi a b s (inr h) f,
      s.high (vc - size) size (omega arith) ∙ v,
      HasLeaf-above rest (p + 25) (vc - size) lo hi a b s (omega arith) (omega arith) fs,
    )
