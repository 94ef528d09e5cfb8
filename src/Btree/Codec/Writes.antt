-- ===== src/Btree/Codec/Writes.antt =====
-- The writes of one field or item into a block, as slices of the block.
use bazzulto_bafs.Base.{
  ℕ, ◌+◌, ◌-◌, ◌%◌, ◌^◌, ◌≤◌, ◌≡◌, refl, ◌∙◌, ◌⊎◌, inl, inr, List, [], ◌∷◌, ◌++◌, length, arith,
  le→leb, ltb, false,
}
use native.Mathlib.Nat.{add_assoc}
use bazzulto_bafs.Bytes.{Bytes, to_le_bytes, slice, overwrite, length-to_le_bytes}
use bazzulto_bafs.Bytes.Slices.{
  length-overwrite, slice-overwrite, slice-overwrite_before, slice-overwrite_after,
}
use bazzulto_bafs.Error.{ok, ◌>>=◌}
use bazzulto_bafs.Btree.Key.{BafsKey}
use bazzulto_bafs.Btree.Node.{BafsLeafItem, BafsInternalItem}
use bazzulto_bafs.Btree.Codec.{copy_from_slice, serialise_key, write_internal_item, write_leaf_item}

pub copy_ok :
    (buf : Bytes) (p : ℕ) (bs : Bytes)
    → p + length bs ≤ length buf
    → copy_from_slice buf p bs ≡ ok (overwrite p bs buf)
unfolding copy_from_slice
copy_ok buf p bs h = rw (le→leb _ _ h)

-- A run of fields written one behind the other.
abbrev pub Fields : Type 0
Fields = List Bytes

abbrev pub fields_size : Fields → ℕ
fields_size [] = 0
fields_size (f ∷ fs) = length f + fields_size fs

abbrev pub write_fields : Fields → ℕ → Bytes → Bytes
write_fields [] p buf = buf
write_fields (f ∷ fs) p buf = write_fields fs (p + length f) (overwrite p f buf)

abbrev pub HasFields : Fields → ℕ → Bytes → Type 0
HasFields [] p buf = Unit
HasFields (f ∷ fs) p buf = (slice p (length f) buf ≡ f) × HasFields fs (p + length f) buf

-- Every slice outside [lo, hi) is as before.
pub record SameOutside (lo hi : ℕ) (before after : Bytes) : Type 0 where
  pub same_length : length after ≡ length before
  pub low : (q n : ℕ) → q + n ≤ lo → slice q n after ≡ slice q n before
  pub high : (q n : ℕ) → hi ≤ q → slice q n after ≡ slice q n before

pub write_fields-SameOutside :
    (fs : Fields) (p : ℕ) (buf : Bytes)
    → SameOutside p (p + fields_size fs) buf (write_fields fs p buf)
write_fields-SameOutside [] p buf = record {
  same_length = refl;
  low = λ q n h. refl;
  high = λ q n h. refl;
}
write_fields-SameOutside (f ∷ fs) p buf =
    let ih = write_fields-SameOutside fs (p + length f) (overwrite p f buf) in
    record {
      same_length = ih.same_length ∙ length-overwrite p f buf;
      low = λ q n h. ih.low q n (omega arith) ∙ slice-overwrite_before q n p f buf h;
      high = λ q n h. ih.high q n (omega arith) ∙ slice-overwrite_after q n p f buf (omega arith);
    }

pub write_fields-HasFields :
    (fs : Fields) (p : ℕ) (buf : Bytes)
    → p + fields_size fs ≤ length buf
    → HasFields fs p (write_fields fs p buf)
write_fields-HasFields [] p buf h = tt
write_fields-HasFields (f ∷ fs) p buf h =
    let after = write_fields-SameOutside fs (p + length f) (overwrite p f buf) in
    (
      after.low p (length f) (omega arith) ∙ slice-overwrite p (length f) f buf refl (omega arith),
      write_fields-HasFields fs (p + length f) (overwrite p f buf)
          (omega (arith, length-overwrite p f buf)),
    )

-- Fields survive a write elsewhere.
pub HasFields-SameOutside :
    (fs : Fields) (p lo hi : ℕ) (before after : Bytes)
    → SameOutside lo hi before after
    → (p + fields_size fs ≤ lo) ⊎ (hi ≤ p)
    → HasFields fs p before
    → HasFields fs p after
HasFields-SameOutside [] p lo hi before after s w h = tt
HasFields-SameOutside (f ∷ fs) p lo hi before after s (inl w) (h, hs) = (
  s.low p (length f) (omega arith) ∙ h,
  HasFields-SameOutside fs (p + length f) lo hi before after s (inl (omega arith)) hs,
)
HasFields-SameOutside (f ∷ fs) p lo hi before after s (inr w) (h, hs) = (
  s.high p (length f) w ∙ h,
  HasFields-SameOutside fs (p + length f) lo hi before after s (inr (omega arith)) hs,
)

abbrev pub key_fields : BafsKey → Fields
key_fields k = to_le_bytes 8 k.object_id ∷ to_le_bytes 1 k.item_type ∷ to_le_bytes 8 k.offset ∷ []

abbrev pub internal_fields : BafsInternalItem → Fields
internal_fields item =
    to_le_bytes 8 item.key.object_id
    ∷ to_le_bytes 1 item.key.item_type
    ∷ to_le_bytes 8 item.key.offset
    ∷ to_le_bytes 8 item.child_block
    ∷ to_le_bytes 8 item.child_generation
    ∷ []

abbrev pub leaf_fields : BafsLeafItem → ℕ → Fields
leaf_fields item value_offset =
    to_le_bytes 8 item.key.object_id
    ∷ to_le_bytes 1 item.key.item_type
    ∷ to_le_bytes 8 item.key.offset
    ∷ to_le_bytes 4 (value_offset % 2 ^ 32)
    ∷ to_le_bytes 4 (length item.value % 2 ^ 32)
    ∷ []

module _ (p : ℕ) (buf f1 f2 f3 : Bytes) where
  overwrite_three : Bytes
  overwrite_three = overwrite (p + 9) f3 (overwrite (p + 8) f2 (overwrite p f1 buf))

length-overwrite_three :
    (p : ℕ) (buf f1 f2 f3 : Bytes) → length (overwrite_three p buf f1 f2 f3) ≡ length buf
unfolding overwrite_three
length-overwrite_three p buf f1 f2 f3 = simp length-overwrite

serialise_key_ok :
    (k : BafsKey) (p : ℕ) (buf : Bytes)
    → p + 17 ≤ length buf
    → serialise_key k p buf
      ≡ ok (
          overwrite_three p buf
            (to_le_bytes 8 k.object_id)
            (to_le_bytes 1 k.item_type)
            (to_le_bytes 8 k.offset))
unfolding serialise_key overwrite_three
serialise_key_ok k p buf h =
    let f1 = to_le_bytes 8 k.object_id in
    let f2 = to_le_bytes 1 k.item_type in
    let b1 = overwrite p f1 buf in
    rw (copy_ok buf p f1 (omega (arith, length-to_le_bytes 8 k.object_id))) (
      rw
        (copy_ok b1 (p + 8) f2
          (omega (arith, length-to_le_bytes 1 k.item_type, length-overwrite p f1 buf)))
        (copy_ok (overwrite (p + 8) f2 b1) (p + 9) (to_le_bytes 8 k.offset) (
          omega (
            arith,
            length-to_le_bytes 8 k.offset,
            length-overwrite p f1 buf,
            length-overwrite (p + 8) f2 b1,
          ))))

-- The key and the two fields behind it.
two_more :
    (k : BafsKey) (p q n m : ℕ) (f4 f5 buf : Bytes)
    → q ≡ p + 17 + n
    → length f4 ≡ n
    → length f5 ≡ m
    → q + m ≤ length buf
    → (do b2 ← serialise_key k p buf; b3 ← copy_from_slice b2 (p + 17) f4; copy_from_slice b3 q f5)
      ≡ ok (write_fields (key_fields k ++ (f4 ∷ f5 ∷ [])) p buf)
unfolding overwrite_three
two_more k p q n m f4 f5 buf eq e4 e5 h =
    let eq' : q ≡ p + (8 + (1 + (8 + n))) = omega arith in
    let b2 =
      overwrite_three p buf (to_le_bytes 8 k.object_id) (to_le_bytes 1 k.item_type)
        (to_le_bytes 8 k.offset) in
    let l2 =
      length-overwrite_three p buf (to_le_bytes 8 k.object_id) (to_le_bytes 1 k.item_type)
        (to_le_bytes 8 k.offset) in
    rw (serialise_key_ok k p buf (omega arith)) (
      rw (copy_ok b2 (p + 17) f4 (omega arith)) (
        rw
          (copy_ok (overwrite (p + 17) f4 b2) q f5 (omega (arith, length-overwrite (p + 17) f4 b2)))
          (simp (overwrite_three, length-to_le_bytes, add_assoc, eq', e4))))

pub internal_item_ok :
    (item : BafsInternalItem) (p : ℕ) (buf : Bytes)
    → p + 33 ≤ length buf
    → write_internal_item item p buf ≡ ok (write_fields (internal_fields item) p buf)
unfolding write_internal_item
internal_item_ok item p buf h =
    two_more item.key p (p + 25) 8 8 (to_le_bytes 8 item.child_block)
      (to_le_bytes 8 item.child_generation) buf (omega arith) (length-to_le_bytes 8 _)
      (length-to_le_bytes 8 _) (omega arith)

pub leaf_item_ok :
    (item : BafsLeafItem) (p vc : ℕ) (buf : Bytes)
    → length item.value ≤ vc
    → vc ≤ length buf
    → p + 25 ≤ length buf
    → write_leaf_item item p vc buf
      ≡ ok (
          write_fields
            (leaf_fields item (vc - length item.value))
            p
            (overwrite (vc - length item.value) item.value buf))
unfolding write_leaf_item
leaf_item_ok item p vc buf hs hv hp =
    let at = vc - length item.value in
    rw (not_lt hs) (
      rw (copy_ok buf at item.value (omega arith)) (
        two_more item.key p (p + 21) 4 4 (to_le_bytes 4 (at % 2 ^ 32))
          (to_le_bytes 4 (length item.value % 2 ^ 32)) (overwrite at item.value buf) (omega arith)
          (length-to_le_bytes 4 _) (length-to_le_bytes 4 _)
          (omega (arith, length-overwrite at item.value buf))))
  where
    not_lt : length item.value ≤ vc → ltb vc (length item.value) ≡ false
    not_lt h = ground arith
