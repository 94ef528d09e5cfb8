-- ===== src/Extent/RoundTrip.antt =====
-- The bytes of the two structs of src/extent.rs.
use bazzulto_bafs.Base.{◌^◌, ◌<◌, ◌≡◌, refl, [], ◌∷◌, length, leb, true, arith}
use bazzulto_bafs.Bytes.Layout.{Fields, encode, encode_alone, length-encode}
use bazzulto_bafs.Error.{ok}
use bazzulto_bafs.Extent.{
  BafsExtentData, BafsFreeExtent, extent_data_fields, serialise_extent_data_to_bytes,
  deserialise_extent_data_from_bytes, serialise_free_extent_to_bytes,
  deserialise_free_extent_from_bytes,
}

pub record IsExtentData (e : BafsExtentData) : Type 0 where
  pub offset_fits : e.logical_byte_offset < 2 ^ 64
  pub block_fits : e.first_disk_block < 2 ^ 64
  pub count_fits : e.block_count < 2 ^ 64
  pub flags_fit : e.extent_flags < 2 ^ 32
  pub reserved_fits : e.reserved < 2 ^ 32

pub length-serialise_extent_data :
    (e : BafsExtentData) → length (serialise_extent_data_to_bytes e) ≡ 32
unfolding serialise_extent_data_to_bytes
length-serialise_extent_data e = length-encode (extent_data_fields e)

-- An extent whose fields fit their widths is read back from its 32 bytes.
pub extent_data-RoundTrip :
    (e : BafsExtentData)
    → IsExtentData e
    → deserialise_extent_data_from_bytes (serialise_extent_data_to_bytes e) ≡ ok e
unfolding deserialise_extent_data_from_bytes serialise_extent_data_to_bytes
extent_data-RoundTrip e h =
    let fields = extent_data_fields e in
    let (r1, (r2, (r3, (r4, (r5, _))))) =
      encode_alone fields
        (h.offset_fits, (h.block_fits, (h.count_fits, (h.flags_fit, (h.reserved_fits, tt))))) in
    let long : leb 32 (length (encode fields)) ≡ true = ground (arith, length-encode fields) in
    rw (long, r1, r2, r3, r4, r5) refl

pub length-serialise_free_extent :
    (e : BafsFreeExtent) → length (serialise_free_extent_to_bytes e) ≡ 16
unfolding serialise_free_extent_to_bytes
length-serialise_free_extent e = length-encode ((8, e.block_address) ∷ (8, e.block_count) ∷ [])

-- A free extent of 64-bit fields is read back from its 16 bytes.
pub free_extent-RoundTrip :
    (e : BafsFreeExtent)
    → e.block_address < 2 ^ 64
    → e.block_count < 2 ^ 64
    → deserialise_free_extent_from_bytes (serialise_free_extent_to_bytes e) ≡ ok e
unfolding deserialise_free_extent_from_bytes serialise_free_extent_to_bytes
free_extent-RoundTrip e a b =
    let fields : Fields = (8, e.block_address) ∷ (8, e.block_count) ∷ [] in
    let (r1, (r2, _)) = encode_alone fields (a, (b, tt)) in
    let long : leb 16 (length (encode fields)) ≡ true = ground (arith, length-encode fields) in
    rw (long, r1, r2) refl
