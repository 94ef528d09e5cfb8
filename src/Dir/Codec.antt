-- ===== src/Dir/Codec.antt =====
-- The bytes of a directory entry of src/dir.rs.
use bazzulto_bafs.Base.{◌+◌, ◌<◌, ◌≡◌, refl, [], ◌++◌, length, length-append, arith}
use mathlib.Core.Path.{subst}
use mathlib.Core.List.{append-nil}
use bazzulto_bafs.Bytes.{Bytes, read_le, slice}
use bazzulto_bafs.Bytes.Layout.{encode, FitWidths, encode-HasFields, slice-append, length-encode}
use bazzulto_bafs.Error.{ok, err, corrupted_structure}
use bazzulto_bafs.Dir.Utf8.{IsUtf8}
use bazzulto_bafs.Dir.{
  BafsDirEntry, entry_fields, serialise_dir_entry_to_bytes, deserialise_dir_entry_from_bytes,
}

-- An entry as `directory_create_entry` builds it: the fields fit, and the name is a `String` of the
-- stated length.
pub record IsDirEntry (e : BafsDirEntry) : Type 0 where
  pub fields_fit : FitWidths (entry_fields e)
  pub name_size : length e.filename ≡ e.name_length_bytes
  pub name_utf8 : IsUtf8 e.filename

pub length-serialise_dir_entry :
    (e : BafsDirEntry) → length (serialise_dir_entry_to_bytes e) ≡ 12 + length e.filename
unfolding serialise_dir_entry_to_bytes
length-serialise_dir_entry e =
    omega
      (arith, length-append (encode (entry_fields e)) e.filename, length-encode (entry_fields e))

module _ (e : BafsDirEntry) (h : IsDirEntry e) where
  name_read : slice 12 e.name_length_bytes (serialise_dir_entry_to_bytes e) ≡ e.filename
  unfolding serialise_dir_entry_to_bytes
  name_read =
      let front = encode (entry_fields e) in
      subst (λ bs. slice 12 e.name_length_bytes (front ++ bs) ≡ e.filename) (append-nil e.filename)
        (subst (λ p. slice p e.name_length_bytes (front ++ (e.filename ++ [])) ≡ e.filename)
          (length-encode (entry_fields e))
          (subst (λ n. slice (length front) n (front ++ (e.filename ++ [])) ≡ e.filename)
            h.name_size (slice-append front e.filename [])))

  -- An entry whose fields fit their places, with a UTF-8 name of the stated length, is read back
  -- from its bytes.
  pub dir_entry-RoundTrip : deserialise_dir_entry_from_bytes (serialise_dir_entry_to_bytes e) ≡ ok e
  unfolding deserialise_dir_entry_from_bytes serialise_dir_entry_to_bytes
  dir_entry-RoundTrip =
      let (number, (kind, (size, (zeros, done)))) =
        encode-HasFields (entry_fields e) [] e.filename 0 h.fields_fit refl in
      let whole = length-serialise_dir_entry e in
      let name = name_read in
      let utf8 = h.name_utf8 in
      let full = h.name_size in ground (arith, number, kind, size, name, utf8, whole, full)

-- Bytes that end before the fixed part or before the name are refused.
pub deserialise-truncated :
    (bytes : Bytes)
    → length bytes < 12 + read_le 9 1 bytes
    → deserialise_dir_entry_from_bytes bytes ≡ err corrupted_structure
unfolding deserialise_dir_entry_from_bytes
deserialise-truncated bytes h = ground arith
