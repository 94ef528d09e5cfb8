-- ===== src/Bytes/Layout.antt =====
-- The bytes of a `#[repr(C)]` struct of integers: its fields one after another, little-endian.
use bazzulto_bafs.Base.{
  ℕ, ◌+◌, ◌^◌, ◌<◌, ◌≡◌, refl, sym, ap, ◌∙◌, List, [], ◌∷◌, ◌++◌, length, take, arith,
  length-append,
}
use mathlib.Core.Path.{subst}
use mathlib.Core.List.{append_assoc, append-nil}
use bazzulto_bafs.Bytes.{
  Bytes, to_le_bytes, from_le_bytes, slice, read_le, length-to_le_bytes, from_le_bytes-to_le_bytes,
}

-- A field: its width in bytes and its value.
abbrev pub Fields : Type 0
Fields = List (ℕ × ℕ)

unfoldable pub encode : Fields → Bytes
encode [] = []
encode ((width, value) ∷ fields) = to_le_bytes width value ++ encode fields

abbrev pub FitWidths : Fields → Type 0
FitWidths [] = Unit
FitWidths ((width, value) ∷ fields) = (value < 256 ^ width) × FitWidths fields

-- The fields are read from a position on.
abbrev pub HasFields : Fields → ℕ → Bytes → Type 0
HasFields [] p buf = Unit
HasFields ((width, value) ∷ fields) p buf =
    (read_le p width buf ≡ value) × HasFields fields (p + width) buf

abbrev pub total_width : Fields → ℕ
total_width [] = 0
total_width ((width, value) ∷ fields) = width + total_width fields

pub length-encode : (fields : Fields) → length (encode fields) ≡ total_width fields
unfolding encode
length-encode [] = refl
length-encode ((width, value) ∷ fields) = omega (
  arith,
  length-append (to_le_bytes width value) (encode fields),
  length-to_le_bytes width value,
  length-encode fields,
)

pub take-append : (f rest : Bytes) → take (length f) (f ++ rest) ≡ f
unfolding take
take-append [] rest = refl
take-append (b ∷ f) rest = ap (λ bs. b ∷ bs) (take-append f rest)

pub slice-append : (pre f rest : Bytes) → slice (length pre) (length f) (pre ++ (f ++ rest)) ≡ f
unfolding slice
slice-append [] f rest = take-append f rest
slice-append (b ∷ pre) f rest = slice-append pre f rest

pub encode-HasFields :
    (fields : Fields) (pre rest : Bytes) (p : ℕ)
    → FitWidths fields
    → length pre ≡ p
    → HasFields fields p (pre ++ (encode fields ++ rest))
unfolding encode read_le
encode-HasFields [] pre rest p h e = tt
encode-HasFields ((width, value) ∷ fields) pre rest p (h, hs) e =
    let f = to_le_bytes width value in
    let here : slice p width (pre ++ ((f ++ encode fields) ++ rest)) ≡ f =
      subst (λ q. slice q width (pre ++ ((f ++ encode fields) ++ rest)) ≡ f) e
        (subst (λ n. slice (length pre) n (pre ++ ((f ++ encode fields) ++ rest)) ≡ f)
          (length-to_le_bytes width value)
          (subst (λ bs. slice (length pre) (length f) (pre ++ bs) ≡ f)
            (sym (append_assoc f (encode fields) rest))
            (slice-append pre f (encode fields ++ rest)))) in
    (
      ap from_le_bytes here ∙ from_le_bytes-to_le_bytes width value h,
      subst (HasFields fields (p + width))
          (append_assoc pre f (encode fields ++ rest)
            ∙ ap (λ bs. pre ++ bs) (sym (append_assoc f (encode fields) rest)))
          (encode-HasFields fields (pre ++ f) rest (p + width) hs
            (omega (arith, length-append pre f, length-to_le_bytes width value))),
    )

-- An encoding alone.
pub encode_alone : (fields : Fields) → FitWidths fields → HasFields fields 0 (encode fields)
encode_alone fields h =
    subst (HasFields fields 0) (append-nil (encode fields)) (encode-HasFields fields [] [] 0 h refl)
