-- ===== src/Dir/Utf8.antt =====
-- The standard library's `String::from_utf8_lossy`, which src/dir.rs applies to stored names: each
-- longest prefix of a character that is not completed becomes U+FFFD.
use bazzulto_bafs.Base.{ℕ, zero, suc, ◌≡◌, [], ◌∷◌, ◌++◌, ltb, leb, ◌==◌, ◌&&◌, if◌then◌else◌}
use bazzulto_bafs.Bytes.{Bytes}

-- The bytes of a character so far, the range of the next one and how many follow it.
pub data Pending : Type 0 where
  idle : Pending
  partial : (seen : Bytes) (low high more : ℕ) → Pending

unfoldable pub replacement_character : Bytes
replacement_character = 0xEF ∷ 0xBF ∷ 0xBD ∷ []

-- The first byte of a character.
unfoldable pub first_byte : ℕ → Bytes × Pending
unfolding replacement_character
first_byte b =
    let wants : ℕ → ℕ → ℕ → Bytes × Pending =
      λ low high more. ([], partial (b ∷ []) low high more) in
    if ltb b 0x80
    then (b ∷ [], idle)
    else if leb 0xC2 b && leb b 0xDF
    then wants 0x80 0xBF 0
    else if b == 0xE0
    then wants 0xA0 0xBF 1
    else if b == 0xED
    then wants 0x80 0x9F 1
    else if leb 0xE1 b && leb b 0xEF
    then wants 0x80 0xBF 1
    else if b == 0xF0
    then wants 0x90 0xBF 2
    else if leb 0xF1 b && leb b 0xF3
    then wants 0x80 0xBF 2
    else if b == 0xF4
    then wants 0x80 0x8F 2
    else (replacement_character, idle)

-- One byte: what it adds to the string, and what is pending then.
unfoldable pub next_byte : Pending → ℕ → Bytes × Pending
unfolding first_byte replacement_character
next_byte idle b = first_byte b
next_byte (partial seen low high zero) b =
    let (out, pending) = first_byte b in
    if leb low b && leb b high
    then (seen ++ (b ∷ []), idle)
    else (replacement_character ++ out, pending)
next_byte (partial seen low high (suc more)) b =
    let (out, pending) = first_byte b in
    if leb low b && leb b high
    then ([], partial (seen ++ (b ∷ [])) 0x80 0xBF more)
    else (replacement_character ++ out, pending)

unfoldable pub decode_from : Pending → Bytes → Bytes
unfolding next_byte replacement_character
decode_from idle [] = []
decode_from (partial seen low high more) [] = replacement_character
decode_from pending (b ∷ bs) =
    let (out, then_pending) = next_byte pending b in out ++ decode_from then_pending bs

unfoldable pub from_utf8_lossy : Bytes → Bytes
unfolding decode_from
from_utf8_lossy bytes = decode_from idle bytes

-- What a `str` always is: nothing in it is replaced.
abbrev pub IsUtf8 : Bytes → Type 0
IsUtf8 bytes = from_utf8_lossy bytes ≡ bytes
