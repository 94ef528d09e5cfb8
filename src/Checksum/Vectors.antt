-- ===== src/Checksum/Vectors.antt =====
-- The published test vectors of CRC32C.
use bazzulto_bafs.Base.{◌≡◌, refl, [], ◌∷◌, false}
use bazzulto_bafs.Bytes.{overwrite, to_le_bytes}
use bazzulto_bafs.Checksum.{compute_crc32c, verify_crc32c, write_checksum_into_buffer_header}

empty_input : compute_crc32c [] ≡ 0
unfolding compute_crc32c
empty_input = refl

standard_vector :
    compute_crc32c (b'1' ∷ b'2' ∷ b'3' ∷ b'4' ∷ b'5' ∷ b'6' ∷ b'7' ∷ b'8' ∷ b'9' ∷ []) ≡ 0xE306_9283
unfolding compute_crc32c
standard_vector = refl

bit_flip : verify_crc32c (b'i' ∷ b'e' ∷ []) (compute_crc32c (b'h' ∷ b'e' ∷ [])) ≡ false
unfolding compute_crc32c verify_crc32c
bit_flip = refl

header_checksum :
    write_checksum_into_buffer_header [] (1 ∷ 2 ∷ 3 ∷ 4 ∷ 5 ∷ []) ≡ 0 ∷ 0 ∷ 0 ∷ 0 ∷ 5 ∷ []
unfolding write_checksum_into_buffer_header compute_crc32c overwrite to_le_bytes
header_checksum = refl
