-- ===== src/Checksum.antt =====
-- src/checksum.rs: CRC32C with the reversed Castagnoli polynomial.
pub mod Bounds
mod Vectors
use bazzulto_bafs.Base.{
  ℕ, zero, suc, ◌+◌, ◌/◌, ◌%◌, ◌^◌, Bool, List, [], ◌∷◌, bit_and, bit_xor, ◌==◌, if◌then◌else◌,
}
use bazzulto_bafs.Bytes.{Bytes, to_le_bytes, overwrite}

abbrev castagnoli_polynomial_reversed : ℕ
castagnoli_polynomial_reversed = 0x82F63B78

-- One round of the inner loop.
feed_bit : ℕ → ℕ
feed_bit remainder =
    if bit_and remainder 1 == 0
    then remainder / 2
    else bit_xor (remainder / 2) castagnoli_polynomial_reversed

-- `while bit < 8`
feed_bits : ℕ → ℕ → ℕ
feed_bits zero remainder = remainder
feed_bits (suc left) remainder = feed_bits left (feed_bit remainder)

-- The table from `index` on, `left` entries of it: `while index < 256`.
build_table_from : ℕ → ℕ → List ℕ
build_table_from zero index = []
build_table_from (suc left) index = feed_bits 8 index ∷ build_table_from left (index + 1)

build_crc32c_lookup_table : List ℕ
unfolding build_table_from feed_bits feed_bit
build_crc32c_lookup_table = build_table_from 256 0

-- An index below 256 into the table of 256 entries.
table_entry : List ℕ → ℕ → ℕ
table_entry [] i = 0
table_entry (x ∷ xs) zero = x
table_entry (x ∷ xs) (suc i) = table_entry xs i

feed_byte : List ℕ → ℕ → ℕ → ℕ
unfolding table_entry
feed_byte table accumulator byte =
    bit_xor (accumulator / 2 ^ 8) (table_entry table (bit_and (bit_xor accumulator byte) 0xFF))

feed_all : List ℕ → ℕ → Bytes → ℕ
unfolding feed_byte
feed_all table accumulator [] = accumulator
feed_all table accumulator (byte ∷ rest) = feed_all table (feed_byte table accumulator byte) rest

unfoldable pub compute_crc32c : Bytes → ℕ
unfolding feed_all build_crc32c_lookup_table
compute_crc32c bytes = bit_xor (feed_all build_crc32c_lookup_table 0xFFFF_FFFF bytes) 0xFFFF_FFFF

unfoldable pub verify_crc32c : Bytes → ℕ → Bool
verify_crc32c bytes expected_checksum = compute_crc32c bytes == expected_checksum

-- The first four bytes of a buffer of at least four.
pub write_checksum_into_buffer_header : Bytes → Bytes → Bytes
write_checksum_into_buffer_header data_after_header destination_buffer =
    overwrite 0 (to_le_bytes 4 (compute_crc32c data_after_header)) destination_buffer
