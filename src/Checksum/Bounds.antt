-- ===== src/Checksum/Bounds.antt =====
-- The width of a CRC of src/checksum.rs.
use bazzulto_bafs.Base.{ℕ, zero, suc, ◌+◌, ◌/◌, ◌^◌, ◌<◌, ◌≡◌, refl, List, [], ◌∷◌, arith, ◌==◌}
use bazzulto_bafs.Base.Bits.{bit_xor-lt}
use bazzulto_bafs.Bytes.{Bytes, All}
use bazzulto_bafs.Checksum.{
  feed_bit, feed_bits, build_table_from, table_entry, feed_byte, feed_all, compute_crc32c,
  verify_crc32c,
}

abbrev IsU32 : ℕ → Type 0
IsU32 v = v < 2 ^ 32

feed_bit-lt : (r : ℕ) → IsU32 r → IsU32 (feed_bit r)
unfolding feed_bit
feed_bit-lt r h = ground (arith, bit_xor-lt 32 (r / 2) 0x82F63B78 (omega arith) (omega arith))

feed_bits-lt : (k r : ℕ) → IsU32 r → IsU32 (feed_bits k r)
unfolding feed_bits
feed_bits-lt zero r h = h
feed_bits-lt (suc k) r h = feed_bits-lt k (feed_bit r) (feed_bit-lt r h)

table-lt : (k i : ℕ) → i + k < 2 ^ 32 → All IsU32 (build_table_from k i)
unfolding build_table_from
table-lt zero i h = tt
table-lt (suc k) i h = (feed_bits-lt 8 i (omega arith), table-lt k (i + 1) (omega arith))

table_entry-lt : (t : List ℕ) (i : ℕ) → All IsU32 t → IsU32 (table_entry t i)
unfolding table_entry
table_entry-lt [] i h = omega arith
table_entry-lt (x ∷ xs) zero h = h.0
table_entry-lt (x ∷ xs) (suc i) h = table_entry-lt xs i h.1

feed_all-lt :
    (t : List ℕ) (acc : ℕ) (bs : Bytes) → All IsU32 t → IsU32 acc → IsU32 (feed_all t acc bs)
unfolding feed_all feed_byte
feed_all-lt t acc [] ht h = h
feed_all-lt t acc (b ∷ bs) ht h =
    feed_all-lt t (feed_byte t acc b) bs ht
      (bit_xor-lt 32 (acc / 2 ^ 8) _ (omega arith) (table_entry-lt t _ ht))

pub compute_crc32c-lt : (bs : Bytes) → compute_crc32c bs < 2 ^ 32
unfolding compute_crc32c
compute_crc32c-lt bs =
    bit_xor-lt 32 _ 0xFFFF_FFFF
      (feed_all-lt (build_table_from 256 0) 0xFFFF_FFFF bs (table-lt 256 0 (omega arith))
        (omega arith))
      (omega arith)

-- `verify_crc32c` accepts what `compute_crc32c` returns, and nothing else.
pub verify_crc32c_iff : (bs : Bytes) (c : ℕ) → verify_crc32c bs c ≡ (compute_crc32c bs == c)
unfolding verify_crc32c
verify_crc32c_iff bs c = refl
