-- ===== src/Dir/Hash/Vectors.antt =====
-- Runs of `xxhash64_with_seed_zero` of src/dir.rs: the vector of its own test, then three published
-- ones, the last of 39 bytes, which go through every loop.
use bazzulto_bafs.Base.{◌≡◌, refl, [], ◌∷◌}
use bazzulto_bafs.Bytes.{read_le}
use bazzulto_bafs.Dir.Hash.{xxhash64_with_seed_zero}

empty_vector : xxhash64_with_seed_zero [] ≡ 0xEF46DB3751D8E999
unfolding xxhash64_with_seed_zero read_le
empty_vector = refl

one_byte_vector : xxhash64_with_seed_zero (97 ∷ []) ≡ 0xD24EC4F1A98C6E5B
unfolding xxhash64_with_seed_zero read_le
one_byte_vector = refl

three_byte_vector : xxhash64_with_seed_zero (97 ∷ 98 ∷ 99 ∷ []) ≡ 0x44BC2CF5AD770999
unfolding xxhash64_with_seed_zero read_le
three_byte_vector = refl

-- "Nobody inspects the spammish repetition"
long_vector :
    xxhash64_with_seed_zero (
      78 ∷ 111 ∷ 98 ∷ 111 ∷ 100 ∷ 121 ∷ 32 ∷ 105 ∷ 110 ∷ 115 ∷ 112 ∷ 101 ∷ 99 ∷ 116 ∷ 115 ∷ 32 ∷ 116
      ∷ 104 ∷ 101 ∷ 32 ∷ 115 ∷ 112 ∷ 97 ∷ 109 ∷ 109 ∷ 105 ∷ 115 ∷ 104 ∷ 32 ∷ 114 ∷ 101 ∷ 112 ∷ 101
      ∷ 116 ∷ 105 ∷ 116 ∷ 105 ∷ 111 ∷ 110 ∷ [])
    ≡ 0xFBCEA83C8A378BF1
unfolding xxhash64_with_seed_zero read_le
long_vector = refl
