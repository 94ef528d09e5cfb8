-- ===== src/Dir/Hash.antt =====
-- `xxhash64_with_seed_zero` of src/dir.rs, on 64-bit words that wrap around.
pub mod Loops
mod Vectors
use bazzulto_bafs.Base.{
  ℕ, zero, suc, ◌+◌, ◌-◌, ◌*◌, ◌/◌, ◌%◌, ◌^◌, Bool, true, false, leb, ltb, length, bit_xor,
  if◌then◌else◌,
}
use bazzulto_bafs.Bytes.{Bytes, read_le}

abbrev xxh64_prime_1 : ℕ
xxh64_prime_1 = 0x9E3779B185EBCA87

abbrev xxh64_prime_2 : ℕ
xxh64_prime_2 = 0xC2B2AE3D27D4EB4F

abbrev xxh64_prime_3 : ℕ
xxh64_prime_3 = 0x165667B19E3779F9

abbrev xxh64_prime_4 : ℕ
xxh64_prime_4 = 0x85EBCA77C2B2AE63

abbrev xxh64_prime_5 : ℕ
xxh64_prime_5 = 0x27D4EB2F165667C5

wrapping_add : ℕ → ℕ → ℕ
wrapping_add a b = (a + b) % 2 ^ 64

wrapping_mul : ℕ → ℕ → ℕ
wrapping_mul a b = a * b % 2 ^ 64

-- `value.rotate_left(rotation_amount)` of a 64-bit value, for an amount below 64.
rotate_left_64 : ℕ → ℕ → ℕ
rotate_left_64 value rotation_amount =
    value * 2 ^ rotation_amount % 2 ^ 64 + value / 2 ^ (64 - rotation_amount)

xxh64_round : ℕ → ℕ → ℕ
unfolding wrapping_add wrapping_mul rotate_left_64
xxh64_round accumulator lane_value =
    wrapping_mul
      (rotate_left_64 (wrapping_add accumulator (wrapping_mul lane_value xxh64_prime_2)) 31)
      xxh64_prime_1

xxh64_merge_accumulator : ℕ → ℕ → ℕ
unfolding xxh64_round wrapping_add wrapping_mul
xxh64_merge_accumulator hash_state accumulator =
    wrapping_add (wrapping_mul (bit_xor hash_state (xxh64_round 0 accumulator)) xxh64_prime_1)
      xxh64_prime_4

-- The four accumulators of the long path.
record Accumulators : Type 0 where
  accumulator_0 : ℕ
  accumulator_1 : ℕ
  accumulator_2 : ℕ
  accumulator_3 : ℕ

-- One stripe of 32 bytes at the cursor.
stripe : Bytes → ℕ → Accumulators → Accumulators
unfolding xxh64_round
stripe input_bytes read_cursor acc = record {
  accumulator_0 = xxh64_round acc.accumulator_0 (read_le read_cursor 8 input_bytes);
  accumulator_1 = xxh64_round acc.accumulator_1 (read_le (read_cursor + 8) 8 input_bytes);
  accumulator_2 = xxh64_round acc.accumulator_2 (read_le (read_cursor + 16) 8 input_bytes);
  accumulator_3 = xxh64_round acc.accumulator_3 (read_le (read_cursor + 24) 8 input_bytes);
}

-- `while read_cursor + 32 <= input_bytes.len()`; the cursor behind the last stripe comes back too.
stripe_loop : ℕ → Bytes → Accumulators → ℕ → Accumulators × ℕ
unfolding stripe
stripe_loop zero input_bytes acc read_cursor = (acc, read_cursor)
stripe_loop (suc fuel) input_bytes acc read_cursor =
    let next =
      stripe_loop fuel input_bytes (stripe input_bytes read_cursor acc) (read_cursor + 32) in
    if leb (read_cursor + 32) (length input_bytes) then next else (acc, read_cursor)

-- The merge of the four accumulators.
merge_accumulators : Accumulators → ℕ
unfolding rotate_left_64 wrapping_add xxh64_merge_accumulator
merge_accumulators acc =
    let sum =
      wrapping_add
        (wrapping_add
          (wrapping_add (rotate_left_64 acc.accumulator_0 1) (rotate_left_64 acc.accumulator_1 7))
          (rotate_left_64 acc.accumulator_2 12))
        (rotate_left_64 acc.accumulator_3 18) in
    xxh64_merge_accumulator
      (xxh64_merge_accumulator
        (xxh64_merge_accumulator (xxh64_merge_accumulator sum acc.accumulator_0) acc.accumulator_1)
        acc.accumulator_2)
      acc.accumulator_3

initial_accumulators : Accumulators
initial_accumulators = record {
  accumulator_0 = (xxh64_prime_1 + xxh64_prime_2) % 2 ^ 64;
  accumulator_1 = xxh64_prime_2;
  accumulator_2 = 0;
  accumulator_3 = 2 ^ 64 - xxh64_prime_1;
}

-- The hash state and the read cursor.
abbrev pub HashState : Type 0
HashState = ℕ × ℕ

-- The long path or the short path, and the length of the input.
start_hash : ℕ → Bytes → HashState
unfolding stripe_loop merge_accumulators initial_accumulators wrapping_add
start_hash fuel input_bytes =
    let (acc, read_cursor) = stripe_loop fuel input_bytes initial_accumulators 0 in
    if leb 32 (length input_bytes)
    then (wrapping_add (merge_accumulators acc) (length input_bytes % 2 ^ 64), read_cursor)
    else (wrapping_add xxh64_prime_5 (length input_bytes % 2 ^ 64), 0)

-- One lane of eight bytes.
mix_lane : ℕ → ℕ → ℕ
unfolding xxh64_round rotate_left_64 wrapping_add wrapping_mul
mix_lane hash_state lane =
    wrapping_add
      (wrapping_mul (rotate_left_64 (bit_xor hash_state (xxh64_round 0 lane)) 27) xxh64_prime_1)
      xxh64_prime_4

-- `while read_cursor + 8 <= input_bytes.len()`
lane_loop : ℕ → Bytes → HashState → HashState
unfolding mix_lane
lane_loop zero input_bytes h = h
lane_loop (suc fuel) input_bytes (hash_state, read_cursor) =
    let next =
      lane_loop fuel input_bytes
        (mix_lane hash_state (read_le read_cursor 8 input_bytes), read_cursor + 8) in
    if leb (read_cursor + 8) (length input_bytes) then next else (hash_state, read_cursor)

-- `if read_cursor + 4 <= input_bytes.len()`
four_byte_lane : Bytes → HashState → HashState
unfolding rotate_left_64 wrapping_add wrapping_mul
four_byte_lane input_bytes (hash_state, read_cursor) =
    let mixed =
      bit_xor hash_state (wrapping_mul (read_le read_cursor 4 input_bytes) xxh64_prime_1) in
    if leb (read_cursor + 4) (length input_bytes)
    then (
      wrapping_add (wrapping_mul (rotate_left_64 mixed 23) xxh64_prime_2) xxh64_prime_3,
      read_cursor + 4,
    )
    else (hash_state, read_cursor)

-- One byte.
mix_byte : ℕ → ℕ → ℕ
unfolding rotate_left_64 wrapping_mul
mix_byte hash_state lane =
    wrapping_mul (rotate_left_64 (bit_xor hash_state (wrapping_mul lane xxh64_prime_5)) 11)
      xxh64_prime_1

-- `while read_cursor < input_bytes.len()`
byte_loop : ℕ → Bytes → HashState → HashState
unfolding mix_byte
byte_loop zero input_bytes h = h
byte_loop (suc fuel) input_bytes (hash_state, read_cursor) =
    let next =
      byte_loop fuel input_bytes
        (mix_byte hash_state (read_le read_cursor 1 input_bytes), read_cursor + 1) in
    if ltb read_cursor (length input_bytes) then next else (hash_state, read_cursor)

-- Everything before the final mix, with one fuel for each loop.
pub consume : ℕ → Bytes → HashState
unfolding start_hash lane_loop four_byte_lane byte_loop
consume fuel input_bytes =
    byte_loop fuel input_bytes
      (four_byte_lane input_bytes (lane_loop fuel input_bytes (start_hash fuel input_bytes)))

avalanche : ℕ → ℕ
unfolding wrapping_mul
avalanche hash_state =
    let h1 = wrapping_mul (bit_xor hash_state (hash_state / 2 ^ 33)) xxh64_prime_2 in
    let h2 = wrapping_mul (bit_xor h1 (h1 / 2 ^ 29)) xxh64_prime_3 in bit_xor h2 (h2 / 2 ^ 32)

unfoldable pub xxhash64_with_seed_zero : Bytes → ℕ
unfolding consume avalanche
xxhash64_with_seed_zero input_bytes = avalanche (consume (length input_bytes) input_bytes).0
