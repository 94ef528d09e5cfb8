-- ===== src/Dir/Hash/Loops.antt =====
-- The loops of `xxhash64_with_seed_zero` of src/dir.rs, and the width of a hash.
use bazzulto_bafs.Base.{ℕ, zero, suc, ◌+◌, ◌^◌, ◌≤◌, ◌<◌, ◌≡◌, refl, ap, ◌∙◌, length, arith}
use bazzulto_bafs.Base.Bits.{bit_xor-lt}
use bazzulto_bafs.Bytes.{Bytes, read_le}
use bazzulto_bafs.Dir.Hash.{
  Accumulators, wrapping_mul, stripe, stripe_loop, mix_lane, mix_byte, initial_accumulators,
  start_hash, lane_loop, four_byte_lane, byte_loop, consume, avalanche, xxhash64_with_seed_zero,
}

-- Fuel for the bytes that are left is enough, and the cursor ends where the loop's guard fails.
stripe_loop_fuel :
    (f g : ℕ) (bs : Bytes) (acc : Accumulators) (c : ℕ)
    → length bs ≤ f + c
    → length bs ≤ g + c
    → stripe_loop f bs acc c ≡ stripe_loop g bs acc c
unfolding stripe_loop
stripe_loop_fuel zero zero bs acc c p q = refl
stripe_loop_fuel zero (suc g) bs acc c p q = ground arith
stripe_loop_fuel (suc f) zero bs acc c p q = ground arith
stripe_loop_fuel (suc f) (suc g) bs acc c p q =
    rw (stripe_loop_fuel f g bs (stripe bs c acc) (c + 32) (omega arith) (omega arith)) refl

stripe_loop-le :
    (f : ℕ) (bs : Bytes) (acc : Accumulators) (c : ℕ)
    → c ≤ length bs
    → (stripe_loop f bs acc c).1 ≤ length bs
unfolding stripe_loop
stripe_loop-le zero bs acc c h = h
stripe_loop-le (suc f) bs acc c h = ground (arith, stripe_loop-le f bs (stripe bs c acc) (c + 32))

lane_loop_fuel :
    (f g : ℕ) (bs : Bytes) (h c : ℕ)
    → length bs ≤ f + c
    → length bs ≤ g + c
    → lane_loop f bs (h, c) ≡ lane_loop g bs (h, c)
unfolding lane_loop
lane_loop_fuel zero zero bs h c p q = refl
lane_loop_fuel zero (suc g) bs h c p q = ground arith
lane_loop_fuel (suc f) zero bs h c p q = ground arith
lane_loop_fuel (suc f) (suc g) bs h c p q =
    rw (lane_loop_fuel f g bs (mix_lane h (read_le c 8 bs)) (c + 8) (omega arith) (omega arith))
      refl

byte_loop_fuel :
    (f g : ℕ) (bs : Bytes) (h c : ℕ)
    → length bs ≤ f + c
    → length bs ≤ g + c
    → byte_loop f bs (h, c) ≡ byte_loop g bs (h, c)
unfolding byte_loop
byte_loop_fuel zero zero bs h c p q = refl
byte_loop_fuel zero (suc g) bs h c p q = ground arith
byte_loop_fuel (suc f) zero bs h c p q = ground arith
byte_loop_fuel (suc f) (suc g) bs h c p q =
    rw (byte_loop_fuel f g bs (mix_byte h (read_le c 1 bs)) (c + 1) (omega arith) (omega arith))
      refl

lane_loop-le :
    (f : ℕ) (bs : Bytes) (h c : ℕ) → c ≤ length bs → (lane_loop f bs (h, c)).1 ≤ length bs
unfolding lane_loop
lane_loop-le zero bs h c p = p
lane_loop-le (suc f) bs h c p =
    ground (arith, lane_loop-le f bs (mix_lane h (read_le c 8 bs)) (c + 8))

byte_loop-end :
    (f : ℕ) (bs : Bytes) (h c : ℕ)
    → c ≤ length bs
    → length bs ≤ f + c
    → (byte_loop f bs (h, c)).1 ≡ length bs
unfolding byte_loop
byte_loop-end zero bs h c p q = omega arith
byte_loop-end (suc f) bs h c p q =
    ground (arith, byte_loop-end f bs (mix_byte h (read_le c 1 bs)) (c + 1))

start_hash_fuel : (f : ℕ) (bs : Bytes) → length bs ≤ f → start_hash f bs ≡ start_hash (length bs) bs
unfolding start_hash
start_hash_fuel f bs h =
    rw (stripe_loop_fuel f (length bs) bs initial_accumulators 0 (omega arith) (omega arith)) refl

start_hash-le : (f : ℕ) (bs : Bytes) → (start_hash f bs).1 ≤ length bs
unfolding start_hash
start_hash-le f bs = ground (arith, stripe_loop-le f bs initial_accumulators 0)

four_byte_lane-le :
    (bs : Bytes) (h c : ℕ) → c ≤ length bs → (four_byte_lane bs (h, c)).1 ≤ length bs
unfolding four_byte_lane
four_byte_lane-le bs h c p = ground arith

-- Whatever the fuel of the three loops from the length of the input on, the hash comes out the
-- same and the cursor stops at the end of the input: the loops end by themselves, every byte
-- consumed.
pub consume-Terminates :
    (fuel : ℕ) (input_bytes : Bytes)
    → length input_bytes ≤ fuel
    → (consume fuel input_bytes ≡ consume (length input_bytes) input_bytes)
      × ((consume fuel input_bytes).1 ≡ length input_bytes)
unfolding consume
consume-Terminates f bs h =
    let s = start_hash f bs in
    let l = lane_loop f bs s in
    let m = four_byte_lane bs l in
    let same_lane =
      lane_loop_fuel f (length bs) bs s.0 s.1 (omega arith) (omega arith)
      ∙ ap (lane_loop (length bs) bs) (start_hash_fuel f bs h) in
    (
      byte_loop_fuel f (length bs) bs m.0 m.1 (omega arith) (omega arith)
          ∙ ap (λ t. byte_loop (length bs) bs (four_byte_lane bs t)) same_lane,
      byte_loop-end f bs m.0 m.1
          (four_byte_lane-le bs l.0 l.1 (lane_loop-le f bs s.0 s.1 (start_hash-le f bs)))
          (omega arith),
    )

-- The hash of any name is a 64-bit number.
pub xxhash64_with_seed_zero-lt :
    (input_bytes : Bytes) → xxhash64_with_seed_zero input_bytes < 2 ^ 64
unfolding xxhash64_with_seed_zero avalanche wrapping_mul
xxhash64_with_seed_zero-lt bs = bit_xor-lt 64 _ _ (omega arith) (omega arith)
