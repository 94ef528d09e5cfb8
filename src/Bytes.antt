-- ===== src/Bytes.antt =====
-- Byte buffers: slices, writes in place, and little-endian integers.
pub mod Slices
pub mod Everywhere
pub mod Layout
use bazzulto_bafs.Base.{
  ℕ, zero, suc, ◌+◌, ◌*◌, ◌/◌, ◌%◌, ◌^◌, ◌≤◌, ◌<◌, ◌≡◌, refl, ap, List, [], ◌∷◌, arith, length,
  take,
}
use native.Mathlib.Nat.{pow-suc}

abbrev pub Bytes : Type 0
Bytes = List ℕ

abbrev pub All {ℓ κ} : {A : Type ℓ} → (A → Type κ) → List A → Type κ
All P [] = Unit
All P (x ∷ xs) = P x × All P xs

abbrev pub IsByte : ℕ → Type 0
IsByte b = b < 256

-- `to_le_bytes` of an integer of n bytes.
unfoldable pub to_le_bytes : ℕ → ℕ → Bytes
to_le_bytes zero v = []
to_le_bytes (suc n) v = (v % 256) ∷ to_le_bytes n (v / 256)

unfoldable pub from_le_bytes : Bytes → ℕ
from_le_bytes [] = 0
from_le_bytes (b ∷ bs) = b + 256 * from_le_bytes bs

-- `&buffer[position..position + count]`
unfoldable pub slice : ℕ → ℕ → Bytes → Bytes
unfolding take
slice zero n xs = take n xs
slice (suc p) n [] = []
slice (suc p) n (x ∷ xs) = slice p n xs

-- `buffer[position..position + bytes.len()].copy_from_slice(bytes)`, within the buffer
unfoldable pub overwrite : ℕ → Bytes → Bytes → Bytes
overwrite zero [] xs = xs
overwrite zero (b ∷ bs) [] = []
overwrite zero (b ∷ bs) (x ∷ xs) = b ∷ overwrite zero bs xs
overwrite (suc p) bs [] = []
overwrite (suc p) bs (x ∷ xs) = x ∷ overwrite p bs xs

-- An integer of `count` bytes read at `position`.
unfoldable pub read_le : ℕ → ℕ → Bytes → ℕ
unfolding slice from_le_bytes
read_le position count xs = from_le_bytes (slice position count xs)

pub from_le_bytes-to_le_bytes : (n v : ℕ) → v < 256 ^ n → from_le_bytes (to_le_bytes n v) ≡ v
unfolding from_le_bytes to_le_bytes
from_le_bytes-to_le_bytes zero v h = omega arith
from_le_bytes-to_le_bytes (suc n) v h =
    omega
      (arith, pow-suc 256 n, from_le_bytes-to_le_bytes n (v / 256) (omega (arith, pow-suc 256 n)))

pub length-to_le_bytes : (n v : ℕ) → length (to_le_bytes n v) ≡ n
unfolding to_le_bytes
length-to_le_bytes zero v = refl
length-to_le_bytes (suc n) v = ap suc (length-to_le_bytes n (v / 256))
