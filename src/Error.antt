-- ===== src/Error.antt =====
-- src/error.rs: the error type, and the outcome of a fallible operation.
-- A Rust operation also panics (an index out of range) or, on a corrupt disk, recurses for ever.
use bazzulto_bafs.Base.{◌≡◌, refl, ℕ, Option, none, some}

pub data BafsError : Type 0 where
  input_output_error : BafsError
  invalid_checksum : (block_address : ℕ) → BafsError
  invalid_magic_number : BafsError
  unsupported_version : (found_version : ℕ) → BafsError
  out_of_space not_found not_a_directory not_a_regular_file already_exists : BafsError
  invalid_argument corrupted_structure not_supported : BafsError

-- `panic` is a panic of the Rust code; `out_of_fuel` is no Rust value: a recursion was cut off.
pub data Result {ℓ} (A : Type ℓ) : Type ℓ where
  panic : Result A
  out_of_fuel : Result A
  err : BafsError → Result A
  ok : A → Result A

-- An index or a slice that Rust checks.
abbrev pub or_panic {ℓ} : {V : Type ℓ} → Option V → Result V
or_panic (some v) = ok v
or_panic none = panic

-- `Option::ok_or`
abbrev pub ok_or {ℓ} : {V : Type ℓ} → Option V → BafsError → Result V
ok_or (some v) error = ok v
ok_or none error = err error

-- The `?` operator: only a value goes on.
module _ {ℓ κ} {V : Type ℓ} {W : Type κ} where
  infixl 5 ◌>>=◌
  abbrev pub ◌>>=◌ : Result V → (V → Result W) → Result W
  panic >>= next = panic
  out_of_fuel >>= next = out_of_fuel
  err error >>= next = err error
  ok v >>= next = next v

  -- A chain that gives a value gave one before.
  pub >>=_ok :
      (r : Result V) (next : V → Result W) (w : W)
      → r >>= next ≡ ok w
      → (v : V) × (r ≡ ok v) × (next v ≡ ok w)
  >>=_ok panic next w e = cc
  >>=_ok out_of_fuel next w e = cc
  >>=_ok (err error) next w e = cc
  >>=_ok (ok v) next w e = (v, refl, e)

module _ {κ} {W : Type κ} where
  infixl 5 ◌>>◌
  abbrev pub ◌>>◌ : Result (Unit {0}) → Result W → Result W
  ◌>>◌ first second = first >>= λ done. second
