-- ===== src/Exec.antt =====
-- Operations on what a caller lends with `&mut`. They may fail, and a failure keeps what was written,
-- so every outcome comes with the state that it leaves.
use bazzulto_bafs.Base.{◌≡◌, refl}
use bazzulto_bafs.Error.{Result, ok, err, panic, out_of_fuel, BafsError}

abbrev pub Exec {ℓ} : (State Value : Type ℓ) → Type ℓ
Exec State Value = (before : State) → Result Value × State

-- The rest of an operation, from the outcome of its start.
module _ {ℓ} {State V W : Type ℓ} where
  abbrev pub resume : (V → Exec State W) → Result V → State → Result W × State
  resume rest panic left = (panic, left)
  resume rest out_of_fuel left = (out_of_fuel, left)
  resume rest (err error) left = (err error, left)
  resume rest (ok v) left = rest v left

  infixl 5 ◌>>=◌ ◌>>◌
  abbrev pub ◌>>=◌ : Exec State V → (V → Exec State W) → Exec State W
  ◌>>=◌ start rest before = let (outcome, left) = start before in resume rest outcome left

  abbrev pub ◌>>◌ : Exec State V → Exec State W → Exec State W
  ◌>>◌ start rest = start >>= λ v. rest

  -- A chain that ends with a value had one at its start.
  pub >>=_ok :
      (start : Exec State V) (rest : V → Exec State W) (before after : State) (w : W)
      → (start >>= rest) before ≡ (ok w, after)
      → (v : V) × (left : State) × (start before ≡ (ok v, left)) × (rest v left ≡ (ok w, after))
  >>=_ok start rest before after w e = go (start before) refl e
    where
      go :
          (r : Result V × State)
          → start before ≡ r
          → resume rest r.0 r.1 ≡ (ok w, after)
          → (v : V) × (left : State) × (start before ≡ (ok v, left)) × (rest v left ≡ (ok w, after))
      go (panic, left) f e = cc
      go (out_of_fuel, left) f e = cc
      go (err error, left) f e = cc
      go (ok v, left) f e = (v, left, f, e)

module _ {ℓ} {State : Type ℓ} where
  -- A write to the state.
  abbrev pub modify : (State → State) → Exec State (Unit {ℓ})
  modify change before = (ok tt, change before)

  module _ {V : Type ℓ} where
    -- What does not touch the state, in the order of use.
    abbrev pub lift : Result V → Exec State V
    lift outcome before = (outcome, before)

    abbrev pub pure : V → Exec State V
    pure v = lift (ok v)

    abbrev pub fail : BafsError → Exec State V
    fail error = lift (err error)

    -- A read of the state.
    abbrev pub gets : (State → V) → Exec State V
    gets read before = (ok (read before), before)
