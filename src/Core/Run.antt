-- ===== src/Core/Run.antt =====
-- The errors of error.go that the state transition returns, and how a call ends.
use chain_master.Prelude.{ℕ, ◌≡◌, refl, arith}

-- error.go
pub data Error : Type 0 where
  known_block blacklisted_hash no_genesis : Error
  nonce_too_low nonce_too_high gas_limit_reached insufficient_funds_for_transfer : Error
  insufficient_funds gas_uint_overflow intrinsic_gas : Error
  -- An error of another package, passed on.
  foreign : ℕ → Error

-- How a Go function ends: by a run-time panic, with an error, or with what it computes.
pub data Run {ℓ} (R : Type ℓ) : Type ℓ where
  panic : Run R
  err : Error → Run R
  ok : R → Run R

infixl 5 ◌>>=◌
abbrev pub ◌>>=◌ {ℓ κ} : {R : Type ℓ} {T : Type κ} → Run R → (R → Run T) → Run T
panic >>= next = panic
err failure >>= next = err failure
ok value >>= next = next value

-- A chain that ends well has a first step that ends well.
pub >>=-eq-ok {ℓ κ} :
    {R : Type ℓ} {T : Type κ} (first : Run R) (next : R → Run T) {result : T}
    → (first >>= next) ≡ ok result
    → (value : R) × (first ≡ ok value) × (next value ≡ ok result)
>>=-eq-ok panic next e = ground arith
>>=-eq-ok (err failure) next e = ground arith
>>=-eq-ok (ok value) next e = (value, refl, e)
