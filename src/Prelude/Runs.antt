-- ===== src/Prelude/Runs.antt =====
-- The outcomes of code that writes through addresses.
-- The outcome of a call: `stray` where the C code writes through an address of the wrong kind or
-- follows a null pointer.
pub data Run {ℓ} (A : Type ℓ) : Type ℓ where
  ok : A → Run A
  stray : Run A
  out_of_fuel : Run A

infixl 5 ◌>>=◌
abbrev pub ◌>>=◌ {ℓ κ} : {A : Type ℓ} {B : Type κ} → Run A → (A → Run B) → Run B
ok a >>= f = f a
stray >>= f = stray
out_of_fuel >>= f = out_of_fuel
