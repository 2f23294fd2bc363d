-- ===== src/Run.antt =====
-- What a run of the kernel's C code can end in: a value, a fault (an access outside an array, a
-- call of panic), or a loop that has used up its fuel.
pub data Run {ℓ} (A : Type ℓ) : Type ℓ where
  ok : A → Run A
  fault : Run A
  no_fuel : Run A

infixl 5 ◌>>=◌
abbrev pub ◌>>=◌ {ℓ κ} : {A : Type ℓ} {B : Type κ} → Run A → (A → Run B) → Run B
ok a >>= f = f a
fault >>= f = fault
no_fuel >>= f = no_fuel
