-- ===== src/Log/Safe.antt =====
-- What holds of a run that a stop of the machine may cut short: one predicate on the disk that a stop
-- leaves, one on the state at the end.
use operating_systems_class.Prelude.{
  ℕ, zero, suc, ◌≡◌, ◌⊎◌, Bool, true, Option, none, some, arith, refl,
}
use operating_systems_class.Log.{
  Disk, LogState, Crash, done, crashed, ◌>>=◌, put, bwrite, bwrite_left,
}

module _ {ℓ} {A : Type ℓ} where
  abbrev pub Safe : (Disk → Type 0) → (A → Type 0) → Crash A → Type 0
  Safe P Q (done a) = Q a
  Safe P Q (crashed d) = P d

pub Safe-bind {ℓ κ} :
    {A : Type ℓ} {B : Type κ} (P : Disk → Type 0) (Q : A → Type 0) (R : B → Type 0) (m : Crash A)
    (f : A → Crash B)
    → Safe P Q m
    → ((a : A) → Q a → Safe P R (f a))
    → Safe P R (m >>= f)
Safe-bind P Q R (done a) f q next = next a q
Safe-bind P Q R (crashed d) f p next = p

pub Safe-mono {ℓ} :
    {A : Type ℓ} (P P' : Disk → Type 0) (Q Q' : A → Type 0) (m : Crash A)
    → Safe P Q m
    → ((d : Disk) → P d → P' d)
    → ((a : A) → Q a → Q' a)
    → Safe P' Q' m
Safe-mono P P' Q Q' (done a) q f g = g a q
Safe-mono P P' Q Q' (crashed d) p f g = f d p

-- A machine that does not stop.
pub Safe-finish {ℓ} :
    {A : Type ℓ} (Q : A → Type 0) (m : Crash A) → Safe (λ d. ⊥) Q m → (a : A) × (m ≡ done a) × Q a
Safe-finish Q (done a) q = (a, refl, q)
Safe-finish Q (crashed d) p = absurd p

-- The state after a write.
abbrev pub written : LogState → ℕ → Option ℕ → LogState
written s b left = record s { disk = put s.disk b (s.cache b); left = left }

-- Either the machine may stop, or it never does.
abbrev pub May : Bool → Option ℕ → Type 0
May stop left = (stop ≡ true) ⊎ (left ≡ none)

-- The disk of a machine that has stopped.
abbrev pub Stopped : Bool → (Disk → Type 0) → Disk → Type 0
Stopped stop P d = (stop ≡ true) × P d

-- A write stops before it reaches the disk, if it may, or leaves the disk with that block.
pub bwrite-Safe :
    (stop : Bool) (P : Disk → Type 0) (Q : LogState → Type 0) (s : LogState) (b : ℕ)
    → May stop s.left
    → (stop ≡ true → P s.disk)
    → ((left : Option ℕ) → May stop left → Q (written s b left))
    → Safe P Q (bwrite s b)
unfolding bwrite bwrite_left
bwrite-Safe stop P Q s b may p q = go s.left may
  where
    go : (left : Option ℕ) → May stop left → Safe P Q (bwrite_left s b left)
    go none m = q none m
    go (some zero) m = p (ground arith)
    go (some (suc n)) m = q (some n) (ground arith)
