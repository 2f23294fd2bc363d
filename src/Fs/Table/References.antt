-- ===== src/Fs/Table/References.antt =====
-- How many references a table holds to an inode.
use operating_systems_class.Prelude.{
  ℕ, zero, suc, ◌+◌, ◌≤◌, ◌<◌, ◌≡◌, ◌≢◌, true, false, ◌&&◌, ◌==◌, if◌then◌else◌, arith, refl, ap,
  ap₂, ◌∙◌,
}
use native.Mathlib.Decide.{ℕ_discrete}
use operating_systems_class.Fs.Table.{ninode, Entry, Table, put_entry, is_entry}

-- f 0 + ... + f (n - 1)
sum : ℕ → (ℕ → ℕ) → ℕ
sum zero f = 0
sum (suc n) f = sum n f + f n

sum_same : (n : ℕ) (f g : ℕ → ℕ) → ((j : ℕ) → j < n → g j ≡ f j) → sum n g ≡ sum n f
unfolding sum
sum_same zero f g e = refl
sum_same (suc n) f g e = ap₂ ◌+◌ (sum_same n f g (λ j h. e j (omega arith))) (e n (omega arith))

sum_change :
    (n i : ℕ) (f g : ℕ → ℕ) → i < n → ((j : ℕ) → j ≢ i → g j ≡ f j) → sum n g + f i ≡ sum n f + g i
unfolding sum
sum_change zero i f g h e = absurd (omega arith)
sum_change (suc n) i f g h e = elim (ℕ_discrete n i) [
  | yes q ↦
      let below = sum_same n f g (λ j l. e j (λ z. absurd (omega (arith, q, z, l)))) in
      omega (arith, below, ap f q, ap g q)
  | no q ↦ omega (arith, sum_change n i f g (omega (arith, q)) e, e n q)
]

-- An entry holds its count for the inode that it names.
abbrev pub held_by : (dev inum : ℕ) → Entry → ℕ
held_by dev inum e = if (e.dev == dev) && (e.inode.inum == inum) then e.ref else 0

pub references : Table → (dev inum : ℕ) → ℕ
unfolding sum
references t dev inum = sum ninode (λ j. held_by dev inum (t j))

pub put_entry_self : (t : Table) (i : ℕ) (e : Entry) → put_entry t i e i ≡ e
put_entry_self t i e = let same : (i == i) ≡ true = ground arith in rw same refl

pub put_entry_ne : (t : Table) (i : ℕ) (e : Entry) (j : ℕ) → j ≢ i → put_entry t i e j ≡ t j
put_entry_ne t i e j n = let other : (j == i) ≡ false = ground (arith, n) in rw other refl

pub references-put_entry :
    (t : Table) (i : ℕ) (e : Entry) (dev inum : ℕ)
    → i < ninode
    → references (put_entry t i e) dev inum + held_by dev inum (t i)
      ≡ references t dev inum + held_by dev inum e
unfolding references
references-put_entry t i e dev inum h =
    sum_change ninode i (λ j. held_by dev inum (t j)) (λ j. held_by dev inum (put_entry t i e j)) h
      (λ j n. ap (held_by dev inum) (put_entry_ne t i e j n))
    ∙ ap (λ x. references t dev inum + held_by dev inum x) (put_entry_self t i e)

sum_ge : (n i : ℕ) (f : ℕ → ℕ) → i < n → f i ≤ sum n f
unfolding sum
sum_ge zero i f h = absurd (omega arith)
sum_ge (suc n) i f h = elim (ℕ_discrete n i) [
  | yes q ↦ omega (arith, ap f q)
  | no q ↦ omega (arith, sum_ge n i f (omega (arith, q)))
]

sum_zero : (n : ℕ) (f : ℕ → ℕ) → ((j : ℕ) → j < n → f j ≡ 0) → sum n f ≡ 0
unfolding sum
sum_zero zero f e = refl
sum_zero (suc n) f e = omega (arith, sum_zero n f (λ j h. e j (omega arith)), e n (omega arith))

pub references_pos :
    (t : Table) (i dev inum : ℕ)
    → i < ninode
    → is_entry dev inum (t i) ≡ true
    → 0 < references t dev inum
unfolding references
references_pos t i dev inum h e =
    let held : 0 < held_by dev inum (t i) = ground (arith, e) in
    omega (arith, held, sum_ge ninode i (λ j. held_by dev inum (t j)) h)

pub references_none :
    (t : Table) (dev inum : ℕ)
    → ((j : ℕ) → j < ninode → is_entry dev inum (t j) ≡ false)
    → references t dev inum ≡ 0
unfolding references
references_none t dev inum n =
    sum_zero ninode (λ j. held_by dev inum (t j)) (λ j h. ground (arith, n j h))
