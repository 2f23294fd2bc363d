-- ===== src/Sched/Ready.antt =====
-- The processes that a priority boost enqueues at each level.
use operating_systems_class.Prelude.{
  ℕ, zero, suc, ◌+◌, ◌≤◌, ◌<◌, ◌≡◌, Bool, true, false, ◌&&◌, List, [], ◌∷◌, arith, refl, subst,
  ◌==◌, if◌then◌else◌, Bool-cases, inl, inr, ==_iff,
}
use operating_systems_class.Queue.Chain.{has}
use operating_systems_class.Proc.{is_runnable, Proc, priority}

-- What the boost enqueues at level `q`: the runnable processes of that priority, from process `i` on,
-- in the order of the table.
unfoldable pub ready_from : (ℕ → Proc) → ℕ → ℕ → ℕ → List ℕ
ready_from procs zero i q = []
ready_from procs (suc rounds) i q =
    let rest = ready_from procs rounds (i + 1) q in
    if is_runnable (procs i).state && priority (procs i) == q then i ∷ rest else rest

pub ready_from-frame :
    (procs' procs : ℕ → Proc) (rounds i q : ℕ)
    → ((y : ℕ)
        → i ≤ y
        → (is_runnable (procs' y).state ≡ is_runnable (procs y).state)
          × (priority (procs' y) ≡ priority (procs y)))
    → ready_from procs' rounds i q ≡ ready_from procs rounds i q
unfolding ready_from
ready_from-frame procs' procs zero i q same = refl
ready_from-frame procs' procs (suc rounds) i q same = rw (
  (same i (omega arith)).0,
  (same i (omega arith)).1,
  ready_from-frame procs' procs rounds (i + 1) q (λ y h. same y (omega arith)),
)

-- Whether the boost enqueues a process at level `q`.
abbrev pub ready : Proc → ℕ → Bool
ready p q = is_runnable p.state && priority p == q

-- The processes that the boost enqueues at level `q`, and no others.
pub ready-of_has :
    (procs : ℕ → Proc) (y rounds i q : ℕ)
    → has y (ready_from procs rounds i q) ≡ true
    → ready (procs y) q ≡ true
unfolding ready_from
ready-of_has procs y zero i q h = absurd (ground arith)
ready-of_has procs y (suc rounds) i q h = elim (Bool-cases (ready (procs i) q)) [
  | inl r ↦ elim (Bool-cases (y == i)) [
    | inl e ↦ rw ((==_iff y i).0 e) r
    | inr e ↦ ready-of_has procs y rounds (i + 1) q (rw (r, e) at h)
  ]
  | inr r ↦ ready-of_has procs y rounds (i + 1) q (rw r at h)
]

pub has-of_ready :
    (procs : ℕ → Proc) (y rounds i q : ℕ)
    → ready (procs y) q ≡ true
    → i ≤ y
    → y < i + rounds
    → has y (ready_from procs rounds i q) ≡ true
unfolding ready_from
has-of_ready procs y zero i q r l u = absurd (omega arith)
has-of_ready procs y (suc rounds) i q r l u = elim (Bool-cases (y == i)) [
  | inl e ↦
      subst (λ j. has y (ready_from procs (suc rounds) j q) ≡ true) ((==_iff y i).0 e) (first y r)
  | inr e ↦ later e (has-of_ready procs y rounds (i + 1) q r (ground arith) (omega arith))
]
  where
    first : (j : ℕ) → ready (procs j) q ≡ true → has j (ready_from procs (suc rounds) j q) ≡ true
    first j s = rw s (ground arith)

    later :
        (y == i) ≡ false
        → has y (ready_from procs rounds (i + 1) q) ≡ true
        → has y (ready_from procs (suc rounds) i q) ≡ true
    later e h = elim (Bool-cases (ready (procs i) q)) [ inl s ↦ rw (s, e) h | inr s ↦ rw s h ]
