-- ===== src/Lock/Exclusion.antt =====
-- The spin lock keeps CPUs apart.
use operating_systems_class.Prelude.{
  ℕ, ◌≡◌, ◌≢◌, ◌↔◌, inl, inr, Bool-cases, Bool, true, false, none, some, ◌==◌, if◌then◌else◌, arith,
  refl, ap, sym, ◌∙◌,
}
use native.Mathlib.Decide.{ℕ_discrete}
use operating_systems_class.Lock.{SpinLock, initlock, is_cpu}
use operating_systems_class.Lock.Race.{Pc, cpu_step, System, put_pc, Reach, start, step}

-- From the swap that takes the lock to the one that gives it back.
unfoldable pub owns : Pc → Bool
owns Pc.idle = false
owns Pc.testing = false
owns Pc.testing_cpu = false
owns Pc.spinning = false
owns Pc.taken = true
owns Pc.inside = true
owns Pc.checking = true
owns Pc.checking_cpu = true
owns Pc.clearing = true
owns Pc.unlocking = true
owns Pc.panicked = false

-- While `lk->cpu` names the owner.
unfoldable pub recorded : Pc → Bool
recorded Pc.idle = false
recorded Pc.testing = false
recorded Pc.testing_cpu = false
recorded Pc.spinning = false
recorded Pc.taken = false
recorded Pc.inside = true
recorded Pc.checking = true
recorded Pc.checking_cpu = true
recorded Pc.clearing = true
recorded Pc.unlocking = false
recorded Pc.panicked = false

unfoldable pub has_panicked : Pc → Bool
has_panicked Pc.idle = false
has_panicked Pc.testing = false
has_panicked Pc.testing_cpu = false
has_panicked Pc.spinning = false
has_panicked Pc.taken = false
has_panicked Pc.inside = false
has_panicked Pc.checking = false
has_panicked Pc.checking_cpu = false
has_panicked Pc.clearing = false
has_panicked Pc.unlocking = false
has_panicked Pc.panicked = true

pub record Inv (lk : SpinLock) (pc : ℕ → Pc) : Type 0 where
  pub unique : (i j : ℕ) → owns (pc i) ≡ true → owns (pc j) ≡ true → i ≡ j
  pub closed : (i : ℕ) → owns (pc i) ≡ true → lk.locked ≡ true
  pub held : lk.locked ≡ true → (i : ℕ) × (owns (pc i) ≡ true)
  pub named : (i : ℕ) → is_cpu i lk.cpu ≡ recorded (pc i)
  pub calm : (i : ℕ) → has_panicked (pc i) ≡ false

-- What a step of one CPU may do to the lock.
data Moves (i : ℕ) (lk : SpinLock) (p : Pc) : SpinLock → Pc → Type 0 where
  looks :
      (p' : Pc)
      → owns p' ≡ owns p
      → recorded p' ≡ recorded p
      → has_panicked p' ≡ false
      → Moves i lk p lk p'
  takes :
      (p' : Pc)
      → lk.locked ≡ false
      → owns p' ≡ true
      → recorded p' ≡ recorded p
      → has_panicked p' ≡ false
      → Moves i lk p (record lk { locked = true }) p'
  signs :
      (p' : Pc)
      → owns p ≡ true
      → owns p' ≡ true
      → recorded p' ≡ true
      → has_panicked p' ≡ false
      → Moves i lk p (record lk { cpu = some i }) p'
  clears :
      (p' : Pc)
      → owns p ≡ true
      → recorded p ≡ true
      → owns p' ≡ true
      → recorded p' ≡ false
      → has_panicked p' ≡ false
      → Moves i lk p (record lk { cpu = none }) p'
  opens :
      (p' : Pc)
      → owns p ≡ true
      → owns p' ≡ false
      → recorded p' ≡ recorded p
      → has_panicked p' ≡ false
      → Moves i lk p (record lk { locked = false }) p'

recorded-owns : (p : Pc) → recorded p ≡ true → owns p ≡ true
unfolding owns recorded
recorded-owns Pc.idle e = absurd (ground (arith, e))
recorded-owns Pc.testing e = absurd (ground (arith, e))
recorded-owns Pc.testing_cpu e = absurd (ground (arith, e))
recorded-owns Pc.spinning e = absurd (ground (arith, e))
recorded-owns Pc.taken e = absurd (ground (arith, e))
recorded-owns Pc.inside e = refl
recorded-owns Pc.checking e = refl
recorded-owns Pc.checking_cpu e = refl
recorded-owns Pc.clearing e = refl
recorded-owns Pc.unlocking e = absurd (ground (arith, e))
recorded-owns Pc.panicked e = absurd (ground (arith, e))

module _ (i : ℕ) (lk : SpinLock) (pc : ℕ → Pc) (v : Inv lk pc) where
  cpu_step-Moves : (p : Pc) → pc i ≡ p → Moves i lk p (cpu_step i lk p).0 (cpu_step i lk p).1
  unfolding cpu_step owns recorded has_panicked
  cpu_step-Moves Pc.idle e = looks Pc.testing refl refl refl
  cpu_step-Moves Pc.testing e = elim (Bool-cases lk.locked) [
    | inl l ↦ rw l (looks Pc.testing_cpu refl refl refl)
    | inr l ↦ rw l (looks Pc.spinning refl refl refl)
  ]
  cpu_step-Moves Pc.testing_cpu e =
      let n : is_cpu i lk.cpu ≡ false = v.named i ∙ ap recorded e in
      rw n (looks Pc.spinning refl refl refl)
  cpu_step-Moves Pc.spinning e = elim (Bool-cases lk.locked) [
    | inl l ↦ rw l (looks Pc.spinning refl refl refl)
    | inr l ↦ rw l (takes Pc.taken refl refl refl refl)
  ]
  cpu_step-Moves Pc.taken e = signs Pc.inside refl refl refl refl
  cpu_step-Moves Pc.inside e = looks Pc.checking refl refl refl
  cpu_step-Moves Pc.checking e =
      let l : lk.locked ≡ true = v.closed i (ap owns e) in
      rw l (looks Pc.checking_cpu refl refl refl)
  cpu_step-Moves Pc.checking_cpu e =
      let n : is_cpu i lk.cpu ≡ true = v.named i ∙ ap recorded e in
      rw n (looks Pc.clearing refl refl refl)
  cpu_step-Moves Pc.clearing e = clears Pc.unlocking refl refl refl refl refl
  cpu_step-Moves Pc.unlocking e = opens Pc.idle refl refl refl refl
  cpu_step-Moves Pc.panicked e = absurd (ground (arith, v.calm i, ap has_panicked e))

  -- A test of the place where each CPU stands, after the step.
  moved :
      {p' : Pc} (f : Pc → Bool) (b : Bool)
      → f p' ≡ b
      → (j : ℕ) → f (put_pc pc i p' j) ≡ (if j == i then b else f (pc j))
  moved f b e j = elim (Bool-cases (j == i)) [ inl h ↦ rw h e | inr h ↦ rw h refl ]

  unmoved :
      {p p' : Pc} (f : Pc → Bool)
      → pc i ≡ p
      → f p' ≡ f p
      → (j : ℕ) → f (put_pc pc i p' j) ≡ f (pc j)
  unmoved f e q j = elim (ℕ_discrete j i) [
    | yes h ↦
        let here : f (pc j) ≡ f (pc i) = ap (λ k. f (pc k)) h in
        ground (arith, moved f (f (pc i)) (q ∙ sym (ap f e)) j, here)
    | no h ↦ ground (arith, moved f (f (pc i)) (q ∙ sym (ap f e)) j, h)
  ]

  calm_moved :
      (p' : Pc) → has_panicked p' ≡ false → (j : ℕ) → has_panicked (put_pc pc i p' j) ≡ false
  calm_moved p' c j = ground (arith, moved has_panicked false c j, v.calm j)

  -- Who is recorded is the CPU that owns the lock.
  not_recorded : {p : Pc} → pc i ≡ p → owns p ≡ true → (j : ℕ) → j ≢ i → recorded (pc j) ≡ false
  not_recorded e o j n = elim (Bool-cases (recorded (pc j))) [
    | inl r ↦ absurd (n (v.unique j i (recorded-owns (pc j) r) (ap owns e ∙ o)))
    | inr r ↦ r
  ]

  same_owners :
      (p p' : Pc) → pc i ≡ p → owns p' ≡ owns p → (j : ℕ) → owns (put_pc pc i p' j) ≡ owns (pc j)
  same_owners p p' = unmoved owns

  -- Whatever the step, the invariant stays.
  Moves-Inv :
      (p : Pc)
      → pc i ≡ p
      → (lk' : SpinLock) (p' : Pc) → Moves i lk p lk' p'
      → Inv lk' (put_pc pc i p')
  unfolding is_cpu
  Moves-Inv p e _ _ (looks p' o r c) =
      let same = same_owners p p' e o in
      record {
        unique = λ a b x y. v.unique a b (sym (same a) ∙ x) (sym (same b) ∙ y);
        closed = λ a x. v.closed a (sym (same a) ∙ x);
        held = λ l. let (a, x) = v.held l in (a, same a ∙ x);
        named = λ j. v.named j ∙ sym (unmoved recorded e r j);
        calm = calm_moved p' c;
      }
  Moves-Inv p e _ _ (takes p' l o r c) =
      let only : (j : ℕ) → owns (put_pc pc i p' j) ≡ true → j ≡ i =
        λ j x. ground (arith, moved owns true o j, x, v.closed j, l) in
      record {
        unique = λ a b x y. only a x ∙ sym (only b y);
        closed = λ a x. refl;
        held = λ x. (i, ground (arith, moved owns true o i));
        named = λ j. v.named j ∙ sym (unmoved recorded e r j);
        calm = calm_moved p' c;
      }
  Moves-Inv p e _ _ (signs p' o o' r c) =
      let same = same_owners p p' e (o' ∙ sym o) in
      record {
        unique = λ a b x y. v.unique a b (sym (same a) ∙ x) (sym (same b) ∙ y);
        closed = λ a x. v.closed a (sym (same a) ∙ x);
        held = λ l. let (a, x) = v.held l in (a, same a ∙ x);
        named = λ j. ground (arith, moved recorded true r j, not_recorded e o j);
        calm = calm_moved p' c;
      }
  Moves-Inv p e _ _ (clears p' o r o' r' c) =
      let same = same_owners p p' e (o' ∙ sym o) in
      record {
        unique = λ a b x y. v.unique a b (sym (same a) ∙ x) (sym (same b) ∙ y);
        closed = λ a x. v.closed a (sym (same a) ∙ x);
        held = λ l. let (a, x) = v.held l in (a, same a ∙ x);
        named = λ j. ground (arith, moved recorded false r' j, not_recorded e o j);
        calm = calm_moved p' c;
      }
  Moves-Inv p e _ _ (opens p' o o' r c) =
      let nobody : (j : ℕ) → owns (put_pc pc i p' j) ≡ false = λ j. elim (ℕ_discrete j i) [
        | yes h ↦ ground (arith, moved owns false o' j, h)
        | no h ↦ elim (Bool-cases (owns (pc j))) [
          | inl x ↦ absurd (h (v.unique j i x (ap owns e ∙ o)))
          | inr x ↦ ground (arith, moved owns false o' j, h, x)
        ]
      ] in
      record {
        unique = λ a b x y. absurd (ground (arith, nobody a, x));
        closed = λ a x. absurd (ground (arith, nobody a, x));
        held = λ l. absurd (ground (arith, l));
        named = λ j. v.named j ∙ sym (unmoved recorded e r j);
        calm = calm_moved p' c;
      }

pub Reach-Inv : {s : System} → Reach s → Inv s.lock s.pc
unfolding initlock owns recorded has_panicked is_cpu
Reach-Inv start = record {
  unique = λ a b x y. absurd (ground (arith, x));
  closed = λ a x. absurd (ground (arith, x));
  held = λ l. absurd (ground (arith, l));
  named = λ j. refl;
  calm = λ j. refl;
}
Reach-Inv (step i {s} r) =
    let v = Reach-Inv r in
    Moves-Inv i s.lock s.pc v (s.pc i) refl (cpu_step i s.lock (s.pc i)).0
      (cpu_step i s.lock (s.pc i)).1 (cpu_step-Moves i s.lock s.pc v (s.pc i) refl)

-- In whatever order the CPUs take their steps, at most one of them is between the swap that takes the lock and
-- the one that gives it back; the lock is locked exactly while one is; and no CPU panics in
-- `acquire` or `release`, although `holding` reads the two fields one after the other without the lock.
pub Reach-excludes :
    {s : System}
    → Reach s
    → ((i j : ℕ) → owns (s.pc i) ≡ true → owns (s.pc j) ≡ true → i ≡ j)
      × ((s.lock.locked ≡ true) ↔ ((i : ℕ) × (owns (s.pc i) ≡ true)))
      × ((i : ℕ) → has_panicked (s.pc i) ≡ false)
Reach-excludes r = let v = Reach-Inv r in (v.unique, (v.held, λ (i, o). v.closed i o), v.calm)
