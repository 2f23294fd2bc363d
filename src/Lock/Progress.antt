-- ===== src/Lock/Progress.antt =====
-- A CPU that waits for the spin lock can still get it.
use operating_systems_class.Prelude.{
  ℕ, zero, suc, ◌≤◌, ◌<◌, ◌≡◌, ◌≢◌, ◌⊎◌, inl, inr, Bool-cases, true, false, arith, refl, ap, sym,
  ◌∙◌,
}
use operating_systems_class.Lock.{SpinLock, is_cpu}
use operating_systems_class.Lock.Race.{Pc, cpu_step, System, advance, Reach, step}
use operating_systems_class.Lock.Exclusion.{owns, recorded, Reach-Inv}

-- Any number of steps of any CPUs.
pub data Leads (s : System) : System → Type 0 where
  no_step : Leads s s
  then_step : {t : System} (i : ℕ) → Leads s t → Leads s (advance i t)

Leads-trans : {s t u : System} → Leads s t → Leads t u → Leads s u
Leads-trans a no_step = a
Leads-trans a (then_step i b) = then_step i (Leads-trans a b)

-- How many steps the owner is away from giving the lock back.
rank : Pc → ℕ
rank Pc.idle = 0
rank Pc.testing = 0
rank Pc.testing_cpu = 0
rank Pc.spinning = 0
rank Pc.taken = 6
rank Pc.inside = 5
rank Pc.checking = 4
rank Pc.checking_cpu = 3
rank Pc.clearing = 2
rank Pc.unlocking = 1
rank Pc.panicked = 0

-- A step of the owner gives the lock back, or brings that nearer.
lowers :
    (i : ℕ) (lk : SpinLock) (p : Pc)
    → owns p ≡ true
    → lk.locked ≡ true
    → is_cpu i lk.cpu ≡ recorded p
    → ((cpu_step i lk p).0.locked ≡ false)
      ⊎ ((owns (cpu_step i lk p).1 ≡ true) × rank (cpu_step i lk p).1 < rank p)
unfolding cpu_step owns recorded rank
lowers i lk Pc.idle o l n = absurd (ground (arith, o))
lowers i lk Pc.testing o l n = absurd (ground (arith, o))
lowers i lk Pc.testing_cpu o l n = absurd (ground (arith, o))
lowers i lk Pc.spinning o l n = absurd (ground (arith, o))
lowers i lk Pc.taken o l n = inr (refl, omega arith)
lowers i lk Pc.inside o l n = inr (refl, omega arith)
lowers i lk Pc.checking o l n = rw l (inr (refl, omega arith))
lowers i lk Pc.checking_cpu o l n = rw n (inr (refl, omega arith))
lowers i lk Pc.clearing o l n = inr (refl, omega arith)
lowers i lk Pc.unlocking o l n = inl refl
lowers i lk Pc.panicked o l n = absurd (ground (arith, o))

rank-pos : (p : Pc) → owns p ≡ true → 0 < rank p
unfolding owns rank
rank-pos Pc.idle o = absurd (ground (arith, o))
rank-pos Pc.testing o = absurd (ground (arith, o))
rank-pos Pc.testing_cpu o = absurd (ground (arith, o))
rank-pos Pc.spinning o = absurd (ground (arith, o))
rank-pos Pc.taken o = omega arith
rank-pos Pc.inside o = omega arith
rank-pos Pc.checking o = omega arith
rank-pos Pc.checking_cpu o = omega arith
rank-pos Pc.clearing o = omega arith
rank-pos Pc.unlocking o = omega arith
rank-pos Pc.panicked o = absurd (ground (arith, o))

-- A state in which the lock is free, the other CPUs standing where they stood.
record Freed (s : System) (j : ℕ) : Type 0 where
  then_ : System
  leads : Leads s then_
  free : then_.lock.locked ≡ false
  others : (i : ℕ) → i ≢ j → then_.pc i ≡ s.pc i

other_pc : (s : System) (i j : ℕ) → i ≢ j → (advance j s).pc i ≡ s.pc i
other_pc s i j n = ground (arith, n)

own_pc : (s : System) (j : ℕ) → (advance j s).pc j ≡ (cpu_step j s.lock (s.pc j)).1
own_pc s j = ground arith

drain :
    (n : ℕ) (s : System) (j : ℕ) → Reach s → owns (s.pc j) ≡ true → rank (s.pc j) ≤ n → Freed s j
drain zero s j r o h = absurd (omega (arith, h, rank-pos (s.pc j) o))
drain (suc n) s j r o h =
    let v = Reach-Inv r in
    elim (lowers j s.lock (s.pc j) o (v.closed j o) (v.named j)) [
      | inl f ↦ record {
        then_ = advance j s;
        leads = then_step j no_step;
        free = f;
        others = λ i q. other_pc s i j q;
      }
      | inr (o', l) ↦
          let f =
            drain n (advance j s) j (step j r) (ap owns (own_pc s j) ∙ o')
              (omega (arith, ap rank (own_pc s j))) in
          record {
            then_ = f.then_;
            leads = Leads-trans (then_step j no_step) f.leads;
            free = f.free;
            others = λ i q. f.others i q ∙ other_pc s i j q;
          }
    ]

-- Take the lock when it is free.
take_free :
    (s : System) (i : ℕ)
    → s.lock.locked ≡ false
    → s.pc i ≡ Pc.spinning
    → (t : System) × Leads s t × (t.pc i ≡ Pc.inside)
unfolding cpu_step
take_free s i f e =
    let first : (advance i s).pc i ≡ Pc.taken =
      own_pc s i ∙ ap (λ p. (cpu_step i s.lock p).1) e ∙ ground (arith, f) in
    (
      advance i (advance i s),
      then_step i (then_step i no_step),
      own_pc (advance i s) i ∙ ap (λ p. (cpu_step i (advance i s).lock p).1) first,
    )

-- From every state that the CPUs can reach, and for every CPU that spins in `acquire`, there are steps after which
-- it holds the lock: no order of steps before can have locked it out for good.
pub spinning_enters :
    {s : System} (i : ℕ)
    → Reach s
    → s.pc i ≡ Pc.spinning
    → (t : System) × Leads s t × (t.pc i ≡ Pc.inside)
unfolding owns
spinning_enters {s} i r e =
    let v = Reach-Inv r in
    elim (Bool-cases s.lock.locked) [
      | inr f ↦ take_free s i f e
      | inl l ↦
          let (j, o) = v.held l in
          let apart : i ≢ j = λ q. ground (arith, o, ap owns (ap s.pc (sym q) ∙ e)) in
          let f = drain (rank (s.pc j)) s j r o (omega arith) in
          let (t, leads, inside) = take_free f.then_ i f.free (f.others i apart ∙ e) in
          (t, Leads-trans f.leads leads, inside)
    ]
