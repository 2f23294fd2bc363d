-- ===== src/Sched/Turn.antt =====
-- The turn of `scheduler()` that follows a `yield`.
use operating_systems_class.Prelude.{
  ℕ, ◌+◌, ◌%◌, ◌≤◌, ◌<◌, ◌≡◌, ◌≢◌, ◌⊎◌, inl, inr, true, false, List, [], ◌∷◌, arith, refl, sym, ap,
  ◌∙◌,
}
use mathlib.Core.Bool.{false≢true}
use native.Mathlib.Decide.{ℕ_discrete, dec_lt}
use operating_systems_class.Run.{ok}
use operating_systems_class.Queue.{nproc, num_queues}
use operating_systems_class.Queue.Chain.{has}
use operating_systems_class.Queue.View.{Queues, with_queue}
use operating_systems_class.Proc.{runnable, Kernel, quantum}
use operating_systems_class.Sched.{schedule, yield_cpu}
use operating_systems_class.Sched.Inv.{IsMlfq, IsRunning}
use operating_systems_class.Sched.Yield.{yield-Stays, yield_demotes}
use operating_systems_class.Sched.Boost.{yield_boosts}
use operating_systems_class.Sched.Dispatch.{Dispatched, schedule_picks, schedule_keeps}

-- The highest queue that is not empty.
record Highest (qs : Queues) (q x : ℕ) (xs : List ℕ) : Type 0 where
  in_table : q < num_queues
  front : qs q ≡ x ∷ xs
  above : (r : ℕ) → q < r → r < num_queues → qs r ≡ []

List-cases : (xs : List ℕ) → (xs ≡ []) ⊎ ((y : ℕ) × (ys : List ℕ) × (xs ≡ y ∷ ys))
List-cases [] = inl refl
List-cases (y ∷ ys) = inr (y, ys, refl)

highest :
    (qs : Queues) (q y : ℕ)
    → q < num_queues
    → has y (qs q) ≡ true
    → (r : ℕ) × (x : ℕ) × (xs : List ℕ) × Highest qs r x xs × (q ≤ r)
highest qs q y h i = elim (List-cases (qs 2)) [
  | inr (x, xs, e) ↦ (
    2,
    x,
    xs,
    record { in_table = omega arith; front = e; above = λ r l u. absurd (omega arith) },
    omega arith,
  )
  | inl e2 ↦ elim (List-cases (qs 1)) [
    | inr (x, xs, e) ↦ (
      1,
      x,
      xs,
      record { in_table = omega arith; front = e; above = λ r l u. empty_at 2 e2 r (omega arith) },
      omega (arith, vacant e2),
    )
    | inl e1 ↦ elim (List-cases (qs 0)) [
      | inr (x, xs, e) ↦ (
        0,
        x,
        xs,
        record {
          in_table = omega arith;
          front = e;
          above = λ r l u. elim (ℕ_discrete r 2) [
            | yes d ↦ empty_at 2 e2 r d
            | no d ↦ empty_at 1 e1 r (omega arith)
          ];
        },
        omega (arith, vacant e2, vacant e1),
      )
      | inl e0 ↦ absurd (omega (arith, vacant e2, vacant e1, vacant e0))
    ]
  ]
]
  where
    empty_at : (s : ℕ) → qs s ≡ [] → (r : ℕ) → r ≡ s → qs r ≡ []
    empty_at s e r d = ap qs d ∙ e

    vacant : {r : ℕ} → qs r ≡ [] → q ≢ r
    vacant {r} e d = false≢true (ap (has y) (sym e) ∙ ap (λ s. has y (qs s)) (sym d) ∙ i)

le-Highest :
    {k : Kernel} {qs : Queues} {q x : ℕ} {xs : List ℕ}
    → IsMlfq k qs
    → Highest qs q x xs
    → k.p_kicked ≡ true
    → (w : ℕ) → w < nproc
    → (k.procs w).state ≡ runnable
    → (k.procs w).queue ≤ q
le-Highest {k} {qs} {q} m top kicked w h s = elim (dec_lt q (k.procs w).queue) [
  | yes l ↦ absurd (
      false≢true (
        ap (has w) (sym (top.above (k.procs w).queue l (m.levels w h)))
        ∙ m.complete w h s (ground arith)))
  | no n ↦ omega arith
]

-- From a state where the invariant of queues and quanta holds, the last process has left the CPU
-- and some process of the table is runnable: `scheduler` starts a runnable process, no runnable
-- process has a higher level than that one, and the invariant holds.
pub schedule_highest :
    {k : Kernel} {qs : Queues} (m : IsMlfq k qs) (z : ℕ)
    → k.p_kicked ≡ true
    → z < nproc
    → (k.procs z).state ≡ runnable
    → (k' : Kernel) × (y : ℕ) × (qs' : Queues) × (schedule k ≡ ok k')
      × IsMlfq k' qs'
      × IsRunning k' y
      × Dispatched k k' y
      × ((k.procs y).state ≡ runnable)
      × ((w : ℕ) → w < nproc → (k.procs w).state ≡ runnable → (k.procs w).queue ≤ (k.procs y).queue)
schedule_highest {k} {qs} m z kicked h s =
    let (q, x, xs, top, l) =
      highest qs (k.procs z).queue z (m.levels z h) (m.complete z h s (ground arith)) in
    let (k', run, m', r, d) = schedule_picks m q x xs kicked top.in_table top.front top.above in
    let front = m.sound q x top.in_table (ground (arith, top.front)) in
    (
      k',
      x,
      with_queue qs q xs,
      run,
      m',
      r,
      d,
      front.0,
      λ w hw sw. rw front.1 (le-Highest m top kicked w hw sw),
    )

-- After a `yield` there is a process to run: the one that stays, or the one that has been enqueued.
pub data CanSchedule (k : Kernel) : Type 0 where
  stays : k.p_kicked ≡ false → k.chosen < nproc → CanSchedule k
  waits : (z : ℕ) → k.p_kicked ≡ true → z < nproc → (k.procs z).state ≡ runnable → CanSchedule k

pub yield_any :
    {k : Kernel} {qs : Queues} {x : ℕ}
    → IsMlfq k qs
    → IsRunning k x
    → (k' : Kernel) × (qs' : Queues) × (yield_cpu k x ≡ ok k') × IsMlfq k' qs' × CanSchedule k'
yield_any {k} {qs} {x} m run = elim (ℕ_discrete (k.time % 60) 0) [
  | yes t ↦
      let (k', qs', r, m', lists, b) = yield_boosts m run t in
      (k', qs', r, m', waits x b.is_kicked run.in_table (ground (arith, b.self)))
  | no t ↦ elim (dec_lt ((k.procs x).runtime + 1) (quantum (k.procs x))) [
    | yes l ↦
        let (k', r, m', s) = yield-Stays m run l t in
        (k', qs, r, m', stays s.not_kicked (rw (s.same_chosen, run.chosen) run.in_table))
    | no n ↦
        let (k', r, m', d) = yield_demotes m run (omega arith) t in
        (k', _, r, m', waits x d.is_kicked run.in_table (ground (arith, d.self)))
  ]
]

pub schedule_any :
    {k : Kernel} {qs : Queues}
    → IsMlfq k qs
    → CanSchedule k
    → (k' : Kernel) × (y : ℕ) × (qs' : Queues) × (schedule k ≡ ok k')
      × IsMlfq k' qs'
      × IsRunning k' y
schedule_any {k} {qs} m (stays kicked h) =
    let (k', r, m', run, d) = schedule_keeps m kicked h in (k', k.chosen, qs, r, m', run)
schedule_any m (waits z kicked h s) =
    let (k', y, qs', r, m', run, d, was, rest) = schedule_highest m z kicked h s in
    (k', y, qs', r, m', run)
