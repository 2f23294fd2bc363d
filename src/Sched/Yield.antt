-- ===== src/Sched/Yield.antt =====
-- `yield` away from a priority boost: the process stays on the CPU within its quantum, and goes to
-- the back of the next lower queue once it has used it up.
use operating_systems_class.Prelude.{
  ℕ, ◌+◌, ◌-◌, ◌%◌, ◌≤◌, ◌<◌, ◌≡◌, ◌≢◌, true, false, [], ◌∷◌, ◌++◌, arith, refl,
}
use operating_systems_class.Run.{ok}
use operating_systems_class.Queue.Chain.{has-snoc}
use operating_systems_class.Queue.View.{Queues, Absent, with_queue}
use operating_systems_class.Queue.Insert.{enqueue_back_refines}
use operating_systems_class.Proc.{runnable, Proc, Kernel, put_proc, quantum}
use operating_systems_class.Sched.{charge, yield_cpu}
use operating_systems_class.Sched.Inv.{IsMlfq, IsRunning, Absent-of_state}

-- The process of `k` keeps its place: one more tick, and no queue changes.
pub record Stays (k k' : Kernel) (x : ℕ) : Type 0 where
  pub not_kicked : k'.p_kicked ≡ false
  pub same_chosen : k'.chosen ≡ k.chosen
  pub same_qtable : k'.qtable ≡ k.qtable
  pub same_time : k'.time ≡ k.time
  pub self : k'.procs x ≡ record (k.procs x) { state = runnable; runtime = (k.procs x).runtime + 1 }
  pub others : (y : ℕ) → y ≢ x → k'.procs y ≡ k.procs y

-- The process of `k` has gone down one level, and starts there afresh.
pub record Demoted (k k' : Kernel) (x : ℕ) : Type 0 where
  pub is_kicked : k'.p_kicked ≡ true
  pub same_time : k'.time ≡ k.time
  pub self :
      k'.procs x
      ≡ record (k.procs x) { state = runnable; runtime = 0; queue = (k.procs x).queue - 1 }
  pub others : (y : ℕ) → y ≢ x → k'.procs y ≡ k.procs y

module _ {k : Kernel} {qs : Queues} {x : ℕ} (m : IsMlfq k qs) (run : IsRunning k x) where
  absent : Absent x qs
  absent = Absent-of_state x m (ground (arith, run.state))

  pub charge-Stays :
      (k.procs x).runtime + 1 < quantum (k.procs x)
      → (k' : Kernel) × (charge k x ≡ ok k') × IsMlfq k' qs × Stays k k' x
  unfolding charge quantum
  charge-Stays h = (
    record (put_proc k x
        (record (k.procs x) { runtime = (k.procs x).runtime + 1; state = runnable })) {
          p_kicked = false;
        },
    ground (arith, run.state),
    record {
      view = m.view;
      sound = λ q y l i. ground (arith, m.sound q y l i, absent q l, run.chosen);
      complete = λ y l s n. ground (arith, m.complete y l, run.chosen, run.kicked);
      stays = λ y s. ground (arith, run.chosen);
      fresh = λ y l s. ground (arith, m.fresh y l);
      levels = λ y l. ground (arith, m.levels y l);
      quanta = λ y l. ground (arith, m.quanta y l);
    },
    record {
      not_kicked = refl;
      same_chosen = refl;
      same_qtable = refl;
      same_time = refl;
      self = ground arith;
      others = λ y n. ground arith;
    },
  )

  abbrev lowered : Proc
  lowered = record (k.procs x) { runtime = 0; state = runnable; queue = (k.procs x).queue - 1 }

  pub charge_demotes :
      let q = (k.procs x).queue - 1 in
      quantum (k.procs x) ≤ (k.procs x).runtime + 1
      → (k' : Kernel) × (charge k x ≡ ok k')
        × IsMlfq k' (with_queue qs q (qs q ++ (x ∷ [])))
        × Demoted k k' x
  unfolding charge quantum
  charge_demotes h =
      let q = (k.procs x).queue - 1 in
      let (t', added, v') =
        enqueue_back_refines m.view q x 1 (ground (arith, m.levels x run.in_table)) run.in_table
          absent in
      (
        record (put_proc k x lowered) { qtable = t' },
        ground (arith, run.state, added),
        record {
          view = v';
          sound =
              λ r y l i. ground (arith, m.sound r y l, absent r l, has-snoc y x (qs q), run.kicked);
          complete = λ y l s n. ground (arith, m.complete y l, has-snoc y x (qs q), run.kicked);
          stays = λ y s. absurd (ground (arith, run.kicked));
          fresh = λ y l s. ground (arith, m.fresh y l);
          levels = λ y l. ground (arith, m.levels y l);
          quanta = λ y l. ground (arith, m.quanta y l);
        },
        record {
          is_kicked = run.kicked;
          same_time = refl;
          self = ground arith;
          others = λ y n. ground arith;
        },
      )

  -- From a state where the invariant of queues and quanta holds and process `x` runs, away from
  -- a boost: if this tick does not use up the quantum of its level, the process stays on the
  -- CPU; it is charged one tick, the invariant holds, and no queue changes.
  pub yield-Stays :
      (k.procs x).runtime + 1 < quantum (k.procs x)
      → k.time % 60 ≢ 0
      → (k' : Kernel) × (yield_cpu k x ≡ ok k') × IsMlfq k' qs × Stays k k' x
  unfolding yield_cpu
  yield-Stays h n =
      let (k', charged, m', stays) = charge-Stays h in
      (k', ground (arith, charged, stays), m', stays)

  -- From a state where the invariant of queues and quanta holds and process `x` runs, away from
  -- a boost: if this tick uses up the quantum of its level, `yield` moves it to the back of the
  -- next lower queue, or of the lowest if it is there, with no tick counted; the invariant
  -- holds, and the process leaves the CPU.
  pub yield_demotes :
      quantum (k.procs x) ≤ (k.procs x).runtime + 1
      → k.time % 60 ≢ 0
      → (k' : Kernel) × (yield_cpu k x ≡ ok k')
        × IsMlfq k' (with_queue qs ((k.procs x).queue - 1) (qs ((k.procs x).queue - 1) ++ (x ∷ [])))
        × Demoted k k' x
  unfolding yield_cpu
  yield_demotes h n =
      let (k', charged, m', low) = charge_demotes h in (k', ground (arith, charged, low), m', low)
