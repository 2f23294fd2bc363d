-- ===== src/Sched/Boost.antt =====
-- The priority boost: every runnable process goes back to the queue of its nice value.
use operating_systems_class.Prelude.{
  ℕ, zero, suc, ◌+◌, ◌-◌, ◌%◌, ◌≤◌, ◌<◌, ◌≡◌, ◌≢◌, true, false, [], ◌∷◌, ◌++◌, arith, refl, sym,
  ◌∙◌, ltb, leb, if◌then◌else◌, Bool-cases, inl, inr,
}
use mathlib.Core.List.{append-nil, append_assoc}
use operating_systems_class.Run.{ok}
use operating_systems_class.Queue.{nproc, num_queues}
use operating_systems_class.Queue.Chain.{has, has-snoc}
use operating_systems_class.Queue.View.{Queues, IsView, with_queue, empty_queues}
use operating_systems_class.Queue.Insert.{enqueue_back_refines}
use operating_systems_class.Queue.Initialize.{initialize_refines}
use operating_systems_class.Proc.{
  unused, runnable, is_runnable, Proc, Kernel, put_proc, quantum, priority, add_to_queue,
}
use operating_systems_class.Sched.{charge, yield_cpu, boost, boost_from, log_boost, log_size}
use operating_systems_class.Sched.Inv.{
  priority_of_nice, IsMlfq, IsRunning, quantum_pos, priority-lt,
}
use operating_systems_class.Sched.Yield.{charge-Stays, charge_demotes}
use operating_systems_class.Sched.Ready.{ready_from, ready_from-frame, ready-of_has, has-of_ready}

-- A process as the boost leaves it.
abbrev pub boosted : Proc → Proc
boosted p = if is_runnable p.state then record p { queue = priority p; runtime = 0 } else p

-- What the loop has done: `k` is the kernel before its last `rounds` rounds, with queues `qs`, and
-- `k'` the kernel behind them.
record After (rounds i : ℕ) (k k' : Kernel) (qs qs' : Queues) : Type 0 where
  view : IsView k'.qtable qs'
  queues : (q : ℕ) → q < num_queues → qs' q ≡ qs q ++ ready_from k.procs rounds i q
  before : (y : ℕ) → y < i → k'.procs y ≡ k.procs y
  reached : (y : ℕ) → i ≤ y → y < nproc → k'.procs y ≡ boosted (k.procs y)
  kicked : k'.p_kicked ≡ k.p_kicked
  chosen : k'.chosen ≡ k.chosen

boost_from_refines :
    (rounds i : ℕ) (k : Kernel) (qs : Queues)
    → rounds + i ≡ nproc
    → IsView k.qtable qs
    → ((q y : ℕ) → q < num_queues → i ≤ y → has y (qs q) ≡ false)
    → (k' : Kernel) × (qs' : Queues) × (boost_from rounds i k ≡ ok k') × After rounds i k k' qs qs'
unfolding boost_from add_to_queue ready_from
boost_from_refines zero i k qs e v out = (
  k,
  qs,
  refl,
  record {
    view = v;
    queues = λ q h. sym (append-nil (qs q));
    before = λ y h. refl;
    reached = λ y h l. absurd (omega arith);
    kicked = refl;
    chosen = refl;
  },
)
boost_from_refines (suc rounds) i k qs e v out = elim (Bool-cases (is_runnable (k.procs i).state)) [
  | inl r ↦
      let p = k.procs i in
      let q = priority p in
      let (t, added, v') =
        enqueue_back_refines v q i 1 (priority-lt p) (omega arith)
          (λ s h. out s i h (omega arith)) in
      let k1 = record (put_proc k i (record p { queue = q; runtime = 0 })) { qtable = t } in
      let (k', qs', run, after) =
        boost_from_refines rounds (i + 1) k1 (with_queue qs q (qs q ++ (i ∷ []))) (omega arith) v'
          (λ s y h l. ground (arith, out s y h, has-snoc y i (qs q))) in
      (
        k',
        qs',
        ground (arith, r, added, run),
        record {
          view = after.view;
          queues = λ s h. ground (
            arith,
            r,
            after.queues s h,
            ready_from-frame k1.procs k.procs rounds (i + 1) s (λ y l. ground arith),
            append_assoc (qs s) (i ∷ []) (ready_from k.procs rounds (i + 1) s),
          );
          before = λ y h. ground (arith, after.before y);
          reached = λ y h l. ground (arith, after.reached y, after.before y);
          kicked = after.kicked;
          chosen = after.chosen;
        },
      )
  | inr r ↦
      let (k', qs', run, after) =
        boost_from_refines rounds (i + 1) k qs (omega arith) v
          (λ s y h l. out s y h (omega arith)) in
      (
        k',
        qs',
        ground (arith, run, r),
        record {
          view = after.view;
          queues = λ s h. ground (arith, after.queues s h);
          before = λ y h. after.before y (omega arith);
          reached = λ y h l. ground (arith, after.reached y, after.before y);
          kicked = after.kicked;
          chosen = after.chosen;
        },
      )
]

log_boost_keeps : (k : Kernel) → ((log_boost k).procs ≡ k.procs) × ((log_boost k).qtable ≡ k.qtable)
unfolding log_boost
log_boost_keeps k = elim (Bool-cases (ltb k.log_count log_size)) [
  | inl l ↦ rw l (refl, refl)
  | inr l ↦ rw l (refl, refl)
]

-- A boost while process `x` yields: every runnable process, `x` among them, is at the level of its
-- nice value with no tick counted, no other process changes, and `x` leaves the CPU.
pub record Boosted (k k' : Kernel) (x : ℕ) : Type 0 where
  pub is_kicked : k'.p_kicked ≡ true
  pub self : k'.procs x ≡ boosted (record (k.procs x) { state = runnable })
  pub others : (y : ℕ) → y < nproc → y ≢ x → k'.procs y ≡ boosted (k.procs y)

After-IsMlfq :
    {k k' : Kernel} {qs : Queues}
    → After nproc 0 k k' empty_queues qs
    → k.p_kicked ≡ true
    → ((y : ℕ) → y < nproc → (k.procs y).state ≡ unused → (k.procs y).runtime ≡ 0)
    → ((y : ℕ) → y < nproc → (k.procs y).queue < num_queues)
    → ((y : ℕ) → y < nproc → (k.procs y).runtime < quantum (k.procs y))
    → IsMlfq k' qs
After-IsMlfq {k} {k'} {qs} a kicked fresh levels quanta = record {
  view = a.view;
  sound = λ q y l i. ground (
    arith,
    a.queues q l,
    ready-of_has k.procs y nproc 0 q,
    a.reached y,
    a.view.small q y l i,
    a.kicked,
  );
  complete = λ y l r n. ground (
    arith,
    a.queues (priority (k.procs y)) (priority-lt (k.procs y)),
    has-of_ready k.procs y nproc 0 (priority (k.procs y)),
    a.reached y,
  );
  stays = λ y s. absurd (ground (arith, a.kicked));
  fresh = λ y l s. ground (arith, a.reached y, fresh y l);
  levels = λ y l. ground (arith, a.reached y, levels y, priority-lt (k.procs y));
  quanta = λ y l. ground (arith, a.reached y, quanta y, quantum_pos (boosted (k.procs y)));
}

pub boost_refines :
    {k : Kernel} {qs : Queues} {x : ℕ}
    → IsMlfq k qs
    → x < nproc
    → (k.procs x).state ≡ runnable
    → (k' : Kernel) × (qs' : Queues) × (boost k x ≡ ok k')
      × IsMlfq k' qs'
      × ((q : ℕ) → q < num_queues → qs' q ≡ ready_from k.procs nproc 0 q)
      × Boosted k k' x
unfolding boost
boost_refines {k} {qs} {x} m h s =
    let (t, emptied, v, same) = initialize_refines (log_boost k).qtable in
    let k0 = log_boost k in
    let k1 = record (put_proc k0 x (record (k0.procs x) { runtime = 0 })) {
      qtable = t;
      p_kicked = true;
    } in
    let (k', qs', run, after) =
      boost_from_refines nproc 0 k1 empty_queues (omega arith) v (λ q y l n. refl) in
    let keeps : k0.procs ≡ k.procs = (log_boost_keeps k).0 in
    let here : (y : ℕ) → k0.procs y ≡ k.procs y = λ y i. keeps i y in
    (
      k',
      qs',
      ground (arith, emptied, run),
      After-IsMlfq after refl (λ y l. rw keeps (ground (arith, m.fresh y l)))
          (λ y l. rw keeps (ground (arith, m.levels y l)))
          (λ y l.
            rw keeps
              (ground (arith, m.quanta y l, quantum_pos (record (k.procs y) { runtime = 0 })))),
      λ q l.
          after.queues q l
          ∙ ready_from-frame k1.procs k.procs nproc 0 q (λ y b. ground (
            arith,
            here y,
            here x,
            priority_of_nice (record (k0.procs x) { runtime = 0 }) (k.procs x),
          )),
      record {
        is_kicked = after.kicked;
        self = ground (
          arith,
          after.reached x,
          here x,
          priority_of_nice (record (k0.procs x) { runtime = 0 })
              (record (k.procs x) { state = runnable }),
        );
        others = λ y l n. ground (arith, after.reached y, here y);
      },
    )

module _ {k : Kernel} {qs : Queues} {x : ℕ} (m : IsMlfq k qs) (run : IsRunning k x) where
  -- What both outcomes of the charge leave for the boost.
  charge_either :
      (k' : Kernel) × (qs' : Queues) × (charge k x ≡ ok k')
      × IsMlfq k' qs'
      × (k'.time ≡ k.time)
      × ((r : ℕ) × (q : ℕ) × (k'.procs x
            ≡ record (k.procs x) { state = runnable; runtime = r; queue = q }))
      × ((y : ℕ) → y ≢ x → k'.procs y ≡ k.procs y)
  charge_either = elim (Bool-cases (leb (quantum (k.procs x)) ((k.procs x).runtime + 1))) [
    | inl up ↦
        let (k', charged, m', d) = charge_demotes m run (ground arith) in
        (k', _, charged, m', d.same_time, (0, (k.procs x).queue - 1, d.self), d.others)
    | inr more ↦
        let (k', charged, m', d) = charge-Stays m run (ground arith) in
        (
          k',
          qs,
          charged,
          m',
          d.same_time,
          ((k.procs x).runtime + 1, (k.procs x).queue, d.self),
          d.others,
        )
  ]

  -- From a state where the invariant of queues and quanta holds and process `x` runs: at every
  -- 60th tick, whether or not it has used up its quantum, `yield` empties the queues and
  -- enqueues exactly the runnable processes, the one that yields among them, each at the level
  -- of its nice value with no tick counted, in the order of the process table; the invariant
  -- holds.
  pub yield_boosts :
      k.time % 60 ≡ 0
      → (k' : Kernel) × (qs' : Queues) × (yield_cpu k x ≡ ok k')
        × IsMlfq k' qs'
        × ((q : ℕ)
            → q < num_queues
            → qs' q
              ≡ ready_from (put_proc k x (record (k.procs x) { state = runnable })).procs nproc 0 q)
        × Boosted k k' x
  unfolding yield_cpu
  yield_boosts t =
      let (k1, qs1, charged, m1, time, (r, q0, self), others) = charge_either in
      let (k', qs', run', m', lists, b) = boost_refines m1 run.in_table (ground (arith, self)) in
      (
        k',
        qs',
        ground (arith, charged, run', time),
        m',
        λ q l.
            lists q l
            ∙ ready_from-frame k1.procs _ nproc 0 q (λ y h. ground (
              arith,
              others y,
              self,
              priority_of_nice (k1.procs x) (record (k.procs x) { state = runnable }),
            )),
        record {
          is_kicked = b.is_kicked;
          self = ground (
            arith,
            b.self,
            self,
            priority_of_nice (record (k1.procs x) { state = runnable })
                (record (k.procs x) { state = runnable }),
          );
          others = λ y l n. ground (arith, b.others y l n, others y n);
        },
      )
