-- ===== src/Life/Wake.antt =====
-- `make_runnable` and `wakeup` keep the queues in order.
use operating_systems_class.Prelude.{
  ℕ, zero, suc, ◌+◌, ◌≤◌, ◌<◌, ◌≡◌, ◌≢◌, inl, inr, Bool, not, ◌&&◌, List, [], ◌∷◌, ◌++◌, arith,
  refl, ◌==◌, Bool-cases, if◌then◌else◌, sym,
}
use mathlib.Core.List.{append-nil, append_assoc}
use operating_systems_class.Run.{ok}
use operating_systems_class.Queue.{QTable, nproc, num_queues}
use operating_systems_class.Queue.Chain.{has-snoc}
use operating_systems_class.Queue.View.{Queues, with_queue}
use operating_systems_class.Queue.Insert.{enqueue_back_refines}
use operating_systems_class.Proc.{
  runnable, is_sleeping, Chan, chan_eq, Kernel, put_proc, quantum, add_to_queue, make_runnable,
}
use operating_systems_class.Life.{is_proc, wakeup_from, wakeup}
use operating_systems_class.Sched.Inv.{IsMlfq, Absent-of_state}

abbrev pub readied : Kernel → ℕ → QTable → Kernel
readied k x t = record (put_proc k x (record (k.procs x) { state = runnable })) { qtable = t }

-- `make_runnable` of a process that is not runnable puts it at the back of the queue of its level, and
-- leaves the other queues and the quanta as they were.
pub make_runnable_refines :
    {k : Kernel} {qs : Queues} (m : IsMlfq k qs) (x : ℕ)
    → x < nproc
    → (k.procs x).state ≢ runnable
    → let q = (k.procs x).queue in
      (t : QTable) × (make_runnable k x ≡ ok (readied k x t))
      × IsMlfq (readied k x t) (with_queue qs q (qs q ++ (x ∷ [])))
unfolding make_runnable add_to_queue quantum
make_runnable_refines {k} {qs} m x h n =
    let q = (k.procs x).queue in
    let (t, added, v) =
      enqueue_back_refines m.view q x 1 (m.levels x h) h (Absent-of_state x m n) in
    (
      t,
      ground (arith, added),
      record {
        view = v;
        sound = λ r y l i. ground (arith, m.sound r y l, has-snoc y x (qs q), m.stays x);
        complete = λ y l s o. ground (arith, m.complete y l, has-snoc y x (qs q));
        stays = λ y s. ground (arith, m.stays y);
        fresh = λ y l s. ground (arith, m.fresh y l);
        levels = λ y l. ground (arith, m.levels y l);
        quanta = λ y l. ground (arith, m.quanta y l);
      },
    )

-- Whether `wakeup` wakes process `y`.
abbrev pub wakes : Kernel → Chan → ℕ → Bool
wakes k chan y =
    not (is_proc y k.cpu_proc) && (is_sleeping (k.procs y).state && chan_eq (k.procs y).chan chan)

-- What `wakeup` enqueues at level `q`: the processes that it wakes, in the order of the table.
unfoldable pub woken_from : Kernel → Chan → ℕ → ℕ → ℕ → List ℕ
woken_from k chan zero i q = []
woken_from k chan (suc rounds) i q =
    let rest = woken_from k chan rounds (i + 1) q in
    if wakes k chan i && (k.procs i).queue == q then i ∷ rest else rest

woken_from-frame :
    (k' k : Kernel) (chan : Chan) (rounds i q : ℕ)
    → k'.cpu_proc ≡ k.cpu_proc
    → ((y : ℕ) → i ≤ y → k'.procs y ≡ k.procs y)
    → woken_from k' chan rounds i q ≡ woken_from k chan rounds i q
unfolding woken_from
woken_from-frame k' k chan zero i q c same = refl
woken_from-frame k' k chan (suc rounds) i q c same = rw (
  c,
  same i (omega arith),
  woken_from-frame k' k chan rounds (i + 1) q c (λ y h. same y (omega arith)),
)

-- `wakeup` from process `i` on has woken what it had to.
pub record Woken (k k' : Kernel) (chan : Chan) (rounds i : ℕ) (qs qs' : Queues) : Type 0 where
  pub queues : (q : ℕ) → q < num_queues → qs' q ≡ qs q ++ woken_from k chan rounds i q
  pub reached :
      (y : ℕ)
      → i ≤ y
      → y < i + rounds
      → k'.procs y ≡ (if wakes k chan y then record (k.procs y) { state = runnable } else k.procs y)
  pub before : (y : ℕ) → y < i → k'.procs y ≡ k.procs y
  pub same_cpu : k'.cpu_proc ≡ k.cpu_proc
  pub same_kicked : k'.p_kicked ≡ k.p_kicked
  pub same_chosen : k'.chosen ≡ k.chosen
  pub same_init : k'.initproc ≡ k.initproc

wakeup_from_refines :
    (chan : Chan) (rounds i : ℕ) {k : Kernel} {qs : Queues}
    → IsMlfq k qs
    → i + rounds ≡ nproc
    → (k' : Kernel) × (qs' : Queues) × (wakeup_from rounds i chan k ≡ ok k')
      × IsMlfq k' qs'
      × Woken k k' chan rounds i qs qs'
unfolding wakeup_from woken_from
wakeup_from_refines chan zero i {k} {qs} m e = (
  k,
  qs,
  refl,
  m,
  record {
    queues = λ q h. sym (append-nil (qs q));
    reached = λ y l u. absurd (omega arith);
    before = λ y l. refl;
    same_cpu = refl;
    same_kicked = refl;
    same_chosen = refl;
    same_init = refl;
  },
)
wakeup_from_refines chan (suc rounds) i {k} {qs} m e = elim (Bool-cases (wakes k chan i)) [
  | inl w ↦
      let q = (k.procs i).queue in
      let (t, made, m1) = make_runnable_refines m i (omega arith) (ground (arith, w)) in
      let k1 = readied k i t in
      let (k', qs', run, m', d) = wakeup_from_refines chan rounds (i + 1) m1 (omega arith) in
      (
        k',
        qs',
        rw (w, made) run,
        m',
        record {
          queues = λ s h. ground (
            arith,
            w,
            d.queues s h,
            woken_from-frame k1 k chan rounds (i + 1) s refl (λ y l. ground arith),
            append_assoc (qs s) (i ∷ []) (woken_from k chan rounds (i + 1) s),
          );
          reached = λ y l u. ground (arith, w, d.before y, d.reached y);
          before = λ y l. ground (arith, d.before y);
          same_cpu = d.same_cpu;
          same_kicked = d.same_kicked;
          same_chosen = d.same_chosen;
          same_init = d.same_init;
        },
      )
  | inr w ↦
      let (k', qs', run, m', d) = wakeup_from_refines chan rounds (i + 1) m (omega arith) in
      (
        k',
        qs',
        rw w run,
        m',
        record {
          queues = λ s h. ground (arith, w, d.queues s h);
          reached = λ y l u. ground (arith, w, d.before y, d.reached y);
          before = λ y l. ground (arith, d.before y);
          same_cpu = d.same_cpu;
          same_kicked = d.same_kicked;
          same_chosen = d.same_chosen;
          same_init = d.same_init;
        },
      )
]

-- From a state where the invariant of queues and quanta holds, `wakeup` never faults and keeps
-- it: exactly the processes that sleep on the channel, but for the current one, become runnable,
-- each at the back of the queue of its level in the order of the process table, and no other
-- process changes.
pub wakeup_refines :
    {k : Kernel} {qs : Queues} (chan : Chan)
    → IsMlfq k qs
    → (k' : Kernel) × (qs' : Queues) × (wakeup chan k ≡ ok k')
      × IsMlfq k' qs'
      × Woken k k' chan nproc 0 qs qs'
unfolding wakeup
wakeup_refines chan m = wakeup_from_refines chan nproc 0 m refl
