-- ===== src/Life/Exit.antt =====
-- `exit` and `wait`: a process becomes a zombie, its children go to the first process, and its parent
-- frees it.
use operating_systems_class.Prelude.{
  ℕ, zero, suc, ◌+◌, ◌≤◌, ◌<◌, ◌≡◌, ◌≢◌, inl, inr, true, false, Option, some, arith, refl,
  Bool-cases, if◌then◌else◌, sym, ◌∙◌,
}
use native.Mathlib.Decide.{ℕ_discrete}
use operating_systems_class.Run.{ok}
use operating_systems_class.Queue.{nproc}
use operating_systems_class.Queue.View.{Queues}
use operating_systems_class.Proc.{
  runnable, running, is_sleeping, Chan, proc_chan, Kernel, put_proc, quantum,
}
use operating_systems_class.Life.{is_proc, reparent_from}
use operating_systems_class.Life.Wake.{wakes, Woken, wakeup_refines}
use operating_systems_class.Sched.Inv.{IsMlfq, IsRunning}

-- A new parent changes nothing that the invariant reads.
adopted-IsMlfq :
    {k : Kernel} {qs : Queues} (x : ℕ) (y : Option ℕ)
    → IsMlfq k qs
    → IsMlfq (put_proc k x (record (k.procs x) { parent = y })) qs
unfolding quantum
adopted-IsMlfq {k} {qs} x y m = record {
  view = m.view;
  sound = λ q y l i. ground (arith, m.sound q y l i);
  complete = λ y l s o. ground (arith, m.complete y l);
  stays = λ y s. ground (arith, m.stays y);
  fresh = λ y l s. ground (arith, m.fresh y l);
  levels = λ y l. ground (arith, m.levels y l);
  quanta = λ y l. ground (arith, m.quanta y l);
}

-- `wakeup` keeps the parent and the number of each process, and a running process goes on.
pub Woken-proc :
    {k k' : Kernel} {chan : Chan} {qs qs' : Queues}
    → Woken k k' chan nproc 0 qs qs'
    → (y : ℕ) → y < nproc
    → ((k'.procs y).parent ≡ (k.procs y).parent)
      × ((k'.procs y).pid ≡ (k.procs y).pid)
      × (is_sleeping (k.procs y).state ≡ false → (k'.procs y).state ≡ (k.procs y).state)
Woken-proc {k} {k'} {chan} w y h = elim (Bool-cases (wakes k chan y)) [
  | inl v ↦
      let e : k'.procs y ≡ record (k.procs y) { state = runnable } =
        w.reached y (omega arith) h ∙ rw v refl in
      (rw e refl, rw e refl, λ s. absurd (ground (arith, v)))
  | inr v ↦
      let e : k'.procs y ≡ k.procs y = w.reached y (omega arith) h ∙ rw v refl in
      (rw e refl, rw e refl, λ s. rw e refl)
]

-- `wakeup` leaves the process that runs as it is.
pub Woken-same :
    {k k' : Kernel} {chan : Chan} {qs qs' : Queues} {x : ℕ}
    → Woken k k' chan nproc 0 qs qs'
    → IsRunning k x
    → k'.procs x ≡ k.procs x
Woken-same {k} {k'} {chan} {qs} {qs'} {x} w run =
    let awake : wakes k chan x ≡ false = ground (arith, run.state) in
    w.reached x (omega arith) run.in_table ∙ rw awake refl

pub Woken-IsRunning :
    {k k' : Kernel} {chan : Chan} {qs qs' : Queues} {x : ℕ}
    → Woken k k' chan nproc 0 qs qs'
    → IsRunning k x
    → IsRunning k' x
Woken-IsRunning w run = record {
  in_table = run.in_table;
  state = rw (Woken-same w run) run.state;
  kicked = w.same_kicked ∙ run.kicked;
  chosen = w.same_chosen ∙ run.chosen;
}

-- What `reparent` and `wakeup` change of a kernel in which process `x` runs: parents from process `i`
-- on, and processes that wake up.
pub record Adopted (k k' : Kernel) (x i : ℕ) : Type 0 where
  pub children :
      (y : ℕ)
      → i ≤ y
      → y < nproc
      → (k'.procs y).parent
        ≡ (if is_proc x (k.procs y).parent then some k.initproc else (k.procs y).parent)
  pub running_one : (k'.procs x).state ≡ (k.procs x).state
  pub same_cpu : k'.cpu_proc ≡ k.cpu_proc
  pub same_kicked : k'.p_kicked ≡ k.p_kicked
  pub same_chosen : k'.chosen ≡ k.chosen
  pub same_init : k'.initproc ≡ k.initproc
  pub earlier : (y : ℕ) → y < i → (k'.procs y).parent ≡ (k.procs y).parent
  pub own_pid : (y : ℕ) → y < nproc → (k'.procs y).pid ≡ (k.procs y).pid

other_parent :
    (k : Kernel) (i y : ℕ) (p : Option ℕ)
    → y ≢ i
    → ((put_proc k i (record (k.procs i) { parent = p })).procs y).parent ≡ (k.procs y).parent
other_parent k i y p n = ground arith

self_parent :
    (k : Kernel) (i y : ℕ) (p : Option ℕ)
    → y ≡ i
    → ((put_proc k i (record (k.procs i) { parent = p })).procs y).parent ≡ p
self_parent k i y p e = ground arith

same_pid :
    (k : Kernel) (i y : ℕ) (p : Option ℕ)
    → ((put_proc k i (record (k.procs i) { parent = p })).procs y).pid ≡ (k.procs y).pid
same_pid k i y p = ground arith

-- The parent of a process from `i` on, once process `i` has been adopted and the loop has gone on.
adopt_child :
    (k : Kernel) {k2 k' : Kernel} {x : ℕ} (i y : ℕ) {chan : Chan} {qs qs2 : Queues}
    → let k1 = put_proc k i (record (k.procs i) { parent = some k.initproc }) in
      Woken k1 k2 chan nproc 0 qs qs2
      → Adopted k2 k' x (i + 1)
      → is_proc x (k.procs i).parent ≡ true
      → (k2.procs y).parent ≡ (k1.procs y).parent
      → i ≤ y
      → y < nproc
      → (k'.procs y).parent
        ≡ (if is_proc x (k.procs y).parent then some k.initproc else (k.procs y).parent)
adopt_child k {k2} {k'} {x} i y w a c e l u = elim (ℕ_discrete y i) [
  | yes d ↦ a.earlier y (omega arith) ∙ e ∙ self_parent k i y (some k.initproc) d ∙ rw (d, c) refl
  | no d ↦
      a.children y (omega arith) u
      ∙ rw (e, other_parent k i y (some k.initproc) d, w.same_init) refl
]

pub reparent_from_refines :
    (x rounds i : ℕ) {k : Kernel} {qs : Queues}
    → IsMlfq k qs
    → x < nproc
    → (k.procs x).state ≡ running
    → i + rounds ≡ nproc
    → (k' : Kernel) × (qs' : Queues) × (reparent_from rounds i x k ≡ ok k')
      × IsMlfq k' qs'
      × Adopted k k' x i
unfolding reparent_from
reparent_from_refines x zero i {k} {qs} m h s e = (
  k,
  qs,
  refl,
  m,
  record {
    children = λ y l u. absurd (omega arith);
    running_one = refl;
    same_cpu = refl;
    same_kicked = refl;
    same_chosen = refl;
    same_init = refl;
    earlier = λ y l. refl;
    own_pid = λ y l. refl;
  },
)
reparent_from_refines x (suc rounds) i {k} {qs} m h s e =
    elim (Bool-cases (is_proc x (k.procs i).parent)) [
      | inl c ↦
          let k1 = put_proc k i (record (k.procs i) { parent = some k.initproc }) in
          let m1 : IsMlfq k1 qs = adopted-IsMlfq i (some k.initproc) m in
          let (k2, qs2, woke, m2, w) = wakeup_refines (proc_chan k.initproc) m1 in
          let kept_y : (y : ℕ)
              → y < nproc
              → ((k2.procs y).parent ≡ (k1.procs y).parent)
                × ((k2.procs y).pid ≡ (k1.procs y).pid)
                × (is_sleeping (k1.procs y).state ≡ false
                    → (k2.procs y).state ≡ (k1.procs y).state) =
            Woken-proc w in
          let s1 : (k1.procs x).state ≡ running = ground (arith, s) in
          let s2 : (k2.procs x).state ≡ running = (kept_y x h).2 (rw s1 refl) ∙ s1 in
          let (k', qs', run, m', a) =
            reparent_from_refines x rounds (i + 1) m2 h s2 (omega arith) in
          (
            k',
            qs',
            rw (c, woke) run,
            m',
            record {
              children = λ y l u. adopt_child k i y w a c (kept_y y u).0 l u;
              running_one = a.running_one ∙ s2 ∙ sym s;
              same_cpu = a.same_cpu ∙ w.same_cpu;
              same_kicked = a.same_kicked ∙ w.same_kicked;
              same_chosen = a.same_chosen ∙ w.same_chosen;
              same_init = a.same_init ∙ w.same_init;
              earlier = λ y l.
                  a.earlier y (omega arith)
                  ∙ (kept_y y (omega arith)).0
                  ∙ other_parent k i y (some k.initproc) (omega arith);
              own_pid = λ y l. a.own_pid y l ∙ (kept_y y l).1 ∙ same_pid k i y (some k.initproc);
            },
          )
      | inr c ↦
          let (k', qs', run, m', a) = reparent_from_refines x rounds (i + 1) m h s (omega arith) in
          (
            k',
            qs',
            rw c run,
            m',
            record {
              children = λ y l u. ground (arith, a.children y, a.earlier y, c);
              running_one = a.running_one;
              same_cpu = a.same_cpu;
              same_kicked = a.same_kicked;
              same_chosen = a.same_chosen;
              same_init = a.same_init;
              earlier = λ y l. ground (arith, a.earlier y);
              own_pid = a.own_pid;
            },
          )
    ]
