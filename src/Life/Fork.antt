-- ===== src/Life/Fork.antt =====
-- `allocproc` and `fork`.
use operating_systems_class.Prelude.{
  ℕ, zero, suc, ◌+◌, ◌≤◌, ◌<◌, ◌≡◌, ◌≢◌, ◌⊎◌, inl, inr, true, none, some, arith, refl, subst,
  Bool-cases, [], ◌∷◌, ◌++◌,
}
use operating_systems_class.Run.{ok}
use operating_systems_class.Queue.{QTable, nproc}
use operating_systems_class.Queue.View.{Queues, with_queue}
use operating_systems_class.Proc.{
  unused, used, runnable, is_unused, Proc, Kernel, put_proc, quantum, priority, make_runnable,
}
use operating_systems_class.Life.{
  freeproc, find_unused, set_up, allocpid, alloc_found, allocproc, fork_into, fork,
}
use operating_systems_class.Life.Wake.{make_runnable_refines, readied}
use operating_systems_class.Sched.Inv.{
  IsMlfq, quantum_pos, priority-lt, priority_of_nice, quantum_of_queue,
}

-- The slot that `allocproc` takes: the first that is not in use, from `i` on.
record Slot (k : Kernel) (i x : ℕ) : Type 0 where
  in_table : x < nproc
  after : i ≤ x
  free : (k.procs x).state ≡ unused
  first : (y : ℕ) → i ≤ y → y < x → (k.procs y).state ≢ unused

-- A slot, or none and every slot from `i` on in use.
find_unused_lem :
    (rounds i : ℕ) (k : Kernel)
    → i + rounds ≡ nproc
    → ((x : ℕ) × (find_unused rounds i k ≡ some x) × Slot k i x)
      ⊎ ((find_unused rounds i k ≡ none)
          × ((y : ℕ) → i ≤ y → y < nproc → (k.procs y).state ≢ unused))
unfolding find_unused
find_unused_lem zero i k e = inr (refl, λ y l u. absurd (omega arith))
find_unused_lem (suc rounds) i k e = elim (Bool-cases (is_unused (k.procs i).state)) [
  | inl h ↦ inl (
    i,
    rw h refl,
    record {
      in_table = omega arith;
      after = omega arith;
      free = ground (arith, h);
      first = λ y l u. absurd (omega arith);
    },
  )
  | inr h ↦ elim (find_unused_lem rounds (i + 1) k (omega arith)) [
    | inl (x, f, s) ↦ inl (
      x,
      rw h f,
      record {
        in_table = s.in_table;
        after = omega (arith, s.after);
        free = s.free;
        first = λ y l u. ground (arith, s.first y, h);
      },
    )
    | inr (f, n) ↦ inr (rw h f, λ y l u. ground (arith, n y, h))
  ]
]

-- A process that changes in a state that no queue holds: what the invariant asks of it.
pub put_proc-IsMlfq :
    {k : Kernel} {qs : Queues} (x : ℕ) (p : Proc)
    → IsMlfq k qs
    → (k.procs x).state ≢ runnable
    → p.state ≢ runnable
    → (p.state ≡ unused → p.runtime ≡ 0)
    → (x < nproc → p.queue < 3)
    → (x < nproc → p.runtime < quantum p)
    → IsMlfq (put_proc k x p) qs
put_proc-IsMlfq {k} {qs} x p m n n' f l q = record {
  view = m.view;
  sound = λ r y h i. ground (arith, m.sound r y h i);
  complete = λ y h s o. ground (arith, m.complete y h);
  stays = λ y s. ground (arith, m.stays y);
  fresh = λ y h s. ground (arith, m.fresh y h);
  levels = λ y h. ground (arith, m.levels y h);
  quanta = λ y h. ground (arith, m.quanta y h);
}

pub freeproc-IsMlfq :
    {k : Kernel} {qs : Queues} (x : ℕ)
    → IsMlfq k qs
    → (k.procs x).state ≢ runnable
    → IsMlfq (freeproc k x) qs
unfolding freeproc quantum
freeproc-IsMlfq {k} x m n =
    put_proc-IsMlfq x _ m n (ground arith) (λ e. refl) (λ h. omega arith)
      (λ h. quantum_pos (record (k.procs x) { queue = 0 }))

-- Process `y` is the new child of `x`.
pub record Child (k k' : Kernel) (x y : ℕ) : Type 0 where
  pub in_table : y < nproc
  pub slot : (k.procs y).state ≡ unused
  pub first : (z : ℕ) → z < y → (k.procs z).state ≢ unused
  pub state : (k'.procs y).state ≡ runnable
  pub pid : (k'.procs y).pid ≡ k.nextpid
  pub parent : (k'.procs y).parent ≡ some x
  pub size : (k'.procs y).sz ≡ (k.procs x).sz
  pub level : (k'.procs y).queue ≡ priority (k.procs y)
  pub next : k'.nextpid ≡ k.nextpid + 1
  pub others : (z : ℕ) → z ≢ y → k'.procs z ≡ k.procs z

nextpid-IsMlfq :
    {k : Kernel} {qs : Queues} → IsMlfq k qs → IsMlfq (record k { nextpid = k.nextpid + 1 }) qs
nextpid-IsMlfq m = record {
  view = m.view;
  sound = m.sound;
  complete = m.complete;
  stays = m.stays;
  fresh = m.fresh;
  levels = m.levels;
  quanta = m.quanta;
}

-- What `set_up` does when it has a page and a page table.
set_up-ok :
    {k : Kernel} {qs : Queues} (y page table : ℕ)
    → IsMlfq k qs
    → Slot k 0 y
    → page ≢ 0
    → table ≢ 0
    → (k1 : Kernel) × (set_up k y page table ≡ (k1, some y))
      × IsMlfq k1 qs
      × ((k1.procs y).state ≡ used)
      × ((k1.procs y).pid ≡ k.nextpid)
      × ((k1.procs y).queue ≡ priority (k.procs y))
      × (k1.nextpid ≡ k.nextpid + 1)
      × ((z : ℕ) → z ≢ y → k1.procs z ≡ k.procs z)
unfolding set_up allocpid
set_up-ok {k} {qs} y page table m s p t =
    let p0 = record (k.procs y) { pid = k.nextpid; state = used; trapframe = page } in
    let p1 = record p0 { pagetable = table; queue = priority p0; pass = 1 } in
    let k0 = record k { nextpid = k.nextpid + 1 } in
    (
      put_proc k0 y p1,
      ground arith,
      put_proc-IsMlfq y p1 (nextpid-IsMlfq m) (ground (arith, s.free)) (ground arith)
          (λ e. absurd (ground arith)) (λ h. priority-lt p0)
          (λ h. omega (arith, m.fresh y h s.free, quantum_pos p1)),
      ground arith,
      ground arith,
      ground (arith, priority_of_nice p0 (k.procs y)),
      refl,
      λ z n. ground arith,
    )

-- The process `y`, set up, as `fork` hands it to `make_runnable`.
abbrev child_of : Kernel → ℕ → ℕ → Proc
child_of k x y = record (k.procs y) { sz = (k.procs x).sz; parent = some x }

child-made :
    {k : Kernel} {qs : Queues} (x y q : ℕ)
    → IsMlfq k qs
    → y < nproc
    → (k.procs y).state ≡ used
    → (k.procs y).queue ≡ q
    → let k2 = put_proc k y (child_of k x y) in
      (t : QTable) × (make_runnable k2 y ≡ ok (readied k2 y t))
      × IsMlfq (readied k2 y t) (with_queue qs q (qs q ++ (y ∷ [])))
child-made {k} {qs} x y q m h s e =
    let k2 = put_proc k y (child_of k x y) in
    let m2 : IsMlfq k2 qs =
      put_proc-IsMlfq y (child_of k x y) m (ground (arith, s)) (ground (arith, s))
        (λ u. absurd (ground (arith, s))) (λ l. m.levels y l)
        (λ l. rw (quantum_of_queue (child_of k x y) (k.procs y) refl) (m.quanta y l)) in
    let (t, made, m3) = make_runnable_refines {k = k2} m2 y h (ground (arith, s)) in
    let back : (k2.procs y).queue ≡ q = ground (arith, e) in
    (t, made, subst (λ l. IsMlfq (readied k2 y t) (with_queue qs l (qs l ++ (y ∷ [])))) back m3)

-- From a state where the invariant of queues and quanta holds, some slot is not in use, and the
-- page, the page table and the copy of the memory are there: `fork` takes the first slot that is
-- not in use and returns the next process number; the child is runnable at the back of the queue
-- of its nice value, with its parent's size; the invariant holds, and no other process and no
-- other queue changes.
pub fork-Child :
    {k : Kernel} {qs : Queues} (m : IsMlfq k qs) (x z page table : ℕ)
    → z < nproc
    → (k.procs z).state ≡ unused
    → page ≢ 0
    → table ≢ 0
    → (k.procs x).state ≢ unused
    → (k' : Kernel) × (y : ℕ) × (fork k x page table true ≡ ok (k', some k.nextpid))
      × IsMlfq k' (with_queue qs (priority (k.procs y)) (qs (priority (k.procs y)) ++ (y ∷ [])))
      × Child k k' x y
unfolding fork allocproc alloc_found fork_into
fork-Child {k} {qs} m x z page table hz sz p t sx = elim (find_unused_lem nproc 0 k refl) [
  | inr (f, n) ↦ absurd (n z (omega arith) hz sz)
  | inl (y, f, s) ↦
      let (k1, up, m1, state, pid, level, next, others) = set_up-ok y page table m s p t in
      let (t', made, m2) = child-made x y (priority (k.procs y)) m1 s.in_table state level in
      (
        readied (put_proc k1 y (child_of k1 x y)) y t',
        y,
        rw (f, up, made) (ground (arith, pid)),
        m2,
        record {
          in_table = s.in_table;
          slot = s.free;
          first = λ w l. s.first w (omega arith) l;
          state = ground arith;
          pid = ground (arith, pid);
          parent = ground arith;
          size = ground (arith, others x, sx, s.free);
          level = ground (arith, level);
          next = next;
          others = λ w n. ground (arith, others w n);
        },
      )
]
