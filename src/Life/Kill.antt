-- ===== src/Life/Kill.antt =====
-- `kill` and `sleep` keep the queues in order.
use operating_systems_class.Prelude.{
  ℕ, zero, suc, ◌+◌, ◌≤◌, ◌<◌, ◌≡◌, ◌≢◌, ◌⊎◌, inl, inr, Bool, true, false, arith, refl, ◌==◌,
  Bool-cases, if◌then◌else◌,
}
use operating_systems_class.Run.{ok}
use operating_systems_class.Queue.{nproc}
use operating_systems_class.Queue.View.{Queues}
use operating_systems_class.Proc.{runnable, is_sleeping, Chan, Kernel, put_proc, quantum}
use operating_systems_class.Life.{kill_from, kill, sleep}
use operating_systems_class.Life.Wake.{make_runnable_refines, readied}
use operating_systems_class.Sched.Inv.{IsMlfq, IsRunning}

-- `x` is the first process of that number from `i` on, it is marked, and it is awake.
pub record Killed (k k' : Kernel) (pid i x : ℕ) : Type 0 where
  pub in_table : x < nproc
  pub after : i ≤ x
  pub found : (k.procs x).pid ≡ pid
  pub first : (y : ℕ) → i ≤ y → y < x → (k.procs y).pid ≢ pid
  pub self : k'.procs x ≡ (
      if is_sleeping (k.procs x).state
      then record (k.procs x) { killed = true; state = runnable }
      else record (k.procs x) { killed = true })
  pub others : (y : ℕ) → y ≢ x → k'.procs y ≡ k.procs y

-- Marking a process changes nothing that the invariant reads.
marked-IsMlfq :
    {k : Kernel} {qs : Queues} (x : ℕ)
    → IsMlfq k qs
    → IsMlfq (put_proc k x (record (k.procs x) { killed = true })) qs
unfolding quantum
marked-IsMlfq {k} {qs} x m = record {
  view = m.view;
  sound = λ q y l i. ground (arith, m.sound q y l i);
  complete = λ y l s o. ground (arith, m.complete y l);
  stays = λ y s. ground (arith, m.stays y);
  fresh = λ y l s. ground (arith, m.fresh y l);
  levels = λ y l. ground (arith, m.levels y l);
  quanta = λ y l. ground (arith, m.quanta y l);
}

kill_from_refines :
    (pid rounds i : ℕ) {k : Kernel} {qs : Queues}
    → IsMlfq k qs
    → i + rounds ≡ nproc
    → (k' : Kernel) × (qs' : Queues) × (found : Bool) × (kill_from rounds i pid k ≡ ok (k', found))
      × IsMlfq k' qs'
      × (((found ≡ true) × ((x : ℕ) × Killed k k' pid i x))
          ⊎ ((found ≡ false) × (k' ≡ k) × ((y : ℕ) → i ≤ y → y < nproc → (k.procs y).pid ≢ pid)))
unfolding kill_from
kill_from_refines pid zero i {k} {qs} m e =
    (k, qs, false, refl, m, inr (refl, refl, λ y l u. absurd (omega arith)))
kill_from_refines pid (suc rounds) i {k} {qs} m e = elim (Bool-cases ((k.procs i).pid == pid)) [
  | inl h ↦ elim (Bool-cases (is_sleeping (k.procs i).state)) [
    | inl s ↦
        let k0 = put_proc k i (record (k.procs i) { killed = true }) in
        let (t, made, m') =
          make_runnable_refines {k = k0} (marked-IsMlfq i m) i (omega arith) (ground (arith, s)) in
        (
          readied k0 i t,
          _,
          true,
          rw (h, s, made) refl,
          m',
          inl (
            refl,
            (
              i,
              record {
                in_table = omega arith;
                after = omega arith;
                found = ground arith;
                first = λ y l u. absurd (omega arith);
                self = ground (arith, s);
                others = λ y n. ground arith;
              },
            ),
          ),
        )
    | inr s ↦ (
      put_proc k i (record (k.procs i) { killed = true }),
      qs,
      true,
      rw (h, s) refl,
      marked-IsMlfq i m,
      inl (
        refl,
        (
          i,
          record {
            in_table = omega arith;
            after = omega arith;
            found = ground arith;
            first = λ y l u. absurd (omega arith);
            self = ground (arith, s);
            others = λ y n. ground arith;
          },
        ),
      ),
    )
  ]
  | inr h ↦
      let (k', qs', b, run, m', r) = kill_from_refines pid rounds (i + 1) m (omega arith) in
      (k', qs', b, rw h run, m', later h r)
]
  where
    later :
        {k' : Kernel} {b : Bool}
        → ((k.procs i).pid == pid) ≡ false
        → ((b ≡ true) × ((x : ℕ) × Killed k k' pid (i + 1) x))
          ⊎ ((b ≡ false) × (k' ≡ k) × ((y : ℕ) → i + 1 ≤ y → y < nproc → (k.procs y).pid ≢ pid))
        → ((b ≡ true) × ((x : ℕ) × Killed k k' pid i x))
          ⊎ ((b ≡ false) × (k' ≡ k) × ((y : ℕ) → i ≤ y → y < nproc → (k.procs y).pid ≢ pid))
    later h (inl (e, (x, d))) = inl (
      e,
      (
        x,
        record {
          in_table = d.in_table;
          after = omega (arith, d.after);
          found = d.found;
          first = λ y l u. ground (arith, d.first y);
          self = d.self;
          others = d.others;
        },
      ),
    )
    later h (inr (e, s, n)) = inr (e, s, λ y l u. ground (arith, n y))

-- From a state where the invariant of queues and quanta holds, `kill` never faults and keeps it.
-- If it returns 0, the first process of that number is marked and is no longer asleep, and no
-- other process changes; if it returns -1, no process has that number and nothing changes.
pub kill_refines :
    {k : Kernel} {qs : Queues} (pid : ℕ)
    → IsMlfq k qs
    → (k' : Kernel) × (qs' : Queues) × (found : Bool) × (kill pid k ≡ ok (k', found))
      × IsMlfq k' qs'
      × (((found ≡ true) × ((x : ℕ) × Killed k k' pid 0 x))
          ⊎ ((found ≡ false) × (k' ≡ k) × ((y : ℕ) → 0 ≤ y → y < nproc → (k.procs y).pid ≢ pid)))
unfolding kill
kill_refines pid m = kill_from_refines pid nproc 0 m refl

-- `sleep` of the running process keeps the invariant, with no queue changed.
pub sleep-IsMlfq :
    {k : Kernel} {qs : Queues} {x : ℕ} (chan : Chan)
    → IsMlfq k qs
    → IsRunning k x
    → IsMlfq (sleep k x chan) qs
unfolding sleep quantum
sleep-IsMlfq {k} {qs} {x} chan m run = record {
  view = m.view;
  sound = λ q y l i. ground (arith, m.sound q y l i, run.state);
  complete = λ y l s o. ground (arith, m.complete y l);
  stays = λ y s. absurd (ground (arith, run.kicked));
  fresh = λ y l s. ground (arith, m.fresh y l);
  levels = λ y l. ground (arith, m.levels y l);
  quanta = λ y l. ground (arith, m.quanta y l);
}
