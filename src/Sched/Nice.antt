-- ===== src/Sched/Nice.antt =====
-- The system call `nice`.
use operating_systems_class.Prelude.{
  ℕ, ◌+◌, ◌-◌, ◌%◌, ◌^◌, ◌≡◌, ◌≢◌, true, [], ◌∷◌, ◌++◌, arith, refl, ap, ◌∙◌,
}
use operating_systems_class.Prelude.Int.{ℤ, pos, negsuc, ◌+ℤ◌, ◌≤ℤ◌}
use native.Mathlib.Decide.{ℕ_discrete, dec_lt}
use operating_systems_class.Run.{ok}
use operating_systems_class.Queue.{queue_high, queue_medium}
use operating_systems_class.Queue.View.{Queues, with_queue}
use operating_systems_class.Proc.{Kernel, put_proc, quantum, priority, Proc}
use operating_systems_class.Sched.{yield_cpu, sys_nice, wrap_int, nice_min, nice_max, max_ℤ, min_ℤ}
use operating_systems_class.Sched.Inv.{IsMlfq, IsRunning, priority-lt, quantum_pos}
use operating_systems_class.Sched.Yield.{yield-Stays, yield_demotes}
use operating_systems_class.Sched.Boost.{yield_boosts}

-- The nice value that the call stores.
abbrev pub new_nice : Proc → ℤ → ℤ
new_nice p inc = max_ℤ (min_ℤ (wrap_int (p.nice +ℤ inc)) nice_max) nice_min

-- While the sum is an `int`, the new value is the sum moved into the range.
pub wrap_int_lem : (a : ℤ) → negsuc (2 ^ 31 - 1) ≤ℤ a → a ≤ℤ pos (2 ^ 31 - 1) → wrap_int a ≡ a
unfolding wrap_int
wrap_int_lem (pos n) l u = ground arith
wrap_int_lem (negsuc n) l u = ground arith

new_nice_bounds : (p : Proc) (inc : ℤ) → (nice_min ≤ℤ new_nice p inc) × (new_nice p inc ≤ℤ nice_max)
new_nice_bounds p inc = ground arith

module _ {k : Kernel} {qs : Queues} {x : ℕ} (m : IsMlfq k qs) (run : IsRunning k x) (inc : ℤ) where
  -- The process as `nice` hands it to `yield`.
  abbrev niced : Proc
  niced =
      let p = record (k.procs x) { nice = new_nice (k.procs x) inc } in
      record p { queue = priority p; runtime = 0 }

  abbrev at_yield : Kernel
  at_yield = record (put_proc k x niced) { p_kicked = true }

  at_yield-IsMlfq : IsMlfq at_yield qs
  at_yield-IsMlfq = record {
    view = m.view;
    sound = λ q y l i. ground (arith, m.sound q y l i, run.state);
    complete = λ y l s n. ground (arith, m.complete y l, run.state, run.kicked);
    stays = λ y s. absurd (ground arith);
    fresh = λ y l s. ground (arith, m.fresh y l);
    levels = λ y l.
        ground (
          arith,
          m.levels y l,
          priority-lt (record (k.procs x) { nice = new_nice (k.procs x) inc }),
        );
    quanta = λ y l. ground (arith, m.quanta y l, quantum_pos niced);
  }

  at_yield-IsRunning : IsRunning at_yield x
  at_yield-IsRunning = record {
    in_table = run.in_table;
    state = ground (arith, run.state);
    kicked = refl;
    chosen = run.chosen;
  }

priority_high : (p : Proc) → p.nice ≤ℤ negsuc 9 → priority p ≡ queue_high
unfolding priority
priority_high p h = ground arith

quantum_high : (p : Proc) → p.queue ≡ queue_high → quantum p ≡ 1
unfolding quantum
quantum_high p h = ground arith

-- `yield` does not change the nice value.
yield_keeps_nice :
    {k : Kernel} {qs : Queues} {x : ℕ}
    → IsMlfq k qs
    → IsRunning k x
    → (k' : Kernel) × (qs' : Queues) × (yield_cpu k x ≡ ok k')
      × IsMlfq k' qs'
      × ((k'.procs x).nice ≡ (k.procs x).nice)
yield_keeps_nice {k} {qs} {x} m run = elim (ℕ_discrete (k.time % 60) 0) [
  | yes t ↦
      let (k', qs', r, m', lists, b) = yield_boosts m run t in
      (k', qs', r, m', ground (arith, b.self))
  | no t ↦ elim (dec_lt ((k.procs x).runtime + 1) (quantum (k.procs x))) [
    | yes l ↦ let (k', r, m', s) = yield-Stays m run l t in (k', qs, r, m', ground (arith, s.self))
    | no n ↦
        let (k', r, m', d) = yield_demotes m run (omega arith) t in
        (k', _, r, m', ground (arith, d.self))
  ]
]

module _ {k : Kernel} {qs : Queues} {x : ℕ} (m : IsMlfq k qs) (run : IsRunning k x) where
  -- From a state where the invariant of queues and quanta holds and process `x` runs, the
  -- system call `nice` returns for every argument, and the invariant holds; its result is the
  -- new nice value of the process, and lies between -20 and 19.
  pub sys_nice_lem :
      (inc : ℤ)
      → (k' : Kernel) × (qs' : Queues) × (r : ℤ) × (sys_nice k x inc ≡ ok (k', r))
        × IsMlfq k' qs'
        × ((k'.procs x).nice ≡ r)
        × (nice_min ≤ℤ r)
        × (r ≤ℤ nice_max)
  unfolding sys_nice
  sys_nice_lem inc =
      let (k', qs', y, m', same) =
        yield_keeps_nice (at_yield-IsMlfq m run inc) (at_yield-IsRunning m run inc) in
      let value : (k'.procs x).nice ≡ new_nice (k.procs x) inc = ground (arith, same) in
      (
        k',
        qs',
        (k'.procs x).nice,
        rw y,
        m',
        refl,
        rw value (new_nice_bounds (k.procs x) inc).0,
        rw value (new_nice_bounds (k.procs x) inc).1,
      )

  -- From a state where the invariant of queues and quanta holds and process `x` runs: as long
  -- as the sum of the nice value and the argument is an `int`, the system call `nice` returns
  -- that sum moved into the range from -20 to 19.
  pub sys_nice_clamps :
      (inc : ℤ)
      → negsuc (2 ^ 31 - 1) ≤ℤ (k.procs x).nice +ℤ inc
      → (k.procs x).nice +ℤ inc ≤ℤ pos (2 ^ 31 - 1)
      → (k' : Kernel) × (sys_nice k x inc
          ≡ ok (k', max_ℤ (min_ℤ ((k.procs x).nice +ℤ inc) nice_max) nice_min))
  unfolding sys_nice
  sys_nice_clamps inc l u =
      let (k', qs', y, m', same) =
        yield_keeps_nice (at_yield-IsMlfq m run inc) (at_yield-IsRunning m run inc) in
      let value : (k'.procs x).nice ≡ new_nice (k.procs x) inc = ground (arith, same) in
      (
        k',
        rw y (
            ap (λ (r : ℤ). ok (k', r))
              (value
                ∙ ap (λ (r : ℤ). max_ℤ (min_ℤ r nice_max) nice_min)
                    (wrap_int_lem ((k.procs x).nice +ℤ inc) l u))),
      )

  -- From a state where the invariant of queues and quanta holds and process `x` runs, away from
  -- a boost: a process that asks for a nice value of the highest level does not come to it, for
  -- the `yield` at the end of the call charges it a tick, which is the quantum of that level;
  -- it goes on at the back of the middle queue.
  pub sys_nice_high :
      (inc : ℤ)
      → new_nice (k.procs x) inc ≤ℤ negsuc 9
      → k.time % 60 ≢ 0
      → (k' : Kernel) × (sys_nice k x inc ≡ ok (k', new_nice (k.procs x) inc))
        × (priority (k'.procs x) ≡ queue_high)
        × ((k'.procs x).queue ≡ queue_medium)
        × IsMlfq k' (with_queue qs queue_medium (qs queue_medium ++ (x ∷ [])))
  unfolding sys_nice
  sys_nice_high inc low t =
      let p = niced m run inc in
      let high : p.queue ≡ queue_high = priority_high (record (k.procs x) { nice = p.nice }) low in
      let self : (at_yield m run inc).procs x ≡ p = ground arith in
      let (k', y, m', d) =
        yield_demotes (at_yield-IsMlfq m run inc) (at_yield-IsRunning m run inc)
          (rw (self, quantum_high p high) (omega arith)) t in
      let level : ((at_yield m run inc).procs x).queue - 1 ≡ queue_medium = rw (self, high) refl in
      (
        k',
        rw y (ap (λ (r : ℤ). ok (k', r)) (ground (arith, d.self))),
        priority_high (k'.procs x) (ground (arith, d.self)),
        ground (arith, d.self, level),
        rw level at m',
      )
