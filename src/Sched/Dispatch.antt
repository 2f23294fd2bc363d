-- ===== src/Sched/Dispatch.antt =====
-- One turn of `scheduler()`: which process it puts on the CPU.
use operating_systems_class.Prelude.{
  ℕ, ◌-◌, ◌<◌, ◌≡◌, ◌≢◌, inl, inr, true, false, not, ◌&&◌, some, none, List, [], ◌∷◌, arith, refl,
  ◌==◌, ltb, Bool-cases,
}
use operating_systems_class.Run.{ok}
use operating_systems_class.Queue.{nproc, num_queues}
use operating_systems_class.Queue.Chain.{has, ne_of_has}
use operating_systems_class.Queue.View.{Queues, IsView, with_queue}
use operating_systems_class.Queue.Dequeue.{dequeue_refines}
use operating_systems_class.Proc.{unused, runnable, running, Kernel, put_proc, quantum}
use operating_systems_class.Sched.{schedule, dispatch, log_dispatch, log_size}
use operating_systems_class.Sched.Inv.{IsMlfq, IsRunning, kept}

-- Process `x` has been put on the CPU.
pub record Dispatched (k k' : Kernel) (x : ℕ) : Type 0 where
  pub on_cpu : k'.cpu_proc ≡ some x
  pub same_time : k'.time ≡ k.time
  pub self : k'.procs x ≡ record (k.procs x) { state = running }
  pub others : (y : ℕ) → y ≢ x → k'.procs y ≡ k.procs y

log_dispatch_keeps :
    (k : Kernel) (x : ℕ)
    → ((log_dispatch k x).procs ≡ k.procs)
      × ((log_dispatch k x).qtable ≡ k.qtable)
      × ((log_dispatch k x).chosen ≡ k.chosen)
      × ((log_dispatch k x).cpu_proc ≡ k.cpu_proc)
      × ((log_dispatch k x).time ≡ k.time)
unfolding log_dispatch
log_dispatch_keeps k x =
    let n = k.log_count in
    let p = k.procs x in
    let last = k.schedlog (n - 1) in
    elim (Bool-cases
      (ltb n log_size && not (not (n == 0) && (last.pid == p.pid && last.queue == p.queue)))) [
        | inl l ↦ rw l (refl, refl, refl, refl, refl)
        | inr l ↦ rw l (refl, refl, refl, refl, refl)
      ]

-- A dispatch of a process that has just left the queues.
dispatch-IsMlfq :
    {k : Kernel} {qs : Queues} (x : ℕ)
    → x < nproc
    → IsView k.qtable qs
    → ((q y : ℕ)
        → q < num_queues
        → has y (qs q) ≡ true
        → ((k.procs y).state ≡ runnable) × ((k.procs y).queue ≡ q) × (y ≢ x))
    → ((y : ℕ)
        → y < nproc
        → (k.procs y).state ≡ runnable
        → y ≢ x
        → has y (qs (k.procs y).queue) ≡ true)
    → ((y : ℕ) → y < nproc → (k.procs y).state ≡ unused → (k.procs y).runtime ≡ 0)
    → ((y : ℕ) → y < nproc → (k.procs y).queue < num_queues)
    → ((y : ℕ) → y < nproc → (k.procs y).runtime < quantum (k.procs y))
    → IsMlfq (dispatch k x) qs × IsRunning (dispatch k x) x × Dispatched k (dispatch k x) x
unfolding dispatch quantum
dispatch-IsMlfq {k} {qs} x h v sound complete fresh levels quanta =
    let k1 = record (put_proc k x (record (k.procs x) { state = running })) {
      cpu_proc = some x;
      chosen = x;
    } in
    let keeps = log_dispatch_keeps k1 x in
    let here : (y : ℕ) → (log_dispatch k1 x).procs y ≡ k1.procs y = λ y i. keeps.0 i y in
    (
      record {
        view = rw keeps.1 v;
        sound = λ q y l i. ground (arith, here y, sound q y l i);
        complete = λ y l s n. ground (arith, here y, complete y l);
        stays = λ y s. absurd (ground arith);
        fresh = λ y l s. ground (arith, here y, fresh y l);
        levels = λ y l. ground (arith, here y, levels y l);
        quanta = λ y l. ground (arith, here y, quanta y l);
      },
      record {
        in_table = h;
        state = ground (arith, here x);
        kicked = refl;
        chosen = ground (arith, keeps);
      },
      record {
        on_cpu = ground (arith, keeps);
        same_time = ground (arith, keeps);
        self = ground (arith, here x);
        others = λ y n. ground (arith, here y);
      },
    )

-- From a state where the invariant of queues and quanta holds, the last process has left the CPU
-- and some process waits: `scheduler` starts the first process of the highest queue that is not
-- empty, the queues hold the others as before, and the invariant holds.
pub schedule_picks :
    {k : Kernel} {qs : Queues} (m : IsMlfq k qs) (q x : ℕ) (xs : List ℕ)
    → k.p_kicked ≡ true
    → q < num_queues
    → qs q ≡ x ∷ xs
    → ((r : ℕ) → q < r → r < num_queues → qs r ≡ [])
    → (k' : Kernel) × (schedule k ≡ ok k')
      × IsMlfq k' (with_queue qs q xs)
      × IsRunning k' x
      × Dispatched k k' x
unfolding schedule
schedule_picks {k} {qs} m q x xs kicked hq e above =
    let (t, taken, v) = dequeue_refines m.view q x xs hq e above in
    let k1 = record k { cpu_proc = none; qtable = t } in
    let apart : has x xs ≡ false = (rw e at (m.view.distinct q hq)).0 in
    let (m', run, d) =
      dispatch-IsMlfq {k = k1} {qs = with_queue qs q xs} x (m.view.small q x hq (ground (arith, e)))
        v
        (λ r y l i.
          ground (arith, m.sound r y l, m.view.apart q r y hq l, e, apart, ne_of_has y x xs))
        (λ y l s n. ground (arith, m.complete y l s, e)) m.fresh m.levels m.quanta in
    (
      dispatch k1 x,
      ground (arith, taken),
      m',
      run,
      record { on_cpu = d.on_cpu; same_time = d.same_time; self = d.self; others = d.others },
    )

-- From a state where the invariant of queues and quanta holds and the process that was picked
-- last stays on the CPU: `scheduler` goes on with it, whatever the queues hold, and leaves the
-- queues and the invariant as they are.
pub schedule_keeps :
    {k : Kernel} {qs : Queues} (m : IsMlfq k qs)
    → k.p_kicked ≡ false
    → k.chosen < nproc
    → (k' : Kernel) × (schedule k ≡ ok k')
      × IsMlfq k' qs
      × IsRunning k' k.chosen
      × Dispatched k k' k.chosen
unfolding schedule
schedule_keeps {k} {qs} m kept h =
    let k1 = record k { cpu_proc = none } in
    let (m', run, d) =
      dispatch-IsMlfq {k = k1} {qs = qs} k.chosen h m.view
        (λ r y l i. ground (arith, m.sound r y l i)) (λ y l s n. ground (arith, m.complete y l))
        m.fresh m.levels m.quanta in
    (
      dispatch k1 k.chosen,
      ground arith,
      m',
      run,
      record { on_cpu = d.on_cpu; same_time = d.same_time; self = d.self; others = d.others },
    )
