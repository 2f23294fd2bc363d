-- ===== src/Sched.antt =====
-- The scheduler of projects/project_1c/kernel/proc.c: `yield`, `scheduler`, the system calls `nice`,
-- `startlog` and `getlog`. `yield` and `sys_nice` are modelled up to their `sched()`, and `schedule` is one
-- turn of the loop of `scheduler()` up to its `swtch`, in which no interrupt comes in, although
-- `scheduler()` turns interrupts on.
pub mod Inv
pub mod Yield
pub mod Ready
pub mod Boost
pub mod Dispatch
pub mod Turn
pub mod Nice
pub mod Tests
use operating_systems_class.Prelude.{
  ℕ, zero, suc, ◌+◌, ◌-◌, ◌%◌, ◌^◌, Bool, true, false, not, ◌&&◌, ◌||◌, Option, none, some, ltb,
  leb, ◌==◌, if◌then◌else◌,
}
use operating_systems_class.Prelude.Int.{ℤ, pos, negsuc, pos_part, neg_part, ◌+ℤ◌, ltb_ℤ}
use operating_systems_class.Run.{Run, ok, ◌>>=◌}
use operating_systems_class.Queue.{
  nproc, num_queues, queue_low, default_pass, enqueue_back, dequeue, initialize,
}
use operating_systems_class.Proc.{
  ProcState, unused, runnable, running, is_unused, is_runnable, Proc, LogEntry, Kernel, put_proc,
  priority, quantum, add_to_queue,
}

abbrev pub log_size : ℕ
log_size = 100

abbrev pub int_max : ℕ
int_max = 2 ^ 31 - 1

abbrev pub put_log : Kernel → ℕ → LogEntry → Kernel
put_log k i e = record k { schedlog = λ j. if j == i then e else k.schedlog j }

pub sys_startlog : Kernel → Kernel × ℕ
sys_startlog k = (record k { log_count = 0 }, 0)

-- `copied` is whether `argaddr` and `copyout` succeed; `none` is the result -1.
pub sys_getlog : Bool → Kernel → Option ℕ
sys_getlog copied k = if copied then some k.log_count else none

-- The C macros.
abbrev pub max_ℤ : ℤ → ℤ → ℤ
max_ℤ x y = if ltb_ℤ y x then x else y

abbrev pub min_ℤ : ℤ → ℤ → ℤ
min_ℤ x y = if ltb_ℤ x y then x else y

abbrev pub nice_min : ℤ
nice_min = negsuc 19

abbrev pub nice_max : ℤ
nice_max = pos 19

-- The value of a sum of two `int`s as the processor's 32-bit addition leaves it.
pub wrap_int : ℤ → ℤ
wrap_int a =
    let u = (pos_part a + 2 ^ 33 - neg_part a) % 2 ^ 32 in
    if ltb u (2 ^ 31) then pos u else negsuc (2 ^ 32 - u - 1)

-- The part of `yield` that counts the tick: the process has used up its quantum, or it stays.
pub charge : Kernel → ℕ → Run Kernel
charge k x =
    let p = k.procs x in
    let r = if is_unused p.state then p.runtime else p.runtime + 1 in
    let p' = record p { runtime = r; state = runnable } in
    if leb (quantum p') r
    then (do
      let low = record p' { queue = p.queue - 1; runtime = 0 }
      t ← enqueue_back k.qtable low.queue x default_pass
      ok (record (put_proc k x low) { qtable = t }))
    else ok (record (put_proc k x p') { p_kicked = false })

-- The loop of the priority boost over the process table, from process `i` on.
pub boost_from : ℕ → ℕ → Kernel → Run Kernel
boost_from zero i k = ok k
boost_from (suc rounds) i k =
    let p = k.procs i in
    (if is_runnable p.state
      then add_to_queue (put_proc k i (record p { queue = priority p; runtime = 0 })) i
      else ok k)
    >>= λ k'. boost_from rounds (i + 1) k'

-- The log entry of a boost; the entry keeps its old `pid` and `queue`.
pub log_boost : Kernel → Kernel
log_boost k =
    if ltb k.log_count log_size
    then record (put_log k k.log_count
        (record (k.schedlog k.log_count) { priority_boost = true; time = k.time })) {
          log_count = k.log_count + 1;
        }
    else k

pub boost : Kernel → ℕ → Run Kernel
boost k x = do
  let k = log_boost k
  t ← initialize k.qtable num_queues
  let k = record (put_proc k x (record (k.procs x) { runtime = 0 })) { qtable = t; p_kicked = true }
  boost_from nproc 0 k

-- Up to `sched()`, for the process `x` that runs.
pub yield_cpu : Kernel → ℕ → Run Kernel
yield_cpu k x = do k ← charge k x; if k.time % 60 == 0 then boost k x else ok k

-- The system call `nice(inc)` of process `x`, with its result.
pub sys_nice : Kernel → ℕ → ℤ → Run (Kernel × ℤ)
sys_nice k x inc = do
  let p = k.procs x
  let p = record p { nice = max_ℤ (min_ℤ (wrap_int (p.nice +ℤ inc)) nice_max) nice_min }
  let p = record p { queue = priority p; runtime = 0 }
  k ← yield_cpu (record (put_proc k x p) { p_kicked = true }) x
  ok (k, (k.procs x).nice)

-- The log entry of a dispatch, unless the process and its queue are those of the last entry.
pub log_dispatch : Kernel → ℕ → Kernel
log_dispatch k x =
    let n = k.log_count in
    let p = k.procs x in
    let last = k.schedlog (n - 1) in
    if ltb n log_size && not (not (n == 0) && (last.pid == p.pid && last.queue == p.queue))
    then record (put_log k n
        (record { pid = p.pid; time = k.time; queue = p.queue; priority_boost = false })) {
          log_count = n + 1;
        }
    else k

pub dispatch : Kernel → ℕ → Kernel
dispatch k x =
    let k = put_proc k x (record (k.procs x) { state = running }) in
    record (log_dispatch (record k { cpu_proc = some x; chosen = x }) x) { p_kicked = true }

-- `continue` when there is no process: the CPU stays idle.
run_next : Kernel → Option ℕ → Kernel
run_next k none = k
run_next k (some x) = dispatch k x

-- One turn of `scheduler()`, from the return of the last `swtch` to the next.
pub schedule : Kernel → Run Kernel
unfolding run_next
schedule k =
    let k = record k { cpu_proc = none } in
    if k.p_kicked
    then (do (x, t) ← dequeue k.qtable; ok (run_next (record k { qtable = t }) x))
    else ok (dispatch k k.chosen)
