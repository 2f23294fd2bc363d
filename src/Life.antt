-- ===== src/Life.antt =====
-- The life of a process in projects/project_1c/kernel/proc.c: `allocproc`, `freeproc`, `fork`, `exit`,
-- `wait`, `kill`, `sleep` and `wakeup`, as one CPU runs them between two `swtch`es. What the memory
-- and file parts of the kernel answer (a page, a page table, whether a copy succeeds) is an argument;
-- the pages that these functions hand back are not in the state, and what `exit` does with the files of the
-- process is an argument.
pub mod Wake
pub mod Kill
pub mod Fork
pub mod Exit
pub mod Zombie
pub mod Wait
pub mod Tests
use operating_systems_class.Prelude.{
  ℕ, zero, suc, ◌+◌, Bool, true, false, not, ◌&&◌, ◌||◌, Option, none, some, ◌==◌, if◌then◌else◌,
}
use operating_systems_class.Prelude.Int.{ℤ, pos}
use operating_systems_class.Run.{Run, ok, fault, ◌>>=◌}
use operating_systems_class.Queue.{nproc, default_pass}
use operating_systems_class.Proc.{
  ProcState, unused, used, sleeping, runnable, zombie, is_unused, is_sleeping, is_zombie, Chan,
  no_chan, proc_chan, chan_eq, Proc, Kernel, put_proc, priority, make_runnable,
}

abbrev pub is_proc : ℕ → Option ℕ → Bool
is_proc x none = false
is_proc x (some y) = x == y

-- The loop of `wakeup` from process `i` on; `c->proc` is `myproc()`.
pub wakeup_from : ℕ → ℕ → Chan → Kernel → Run Kernel
wakeup_from zero i chan k = ok k
wakeup_from (suc rounds) i chan k =
    let p = k.procs i in
    (if not (is_proc i k.cpu_proc) && (is_sleeping p.state && chan_eq p.chan chan)
      then make_runnable k i
      else ok k)
    >>= λ k'. wakeup_from rounds (i + 1) chan k'

pub wakeup : Chan → Kernel → Run Kernel
wakeup chan k = wakeup_from nproc 0 chan k

-- `sleep`, up to its `sched()`.
pub sleep : Kernel → ℕ → Chan → Kernel
sleep k x chan = put_proc k x (record (k.procs x) { chan = chan; state = sleeping })

-- `sleep`, once the process runs again.
pub wake : Kernel → ℕ → Kernel
wake k x = put_proc k x (record (k.procs x) { chan = no_chan })

-- The loop of `kill` from process `i` on, with whether the process was found.
pub kill_from : ℕ → ℕ → ℕ → Kernel → Run (Kernel × Bool)
kill_from zero i pid k = ok (k, false)
kill_from (suc rounds) i pid k =
    let rest = kill_from rounds (i + 1) pid k in
    let p = k.procs i in
    let k' = put_proc k i (record p { killed = true }) in
    if p.pid == pid
    then (do k' ← if is_sleeping p.state then make_runnable k' i else ok k'; ok (k', true))
    else rest

pub kill : ℕ → Kernel → Run (Kernel × Bool)
kill pid k = kill_from nproc 0 pid k

pub freeproc : Kernel → ℕ → Kernel
freeproc k x = put_proc k x (record (k.procs x) {
  trapframe = 0;
  pagetable = 0;
  sz = 0;
  pid = 0;
  parent = none;
  chan = no_chan;
  killed = false;
  xstate = pos 0;
  state = unused;
  nice = pos 0;
  runtime = 0;
  queue = 0;
  pass = default_pass;
})

-- The loop of `allocproc`: the first unused process from `i` on.
pub find_unused : ℕ → ℕ → Kernel → Option ℕ
find_unused zero i k = none
find_unused (suc rounds) i k =
    let rest = find_unused rounds (i + 1) k in if is_unused (k.procs i).state then some i else rest

pub allocpid : Kernel → Kernel × ℕ
allocpid k = (record k { nextpid = k.nextpid + 1 }, k.nextpid)

-- From `found:` on. `page` is what `kalloc` returns and `table` what `proc_pagetable` returns.
pub set_up : Kernel → ℕ → (page table : ℕ) → Kernel × Option ℕ
set_up k x page table =
    let (k, pid) = allocpid k in
    let p = record (k.procs x) { pid = pid; state = used; trapframe = page } in
    if page == 0
    then (freeproc (put_proc k x p) x, none)
    else if table == 0
    then (freeproc (put_proc k x (record p { pagetable = 0 })) x, none)
    else (
      put_proc k x (record p { pagetable = table; queue = priority p; pass = default_pass }),
      some x,
    )

pub alloc_found : Kernel → Option ℕ → (page table : ℕ) → Kernel × Option ℕ
alloc_found k none page table = (k, none)
alloc_found k (some x) page table = set_up k x page table

pub allocproc : Kernel → (page table : ℕ) → Kernel × Option ℕ
allocproc k page table = alloc_found k (find_unused nproc 0 k) page table

-- `fork` of process `x` once `allocproc` has answered; `copied` is whether `uvmcopy` succeeds, and
-- the result `none` is -1.
pub fork_into : Kernel → ℕ → Bool → Option ℕ → Run (Kernel × Option ℕ)
fork_into k x copied none = ok (k, none)
fork_into k x copied (some y) =
    let child = record (k.procs y) { sz = (k.procs x).sz; parent = some x } in
    if copied
    then (do k' ← make_runnable (put_proc k y child) y; ok (k', some child.pid))
    else ok (freeproc k y, none)

pub fork : Kernel → ℕ → (page table : ℕ) → Bool → Run (Kernel × Option ℕ)
fork k x page table copied = let (k, y) = allocproc k page table in fork_into k x copied y

-- The loop of `reparent` from process `i` on.
pub reparent_from : ℕ → ℕ → ℕ → Kernel → Run Kernel
reparent_from zero i x k = ok k
reparent_from (suc rounds) i x k =
    let p = k.procs i in
    (if is_proc x p.parent
      then wakeup (proc_chan k.initproc) (put_proc k i (record p { parent = some k.initproc }))
      else ok k)
    >>= λ k'. reparent_from rounds (i + 1) x k'

pub reparent : ℕ → Kernel → Run Kernel
reparent x k = reparent_from nproc 0 x k

-- `wakeup(p->parent)`
abbrev pub parent_chan : Option ℕ → Chan
parent_chan none = no_chan
parent_chan (some y) = proc_chan y

-- `exit(status)` of process `x`, up to `sched()`. `close_files` is what the loop over the open files and
-- the `iput` of the working directory between `begin_op` and `end_op` do to the kernel from the call to
-- where the process goes on: they may sleep, so other processes may have run, and they may fault.
pub exit : (close_files : Kernel → ℕ → Run Kernel) → Kernel → ℕ → ℤ → Run Kernel
exit close_files k x status = if x == k.initproc then fault else (do
  k ← close_files k x
  k ← reparent x k
  k ← wakeup (parent_chan (k.procs x).parent) k
  ok (put_proc k x (record (k.procs x) { xstate = status; state = zombie })))

-- What one pass of the loop of `wait` comes to.
pub data Waited : Type 0 where
  reaped : (pid : ℕ) → Waited
  failed : Waited
  blocked : Waited

-- The scan of `wait` from process `i` on, given whether a child was met; `copied` is whether there is
-- no address or `copyout` succeeds.
pub wait_from : ℕ → ℕ → Kernel → ℕ → Bool → Bool → Kernel × Waited
wait_from zero i k x copied havekids =
    if not havekids || (k.procs x).killed then (k, failed) else (sleep k x (proc_chan x), blocked)
wait_from (suc rounds) i k x copied havekids =
    let p = k.procs i in
    let is_child = is_proc x p.parent in
    let rest = wait_from rounds (i + 1) k x copied (is_child || havekids) in
    if is_child && is_zombie p.state
    then if copied then (freeproc k i, reaped p.pid) else (k, failed)
    else rest

pub wait : Kernel → ℕ → Bool → Kernel × Waited
wait k x copied = wait_from nproc 0 k x copied false
