-- ===== src/Proc.antt =====
-- The process table of projects/project_1c/kernel/proc.h and proc.c, the state that the scheduler
-- keeps beside it, and the macros of queue.h that read it. A `struct proc *` is an index into
-- `proc[]`; fields that only other parts of the kernel read are left out.
use operating_systems_class.Prelude.{ℕ, Bool, true, false, Option, ◌==◌, if◌then◌else◌}
use operating_systems_class.Prelude.Int.{ℤ, pos, negsuc, ltb_ℤ}
use operating_systems_class.Run.{Run, ok, ◌>>=◌}
use operating_systems_class.Queue.{
  QTable, queue_high, queue_medium, queue_low, default_pass, enqueue_back,
}

-- `enum procstate`
pub data ProcState : Type 0 where
  unused used sleeping runnable running zombie : ProcState

abbrev pub is_unused : ProcState → Bool
is_unused unused = true
is_unused _ = false

abbrev pub is_sleeping : ProcState → Bool
is_sleeping sleeping = true
is_sleeping _ = false

abbrev pub is_runnable : ProcState → Bool
is_runnable runnable = true
is_runnable _ = false

abbrev pub is_zombie : ProcState → Bool
is_zombie zombie = true
is_zombie _ = false

-- What a `chan` pointer is compared by: no channel, the address of a process, or another address.
pub data Chan : Type 0 where
  no_chan : Chan
  proc_chan : ℕ → Chan
  address : ℕ → Chan

abbrev pub chan_eq : Chan → Chan → Bool
chan_eq no_chan no_chan = true
chan_eq (proc_chan x) (proc_chan y) = x == y
chan_eq (address a) (address b) = a == b
chan_eq _ _ = false

-- `struct proc`; `trapframe` and `pagetable` are the addresses of pages, 0 for none.
pub record Proc : Type 0 where
  pub state : ProcState
  pub chan : Chan
  pub killed : Bool
  pub xstate : ℤ
  pub pid : ℕ
  pub parent : Option ℕ
  pub sz : ℕ
  pub pagetable : ℕ
  pub trapframe : ℕ
  pub nice : ℤ
  pub runtime : ℕ
  pub queue : ℕ
  pub pass : ℕ

-- `struct logentry`
pub record LogEntry : Type 0 where
  pub pid : ℕ
  pub time : ℕ
  pub queue : ℕ
  pub priority_boost : Bool

-- The globals of proc.c. `chosen` is the variable `p` of `scheduler()`, which keeps the last process
-- that was picked, and `cpu_proc` is `c->proc` of the one CPU that the Makefile starts.
pub record Kernel : Type 0 where
  pub procs : ℕ → Proc
  pub qtable : QTable
  pub time : ℕ
  pub p_kicked : Bool
  pub chosen : ℕ
  pub cpu_proc : Option ℕ
  pub schedlog : ℕ → LogEntry
  pub log_count : ℕ
  pub nextpid : ℕ
  pub initproc : ℕ

abbrev pub put_proc : Kernel → ℕ → Proc → Kernel
put_proc k x p = record k { procs = λ y. if y == x then p else k.procs y }

-- `priority(p)`
unfoldable pub priority : Proc → ℕ
priority p =
    if ltb_ℤ (pos 10) p.nice
    then queue_low
    else if ltb_ℤ (negsuc 9) p.nice
    then queue_medium
    else queue_high

-- `quantum(p)`
unfoldable pub quantum : Proc → ℕ
quantum p = if p.queue == queue_high then 1 else if p.queue == queue_medium then 10 else 15

-- `add_to_queue(p)`
unfoldable pub add_to_queue : Kernel → ℕ → Run Kernel
add_to_queue k x = do
  t ← enqueue_back k.qtable (k.procs x).queue x default_pass
  ok (record k { qtable = t })

unfoldable pub make_runnable : Kernel → ℕ → Run Kernel
unfolding add_to_queue
make_runnable k x = add_to_queue (put_proc k x (record (k.procs x) { state = runnable })) x
