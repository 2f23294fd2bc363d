-- ===== src/Sched/Inv.antt =====
-- The invariant that ties the process table to the queues.
use operating_systems_class.Prelude.{ℕ, ◌<◌, ◌≡◌, ◌≢◌, Bool, true, false, not, ◌&&◌, ◌==◌, arith}
use operating_systems_class.Queue.{nproc, num_queues}
use operating_systems_class.Queue.Chain.{has}
use operating_systems_class.Queue.View.{Queues, IsView, Absent}
use operating_systems_class.Proc.{unused, runnable, running, Proc, Kernel, priority, quantum}

-- The process that a `yield` within its quantum leaves on the CPU: it is runnable, but in no queue.
abbrev pub kept : Kernel → ℕ → Bool
kept k x = not k.p_kicked && x == k.chosen

-- The queues hold exactly the runnable processes, each in the queue of its level, but for one that
-- stays on the CPU and is runnable too; and no process has used up the quantum of its level; a
-- slot of the table that is not in use has counted no tick.
pub record IsMlfq (k : Kernel) (qs : Queues) : Type 0 where
  pub view : IsView k.qtable qs
  pub sound :
      (q x : ℕ)
      → q < num_queues
      → has x (qs q) ≡ true
      → ((k.procs x).state ≡ runnable) × ((k.procs x).queue ≡ q) × (kept k x ≡ false)
  pub complete :
      (x : ℕ)
      → x < nproc
      → (k.procs x).state ≡ runnable
      → kept k x ≡ false
      → has x (qs (k.procs x).queue) ≡ true
  pub stays : (x : ℕ) → kept k x ≡ true → (k.procs x).state ≡ runnable
  pub fresh : (x : ℕ) → x < nproc → (k.procs x).state ≡ unused → (k.procs x).runtime ≡ 0
  pub levels : (x : ℕ) → x < nproc → (k.procs x).queue < num_queues
  pub quanta : (x : ℕ) → x < nproc → (k.procs x).runtime < quantum (k.procs x)

-- Process `x` runs on the CPU, as `scheduler` starts it.
pub record IsRunning (k : Kernel) (x : ℕ) : Type 0 where
  pub in_table : x < nproc
  pub state : (k.procs x).state ≡ running
  pub kicked : k.p_kicked ≡ true
  pub chosen : k.chosen ≡ x

pub quantum_pos : (p : Proc) → 0 < quantum p
unfolding quantum
quantum_pos p = ground arith

pub priority-lt : (p : Proc) → priority p < num_queues
unfolding priority
priority-lt p = ground arith

pub quantum_of_queue : (p p' : Proc) → p.queue ≡ p'.queue → quantum p ≡ quantum p'
unfolding quantum
quantum_of_queue p p' e = ground arith

pub priority_of_nice : (p p' : Proc) → p.nice ≡ p'.nice → priority p ≡ priority p'
unfolding priority
priority_of_nice p p' e = ground arith

-- A process that is not runnable is in no queue.
pub Absent-of_state :
    {k : Kernel} {qs : Queues} (x : ℕ) → IsMlfq k qs → (k.procs x).state ≢ runnable → Absent x qs
Absent-of_state x m n q h = ground (arith, m.sound q x h)
