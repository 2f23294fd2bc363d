-- ===== src/Life/Tests.antt =====
-- The theorems on the operations of processes at the small system of Sched/Tests.
use operating_systems_class.Prelude.{
  ℕ, ◌≤◌, ◌<◌, ◌≡◌, ◌≢◌, ◌⊎◌, Bool, true, false, refl, [], ◌∷◌, some, arith, ◌++◌,
}
use operating_systems_class.Prelude.Int.{pos}
use operating_systems_class.Run.{Run, ok}
use operating_systems_class.Queue.{nproc}
use operating_systems_class.Queue.View.{Queues, with_queue}
use operating_systems_class.Queue.Tests.{waiting_queues}
use operating_systems_class.Proc.{running, proc_chan, address, Kernel, priority}
use operating_systems_class.Sched.Inv.{IsMlfq, IsRunning}
use operating_systems_class.Sched.Tests.{system, system-IsMlfq, system-IsRunning}
use operating_systems_class.Life.{wakeup, kill, fork, exit, wait}
use operating_systems_class.Life.Wake.{Woken, wakeup_refines}
use operating_systems_class.Life.Exit.{Woken-IsRunning}
use operating_systems_class.Life.Kill.{Killed, kill_refines}
use operating_systems_class.Life.Fork.{Child, fork-Child}
use operating_systems_class.Life.Zombie.{Closes, Exited, exit_refines}
use operating_systems_class.Life.Wait.{Outcome, wait-Outcome}

abbrev now : Kernel
now = system running true 1 3

now-IsMlfq : IsMlfq now waiting_queues
now-IsMlfq = system-IsMlfq 1 3 (omega arith)

now-IsRunning : IsRunning now 0
now-IsRunning = system-IsRunning 1 3

wakeup_refines_example :
    (k' : Kernel) × (qs' : Queues) × (wakeup (proc_chan 2) now ≡ ok k')
    × IsMlfq k' qs'
    × Woken now k' (proc_chan 2) nproc 0 waiting_queues qs'
wakeup_refines_example = wakeup_refines (proc_chan 2) now-IsMlfq

kill_refines_example :
    (k' : Kernel) × (qs' : Queues) × (found : Bool) × (kill 3 now ≡ ok (k', found))
    × IsMlfq k' qs'
    × (((found ≡ true) × ((x : ℕ) × Killed now k' 3 0 x))
        ⊎ ((found ≡ false) × (k' ≡ now) × ((y : ℕ) → 0 ≤ y → y < nproc → (now.procs y).pid ≢ 3)))
kill_refines_example = kill_refines 3 now-IsMlfq

fork-Child_example :
    (k' : Kernel) × (y : ℕ) × (fork now 0 40 50 true ≡ ok (k', some 7))
    × IsMlfq k' (
        with_queue waiting_queues
          (priority (now.procs y))
          (waiting_queues (priority (now.procs y)) ++ (y ∷ [])))
    × Child now k' 0 y
fork-Child_example =
    fork-Child now-IsMlfq 0 9 40 50 (omega arith) refl (omega arith) (omega arith) (ground arith)

-- The files of a process are closed, and the operation of the log wakes the processes that wait for room
-- in it.
abbrev pub close_and_wake : Kernel → ℕ → Run Kernel
close_and_wake k x = wakeup (address 7) k

pub close_and_wake-Closes : (x : ℕ) → Closes close_and_wake x
close_and_wake-Closes x k qs m run =
    let (k', qs', woke, m', w) = wakeup_refines (address 7) m in
    (k', qs', woke, m', Woken-IsRunning w run)

exit_refines_example :
    (k1 : Kernel) × (k' : Kernel) × (qs' : Queues) × (close_and_wake now 0 ≡ ok k1)
    × (exit close_and_wake now 0 (pos 1) ≡ ok k')
    × IsMlfq k' qs'
    × Exited k1 k' 0 (pos 1)
exit_refines_example =
    exit_refines close_and_wake (pos 1) (close_and_wake-Closes 0) now-IsMlfq now-IsRunning
      (omega arith)

wait-Outcome_example : Outcome now 0 true nproc 0 false (wait now 0 true)
wait-Outcome_example = wait-Outcome now 0 true
