-- ===== src/Trap/Tick.antt =====
-- A timer interrupt in user mode, and the turn of `scheduler()` after it.
use operating_systems_class.Prelude.{ℕ, ◌+◌, ◌%◌, ◌^◌, ◌≡◌, true, false}
use operating_systems_class.Prelude.Int.{negsuc}
use operating_systems_class.Run.{Run, ok, ◌>>=◌}
use operating_systems_class.Queue.View.{Queues}
use operating_systems_class.Proc.{Kernel}
use operating_systems_class.Sched.{schedule}
use operating_systems_class.Sched.Inv.{IsMlfq, IsRunning}
use operating_systems_class.Life.Zombie.{Exited}
use operating_systems_class.Trap.{usertrap_tick}

-- What a tick comes to, `k1` being the kernel with the sleepers on `ticks` awake.
pub data Ticked (close_files : Kernel → ℕ → Run Kernel) (ticks : ℕ) (k k1 : Kernel) (x : ℕ)
    : Type 0 where
  yields :
      (k' : Kernel) (y : ℕ) (qs' : Queues)
      → (k.procs x).killed ≡ false
      → (usertrap_tick close_files ticks k x >>= λ r. schedule r.1) ≡ ok k'
      → IsMlfq k' qs'
      → IsRunning k' y
      → Ticked close_files ticks k k1 x
  exits :
      (k2 k' : Kernel) (qs' : Queues)
      → (k.procs x).killed ≡ true
      → close_files k1 x ≡ ok k2
      → usertrap_tick close_files ticks k x ≡ ok ((ticks + 1) % 2 ^ 32, k')
      → IsMlfq k' qs'
      → Exited k2 k' x (negsuc 0)
      → Ticked close_files ticks k k1 x
