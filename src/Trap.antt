-- ===== src/Trap.antt =====
-- The timer interrupt of projects/project_1c/kernel/trap.c: `usertrap`, `kerneltrap` and `clockintr` where
-- `devintr` returns 2, on the one CPU, number 0. The registers that a trap saves and restores are left out.
pub mod Tick
mod Tests
use operating_systems_class.Prelude.{
  ℕ, ◌+◌, ◌%◌, ◌^◌, Bool, true, false, Option, none, some, if◌then◌else◌,
}
use operating_systems_class.Prelude.Int.{negsuc}
use operating_systems_class.Run.{Run, ok, ◌>>=◌}
use operating_systems_class.Proc.{running, Chan, address, Kernel}
use operating_systems_class.Sched.{yield_cpu}
use operating_systems_class.Life.{wakeup, exit}

-- `&ticks`
abbrev pub ticks_chan : Chan
ticks_chan = address 0

-- The counter `ticks`, an `uint`, stands beside the kernel.
pub clockintr : (ticks : ℕ) → Kernel → Run (ℕ × Kernel)
clockintr ticks k = do k ← wakeup ticks_chan k; ok ((ticks + 1) % 2 ^ 32, k)

-- The timer interrupt in user mode, which always finds a process `x` running: up to the `sched()` of
-- `yield`, or of `exit` if the process has been killed.
pub usertrap_tick :
    (close_files : Kernel → ℕ → Run Kernel) → (ticks : ℕ) → Kernel → ℕ → Run (ℕ × Kernel)
usertrap_tick close_files ticks k x = do
  (ticks, k) ← clockintr ticks k
  k ←
      if (k.procs x).killed
      then exit close_files k x (negsuc 0)
      else yield_cpu (record k { time = k.time + 1 }) x
  ok (ticks, k)

is_running_proc : Kernel → Option ℕ → Bool
is_running_proc k none = false
is_running_proc k (some x) = elim ((k.procs x).state) [ running ↦ true | _ ↦ false ]

tick_of : Kernel → Option ℕ → Run Kernel
tick_of k none = ok k
tick_of k (some x) = yield_cpu k x

-- The timer interrupt in the kernel, which may find none.
pub kerneltrap_tick : (ticks : ℕ) → Kernel → Run (ℕ × Kernel)
unfolding is_running_proc tick_of
kerneltrap_tick ticks k = do
  (ticks, k) ← clockintr ticks k
  let k = record k { time = k.time + 1 }
  k ← if is_running_proc k k.cpu_proc then tick_of k k.cpu_proc else ok k
  ok (ticks, k)
