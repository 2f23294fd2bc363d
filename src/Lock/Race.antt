-- ===== src/Lock/Race.antt =====
-- `acquire` and `release` of one lock on several CPUs, cut at each access of the lock's fields. A CPU that is
-- idle calls `acquire` next, and one that is inside calls `release`. `push_off` and `pop_off`, which change
-- the CPU and not the lock, and their panics are left out.
use operating_systems_class.Prelude.{ℕ, true, false, none, some, ◌==◌, if◌then◌else◌}
use operating_systems_class.Lock.{SpinLock, initlock, is_cpu}

-- Where a CPU stands: `testing` and `testing_cpu` are the two tests of `holding` in `acquire`, `checking` and
-- `checking_cpu` those in `release`.
pub data Pc : Type 0 where
  idle : Pc
  testing : Pc
  testing_cpu : Pc
  spinning : Pc
  taken : Pc
  inside : Pc
  checking : Pc
  checking_cpu : Pc
  clearing : Pc
  unlocking : Pc
  panicked : Pc

-- What the CPU `id` does next.
unfoldable pub cpu_step : ℕ → SpinLock → Pc → SpinLock × Pc
cpu_step id lk Pc.idle = (lk, Pc.testing)
cpu_step id lk Pc.testing = (lk, if lk.locked then Pc.testing_cpu else Pc.spinning)
cpu_step id lk Pc.testing_cpu = (lk, if is_cpu id lk.cpu then Pc.panicked else Pc.spinning)
cpu_step id lk Pc.spinning =
    if lk.locked then (lk, Pc.spinning) else (record lk { locked = true }, Pc.taken)
cpu_step id lk Pc.taken = (record lk { cpu = some id }, Pc.inside)
cpu_step id lk Pc.inside = (lk, Pc.checking)
cpu_step id lk Pc.checking = (lk, if lk.locked then Pc.checking_cpu else Pc.panicked)
cpu_step id lk Pc.checking_cpu = (lk, if is_cpu id lk.cpu then Pc.clearing else Pc.panicked)
cpu_step id lk Pc.clearing = (record lk { cpu = none }, Pc.unlocking)
cpu_step id lk Pc.unlocking = (record lk { locked = false }, Pc.idle)
cpu_step id lk Pc.panicked = (lk, Pc.panicked)

pub record System : Type 0 where
  pub lock : SpinLock
  pub pc : ℕ → Pc

abbrev pub put_pc : (ℕ → Pc) → ℕ → Pc → ℕ → Pc
put_pc f i p j = if j == i then p else f j

-- The machine after a step of CPU `i`.
abbrev pub advance : ℕ → System → System
advance i s = record {
  lock = (cpu_step i s.lock (s.pc i)).0;
  pc = put_pc s.pc i (cpu_step i s.lock (s.pc i)).1;
}

-- The states that any order of steps leads to.
pub data Reach : System → Type 0 where
  start : Reach (record { lock = initlock; pc = λ i. Pc.idle })
  step : (i : ℕ) {s : System} → Reach s → Reach (advance i s)
