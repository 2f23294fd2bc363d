-- ===== src/Lock.antt =====
-- projects/project_1c/kernel/spinlock.c and sleeplock.c. A CPU is a number; `none` is a panic, and the
-- loops of `acquire` and `acquiresleep` are modelled one round at a time.
pub mod Race
pub mod Exclusion
pub mod Progress
mod Tests
use operating_systems_class.Prelude.{
  ℕ, ◌+◌, ◌-◌, ◌≡◌, ◌⊎◌, inl, inr, Bool-cases, Bool, true, false, not, ◌&&◌, Option, none, some,
  ltb, ◌==◌, if◌then◌else◌, arith,
}
use operating_systems_class.Run.{Run, ok, ◌>>=◌}
use operating_systems_class.Proc.{Kernel, address}
use operating_systems_class.Life.{wakeup}

-- The fields of `struct cpu` for `push_off`, and whether interrupts are on.
pub record Cpu : Type 0 where
  pub noff : ℕ
  pub intena : Bool
  pub intr : Bool

pub record SpinLock : Type 0 where
  pub locked : Bool
  pub cpu : Option ℕ

pub initlock : SpinLock
initlock = record { locked = false; cpu = none }

pub push_off : Cpu → Cpu
push_off c = record c {
  intr = false;
  intena = if c.noff == 0 then c.intr else c.intena;
  noff = c.noff + 1;
}

pub pop_off : Cpu → Option Cpu
pop_off c =
    if c.intr
    then none
    else if ltb c.noff 1
    then none
    else (let c' = record c { noff = c.noff - 1 } in
        some (if c'.noff == 0 && c'.intena then record c' { intr = true } else c'))

pub is_cpu : ℕ → Option ℕ → Bool
is_cpu id none = false
is_cpu id (some j) = j == id

pub holding : ℕ → SpinLock → Bool
unfolding is_cpu
holding id lk = lk.locked && is_cpu id lk.cpu

-- Up to the loop of `acquire`.
pub acquire_start : ℕ → Cpu → SpinLock → Option Cpu
acquire_start id c lk = if holding id lk then none else some (push_off c)

-- One round of the loop, and what follows it; `none` is another round.
pub acquire_try : ℕ → SpinLock → Option SpinLock
acquire_try id lk = if lk.locked then none else some (record { locked = true; cpu = some id })

with_lock : SpinLock → Option Cpu → Option (SpinLock × Cpu)
with_lock lk none = none
with_lock lk (some c) = some (lk, c)

pub release : ℕ → Cpu → SpinLock → Option (SpinLock × Cpu)
unfolding with_lock
release id c lk =
    if not (holding id lk)
    then none
    else with_lock (record { locked = false; cpu = none }) (pop_off c)

-- `pop_off` undoes `push_off`: the depth and the interrupts are as they were, if interrupts are off
-- at every depth but 0.
pub pop_off-push_off :
    (c : Cpu)
    → (c.noff ≡ 0) ⊎ (c.intr ≡ false)
    → (c' : Cpu) × (pop_off (push_off c) ≡ some c') × (c'.noff ≡ c.noff) × (c'.intr ≡ c.intr)
unfolding pop_off push_off
pop_off-push_off c h =
    elim (Bool-cases ((c.noff + 1 - 1 == 0) && (if c.noff == 0 then c.intr else c.intena))) [
      | inl on ↦ (
        record (push_off c) { noff = c.noff + 1 - 1; intr = true },
        ground (arith, on),
        ground arith,
        ground (arith, on, h),
      )
      | inr off ↦ (
        record (push_off c) { noff = c.noff + 1 - 1 },
        ground (arith, off),
        ground arith,
        ground (arith, off, h),
      )
    ]

pub record SleepLock : Type 0 where
  pub locked : Bool
  pub lk : SpinLock
  pub pid : ℕ

pub initsleeplock : SleepLock
initsleeplock = record { locked = false; lk = initlock; pid = 0 }

-- One round of the loop of `acquiresleep` with the spin lock held; `none` is a `sleep`.
pub acquiresleep_try : ℕ → SleepLock → Option SleepLock
acquiresleep_try pid lk = if lk.locked then none else some (record lk { locked = true; pid = pid })

-- The lock lies at the address `a`.
pub releasesleep : (a : ℕ) → SleepLock → Kernel → Run (Kernel × SleepLock)
releasesleep a lk k = do k ← wakeup (address a) k; ok (k, record lk { locked = false; pid = 0 })

pub holdingsleep : ℕ → SleepLock → Bool
holdingsleep pid lk = lk.locked && lk.pid == pid
