-- ===== src/Life/Wait.antt =====
-- `wait`: one pass over the table.
use operating_systems_class.Prelude.{
  ℕ, zero, suc, ◌+◌, ◌≤◌, ◌<◌, ◌≡◌, inl, inr, Bool, true, false, not, ◌&&◌, ◌||◌, arith, refl,
  if◌then◌else◌, Bool-cases,
}
use operating_systems_class.Queue.{nproc}
use operating_systems_class.Queue.View.{Queues}
use operating_systems_class.Proc.{is_zombie, proc_chan, Kernel}
use operating_systems_class.Life.{
  is_proc, wait_from, wait, Waited, reaped, failed, blocked, freeproc, sleep,
}
use operating_systems_class.Life.Fork.{freeproc-IsMlfq}
use operating_systems_class.Life.Kill.{sleep-IsMlfq}
use operating_systems_class.Sched.Inv.{IsMlfq, IsRunning}

-- A child of `x` that has exited.
abbrev pub is_dead_child : Kernel → ℕ → ℕ → Bool
is_dead_child k x y = is_proc x (k.procs y).parent && is_zombie (k.procs y).state

-- The first dead child of `x` from process `i` on.
pub record Dead (k : Kernel) (x i y : ℕ) : Type 0 where
  pub in_table : y < nproc
  pub after : i ≤ y
  pub is_dead : is_dead_child k x y ≡ true
  pub first : (z : ℕ) → i ≤ z → z < y → is_dead_child k x z ≡ false

Dead-later :
    {k : Kernel} {x i y : ℕ} → is_dead_child k x i ≡ false → Dead k x (i + 1) y → Dead k x i y
Dead-later {k} {x} {i} h d = record {
  in_table = d.in_table;
  after = omega (arith, d.after);
  is_dead = d.is_dead;
  first = λ z l u. ground (arith, d.first z, h);
}

-- No child of `x` has exited from process `i` on.
abbrev pub NoDead : Kernel → ℕ → ℕ → Type 0
NoDead k x i = (y : ℕ) → i ≤ y → y < nproc → is_dead_child k x y ≡ false

-- Whether `x` has a child from process `i` on.
unfoldable pub has_child : Kernel → ℕ → ℕ → ℕ → Bool
has_child k x zero i = false
has_child k x (suc rounds) i = is_proc x (k.procs i).parent || has_child k x rounds (i + 1)

-- What the scan can come to, from process `i` on: the first child that has exited is freed and its
-- number returned; or its status cannot be copied; or there is no such child, and `x` gives up since
-- it has no child or is killed, or else sleeps.
pub data Outcome (k : Kernel) (x : ℕ) (copied : Bool) (rounds i : ℕ) (kids : Bool)
    (r : Kernel × Waited) : Type 0 where
  frees :
      (y : ℕ)
      → Dead k x i y
      → copied ≡ true
      → r ≡ (freeproc k y, reaped (k.procs y).pid)
      → Outcome k x copied rounds i kids r
  cannot_copy :
      (y : ℕ) → Dead k x i y → copied ≡ false → r ≡ (k, failed) → Outcome k x copied rounds i kids r
  gives_up :
      NoDead k x i
      → (not (has_child k x rounds i || kids) || (k.procs x).killed) ≡ true
      → r ≡ (k, failed)
      → Outcome k x copied rounds i kids r
  sleeps :
      NoDead k x i
      → (not (has_child k x rounds i || kids) || (k.procs x).killed) ≡ false
      → r ≡ (sleep k x (proc_chan x), blocked)
      → Outcome k x copied rounds i kids r

-- One more process before those that the scan has seen.
Outcome-later :
    {k : Kernel} {x : ℕ} {copied : Bool} {rounds i : ℕ} {kids : Bool} {r : Kernel × Waited}
    → is_dead_child k x i ≡ false
    → Outcome k x copied rounds (i + 1) (is_proc x (k.procs i).parent || kids) r
    → Outcome k x copied (suc rounds) i kids r
unfolding has_child
Outcome-later {k} {x} {i} h (frees y d c e) = frees y (Dead-later h d) c e
Outcome-later {k} {x} {i} h (cannot_copy y d c e) = cannot_copy y (Dead-later h d) c e
Outcome-later {k} {x} {rounds} {i} h (gives_up n g e) =
    gives_up (λ y l u. ground (arith, n y, h)) (ground (arith, g)) e
Outcome-later {k} {x} {rounds} {i} h (sleeps n g e) =
    sleeps (λ y l u. ground (arith, n y, h)) (ground (arith, g)) e

wait_from-Outcome :
    (rounds i : ℕ) (k : Kernel) (x : ℕ) (copied kids : Bool)
    → i + rounds ≡ nproc
    → Outcome k x copied rounds i kids (wait_from rounds i k x copied kids)
unfolding wait_from has_child
wait_from-Outcome zero i k x copied kids e = elim (Bool-cases (not kids || (k.procs x).killed)) [
  | inl h ↦ rw h (gives_up (λ y l u. absurd (omega arith)) h refl)
  | inr h ↦ rw h (sleeps (λ y l u. absurd (omega arith)) h refl)
]
wait_from-Outcome (suc rounds) i k x copied kids e = elim (Bool-cases (is_dead_child k x i)) [
  | inl h ↦ rw h (
      if_copied copied (record {
        in_table = omega arith;
        after = omega arith;
        is_dead = h;
        first = λ z l u. absurd (omega arith);
      }))
  | inr h ↦ rw h (
      Outcome-later h (
        wait_from-Outcome rounds (i + 1) k x copied (is_proc x (k.procs i).parent || kids)
          (omega arith)))
]
  where
    if_copied :
        (b : Bool)
        → Dead k x i i
        → Outcome k x b
            (suc rounds)
            i
            kids
            (if b then (freeproc k i, reaped (k.procs i).pid) else (k, failed))
    if_copied true d = frees i d refl refl
    if_copied false d = cannot_copy i d refl refl

-- `wait` does exactly one of four things. If a child has exited, it frees the first such child in the
-- table and returns its number, or changes nothing if the status cannot be copied out. If none has,
-- it fails when there is no child at all or the process is killed, and sleeps otherwise.
pub wait-Outcome :
    (k : Kernel) (x : ℕ) (copied : Bool) → Outcome k x copied nproc 0 false (wait k x copied)
unfolding wait
wait-Outcome k x copied = wait_from-Outcome nproc 0 k x copied false refl

-- From a state where the invariant of queues and quanta holds, `wait` of the running process
-- keeps it, with no queue changed.
pub wait-IsMlfq :
    {k : Kernel} {qs : Queues} {x : ℕ} (copied : Bool)
    → IsMlfq k qs
    → IsRunning k x
    → IsMlfq (wait k x copied).0 qs
wait-IsMlfq {k} {qs} {x} copied m run = elim (wait-Outcome k x copied) [
  | frees y d c e ↦ rw e (freeproc-IsMlfq y m (ground (arith, d.is_dead)))
  | cannot_copy y d c e ↦ rw e m
  | gives_up n g e ↦ rw e m
  | sleeps n g e ↦ rw e (sleep-IsMlfq (proc_chan x) m run)
]
