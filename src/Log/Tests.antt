-- ===== src/Log/Tests.antt =====
-- The theorems on the log at a log of 30 blocks from block 2 on, as mkfs makes it, that holds home block 32, the first block of inodes.
use operating_systems_class.Prelude.{
  ℕ, suc, ◌+◌, ◌-◌, ◌⊎◌, ◌<◌, ◌≤◌, ◌≡◌, Bool, List, [], ◌∷◌, ◌++◌, inr, false, refl, Option, none,
  some, arith,
}
use operating_systems_class.Log.{
  Block, Disk, LogState, logsize, begin_op, find_block, end_op_start, done, put, commit, initlog,
  log_write, write_log, write_log_from, write_head, write_blocks, install_trans, install_from,
  bwrite, bwrite_left,
}
use operating_systems_class.Log.Reserve.{System, Reach, start, step, begins, writes, total}
use operating_systems_class.Log.Room.{Reach-room}
use operating_systems_class.Log.Full.{full_log_panics}
use operating_systems_class.Log.Safe.{Safe}
use operating_systems_class.Log.Phase.{IsIdle}
use operating_systems_class.Log.Commit.{Recoverable, IsReady}
use operating_systems_class.Log.Recover.{OldOrNew, recover_again, commit_atomic, commit_durable}
use operating_systems_class.Log.Write.{IsOpen, Logged, changed, IsOpen-IsReady, log_write_refines}

abbrev zeros : Disk
zeros b i = 0

abbrev nines : Block
nines i = 9

-- One system call has changed block 32, which the log holds; `left` disk writes are left.
abbrev one_logged : Option ℕ → LogState
one_logged left = record {
  start = 2;
  size = 30;
  outstanding = 1;
  committing = false;
  n = 1;
  block = λ i. 32;
  pins = λ b. 0;
  cache = put zeros 32 nines;
  disk = zeros;
  left = left;
}

one_logged-IsOpen : (left : Option ℕ) → IsOpen (one_logged left)
one_logged-IsOpen left = record {
  txn = record { fits = omega arith; room = omega arith; homes = λ i h. ground arith };
  once = λ i j l u. absurd (omega arith);
  header = refl;
  clean = λ b o f. ground (arith, f 0);
}

one_logged-IsReady : (left : Option ℕ) → IsReady (one_logged left)
one_logged-IsReady left = IsOpen-IsReady (one_logged left) (one_logged-IsOpen left) (omega arith)

-- The disk after the writes of `write_log` and `write_head`.
abbrev committed_disk : Disk
committed_disk = put (put zeros 3 nines) 2 (put (put (λ i. 0) 0 1) 1 32)

commit_atomic_example :
    (s' : LogState) × (initlog committed_disk 2 30 none ≡ done s')
    × OldOrNew 2 30 zeros (put zeros 32 nines) s'
unfolding commit write_log write_log_from write_head write_blocks install_trans install_from bwrite
    bwrite_left
commit_atomic_example =
    commit_atomic (one_logged (some 2)) committed_disk (one_logged-IsReady (some 2)) refl

commit_durable_example :
    (s' : LogState) × (commit (one_logged none) ≡ done s')
    × IsIdle 2 30 (put zeros 32 nines) s'.disk
commit_durable_example = commit_durable (one_logged none) (one_logged-IsReady none) refl

recover_again_example :
    Safe
      (Recoverable 2 30 1 (λ i. 32) zeros (put zeros 32 nines))
      (OldOrNew 2 30 zeros (put zeros 32 nines))
      (initlog committed_disk 2 30 (some 1))
recover_again_example =
    recover_again (one_logged-IsOpen none).txn zeros (put zeros 32 nines) committed_disk (some 1) (
      inr (record {
        header = refl;
        addresses = λ i h. ground arith;
        logged = λ i h. ground arith;
        home = λ b o f. ground (arith, f 0);
      }))

log_write_refines_example :
    (s' : LogState) × (log_write (changed (one_logged none) 60 nines) 60 ≡ some s')
    × Logged (one_logged none) 60 nines s'
log_write_refines_example =
    log_write_refines (one_logged-IsOpen none) 60 (inr (omega arith)) nines (omega arith)
      (omega arith) (omega arith)

-- An empty log, where a call has begun and logged block 32.
abbrev no_call_yet : LogState
no_call_yet = record (one_logged none) { outstanding = 0; n = 0 }

abbrev begun : LogState
begun = record no_call_yet { outstanding = 1 }

abbrev wrote_one : LogState
wrote_one = record begun { block = put begun.block 0 32; pins = put begun.pins 32 1; n = 1 }

begins_run : begin_op no_call_yet ≡ some begun
unfolding begin_op
begins_run = refl

writes_run : log_write begun 32 ≡ some wrote_one
unfolding log_write find_block
writes_run = refl

abbrev one_call_nine : System
one_call_nine = record { log = wrote_one; calls = 9 ∷ [] }

one_call-Reach : Reach one_call_nine
one_call-Reach =
    let fresh : Reach (record { log = no_call_yet; calls = [] }) =
      start (record { no_calls = refl; idle = refl; empty = refl; opened = refl }) in
    step (step fresh (begins begins_run)) (writes [] [] 9 32 begun.cache writes_run)

Reach-room_example :
    (wrote_one.n + total (9 ∷ []) ≤ logsize)
    × ((front back : List ℕ) (k b : ℕ) (cache : Disk)
        → 9 ∷ [] ≡ front ++ suc k ∷ back
        → ((wrote_one.n < wrote_one.size - 1)
            × ((s' : LogState) × (log_write (record wrote_one { cache = cache }) b ≡ some s')))
          ⊎ ((wrote_one.size - 1 ≤ wrote_one.n)
              × (wrote_one.size ≤ logsize)
              × (log_write (record wrote_one { cache = cache }) b ≡ none)))
    × ((front back : List ℕ) (k : ℕ)
        → 9 ∷ [] ≡ front ++ k ∷ back
        → (r : LogState × Bool) × (end_op_start wrote_one ≡ some r))
Reach-room_example = Reach-room one_call-Reach

abbrev fresh_system : System
fresh_system = record { log = no_call_yet; calls = [] }

full_log_panics_example :
    (t : System) × (front : List ℕ) × (k : ℕ) × (back : List ℕ) × Reach t
    × (t.log.size ≡ 30)
    × (t.calls ≡ front ++ suc k ∷ back)
    × ((i : ℕ) → i < t.log.n → t.log.block i ≡ 32 + i)
    × (log_write t.log (32 + t.log.n) ≡ none)
full_log_panics_example =
    full_log_panics 32 fresh_system
      (record { no_calls = refl; idle = refl; empty = refl; opened = refl }) (omega arith)
      (omega arith)
