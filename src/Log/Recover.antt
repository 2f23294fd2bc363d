-- ===== src/Log/Recover.antt =====
-- `recover_from_log`, and a transaction together with the recovery after a stop.
use operating_systems_class.Prelude.{
  ℕ, zero, suc, ◌+◌, ◌≤◌, ◌<◌, ◌≡◌, ◌⊎◌, inl, inr, Bool, true, false, Option, none, arith, refl,
  ◌∙◌, subst,
}
use native.Mathlib.Decide.{ℕ_discrete}
use operating_systems_class.Log.{
  Block, Disk, LogState, done, crashed, put, commit, write_head, install_from, install_trans,
  read_blocks, read_head, recover_from_log, initlog,
}
use operating_systems_class.Log.Safe.{Safe, Stopped, Safe-bind, Safe-finish, Safe-mono, May}
use operating_systems_class.Log.Phase.{
  IsTxn, IsIdle, IsCommitted, Installing, install_from-Installing,
}
use operating_systems_class.Log.Commit.{Recoverable, IsReady, commit-Safe, write_head-Installed}

-- The addresses that `read_head` reads.
read_blocks-before :
    (rounds i : ℕ) (head : Block) (block : ℕ → ℕ) (j : ℕ)
    → j < i
    → read_blocks rounds i head block j ≡ block j
unfolding read_blocks
read_blocks-before zero i head block j h = refl
read_blocks-before (suc rounds) i head block j h =
    read_blocks-before rounds (i + 1) head (put block i (head (i + 1))) j (omega arith)
    ∙ ground arith

read_blocks-at :
    (rounds i : ℕ) (head : Block) (block : ℕ → ℕ) (j : ℕ)
    → i ≤ j
    → j < i + rounds
    → read_blocks rounds i head block j ≡ head (j + 1)
unfolding read_blocks
read_blocks-at zero i head block j l u = absurd (omega arith)
read_blocks-at (suc rounds) i head block j l u = elim (ℕ_discrete j i) [
  | yes e ↦
      read_blocks-before rounds (i + 1) head (put block i (head (i + 1))) j (omega arith)
      ∙ ground (arith, e)
  | no e ↦
      read_blocks-at rounds (i + 1) head (put block i (head (i + 1))) j (omega arith) (omega arith)
]

-- The state in which `initlog` calls `recover_from_log`.
abbrev booted : Disk → ℕ → ℕ → Option ℕ → LogState
booted d start size left = record {
  start = start;
  size = size;
  outstanding = 0;
  committing = false;
  n = 0;
  block = λ i. 0;
  pins = λ b. 0;
  cache = d;
  disk = d;
  left = left;
}

module _ {start size n : ℕ} {block : ℕ → ℕ} (txn : IsTxn start size n block) (old new : Disk)
    (stop : Bool) where
  read_head-Installing :
      (d : Disk) (left : Option ℕ)
      → IsCommitted start size n block new d
      → May stop left
      → Installing txn old new stop 0 (read_head (booted d start size left))
  unfolding read_head
  read_head-Installing d left c may = record {
    may = may;
    same_start = refl;
    same_n = c.header;
    same_block = λ i h.
        read_blocks-at (d start 0) 0 (d start) (λ j. 0) i (omega arith) (omega (arith, c.header))
        ∙ c.addresses i h;
    cached = c.logged;
    committed = c;
    home = λ b o f. c.home b o (λ i h. f i (omega arith) h);
  }

  initlog-Committed :
      (d : Disk) (left : Option ℕ)
      → IsCommitted start size n block new d
      → May stop left
      → Safe
          (Stopped stop (Recoverable start size n block old new))
          (λ s. IsIdle start size new s.disk)
          (initlog d start size left)
  unfolding initlog recover_from_log install_trans
  initlog-Committed d left c may =
      let s1 = read_head (booted d start size left) in
      let q1 = read_head-Installing d left c may in
      let P = Stopped stop (Recoverable start size n block old new) in
      let Q = Installing txn old new stop n in
      Safe-bind P Q (λ s. IsIdle start size new s.disk) (install_from s1.n true s1 0)
        (λ s2. write_head (record s2 { n = 0 }))
        (Safe-mono (Stopped stop (IsCommitted start size n block new)) P Q Q
          (install_from s1.n true s1 0)
          (install_from-Installing txn old new stop s1.n 0 true s1 (omega (arith, q1.same_n)) q1)
          (λ d' p. (p.0, inr p.1)) (λ a q. q))
        (λ s2 q2. write_head-Installed txn old new stop s2 q2)

  -- A disk without a committed transaction is a disk with an empty one.
  empty-IsTxn : IsTxn start size 0 block
  empty-IsTxn = record {
    fits = omega arith;
    room = omega (arith, txn.room);
    homes = λ i h. absurd (omega arith);
  }

  empty-IsCommitted : (d : Disk) → IsIdle start size old d → IsCommitted start size 0 block old d
  empty-IsCommitted d idle = record {
    header = idle.header;
    addresses = λ i h. absurd (omega arith);
    logged = λ i h. absurd (omega arith);
    home = λ b o f. idle.home b o;
  }

  empty-IsIdle : (d : Disk) → Recoverable start size 0 block old old d → IsIdle start size old d
  empty-IsIdle d (inl i) = i
  empty-IsIdle d (inr c) = record {
    header = c.header;
    home = λ b o. c.home b o (λ i h. absurd (omega arith));
  }

-- The transaction happened or it did not.
abbrev pub OldOrNew : ℕ → ℕ → Disk → Disk → LogState → Type 0
OldOrNew start size old new s = IsIdle start size old s.disk ⊎ IsIdle start size new s.disk

recover-Safe :
    {start size n : ℕ} {block : ℕ → ℕ} (txn : IsTxn start size n block) (old new : Disk)
    (stop : Bool) (d : Disk) (left : Option ℕ)
    → Recoverable start size n block old new d
    → May stop left
    → Safe
        (Stopped stop (Recoverable start size n block old new))
        (OldOrNew start size old new)
        (initlog d start size left)
recover-Safe {start} {size} {n} {block} txn old new stop d left (inl i) may =
    Safe-mono (Stopped stop (Recoverable start size 0 block old old))
      (Stopped stop (Recoverable start size n block old new)) (λ s. IsIdle start size old s.disk)
      (OldOrNew start size old new) (initlog d start size left)
      (initlog-Committed (empty-IsTxn txn old new stop) old old stop d left
        (empty-IsCommitted txn old new stop d i) may)
      (λ d' p. (p.0, inl (empty-IsIdle txn old new stop d' p.1))) (λ s q. inl q)
recover-Safe {start} {size} {n} {block} txn old new stop d left (inr c) may =
    Safe-mono (Stopped stop (Recoverable start size n block old new))
      (Stopped stop (Recoverable start size n block old new)) (λ s. IsIdle start size new s.disk)
      (OldOrNew start size old new) (initlog d start size left)
      (initlog-Committed txn old new stop d left c may) (λ d' p. p) (λ s q. inr q)

-- A stop during `recover_from_log` leaves a disk that it can recover from again, to the same old or new
-- contents, and a recovery that is not cut short leaves the old contents of all home blocks or the new
-- contents of all, with an empty log: for a log of at most LOGSIZE blocks, fewer than the blocks of its
-- area, whose addresses lie outside that area.
pub recover_again :
    {start size n : ℕ} {block : ℕ → ℕ} (txn : IsTxn start size n block) (old new d : Disk)
    (left : Option ℕ)
    → Recoverable start size n block old new d
    → Safe
        (Recoverable start size n block old new)
        (OldOrNew start size old new)
        (initlog d start size left)
recover_again {start} {size} {n} {block} txn old new d left r =
    Safe-mono (Stopped true (Recoverable start size n block old new))
      (Recoverable start size n block old new) (OldOrNew start size old new)
      (OldOrNew start size old new) (initlog d start size left)
      (recover-Safe txn old new true d left r (inl refl)) (λ d' p. p.1) (λ s q. q)

recover-done :
    {start size n : ℕ} {block : ℕ → ℕ} (txn : IsTxn start size n block) (old new d : Disk)
    → Recoverable start size n block old new d
    → (s : LogState) × (initlog d start size none ≡ done s) × OldOrNew start size old new s
recover-done {start} {size} {n} {block} txn old new d r =
    Safe-finish (OldOrNew start size old new) (initlog d start size none) (
      Safe-mono (Stopped false (Recoverable start size n block old new)) (λ d'. ⊥)
        (OldOrNew start size old new) (OldOrNew start size old new) (initlog d start size none)
        (recover-Safe txn old new false d none r (inr refl)) (λ d' p. absurd (ground (arith, p.0)))
        (λ s q. q))

-- A transaction is atomic. From a state in which `end_op` may call `commit` (1 to LOGSIZE logged
-- blocks, fewer than the blocks of the log's area, with addresses outside that area, an empty header on the disk, and every home block that is
-- not logged the same in the cache and on the disk), if the machine stops at any disk write of
-- `commit`, then `initlog` on the disk that it leaves ends, with an empty log, and with all home blocks as they
-- were before `commit` or all as the cache held them.
pub commit_atomic :
    (s : LogState) (d : Disk)
    → IsReady s
    → commit s ≡ crashed d
    → (s' : LogState) × (initlog d s.start s.size none ≡ done s')
      × OldOrNew s.start s.size s.disk s.cache s'
commit_atomic s d ready e =
    let safe =
      subst
        (Safe (Stopped true (Recoverable s.start s.size s.n s.block s.disk s.cache))
          (λ s'. IsIdle s.start s.size s.cache s'.disk))
        e (commit-Safe true s ready (inl refl)) in
    recover-done ready.txn s.disk s.cache d safe.1

-- From a state in which `end_op` may call `commit` (1 to LOGSIZE logged blocks, fewer
-- than the blocks of the log's area, with addresses outside that area, an empty header on the disk, and every home block that is not logged the same
-- in the cache and on the disk), on a machine that does not stop, `commit` ends with an empty log
-- on the disk and every home block as the cache held it.
pub commit_durable :
    (s : LogState)
    → IsReady s
    → s.left ≡ none
    → (s' : LogState) × (commit s ≡ done s') × IsIdle s.start s.size s.cache s'.disk
commit_durable s ready e =
    Safe-finish (λ s'. IsIdle s.start s.size s.cache s'.disk) (commit s)
      (Safe-mono (Stopped false (Recoverable s.start s.size s.n s.block s.disk s.cache)) (λ d'. ⊥)
        (λ s'. IsIdle s.start s.size s.cache s'.disk) (λ s'. IsIdle s.start s.size s.cache s'.disk)
        (commit s) (commit-Safe false s ready (inr e)) (λ d' p. absurd (ground (arith, p.0)))
        (λ s q. q))
