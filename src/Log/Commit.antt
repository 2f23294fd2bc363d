-- ===== src/Log/Commit.antt =====
-- `commit` and recovery, on a machine that may stop at any disk write.
use operating_systems_class.Prelude.{
  ℕ, ◌<◌, ◌≡◌, ◌≢◌, ◌⊎◌, inl, inr, Bool, true, false, arith, refl, sym, ltb,
}
use operating_systems_class.Log.{
  Disk, LogState, ◌>>=◌, put, commit, write_log, write_log_from, write_head, write_blocks,
  install_from, install_trans,
}
use operating_systems_class.Log.Safe.{Safe, Stopped, Safe-bind, Safe-mono, May, bwrite-Safe}
use operating_systems_class.Log.Phase.{
  Outside, IsTxn, IsIdle, IsCommitted, Logging, Installing, write_log_from-Logging,
  write_head-Installing, install_from-Installing,
}

-- The write of an empty header ends the transaction.
write_head-IsIdle :
    (start size : ℕ) (stop : Bool) (P : Disk → Type 0) (new : Disk) (s : LogState)
    → May stop s.left
    → 0 < size
    → s.start ≡ start
    → (stop ≡ true → P s.disk)
    → ((b : ℕ) → Outside start size b → s.disk b ≡ new b)
    → Safe (Stopped stop P) (λ s'. IsIdle start size new s'.disk) (write_head (record s { n = 0 }))
unfolding write_head write_blocks
write_head-IsIdle start size stop P new s may some_log same p home =
    bwrite-Safe stop (Stopped stop P) (λ s'. IsIdle start size new s'.disk)
      (record s { n = 0; cache = put s.cache s.start (put (s.cache s.start) 0 0) }) s.start may
      (λ h. (h, p h))
      (λ left may. record {
        header = ground (arith, same);
        home = λ b o. ground (arith, home b o, same, some_log, o);
      })

-- The disk holds the transaction or not, and never a part of it.
abbrev pub Recoverable : ℕ → ℕ → ℕ → (ℕ → ℕ) → Disk → Disk → Disk → Type 0
Recoverable start size n block old new d =
    IsIdle start size old d ⊎ IsCommitted start size n block new d

module _ {start size n : ℕ} {block : ℕ → ℕ} (txn : IsTxn start size n block) (old new : Disk)
    (stop : Bool) where
  pub write_head-Installed :
      (s : LogState)
      → Installing txn old new stop n s
      → Safe
          (Stopped stop (Recoverable start size n block old new))
          (λ s'. IsIdle start size new s'.disk)
          (write_head (record s { n = 0 }))
  write_head-Installed s q =
      write_head-IsIdle start size stop (Recoverable start size n block old new) new s q.may
        (omega (arith, txn.room)) q.same_start (λ h. inr q.committed)
        (λ b o. q.home b o (λ i lo hi. absurd (omega arith)))

-- A state in which `end_op` calls `commit`: the header on the disk is empty, and only the blocks of
-- the log differ between the cache and the disk.
pub record IsReady (s : LogState) : Type 0 where
  pub txn : IsTxn s.start s.size s.n s.block
  pub some_blocks : 0 < s.n
  pub header : s.disk s.start 0 ≡ 0
  pub clean :
      (b : ℕ)
      → Outside s.start s.size b
      → ((i : ℕ) → i < s.n → s.block i ≢ b)
      → s.cache b ≡ s.disk b

begin_Logging :
    (stop : Bool) (s : LogState) (ready : IsReady s)
    → May stop s.left
    → Logging ready.txn s.disk s.cache stop 0 s
begin_Logging stop s ready may = record {
  may = may;
  same_start = refl;
  same_n = refl;
  same_block = refl;
  idle = record { header = ready.header; home = λ b o. refl };
  fresh = λ b o. refl;
  logged = λ i h. absurd (omega arith);
  copied = λ i h. absurd (omega arith);
}

pub commit-Safe :
    (stop : Bool) (s : LogState)
    → IsReady s
    → May stop s.left
    → Safe
        (Stopped stop (Recoverable s.start s.size s.n s.block s.disk s.cache))
        (λ s'. IsIdle s.start s.size s.cache s'.disk)
        (commit s)
unfolding commit write_log install_trans
commit-Safe stop s ready may =
    let start = s.start in
    let n = s.n in
    let size = s.size in
    let P = Stopped stop (Recoverable start size n s.block s.disk s.cache) in
    let idle : (d : Disk) → Stopped stop (IsIdle start size s.disk) d → P d =
      λ d p. (p.0, inl p.1) in
    let committed : (d : Disk) → Stopped stop (IsCommitted start size n s.block s.cache) d → P d =
      λ d p. (p.0, inr p.1) in
    let Q1 = Logging ready.txn s.disk s.cache stop n in
    let Q2 = Installing ready.txn s.disk s.cache stop 0 in
    let Q3 = Installing ready.txn s.disk s.cache stop n in
    let R : LogState → Type 0 = λ s'. IsIdle start size s.cache s'.disk in
    let test : ltb 0 s.n ≡ true = ground (arith, ready.some_blocks) in
    rw test (
      Safe-bind P Q1 R (write_log_from s.n s 0)
        (λ s1. write_head s1 >>= λ s2.
          install_from s2.n false s2 0 >>= λ s3. write_head (record s3 { n = 0 }))
        (Safe-mono (Stopped stop (IsIdle start size s.disk)) P Q1 Q1 (write_log_from s.n s 0)
          (write_log_from-Logging ready.txn s.disk s.cache stop s.n 0 s (omega arith)
            (begin_Logging stop s ready may))
          idle (λ a q. q))
        (λ s1 q1.
          Safe-bind P Q2 R (write_head s1)
            (λ s2. install_from s2.n false s2 0 >>= λ s3. write_head (record s3 { n = 0 }))
            (Safe-mono (Stopped stop (IsIdle start size s.disk)) P Q2 Q2 (write_head s1)
              (write_head-Installing ready.txn s.disk s.cache stop s1 q1
                (λ b o f. sym (ready.clean b o f)))
              idle (λ a q. q))
            (λ s2 q2.
              Safe-bind P Q3 R (install_from s2.n false s2 0)
                (λ s3. write_head (record s3 { n = 0 }))
                (Safe-mono (Stopped stop (IsCommitted start size n s.block s.cache)) P Q3 Q3
                  (install_from s2.n false s2 0)
                  (install_from-Installing ready.txn s.disk s.cache stop s2.n 0 false s2
                    (omega (arith, q2.same_n)) q2)
                  committed (λ a q. q))
                (λ s3 q3. write_head-Installed ready.txn s.disk s.cache stop s3 q3))))
