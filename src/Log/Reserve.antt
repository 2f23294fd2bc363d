-- ===== src/Log/Reserve.antt =====
-- The system calls that use the log, each with the number of blocks that it may still write: it may write
-- MAXOPBLOCKS in all.
use operating_systems_class.Prelude.{
  ℕ, suc, ◌+◌, ◌*◌, ◌≤◌, ◌≡◌, Bool, true, false, some, List, [], ◌∷◌, ◌++◌, length, arith,
}
use operating_systems_class.Log.{
  LogState, maxopblocks, logsize, Disk, done, begin_op, log_write, end_op_start, end_op_commit,
}

pub record System : Type 0 where
  pub log : LogState
  pub calls : List ℕ

-- A call begins, changes a block in the cache and logs it, or ends; the last one to end has the log committed.
pub data Step : System → System → Type 0 where
  begins :
      {s s' : LogState} {calls : List ℕ}
      → begin_op s ≡ some s'
      → Step (record { log = s; calls = calls }) (record { log = s'; calls = maxopblocks ∷ calls })
  writes :
      {s s' : LogState} (front back : List ℕ) (k b : ℕ) (cache : Disk)
      → log_write (record s { cache = cache }) b ≡ some s'
      → Step
          (record { log = s; calls = front ++ suc k ∷ back })
          (record { log = s'; calls = front ++ k ∷ back })
  ends :
      {s s' : LogState} (front back : List ℕ) (k : ℕ) (last : Bool)
      → end_op_start s ≡ some (s', last)
      → Step
          (record { log = s; calls = front ++ k ∷ back })
          (record { log = s'; calls = front ++ back })
  commits :
      {s s' : LogState} {calls : List ℕ}
      → s.committing ≡ true
      → end_op_commit s ≡ done s'
      → Step (record { log = s; calls = calls }) (record { log = s'; calls = calls })

-- A log that is empty and open.
pub record IsFresh (s : System) : Type 0 where
  pub no_calls : s.calls ≡ []
  pub idle : s.log.outstanding ≡ 0
  pub empty : s.log.n ≡ 0
  pub opened : s.log.committing ≡ false

pub data Reach : System → Type 0 where
  start : {s : System} → IsFresh s → Reach s
  step : {s t : System} → Reach s → Step s t → Reach t

unfoldable pub total : List ℕ → ℕ
total [] = 0
total (k ∷ calls) = k + total calls

-- No call may write more than MAXOPBLOCKS blocks.
pub data Bounded : List ℕ → Type 0 where
  no_call : Bounded []
  one_call : {k : ℕ} {calls : List ℕ} → k ≤ maxopblocks → Bounded calls → Bounded (k ∷ calls)

-- What the reservations ensure.
pub record Reserved (s : LogState) (calls : List ℕ) : Type 0 where
  pub counted : s.outstanding ≡ length calls
  pub room : s.n + total calls ≤ logsize
  pub each : Bounded calls
  pub quiet : s.committing ≡ true → s.outstanding ≡ 0

pub length-without :
    (front back : List ℕ) (k : ℕ) → length (front ++ k ∷ back) ≡ length (front ++ back) + 1
length-without [] back k = omega arith
length-without (x ∷ front) back k = omega (arith, length-without front back k)

pub total-without :
    (front back : List ℕ) (k : ℕ) → total (front ++ k ∷ back) ≡ total (front ++ back) + k
unfolding total
total-without [] back k = omega arith
total-without (x ∷ front) back k = omega (arith, total-without front back k)

pub total-Bounded : (calls : List ℕ) → Bounded calls → total calls ≤ length calls * maxopblocks
unfolding total
total-Bounded _ no_call = omega arith
total-Bounded _ (one_call {calls = calls} h b) = omega (arith, h, total-Bounded calls b)

pub Bounded-lower :
    (front back : List ℕ) (k : ℕ) → Bounded (front ++ suc k ∷ back) → Bounded (front ++ k ∷ back)
Bounded-lower [] back k (one_call h b) = one_call (omega arith) b
Bounded-lower (x ∷ front) back k (one_call h b) = one_call h (Bounded-lower front back k b)

pub Bounded-without :
    (front back : List ℕ) (k : ℕ) → Bounded (front ++ k ∷ back) → Bounded (front ++ back)
Bounded-without [] back k (one_call h b) = b
Bounded-without (x ∷ front) back k (one_call h b) = one_call h (Bounded-without front back k b)
