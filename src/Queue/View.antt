-- ===== src/Queue/View.antt =====
-- What the table stands for: one list of processes for each queue, front first.
use operating_systems_class.Prelude.{
  ℕ, ◌≤◌, ◌<◌, ◌≡◌, ◌≢◌, ◌⊎◌, true, false, List, [], ◌==◌, if◌then◌else◌, arith,
}
use operating_systems_class.Queue.{QTable, nproc, num_queues, get_head, get_tail}
use operating_systems_class.Queue.Chain.{has, Distinct, Chain}

abbrev pub Queues : Type 0
Queues = ℕ → List ℕ

abbrev pub empty_queues : Queues
empty_queues q = []

-- The list of one queue replaced.
abbrev pub with_queue : Queues → ℕ → List ℕ → Queues
with_queue qs q xs r = if r == q then xs else qs r

-- Each queue is a chain of processes from its head to its tail, and no process is in two places.
pub record IsView (t : QTable) (qs : Queues) : Type 0 where
  pub chains : (q : ℕ) → q < num_queues → Chain t (get_head q) (qs q) (get_tail q)
  pub small : (q x : ℕ) → q < num_queues → has x (qs q) ≡ true → x < nproc
  pub distinct : (q : ℕ) → q < num_queues → Distinct (qs q)
  pub apart :
      (q r x : ℕ)
      → q < num_queues
      → r < num_queues
      → has x (qs q) ≡ true
      → has x (qs r) ≡ true
      → q ≡ r

-- A process in none of the queues.
abbrev pub Absent : ℕ → Queues → Type 0
Absent x qs = (q : ℕ) → q < num_queues → has x (qs q) ≡ false

-- Heads and tails are in no queue.
pub not-has_end :
    {t : QTable} {qs : Queues}
    → IsView t qs
    → (q i : ℕ) → q < num_queues
    → nproc ≤ i
    → has i (qs q) ≡ false
not-has_end {qs} v q i h l = ground (arith, v.small q i h)

-- The ends of queue `q` and its processes.
abbrev pub Of : Queues → ℕ → ℕ → Type 0
Of qs q i = (i ≡ get_head q) ⊎ ((i ≡ get_tail q) ⊎ (has i (qs q) ≡ true))

-- Two queues have no entry in common.
pub Of-ne :
    {t : QTable} {qs : Queues}
    → IsView t qs
    → (q r i j : ℕ) → q < num_queues
    → r < num_queues
    → q ≢ r
    → Of qs q i
    → Of qs r j
    → i ≢ j
Of-ne v q r i j hq hr n oi oj = ground (arith, v.small q i hq, v.small r j hr, v.apart q r i hq hr)

pub with_queue_self : (qs : Queues) (q : ℕ) (xs : List ℕ) → with_queue qs q xs q ≡ xs
with_queue_self qs q xs = ground arith

pub with_queue_ne : (qs : Queues) (q r : ℕ) (xs : List ℕ) → q ≢ r → with_queue qs q xs r ≡ qs r
with_queue_ne qs q r xs n = ground arith
