-- ===== src/Queue/Initialize.antt =====
-- `initialize` empties every queue, whatever the table held.
use operating_systems_class.Prelude.{ℕ, ◌+◌, ◌<◌, ◌≡◌, [], arith}
use operating_systems_class.Run.{ok}
use operating_systems_class.Queue.{
  QTable, num_queues, get_head, get_tail, set_next, set_prev, set_pass, put_next, put_prev,
  put_pass, link_empty, initialize, nproc,
}
use operating_systems_class.Queue.Chain.{Chain}
use operating_systems_class.Queue.View.{IsView, empty_queues}

-- The table with head `i` and tail `i + 1` linked to one another.
abbrev pub linked : QTable → ℕ → QTable
linked t i = put_pass (put_pass (put_prev (put_next t i (i + 1)) (i + 1) i) i 0) (i + 1) 0xffff

link_empty-ok : (t : QTable) (i : ℕ) → i < 69 → link_empty t i ≡ ok (linked t i)
unfolding link_empty set_next set_prev set_pass
link_empty-ok t i h = ground arith

abbrev pub initialized : QTable → QTable
initialized t = linked (linked (linked t 64) 66) 68

initialize-ok : (t : QTable) → initialize t num_queues ≡ ok (initialized t)
unfolding initialize
initialize-ok t = rw (
  link_empty-ok t 64 (omega arith),
  link_empty-ok (linked t 64) 66 (omega arith),
  link_empty-ok (linked (linked t 64) 66) 68 (omega arith),
)

initialized-Chain :
    (t : QTable) (q : ℕ) → q < num_queues → Chain (initialized t) (get_head q) [] (get_tail q)
initialized-Chain t q h = ground arith

pub initialized-IsView : (t : QTable) → IsView (initialized t) empty_queues
initialized-IsView t = record {
  chains = λ q h. initialized-Chain t q h;
  small = λ q x h m. absurd (ground arith);
  distinct = λ q h. tt;
  apart = λ q r x h k m n. absurd (ground arith);
}

-- `initialize` with the three queues of the kernel stays inside the table, empties every queue
-- whatever the table held before, and changes no link of a process entry.
pub initialize_refines :
    (t : QTable)
    → (t' : QTable) × (initialize t num_queues ≡ ok t')
      × IsView t' empty_queues
      × ((i : ℕ) → i < nproc → t' i ≡ t i)
initialize_refines t = (initialized t, initialize-ok t, initialized-IsView t, λ i h. ground arith)
