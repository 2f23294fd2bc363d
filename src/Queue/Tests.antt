-- ===== src/Queue/Tests.antt =====
-- The theorems on queue.c at tables of the kernel's life: before and after it has started, with
-- one, two and no processes waiting.
use operating_systems_class.Prelude.{
  ℕ, zero, suc, ◌<◌, ◌≡◌, refl, [], ◌∷◌, some, arith, ◌==◌, if◌then◌else◌,
}
use operating_systems_class.Run.{ok}
use operating_systems_class.Queue.{QTable, num_queues, get_head, get_tail, enqueue_back, dequeue}
use operating_systems_class.Queue.Chain.{Chain, link}
use operating_systems_class.Queue.View.{Queues, IsView, empty_queues, with_queue}
use operating_systems_class.Queue.Initialize.{initialized, initialized-IsView}
use operating_systems_class.Queue.Insert.{enqueue_back_refines}
use operating_systems_class.Queue.Dequeue.{dequeue_refines}
use operating_systems_class.Queue.Empty.{dequeue_idle}

-- The table as the C runtime clears it.
abbrev cleared : QTable
cleared i = record { pass = 0; prev = 0; next = 0 }

-- The table before the first process runs, and the same with entry 0 as `remove_pid` leaves it.
abbrev started : QTable
started = initialized cleared

abbrev used : QTable
used i = if i == 0 then record { pass = 1; prev = 999; next = 999 } else cleared i

-- Process 5 waits in the middle queue.
abbrev pub waiting : QTable
waiting = link started 66 5 67 1

abbrev pub waiting_queues : Queues
waiting_queues = with_queue empty_queues 1 (5 ∷ [])

pub waiting-IsView : IsView waiting waiting_queues
waiting-IsView = record {
  chains = λ q h. waiting-Chain q h;
  small = λ q x h m. ground arith;
  distinct = λ q h. ground arith;
  apart = λ q r x h k m n. ground arith;
}
  where
    waiting-Chain :
        (q : ℕ) → q < num_queues → Chain waiting (get_head q) (waiting_queues q) (get_tail q)
    waiting-Chain zero h = ground arith
    waiting-Chain (suc zero) h = ground arith
    waiting-Chain (suc (suc zero)) h = ground arith
    waiting-Chain (suc (suc (suc q))) h = absurd (omega arith)

enqueue_back_refines_example :
    (t' : QTable) × (enqueue_back waiting 1 7 1 ≡ ok t')
    × IsView t' (with_queue waiting_queues 1 (5 ∷ 7 ∷ []))
enqueue_back_refines_example =
    enqueue_back_refines waiting-IsView 1 7 1 (omega arith) (omega arith) (λ q h. ground arith)

dequeue_refines_example :
    (t' : QTable) × (dequeue waiting ≡ ok (some 5, t')) × IsView t' (with_queue waiting_queues 1 [])
dequeue_refines_example =
    dequeue_refines waiting-IsView 1 5 [] (omega arith) refl (λ r h k. ground arith)

-- Before any process has run, an empty table yields process 0.
dequeue_idle_example : (t' : QTable) × (dequeue started ≡ ok (some 0, t'))
dequeue_idle_example =
    dequeue_idle (initialized-IsView cleared) (omega arith) (omega arith) (omega arith)
