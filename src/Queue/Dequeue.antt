-- ===== src/Queue/Dequeue.antt =====
-- `dequeue` while a process waits: the first of the highest queue that is not empty.
use operating_systems_class.Prelude.{ℕ, zero, suc, ◌<◌, ◌≡◌, List, [], ◌∷◌, some, arith, ◌∙◌, subst}
use operating_systems_class.Run.{ok}
use operating_systems_class.Queue.{
  QTable, nproc, num_queues, queue_high, get_head, get_tail, get_next, scan, take_first, dequeue,
  scan_fuel,
}
use operating_systems_class.Queue.Chain.{Chain, erase}
use operating_systems_class.Queue.View.{Queues, with_queue, IsView}
use operating_systems_class.Queue.Remove.{remove_pid_refines}

-- The loop passes over an empty queue.
scan-empty :
    (t : QTable) (fuel q : ℕ)
    → suc q < num_queues
    → Chain t (get_head (suc q)) [] (get_tail (suc q))
    → scan (suc fuel) t (suc q) ≡ scan fuel t q
unfolding scan get_next
scan-empty t fuel zero h c = ground arith
scan-empty t fuel (suc zero) h c = ground arith
scan-empty t fuel (suc (suc q)) h c = absurd (omega arith)

-- The loop stops at a queue with a process.
scan-found :
    (t : QTable) (fuel q x : ℕ) (xs : List ℕ)
    → q < num_queues
    → x < nproc
    → Chain t (get_head q) (x ∷ xs) (get_tail q)
    → scan (suc fuel) t q ≡ ok (some (get_head q))
unfolding scan get_next
scan-found t fuel q x xs h hx c = ground arith

scan-highest :
    (t : QTable) (qs : Queues) (q x : ℕ) (xs : List ℕ)
    → IsView t qs
    → q < num_queues
    → qs q ≡ x ∷ xs
    → ((r : ℕ) → q < r → r < num_queues → qs r ≡ [])
    → scan scan_fuel t queue_high ≡ ok (some (get_head q))
scan-highest t qs zero x xs v hq e above =
    scan-empty t 35 1 (omega arith)
      (rw (above 2 (omega arith) (omega arith)) at (v.chains 2 (omega arith)))
    ∙ scan-empty t 34 0 (omega arith)
        (rw (above 1 (omega arith) (omega arith)) at (v.chains 1 (omega arith)))
    ∙ scan-found t 33 0 x xs hq (v.small 0 x hq (ground arith)) (rw e at (v.chains 0 hq))
scan-highest t qs (suc zero) x xs v hq e above =
    scan-empty t 35 1 (omega arith)
      (rw (above 2 (omega arith) (omega arith)) at (v.chains 2 (omega arith)))
    ∙ scan-found t 34 1 x xs hq (v.small 1 x hq (ground arith)) (rw e at (v.chains 1 hq))
scan-highest t qs (suc (suc zero)) x xs v hq e above =
    scan-found t 35 2 x xs hq (v.small 2 x hq (ground arith)) (rw e at (v.chains 2 hq))
scan-highest t qs (suc (suc (suc q))) x xs v hq e above = absurd (omega arith)

erase_first : (x : ℕ) (xs : List ℕ) → erase x (x ∷ xs) ≡ xs
erase_first x xs = ground arith

-- On a table of well-formed queues in which some process waits, `dequeue` never leaves the table
-- and its loop ends; it takes the first process of the highest queue that is not empty, and
-- leaves the rest of that queue in order and the other queues as they were.
pub dequeue_refines :
    {t : QTable} {qs : Queues} (v : IsView t qs) (q x : ℕ) (xs : List ℕ)
    → q < num_queues
    → qs q ≡ x ∷ xs
    → ((r : ℕ) → q < r → r < num_queues → qs r ≡ [])
    → (t' : QTable) × (dequeue t ≡ ok (some x, t')) × IsView t' (with_queue qs q xs)
unfolding dequeue take_first get_next
dequeue_refines {t} {qs} v q x xs hq e above =
    let (t', gone, v') = remove_pid_refines v q x hq (rw e (ground arith)) in
    (
      t',
      ground (arith, scan-highest t qs q x xs v hq e above, gone, head_chain),
      subst (λ ys. IsView t' (with_queue qs q ys)) (rw e (erase_first x xs)) v',
    )
  where
    head_chain : (t (get_head q)).next ≡ x
    head_chain = (rw e at (v.chains q hq)).0
