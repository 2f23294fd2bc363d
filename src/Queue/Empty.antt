-- ===== src/Queue/Empty.antt =====
-- `dequeue` when no process waits. Its loop variable is unsigned, so the loop does not end at queue
-- 0: it goes on to the entries of the processes, as if they were heads of queues.
use operating_systems_class.Prelude.{
  ℕ, zero, suc, ◌+◌, ◌-◌, ◌%◌, ◌^◌, ◌<◌, ◌≡◌, ◌≢◌, none, some, arith,
}
use operating_systems_class.Run.{ok, fault, no_fuel}
use operating_systems_class.Queue.{
  QTable, nproc, queue_high, get_next, put_next, put_prev, get_prev, set_next, set_prev, scan,
  take_first, dequeue, remove_pid, scan_fuel,
}
use operating_systems_class.Queue.View.{IsView, empty_queues}

scan-ne-none : (fuel : ℕ) (t : QTable) (i : ℕ) → scan fuel t i ≢ ok none
unfolding scan get_next
scan-ne-none zero t i = ground arith
scan-ne-none (suc fuel) t i = ground (arith, scan-ne-none fuel t ((i + 2 ^ 64 - 1) % 2 ^ 64))

-- Whatever the table holds, `dequeue` never returns EMPTY.
pub dequeue-ne-empty : (t t' : QTable) → dequeue t ≢ ok (none, t')
unfolding dequeue take_first
dequeue-ne-empty t t' e = ground (arith, scan-ne-none scan_fuel t queue_high)

-- Below queue 0 the loop variable is 2 ^ 64 - k, and the entry it reads is 64 - 2 * k.
scan_below :
    (n k fuel : ℕ) (t : QTable) → k + n ≡ 33 → 0 < k → n < fuel → scan fuel t (2 ^ 64 - k) ≢ no_fuel
unfolding scan get_next
scan_below n k zero t h p f = absurd (omega arith)
scan_below zero k (suc fuel) t h p f = ground arith
scan_below (suc n) k (suc fuel) t h p f = ground (arith, scan_below n (k + 1) fuel t)

scan-ends : (t : QTable) → scan scan_fuel t queue_high ≢ no_fuel
unfolding scan get_next
scan-ends t = ground (arith, scan_below 32 1 33 t (omega arith) (omega arith) (omega arith))

-- Whatever the table holds, `dequeue` does not run out of fuel.
dequeue-ends : (t : QTable) → dequeue t ≢ no_fuel
unfolding dequeue take_first get_next remove_pid get_prev set_next set_prev
dequeue-ends t = ground (arith, scan-ends t)

-- With the three queues empty the loop reads entry 62 next.
scan_idle :
    {t : QTable}
    → IsView t empty_queues
    → (t 62).next < nproc
    → scan scan_fuel t queue_high ≡ ok (some 62)
unfolding scan get_next
scan_idle v h = ground (arith, v.chains 0, v.chains 1, v.chains 2)

-- On a table of well-formed queues with no process waiting, `dequeue` hands out the process that
-- the entry of process 62 names, if that is a process and its links lie in the table: a process
-- that is in no queue.
pub dequeue_idle :
    {t : QTable}
    → IsView t empty_queues
    → (t 62).next < nproc
    → (t (t 62).next).prev < 70
    → (t (t 62).next).next < 70
    → (t' : QTable) × (dequeue t ≡ ok (some (t 62).next, t'))
unfolding dequeue take_first get_next remove_pid get_prev set_next set_prev
dequeue_idle {t} v h p n = (
  let y = (t 62).next in
      let joined = put_prev (put_next t (t y).prev (t y).next) (t y).next (t y).prev in
      put_prev (put_next joined y 999) y 999,
  ground (arith, scan_idle v h),
)

-- On a table of well-formed queues with no process waiting, if the process that the entry of
-- process 62 names was taken out of its queue before, so that its link to the previous entry
-- holds 999, `dequeue` writes outside the table.
pub dequeue_idle-fault :
    {t : QTable}
    → IsView t empty_queues
    → (t 62).next < nproc
    → (t (t 62).next).prev ≡ 999
    → dequeue t ≡ fault
unfolding dequeue take_first get_next remove_pid get_prev set_next set_prev
dequeue_idle-fault {t} v h p = ground (arith, scan_idle v h)
