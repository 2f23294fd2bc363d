-- ===== src/Queue.antt =====
-- projects/project_1c/kernel/queue.c and queue.h: the multilevel feedback queues, doubly linked
-- through the indices of one table. Entries 0 to 63 stand for the processes; each queue has a head
-- and a tail entry behind them. An access outside the table is a fault, and each `do` line is one
-- assignment of the source.
pub mod Chain
pub mod Steps
pub mod View
pub mod Insert
pub mod Remove
pub mod Empty
pub mod Initialize
pub mod Dequeue
pub mod Tests
use operating_systems_class.Prelude.{
  ℕ, zero, suc, ◌+◌, ◌-◌, ◌*◌, ◌%◌, ◌^◌, Option, none, some, ltb, leb, ◌==◌, if◌then◌else◌,
}
use operating_systems_class.Run.{Run, ok, fault, no_fuel, ◌>>=◌}

abbrev pub nproc : ℕ
nproc = 64

abbrev pub num_queues : ℕ
num_queues = 3

-- QTABLE_SIZE
abbrev pub qtable_size : ℕ
qtable_size = nproc + 2 * num_queues

abbrev pub queue_high : ℕ
queue_high = 2

abbrev pub queue_medium : ℕ
queue_medium = 1

abbrev pub queue_low : ℕ
queue_low = 0

abbrev pub default_pass : ℕ
default_pass = 1

-- `qentry`
pub record Qentry : Type 0 where
  pub pass : ℕ
  pub prev : ℕ
  pub next : ℕ

abbrev pub QTable : Type 0
QTable = ℕ → Qentry

-- One field of one entry replaced.
abbrev pub put_pass : QTable → ℕ → ℕ → QTable
put_pass t i v j = record (t j) { pass = if j == i then v else (t j).pass }

abbrev pub put_prev : QTable → ℕ → ℕ → QTable
put_prev t i v j = record (t j) { prev = if j == i then v else (t j).prev }

abbrev pub put_next : QTable → ℕ → ℕ → QTable
put_next t i v j = record (t j) { next = if j == i then v else (t j).next }

-- Each access reads or writes one field, at an index that must be in the table.
unfoldable pub get_next : QTable → ℕ → Run ℕ
get_next t i = if ltb i qtable_size then ok (t i).next else fault

unfoldable pub get_prev : QTable → ℕ → Run ℕ
get_prev t i = if ltb i qtable_size then ok (t i).prev else fault

unfoldable pub set_pass : QTable → ℕ → ℕ → Run QTable
set_pass t i v = if ltb i qtable_size then ok (put_pass t i v) else fault

unfoldable pub set_next : QTable → ℕ → ℕ → Run QTable
set_next t i v = if ltb i qtable_size then ok (put_next t i v) else fault

unfoldable pub set_prev : QTable → ℕ → ℕ → Run QTable
set_prev t i v = if ltb i qtable_size then ok (put_prev t i v) else fault

abbrev pub get_head : ℕ → ℕ
get_head q = nproc + 2 * q

abbrev pub get_tail : ℕ → ℕ
get_tail q = nproc + 2 * q + 1

-- At the front of a queue.
pub enqueue : QTable → ℕ → ℕ → ℕ → Run QTable
enqueue t queue_num to_insert pass = do
  let curr = get_head queue_num
  t ← set_pass t to_insert pass
  n ← get_next t curr
  t ← set_next t to_insert n
  t ← set_prev t to_insert curr
  t ← set_next t curr to_insert
  n ← get_next t to_insert
  set_prev t n to_insert

-- At the back of a queue.
pub enqueue_back : QTable → ℕ → ℕ → ℕ → Run QTable
enqueue_back t queue_num to_insert pass = do
  curr ← get_prev t (get_tail queue_num)
  t ← set_pass t to_insert pass
  n ← get_next t curr
  t ← set_next t to_insert n
  t ← set_prev t to_insert curr
  t ← set_next t curr to_insert
  n ← get_next t to_insert
  set_prev t n to_insert

pub remove_pid : QTable → ℕ → Run QTable
remove_pid t pid_to_delete = do
  p ← get_prev t pid_to_delete
  n ← get_next t pid_to_delete
  t ← set_next t p n
  n ← get_next t pid_to_delete
  p ← get_prev t pid_to_delete
  t ← set_prev t n p
  t ← set_next t pid_to_delete 999
  set_prev t pid_to_delete 999

-- The loop of `dequeue` that looks for a queue with a process, from queue `i` down. `i` is a
-- uint64_t, so `i >= QUEUE_LOW` always holds and `--i` wraps round at 0; `none` is EMPTY.
scan : ℕ → QTable → ℕ → Run (Option ℕ)
scan zero t i = no_fuel
scan (suc fuel) t i =
    let rest = scan fuel t ((i + 2 ^ 64 - 1) % 2 ^ 64) in
    let idx = (nproc + i * 2 % 2 ^ 64) % 2 ^ 64 in
    if leb queue_low i
    then (do n ← get_next t idx; if ltb n nproc then ok (some idx) else rest)
    else ok none

-- 36 rounds: three queues, entries 62 down to 0, and the read outside the table.
abbrev pub scan_fuel : ℕ
scan_fuel = 36

take_first : QTable → Option ℕ → Run (Option ℕ × QTable)
take_first t none = ok (none, t)
take_first t (some head) = do
  to_delete ← get_next t head
  t ← remove_pid t to_delete
  ok (some to_delete, t)

-- The process that leaves its queue, `none` for EMPTY, with the table.
pub dequeue : QTable → Run (Option ℕ × QTable)
unfolding take_first
dequeue t = do head ← scan scan_fuel t queue_high; take_first t head

-- One round of `initialize`, for the head at `i` and the tail at `i + 1`.
link_empty : QTable → ℕ → Run QTable
link_empty t i = do
  t ← set_next t i (i + 1)
  t ← set_prev t (i + 1) i
  t ← set_pass t i 0
  set_pass t (i + 1) 0xffff

initialize_from : ℕ → QTable → ℕ → Run QTable
initialize_from zero t i = ok t
initialize_from (suc rounds) t i = do t ← link_empty t i; initialize_from rounds t (i + 2)

-- `i` runs from `QTABLE_SIZE - 2 * num_queues` to the end in steps of 2: one round for each queue.
pub initialize : QTable → ℕ → Run QTable
unfolding link_empty initialize_from
initialize t queues = initialize_from queues t (qtable_size - 2 * queues)
