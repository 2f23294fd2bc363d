-- ===== src/Queue/Steps.antt =====
-- The functions of queue.c as single updates of the table, where the entries that they touch are in
-- it and are different.
use mathlib.Core.Path.{fun_ext}
use operating_systems_class.Prelude.{ℕ, ◌<◌, ◌≡◌, ◌≢◌, arith}
use operating_systems_class.Run.{ok}
use operating_systems_class.Queue.{
  QTable, qtable_size, get_next, get_prev, set_pass, set_next, set_prev, get_head, get_tail,
  enqueue, enqueue_back, remove_pid, put_pass, put_prev, put_next,
}
use operating_systems_class.Queue.Chain.{link, unlink}

-- The writes that link `x` in between `m` and `n`, in the order of the source.
abbrev link_writes : QTable → (m x n pass : ℕ) → QTable
link_writes t m x n pass =
    put_prev (put_next (put_prev (put_next (put_pass t x pass) x n) x m) m x) n x

link_writes-eq-link :
    (t : QTable) (m x n pass : ℕ)
    → x ≢ m
    → n ≢ m
    → x ≢ n
    → link_writes t m x n pass ≡ link t m x n pass
link_writes-eq-link t m x n pass a b c = fun_ext (λ j. ground arith)

pub enqueue-link :
    (t : QTable) (q x pass : ℕ)
    → get_head q < qtable_size
    → x < qtable_size
    → (t (get_head q)).next < qtable_size
    → x ≢ get_head q
    → (t (get_head q)).next ≢ get_head q
    → x ≢ (t (get_head q)).next
    → enqueue t q x pass ≡ ok (link t (get_head q) x (t (get_head q)).next pass)
unfolding enqueue get_next get_prev set_pass set_next set_prev
enqueue-link t q x pass h hx hn a b c =
    rw (← link_writes-eq-link t (get_head q) x (t (get_head q)).next pass a b c) (ground arith)

pub enqueue_back-link :
    (t : QTable) (q x pass : ℕ)
    → get_tail q < qtable_size
    → x < qtable_size
    → (t (get_tail q)).prev < qtable_size
    → (t (t (get_tail q)).prev).next ≡ get_tail q
    → x ≢ get_tail q
    → get_tail q ≢ (t (get_tail q)).prev
    → x ≢ (t (get_tail q)).prev
    → enqueue_back t q x pass ≡ ok (link t (t (get_tail q)).prev x (get_tail q) pass)
unfolding enqueue_back get_next get_prev set_pass set_next set_prev
enqueue_back-link t q x pass h hx hn back a b c =
    rw (← link_writes-eq-link t (t (get_tail q)).prev x (get_tail q) pass c b a) (ground arith)

unlink_writes : QTable → ℕ → QTable
unlink_writes t x =
    put_prev (put_next (put_prev (put_next t (t x).prev (t x).next) (t x).next (t x).prev) x 999) x
      999

unlink_writes-eq-unlink : (t : QTable) (x : ℕ) → unlink_writes t x ≡ unlink t x
unfolding unlink_writes
unlink_writes-eq-unlink t x = fun_ext (λ j. ground arith)

pub remove_pid-unlink :
    (t : QTable) (x : ℕ)
    → x < qtable_size
    → (t x).prev < qtable_size
    → (t x).next < qtable_size
    → (t x).prev ≢ x
    → (t x).next ≢ x
    → remove_pid t x ≡ ok (unlink t x)
unfolding remove_pid get_next get_prev set_next set_prev unlink_writes
remove_pid-unlink t x h hp hn np nn = rw (← unlink_writes-eq-unlink t x) (ground arith)
