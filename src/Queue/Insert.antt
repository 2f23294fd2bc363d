-- ===== src/Queue/Insert.antt =====
-- `enqueue` and `enqueue_back` put a process at the front and at the back of one queue.
use operating_systems_class.Prelude.{
  ℕ, ◌<◌, ◌≡◌, ◌≢◌, inl, inr, List, [], ◌∷◌, ◌++◌, arith, ◌==◌, ◌||◌, subst, refl, sym, ◌+◌, ◌*◌,
}
use native.Mathlib.Decide.{ℕ_discrete}
use operating_systems_class.Run.{ok}
use operating_systems_class.Queue.{
  QTable, nproc, num_queues, get_head, get_tail, enqueue, enqueue_back,
}
use operating_systems_class.Queue.Chain.{
  has, Distinct, Chain, link, has-snoc, ne_of_has, Chain-frame, next-prev_end, next-cases,
  prev-cases, Chain-link_front, Chain-link_back, Distinct-snoc,
}
use operating_systems_class.Queue.Steps.{enqueue-link, enqueue_back-link}
use operating_systems_class.Queue.View.{
  Queues, with_queue, IsView, Absent, not-has_end, Of, Of-ne, with_queue_self, with_queue_ne,
}

module _ {t : QTable} {qs : Queues} (v : IsView t qs) (q x pass : ℕ) (hq : q < num_queues)
    (hx : x < nproc) (out : Absent x qs) where
  -- Linking `x` in between two entries of queue `q` leaves the other queues alone.
  link_other :
      (m n r : ℕ)
      → Of qs q m
      → Of qs q n
      → r < num_queues
      → q ≢ r
      → Chain (link t m x n pass) (get_head r) (qs r) (get_tail r)
  link_other m n r om on hr ne =
      Chain-frame t (link t m x n pass) (get_head r) (qs r) (get_tail r)
        (λ i h. ground (arith, Of-ne v q r m i hq hr ne om, ne_of_has i x (qs r), out r hr))
        (λ i h. ground (arith, Of-ne v q r n i hq hr ne on, ne_of_has i x (qs r), out r hr))
        (v.chains r hr)

  -- The view once `x` is linked in, given the list of its queue.
  link-IsView :
      (m n : ℕ) (xs : List ℕ)
      → Of qs q m
      → Of qs q n
      → Chain (link t m x n pass) (get_head q) xs (get_tail q)
      → ((i : ℕ) → has i xs ≡ (i == x || has i (qs q)))
      → Distinct xs
      → IsView (link t m x n pass) (with_queue qs q xs)
  link-IsView m n xs om on c same d = record {
    chains = λ r hr. elim (ℕ_discrete q r) [
      | yes e ↦
          subst (λ k. Chain (link t m x n pass) (get_head k) (with_queue qs q xs k) (get_tail k)) e
            (rw (with_queue_self qs q xs) c)
      | no ne ↦ rw (with_queue_ne qs q r xs ne) (link_other m n r om on hr ne)
    ];
    small = λ r i hr h. ground (arith, v.small r i hr, same i);
    distinct = λ r hr. elim (ℕ_discrete q r) [
      | yes e ↦ subst (λ k. Distinct (with_queue qs q xs k)) e (rw (with_queue_self qs q xs) d)
      | no ne ↦ rw (with_queue_ne qs q r xs ne) (v.distinct r hr)
    ];
    apart = λ r s i hr hs h k. ground (arith, v.apart r s i hr hs, same i, out r hr, out s hs);
  }

  first_bounds :
      ((t (get_head q)).next < nproc + 2 * num_queues)
      × ((t (get_head q)).next ≢ get_head q)
      × (x ≢ (t (get_head q)).next)
  first_bounds = ground (
    arith,
    next-cases t (get_head q) (qs q) (get_tail q) (v.chains q hq),
    v.small q (t (get_head q)).next hq,
    out q hq,
    ne_of_has (t (get_head q)).next x (qs q),
  )

  last_bounds :
      ((t (get_tail q)).prev < nproc + 2 * num_queues)
      × ((t (get_tail q)).prev ≢ get_tail q)
      × (x ≢ (t (get_tail q)).prev)
  last_bounds = ground (
    arith,
    prev-cases t (get_head q) (qs q) (get_tail q) (v.chains q hq),
    v.small q (t (get_tail q)).prev hq,
    out q hq,
    ne_of_has (t (get_tail q)).prev x (qs q),
  )

  -- On a table of well-formed queues, `enqueue` of a process of the process table that is in no
  -- queue, to one of the three queues, never leaves the table: it puts the process at the front
  -- of that queue, with every other queue as it was.
  pub enqueue_refines :
      (t' : QTable) × (enqueue t q x pass ≡ ok t') × IsView t' (with_queue qs q (x ∷ qs q))
  enqueue_refines = (
    link t (get_head q) x (t (get_head q)).next pass,
    enqueue-link t q x pass (omega arith) (omega arith) first_bounds.0 (omega arith) first_bounds.1
        first_bounds.2,
    link-IsView (get_head q) (t (get_head q)).next (x ∷ qs q) (inl refl)
        (ground (arith, next-cases t (get_head q) (qs q) (get_tail q) (v.chains q hq)))
        (Chain-link_front t (get_head q) x (qs q) (get_tail q) pass (v.chains q hq) (out q hq)
          (omega arith) (omega arith) (omega arith) (not-has_end v q (get_head q) hq (omega arith))
          (not-has_end v q (get_tail q) hq (omega arith)) (v.distinct q hq))
        (λ i. refl) (out q hq, v.distinct q hq),
  )

  -- On a table of well-formed queues, `enqueue_back` of a process of the process table that is
  -- in no queue, to one of the three queues, never leaves the table: it puts the process at the
  -- back of that queue, with every other queue as it was.
  pub enqueue_back_refines :
      (t' : QTable) × (enqueue_back t q x pass ≡ ok t')
      × IsView t' (with_queue qs q (qs q ++ (x ∷ [])))
  enqueue_back_refines = (
    link t (t (get_tail q)).prev x (get_tail q) pass,
    enqueue_back-link t q x pass (omega arith) (omega arith) last_bounds.0
        (next-prev_end t (get_head q) (qs q) (get_tail q) (v.chains q hq)) (omega arith)
        (λ e. last_bounds.1 (sym e)) last_bounds.2,
    link-IsView (t (get_tail q)).prev (get_tail q) (qs q ++ (x ∷ []))
        (ground (arith, prev-cases t (get_head q) (qs q) (get_tail q) (v.chains q hq)))
        (inr (inl refl))
        (Chain-link_back t (get_head q) x (qs q) (get_tail q) pass (v.chains q hq) (out q hq)
          (omega arith) (omega arith) (omega arith) (not-has_end v q (get_head q) hq (omega arith))
          (not-has_end v q (get_tail q) hq (omega arith)) (v.distinct q hq))
        (λ i. ground (arith, has-snoc i x (qs q)))
        (Distinct-snoc x (qs q) (out q hq) (v.distinct q hq)),
  )
