-- ===== src/Queue/Remove.antt =====
-- `remove_pid` takes one process out of the queue that it is in.
use operating_systems_class.Prelude.{
  ℕ, ◌<◌, ◌≡◌, ◌≢◌, ◌⊎◌, inl, inr, true, false, List, [], ◌∷◌, arith, ◌==◌, subst, Bool-cases,
}
use native.Mathlib.Decide.{ℕ_discrete}
use operating_systems_class.Run.{ok}
use operating_systems_class.Queue.{QTable, num_queues, get_head, get_tail, remove_pid}
use operating_systems_class.Queue.Chain.{
  has, Distinct, Chain, unlink, erase, Chain-frame, Chain-unlink,
}
use operating_systems_class.Queue.Steps.{remove_pid-unlink}
use operating_systems_class.Queue.View.{
  Queues, with_queue, IsView, not-has_end, Of, Of-ne, with_queue_self, with_queue_ne,
}

-- The neighbours of a member of a chain are members or ends of it, and are not the member itself.
module _ (t : QTable) where
  neighbours :
      (x a : ℕ) (xs : List ℕ) (b : ℕ)
      → Chain t a xs b
      → has x xs ≡ true
      → has a xs ≡ false
      → has b xs ≡ false
      → Distinct xs
      → (((t x).prev ≡ a) ⊎ (has (t x).prev xs ≡ true))
        × (((t x).next ≡ b) ⊎ (has (t x).next xs ≡ true))
        × ((t x).prev ≢ x)
        × ((t x).next ≢ x)
  neighbours x a [] b c h fa fb d = absurd (ground arith)
  neighbours x a (y ∷ []) b c h fa fb d = ground arith
  neighbours x a (y ∷ z ∷ zs) b c h fa fb d = elim (Bool-cases (x == y)) [
    | inl e ↦ ground arith
    | inr e ↦ ground (arith, neighbours x y (z ∷ zs) b c.2 (ground arith) d.0 (ground arith) d.1)
  ]

pub has-erase : (i x : ℕ) (xs : List ℕ) → has i (erase x xs) ≡ true → has i xs ≡ true
has-erase i x [] h = h
has-erase i x (y ∷ ys) h = ground (arith, has-erase i x ys)

has-erase-false : (i x : ℕ) (xs : List ℕ) → has i xs ≡ false → has i (erase x xs) ≡ false
has-erase-false i x xs f = ground (arith, has-erase i x xs)

Distinct-erase : (x : ℕ) (xs : List ℕ) → Distinct xs → Distinct (erase x xs)
Distinct-erase x [] d = d
Distinct-erase x (y ∷ ys) d = elim (Bool-cases (y == x)) [
  | inl e ↦ rw e d.1
  | inr e ↦ rw e (has-erase-false y x ys d.0, Distinct-erase x ys d.1)
]

module _ {t : QTable} {qs : Queues} (v : IsView t qs) (q x : ℕ) (hq : q < num_queues)
    (mem : has x (qs q) ≡ true) where
  around :
      (((t x).prev ≡ get_head q) ⊎ (has (t x).prev (qs q) ≡ true))
      × (((t x).next ≡ get_tail q) ⊎ (has (t x).next (qs q) ≡ true))
      × ((t x).prev ≢ x)
      × ((t x).next ≢ x)
  around =
      neighbours t x (get_head q) (qs q) (get_tail q) (v.chains q hq) mem
        (not-has_end v q (get_head q) hq (omega arith))
        (not-has_end v q (get_tail q) hq (omega arith)) (v.distinct q hq)

  unlink_other :
      (r : ℕ)
      → r < num_queues
      → q ≢ r
      → Of qs q (t x).prev
      → Of qs q (t x).next
      → Chain (unlink t x) (get_head r) (qs r) (get_tail r)
  unlink_other r hr ne op on =
      Chain-frame t (unlink t x) (get_head r) (qs r) (get_tail r)
        (λ i h. ground (arith, Of-ne v q r x i hq hr ne, Of-ne v q r (t x).prev i hq hr ne op))
        (λ i h. ground (arith, Of-ne v q r x i hq hr ne, Of-ne v q r (t x).next i hq hr ne on))
        (v.chains r hr)

  unlink-IsView : IsView (unlink t x) (with_queue qs q (erase x (qs q)))
  unlink-IsView = record {
    chains = λ r hr. elim (ℕ_discrete q r) [
      | yes e ↦
          subst
            (λ k. Chain (unlink t x) (get_head k) (with_queue qs q (erase x (qs q)) k) (get_tail k))
            e
            (rw (with_queue_self qs q (erase x (qs q))) (
              Chain-unlink t (get_head q) x (qs q) (get_tail q) (v.chains q hq) mem
                (ground (arith, v.small q x hq mem)) (ground (arith, v.small q x hq mem))
                (omega arith) (not-has_end v q (get_head q) hq (omega arith))
                (not-has_end v q (get_tail q) hq (omega arith)) (v.distinct q hq)))
      | no ne ↦
          rw (with_queue_ne qs q r (erase x (qs q)) ne)
            (unlink_other r hr ne (ground (arith, around)) (ground (arith, around)))
    ];
    small = λ r i hr h. ground (arith, v.small r i hr, has-erase i x (qs q));
    distinct = λ r hr. elim (ℕ_discrete q r) [
      | yes e ↦
          subst (λ k. Distinct (with_queue qs q (erase x (qs q)) k)) e
            (rw (with_queue_self qs q (erase x (qs q))) (Distinct-erase x (qs q) (v.distinct q hq)))
      | no ne ↦ rw (with_queue_ne qs q r (erase x (qs q)) ne) (v.distinct r hr)
    ];
    apart = λ r s i hr hs h k. ground (arith, v.apart r s i hr hs, has-erase i x (qs q));
  }

  -- On a table of well-formed queues, `remove_pid` of a process in queue `q` never leaves the
  -- table: it takes the process out of its queue, with the order of the others and the other
  -- queues as they were.
  pub remove_pid_refines :
      (t' : QTable) × (remove_pid t x ≡ ok t') × IsView t' (with_queue qs q (erase x (qs q)))
  remove_pid_refines = (
    unlink t x,
    remove_pid-unlink t x (ground (arith, v.small q x hq mem))
        (ground (arith, around, v.small q (t x).prev hq))
        (ground (arith, around, v.small q (t x).next hq)) around.2 around.3,
    unlink-IsView,
  )
