-- ===== src/Log/Leaves.antt =====
-- What a commit does to the counts of the log, if the machine does not stop in it.
use operating_systems_class.Prelude.{
  ℕ, zero, suc, ◌+◌, ◌-◌, ◌≡◌, inl, inr, Bool, Bool-cases, true, false, Option, none, some, ltb,
  if◌then◌else◌, arith, refl, ◌∙◌,
}
use operating_systems_class.Log.{
  LogState, Crash, done, crashed, ◌>>=◌, Disk, put, bwrite_left, bwrite, install_from,
  install_trans, write_blocks, write_head, write_log_from, write_log, commit, end_op_commit,
}

-- A run that gets to its end ends in a state with `P`.
pub data Leaves (P : LogState → Type 0) : Crash LogState → Type 0 where
  leaves : {s : LogState} → P s → Leaves P (done s)
  stops : {d : Disk} → Leaves P (crashed d)

Leaves-bind :
    {P Q : LogState → Type 0} (r : Crash LogState) (f : LogState → Crash LogState)
    → Leaves P r
    → ((s : LogState) → P s → Leaves Q (f s))
    → Leaves Q (r >>= f)
Leaves-bind _ f (leaves {s} p) next = next s p
Leaves-bind _ f stops next = stops

Leaves-map :
    {P Q : LogState → Type 0} (r : Crash LogState)
    → ((s : LogState) → P s → Q s)
    → Leaves P r
    → Leaves Q r
Leaves-map _ f (leaves {s} p) = leaves (f s p)
Leaves-map _ f stops = stops

abbrev pub Kept : LogState → LogState → Type 0
Kept s s' =
    (s'.n ≡ s.n)
    × (s'.outstanding ≡ s.outstanding)
    × (s'.size ≡ s.size)
    × (s'.committing ≡ s.committing)

Kept-trans : (s t u : LogState) → Kept s t → Kept t u → Kept s u
Kept-trans s t u a b = (b.0 ∙ a.0, b.1 ∙ a.1, b.2 ∙ a.2, b.3 ∙ a.3)

bwrite_left-Kept : (s : LogState) (b : ℕ) (left : Option ℕ) → Leaves (Kept s) (bwrite_left s b left)
unfolding bwrite_left
bwrite_left-Kept s b none = leaves (refl, refl, refl, refl)
bwrite_left-Kept s b (some zero) = stops
bwrite_left-Kept s b (some (suc left)) = leaves (refl, refl, refl, refl)

bwrite-Kept : (s : LogState) (b : ℕ) → Leaves (Kept s) (bwrite s b)
unfolding bwrite
bwrite-Kept s b = bwrite_left-Kept s b s.left

Kept-then :
    (s t : LogState) → Kept s t → (r : Crash LogState) → Leaves (Kept t) r → Leaves (Kept s) r
Kept-then s t k r l = Leaves-map {P = Kept t} {Q = Kept s} r (λ u p. Kept-trans s t u k p) l

write_log_from-Kept :
    (rounds : ℕ) (s : LogState) (tail : ℕ) → Leaves (Kept s) (write_log_from rounds s tail)
unfolding write_log_from
write_log_from-Kept zero s tail = leaves (refl, refl, refl, refl)
write_log_from-Kept (suc rounds) s tail =
    let to = s.start + tail + 1 in
    let s1 : LogState = record s { cache = put s.cache to (s.cache (s.block tail)) } in
    Leaves-bind (bwrite s1 to) (λ s. write_log_from rounds s (tail + 1)) (bwrite-Kept s1 to)
      (λ t k.
        Kept-then s t k (write_log_from rounds t (tail + 1))
          (write_log_from-Kept rounds t (tail + 1)))

install_from-Kept :
    (rounds : ℕ) (recovering : Bool) (s : LogState) (tail : ℕ)
    → Leaves (Kept s) (install_from rounds recovering s tail)
unfolding install_from
install_from-Kept zero recovering s tail = leaves (refl, refl, refl, refl)
install_from-Kept (suc rounds) recovering s tail =
    let dst = s.block tail in
    let s1 : LogState = record s { cache = put s.cache dst (s.cache (s.start + tail + 1)) } in
    let unpin : LogState → LogState =
      λ t. if recovering then t else record t { pins = put t.pins dst (t.pins dst - 1) } in
    Leaves-bind (bwrite s1 dst) (λ t. install_from rounds recovering (unpin t) (tail + 1))
      (bwrite-Kept s1 dst)
      (λ t k.
        Kept-then s (unpin t) (Kept-trans s t (unpin t) k (unpinned recovering t dst))
          (install_from rounds recovering (unpin t) (tail + 1))
          (install_from-Kept rounds recovering (unpin t) (tail + 1)))
  where
    unpinned :
        (recovering : Bool) (t : LogState) (dst : ℕ)
        → Kept t (if recovering then t else record t { pins = put t.pins dst (t.pins dst - 1) })
    unpinned true t dst = (refl, refl, refl, refl)
    unpinned false t dst = (refl, refl, refl, refl)

write_head-Kept : (s : LogState) → Leaves (Kept s) (write_head s)
unfolding write_head
write_head-Kept s =
    bwrite-Kept
      (record s {
        cache = put s.cache s.start (write_blocks s.n 0 s.block (put (s.cache s.start) 0 s.n));
      })
      s.start

-- The log is empty and open, with the counts of calls as they were.
abbrev pub Committed : LogState → LogState → Type 0
Committed s s' =
    (s'.n ≡ 0) × (s'.outstanding ≡ s.outstanding) × (s'.size ≡ s.size) × (s'.committing ≡ false)

-- All but the count of the log.
abbrev Emptied : LogState → LogState → Type 0
Emptied s s' = (s'.n ≡ 0) × (s'.outstanding ≡ s.outstanding) × (s'.size ≡ s.size)

commit-Emptied : (s : LogState) → Leaves (Emptied s) (commit s)
unfolding commit write_log install_trans
commit-Emptied s = elim (Bool-cases (ltb 0 s.n)) [
  | inr e ↦ rw e (leaves (ground (arith, e), refl, refl))
  | inl e ↦ rw e (
      Leaves-bind (write_log_from s.n s 0) after_log (write_log_from-Kept s.n s 0) (λ t k.
        Leaves-bind (write_head t) after_head (write_head-Kept t) (λ u l.
          Leaves-bind (install_from u.n false u 0) after_install (install_from-Kept u.n false u 0)
            (λ v o. erased s v (Kept-trans s u v (Kept-trans s t u k l) o)))))
]
  where
    after_install : LogState → Crash LogState
    after_install v = write_head (record v { n = 0 })

    after_head : LogState → Crash LogState
    after_head u = install_from u.n false u 0 >>= (λ v. write_head (record v { n = 0 }))

    after_log : LogState → Crash LogState
    after_log t =
        write_head t
        >>= (λ u. install_from u.n false u 0 >>= (λ v. write_head (record v { n = 0 })))

    erased : (s v : LogState) → Kept s v → Leaves (Emptied s) (write_head (record v { n = 0 }))
    erased s v k =
        Leaves-map {P = Kept (record v { n = 0 })} {Q = Emptied s} (write_head (record v { n = 0 }))
          (λ w o. (o.0, o.1 ∙ k.1, o.2 ∙ k.2)) (write_head-Kept (record v { n = 0 }))

pub end_op_commit-Committed : (s : LogState) → Leaves (Committed s) (end_op_commit s)
unfolding end_op_commit
end_op_commit-Committed s =
    Leaves-bind (commit s) (λ t. done (record t { committing = false })) (commit-Emptied s)
      (λ t k. leaves (k.0, k.1, k.2, refl))
