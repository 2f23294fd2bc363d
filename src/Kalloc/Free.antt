-- ===== src/Kalloc/Free.antt =====
-- The pages of the free list.
use operating_systems_class.Prelude.{
  ℕ, zero, suc, ◌+◌, ◌-◌, ◌*◌, ◌%◌, ◌/◌, ◌≤◌, ◌<◌, ◌≡◌, ◌≢◌, ◌⊎◌, inl, inr, subst, List, [], ◌∷◌,
  true, false, not, ◌||◌, some, leb, ltb, ◌==◌, if◌then◌else◌, arith, refl, sym,
}
use operating_systems_class.Queue.Chain.{has}
use operating_systems_class.Kalloc.{
  Kmem, pgsize, phystop, fill, kfree, kalloc, freerange_from, freerange, kinit, pg_round_up,
  and_then,
}

-- The list that starts at `f` holds the pages `ps`, each once.
abbrev pub IsFree : (ℕ → ℕ) → ℕ → List ℕ → Type 0
IsFree words f [] = f ≡ 0
IsFree words f (p ∷ ps) =
    (f ≡ p) × 0 < p × (p % pgsize ≡ 0) × (has p ps ≡ false) × IsFree words (words p) ps

-- What is written in a page that is not in the list does not matter.
IsFree-frame :
    (w w' : ℕ → ℕ) (f pa : ℕ) (ps : List ℕ)
    → pa % pgsize ≡ 0
    → has pa ps ≡ false
    → ((a : ℕ) → a < pa ⊎ pa + pgsize ≤ a → w' a ≡ w a)
    → IsFree w f ps
    → IsFree w' f ps
IsFree-frame w w' f pa [] h n same l = l
IsFree-frame w w' f pa (p ∷ ps) h n same (e, pos, al, once, l) =
    let ne : p ≢ pa = ground (arith, n) in
    let apart : p < pa ⊎ pa + pgsize ≤ p = omega arith in
    (
      e,
      pos,
      al,
      once,
      IsFree-frame w w' (w' p) pa ps h (ground (arith, n)) same
          (subst (λ f'. IsFree w f' ps) (sym (same p apart)) l),
    )

-- `kalloc` on a well-formed free list: the page at the front is allocated, and the rest stays
-- free; if no page is free, the result is 0 and nothing changes.
pub kalloc_refines :
    (k : Kmem) (ps : List ℕ)
    → IsFree k.words k.freelist ps
    → ((ps ≡ []) × (kalloc k ≡ (k, 0)))
      ⊎ ((p : ℕ) × (qs : List ℕ) × (k' : Kmem) × (ps ≡ p ∷ qs)
          × (kalloc k ≡ (k', p))
          × 0 < p
          × IsFree k'.words k'.freelist qs)
unfolding kalloc
kalloc_refines k [] l =
    let test : not (k.freelist == 0) ≡ false = ground (arith, l) in
    inl (refl, rw test (λ i. (k, l i)))
kalloc_refines k (p ∷ ps) (e, pos, al, once, l) =
    let test : not (k.freelist == 0) ≡ true = ground (arith, e) in
    let filled = fill k.words k.freelist 0x0505050505050505 in
    inr (
      p,
      ps,
      record { words = filled; freelist = k.words k.freelist },
      refl,
      rw test (λ i. (record { words = filled; freelist = k.words k.freelist }, e i)),
      pos,
      subst (λ f. IsFree filled f ps) (λ i. k.words (sym e i))
          (IsFree-frame k.words filled (k.words p) p ps al once (λ a o. ground (arith, e)) l),
    )

-- `kfree` on a well-formed free list, of an aligned page between the end of the kernel and the
-- end of physical memory that is not free: it does not panic, and puts the page in front of the
-- free list.
pub kfree_refines :
    (end : ℕ) (k : Kmem) (pa : ℕ) (ps : List ℕ)
    → IsFree k.words k.freelist ps
    → 0 < end
    → pa % pgsize ≡ 0
    → end ≤ pa
    → pa < phystop
    → has pa ps ≡ false
    → (k' : Kmem) × (kfree end k pa ≡ some k') × IsFree k'.words k'.freelist (pa ∷ ps)
unfolding kfree
kfree_refines end k pa ps l pos al lo hi n =
    let valid : (not (pa % pgsize == 0) || ltb pa end || leb phystop pa) ≡ false = ground arith in
    let words = fill k.words pa 0x0101010101010101 in
    let words' : ℕ → ℕ = λ a. if a == pa then k.freelist else words a in
    let here : words' pa ≡ k.freelist = ground arith in
    (
      record { words = words'; freelist = pa },
      rw valid refl,
      (
        refl,
        omega arith,
        al,
        n,
        subst (λ f. IsFree words' f ps) (sym here)
            (IsFree-frame k.words words' k.freelist pa ps al n (λ a o. ground arith) l),
      ),
    )

-- The pages from `p` up to `n` pages, the last one first, in front of `ps`.
abbrev pub pages : ℕ → ℕ → List ℕ → List ℕ
pages zero p ps = ps
pages (suc n) p ps = pages n (p + pgsize) (p ∷ ps)

freerange_from-IsFree :
    (n rounds end : ℕ) (k : Kmem) (p pa_end : ℕ) (ps : List ℕ)
    → IsFree k.words k.freelist ps
    → n ≤ rounds
    → 0 < end
    → end ≤ p
    → p % pgsize ≡ 0
    → pa_end ≤ phystop
    → p + n * pgsize ≤ pa_end
    → pa_end < p + n * pgsize + pgsize
    → ((x : ℕ) → has x ps ≡ true → x < p)
    → (k' : Kmem) × (freerange_from rounds end k p pa_end ≡ some k')
      × IsFree k'.words k'.freelist (pages n p ps)
unfolding freerange_from and_then
freerange_from-IsFree zero zero end k p pa_end ps l r pos lo al hi a b below = (k, refl, l)
freerange_from-IsFree zero (suc rounds) end k p pa_end ps l r pos lo al hi a b below =
    let test : leb (p + pgsize) pa_end ≡ false = ground arith in (k, rw test refl, l)
freerange_from-IsFree (suc n) zero end k p pa_end ps l r pos lo al hi a b below =
    absurd (omega arith)
freerange_from-IsFree (suc n) (suc rounds) end k p pa_end ps l r pos lo al hi a b below =
    let test : leb (p + pgsize) pa_end ≡ true = ground arith in
    let out : has p ps ≡ false = ground (arith, below p) in
    let (k1, freed, l1) = kfree_refines end k p ps l pos al lo (omega arith) out in
    let (k2, rest, l2) =
      freerange_from-IsFree n rounds end k1 (p + pgsize) pa_end (p ∷ ps) l1 (omega arith) pos
        (omega arith) (omega arith) hi (omega arith) (omega arith)
        (λ x h. ground (arith, below x)) in
    (k2, rw (test, freed) rest, l2)

-- `kinit` with an empty free list, and the kernel's end above address 0 and, rounded up to a
-- page, in physical memory: it does not panic, and the free list holds each whole page from the
-- end of the kernel to the end of physical memory once, the last one first.
pub kinit-IsFree :
    (end : ℕ) (k : Kmem)
    → k.freelist ≡ 0
    → 0 < end
    → pg_round_up end ≤ phystop
    → (k' : Kmem) × (kinit end k ≡ some k')
      × IsFree k'.words k'.freelist
          (pages ((phystop - pg_round_up end) / pgsize) (pg_round_up end) [])
unfolding kinit freerange
kinit-IsFree end k e pos h =
    freerange_from-IsFree ((phystop - pg_round_up end) / pgsize) (phystop / pgsize) end k
      (pg_round_up end) phystop [] e (omega arith) pos (omega arith) (omega arith) (omega arith)
      (omega arith) (omega arith) (λ x q. absurd (ground arith))
