-- ===== src/Kalloc/Tests.antt =====
-- The theorems on the allocator with two free pages.
use operating_systems_class.Prelude.{
  ℕ, ◌-◌, ◌/◌, ◌≡◌, ◌⊎◌, ◌<◌, List, [], ◌∷◌, some, arith, refl, ◌==◌, if◌then◌else◌,
}
use operating_systems_class.Kalloc.{Kmem, pgsize, phystop, kalloc, kinit, pg_round_up}
use operating_systems_class.Kalloc.Free.{IsFree, pages, kalloc_refines, kinit-IsFree}

-- The page at 0x80009000 is in front of the one at 0x80008000.
abbrev two_pages : Kmem
two_pages = record { words = λ a. if a == 0x80009000 then 0x80008000 else 0; freelist = 0x80009000 }

abbrev both : List ℕ
both = 0x80009000 ∷ 0x80008000 ∷ []

two_pages-IsFree : IsFree two_pages.words two_pages.freelist (0x80009000 ∷ 0x80008000 ∷ [])
two_pages-IsFree = (refl, omega arith, refl, refl, (refl, omega arith, refl, refl, refl))

kalloc_refines_example :
    ((both ≡ []) × (kalloc two_pages ≡ (two_pages, 0)))
    ⊎ ((p : ℕ) × (qs : List ℕ) × (k' : Kmem) × (both ≡ p ∷ qs)
        × (kalloc two_pages ≡ (k', p))
        × 0 < p
        × IsFree k'.words k'.freelist qs)
kalloc_refines_example = kalloc_refines two_pages both two_pages-IsFree

kinit-IsFree_example :
    (k' : Kmem) × (kinit 0x87ffd100 (record { words = λ a. 0; freelist = 0 }) ≡ some k')
    × IsFree k'.words k'.freelist
        (pages ((phystop - pg_round_up 0x87ffd100) / pgsize) (pg_round_up 0x87ffd100) [])
kinit-IsFree_example =
    kinit-IsFree 0x87ffd100 (record { words = λ a. 0; freelist = 0 }) refl (omega arith)
      (omega arith)
