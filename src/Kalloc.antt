-- ===== src/Kalloc.antt =====
-- projects/project_1c/kernel/kalloc.c: the allocator of physical pages. The memory is a function from
-- the addresses of its 64-bit words; `end` is the address that the linker script gives. `none` is the
-- panic of `kfree`.
pub mod Free
mod Tests
use operating_systems_class.Prelude.{
  ℕ, zero, suc, ◌+◌, ◌-◌, ◌*◌, ◌%◌, ◌/◌, Bool, true, false, not, ◌||◌, ◌&&◌, Option, none, some,
  ltb, leb, ◌==◌, if◌then◌else◌,
}

abbrev pub pgsize : ℕ
pgsize = 4096

-- PHYSTOP, which is KERNBASE and 128 megabytes
abbrev pub phystop : ℕ
phystop = 0x80000000 + 128 * 1024 * 1024

-- `kmem.freelist` is 0 for the null pointer; the word at the start of a free page is its `next`.
pub record Kmem : Type 0 where
  pub words : ℕ → ℕ
  pub freelist : ℕ

-- `memset(pa, v, PGSIZE)`, where `v` is the word of eight equal bytes.
abbrev pub fill : (ℕ → ℕ) → (pa v : ℕ) → ℕ → ℕ
fill words pa v a = if leb pa a && ltb a (pa + pgsize) then v else words a

pub kfree : (end : ℕ) → Kmem → ℕ → Option Kmem
kfree end k pa =
    if not (pa % pgsize == 0) || ltb pa end || leb phystop pa
    then none
    else (let words = fill k.words pa 0x0101010101010101 in
        some (record { words = λ a. if a == pa then k.freelist else words a; freelist = pa }))

-- The page, or 0, with what it leaves.
pub kalloc : Kmem → Kmem × ℕ
kalloc k =
    let r = k.freelist in
    let k' = if not (r == 0) then record k { freelist = k.words r } else k in
    if not (r == 0) then (record k' { words = fill k'.words r 0x0505050505050505 }, r) else (k', r)

-- PGROUNDUP
abbrev pub pg_round_up : ℕ → ℕ
pg_round_up sz = (sz + pgsize - 1) / pgsize * pgsize

and_then : Option Kmem → (Kmem → Option Kmem) → Option Kmem
and_then none f = none
and_then (some k) f = f k

-- The loop of `freerange` from the page `p` on.
pub freerange_from : ℕ → (end : ℕ) → Kmem → (p pa_end : ℕ) → Option Kmem
unfolding and_then
freerange_from zero end k p pa_end = some k
freerange_from (suc rounds) end k p pa_end =
    if leb (p + pgsize) pa_end
    then and_then (kfree end k p) (λ k'. freerange_from rounds end k' (p + pgsize) pa_end)
    else some k

-- A round for every page below `pa_end` is enough.
pub freerange : (end : ℕ) → Kmem → (pa_start pa_end : ℕ) → Option Kmem
freerange end k pa_start pa_end =
    freerange_from (pa_end / pgsize) end k (pg_round_up pa_start) pa_end

pub kinit : (end : ℕ) → Kmem → Option Kmem
kinit end k = freerange end k end phystop
