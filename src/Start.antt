-- ===== src/Start.antt =====
-- `userinit` and `growproc` of projects/project_1c/kernel/proc.c. What the page allocator and the page
-- tables return is an argument.
use operating_systems_class.Prelude.{
  ℕ, ◌+◌, ◌-◌, ◌%◌, ◌^◌, Bool, true, false, Option, none, some, ltb, ◌==◌, if◌then◌else◌,
}
use operating_systems_class.Prelude.Int.{ℤ, pos_part, neg_part}
use operating_systems_class.Run.{Run, fault}
use operating_systems_class.Proc.{Kernel, put_proc, make_runnable}
use operating_systems_class.Life.{allocproc}

first_process : Kernel → Option ℕ → Run Kernel
first_process k none = fault
first_process k (some x) = do
  let k = record k { initproc = x }
  make_runnable (put_proc k x (record (k.procs x) { sz = 4096 })) x

-- `userinit`; with no free slot or no memory it follows a null pointer.
pub userinit : Kernel → (page table : ℕ) → Run Kernel
unfolding first_process
userinit k page table = let (k', x) = allocproc k page table in first_process k' x

-- The process grows to the size `sz`, unless that is 0.
pub grown : Kernel → ℕ → ℕ → Kernel × Bool
grown k x sz = if sz == 0 then (k, false) else (put_proc k x (record (k.procs x) { sz = sz }), true)

-- `growproc(n)` of process `x`; `sz` is a 32-bit variable.
pub growproc : (uvmalloc uvmdealloc : ℕ → ℕ → ℕ) → Kernel → ℕ → ℤ → Kernel × Bool
growproc uvmalloc uvmdealloc k x n =
    let sz = (k.procs x).sz % 2 ^ 32 in
    let new = (sz + pos_part n + 2 ^ 32 - neg_part n) % 2 ^ 32 in
    if ltb 0 (pos_part n)
    then grown k x (uvmalloc sz new % 2 ^ 32)
    else (let sz' = if ltb 0 (neg_part n) then uvmdealloc sz new % 2 ^ 32 else sz in
        (put_proc k x (record (k.procs x) { sz = sz' }), true))
