-- ===== src/Lib.antt =====
-- The kernel of projects/project_1c: xv6 for RISC-V with a multilevel feedback queue
-- scheduler.
--
-- The parts and how they interact. queue.c keeps, in one array of 70 entries, a doubly linked
-- list of waiting processes for each of three levels. proc.c keeps the process table: `yield`
-- charges a tick to the process that runs and moves it down when its quantum is used up, and
-- boosts all runnable processes at every 60th tick; `scheduler` takes the next process from
-- the queues; fork, wakeup and kill put processes into them. trap.c wakes the sleepers on
-- `ticks` at each timer interrupt and calls `yield`, or `exit` if the process has been killed.
-- log.c makes the disk writes of a file system call atomic, and fs.c keeps files in the blocks
-- above it.
--
-- Files.
--   Queue.antt, Queue/: kernel/queue.c and the macros of kernel/queue.h. The array is a
--     function from indices, and an access outside of it is the value `fault` of Run.antt.
--     Queue/View says which lists a table stands for.
--   Proc.antt: kernel/proc.h, kernel/log.h and the globals of kernel/proc.c; a `struct proc *`
--     is an index.
--   Sched.antt, Sched/: `yield` (as yield_cpu), `scheduler` (as schedule, one turn of its
--     loop), `sys_nice`, `sys_startlog` and `sys_getlog` of kernel/proc.c. Sched/Inv is the
--     invariant that ties the process table to the queues.
--   Life.antt, Life/: `allocproc`, `freeproc`, `fork`, `exit`, `reparent`, `wait`, `sleep`,
--     `wakeup` and `kill` of kernel/proc.c. What `exit` does with the open files and the
--     working directory (`fileclose`, `begin_op`, `iput`, `end_op`) is its argument
--     close_files; Closes in Life/Zombie is what is asked of it.
--   Trap.antt, Trap/: the timer interrupt in kernel/trap.c: `clockintr`, `usertrap` (as
--     usertrap_tick) and `kerneltrap` (as kerneltrap_tick) where `devintr` returns 2.
--   Log.antt, Log/: kernel/log.c. A disk write may be the point where the machine stops, which
--     leaves only the disk. Log/Reserve has the system calls that share the log, in any order.
--   Fs.antt, Fs/: kernel/fs.c, by block. Fs.antt has the free map, Fs/Inode the inode on the
--     disk and `bmap`, Fs/Io `itrunc`, `readi` and `writei`, Fs/Table the table of inodes in
--     memory, and Fs/Path `skipelem`. The disk is what `bread` shows: the log below it is the
--     business of Log.antt.
--   String.antt, String/: kernel/string.c on a memory of bytes.
--   Kalloc.antt, Kalloc/: kernel/kalloc.c; a page is the words at its addresses.
--   Pipe.antt, Pipe/: kernel/pipe.c; calls are modelled from one sleep to the next.
--   Lock.antt: kernel/spinlock.c and kernel/sleeplock.c, one round of each waiting loop at a
--     time. Lock/Race cuts `acquire` and `release` of a spin lock into the accesses of its
--     fields, which the CPUs take in any order.
--   File.antt: the file table of kernel/file.c.
--   Bio.antt: the buffer cache of kernel/bio.c.
--   Start.antt: `userinit` and `growproc` of kernel/proc.c.
--   Ulib.antt: user/ulib.c.
--   Grep.antt, Grep/: the matcher of user/grep.c; Grep/Language says what a pattern selects.
--   Prelude.antt, Prelude/: the helpers that the parts share, with integers over the native
--     numbers.
--   Tests.antt in the folders of the parts: the theorems at concrete inputs.
--
-- Bounds and fuel. The loops of `readi` and `writei` have the number of bytes for their fuel,
-- and that of `balloc` the number of blocks; the theorems on them show that no run ends for
-- lack of it. A loop over the process table, the log or the queues has the number of its
-- rounds for its fuel, and stops by itself. The scan of `dequeue` may run below queue 0 in the
-- source; its 36 rounds are the three queues, the entries 62 down to 0, and the read outside
-- the table that ends it. The numbers `time`, `runtime` and `nextpid` are unbounded here and
-- `int` in the source; the sum in `sys_nice` wraps around at 32 bits. The loop counters of
-- `balloc` are unbounded here too, which matters on disks of more than 2^31 blocks.
--
-- One CPU is modelled, as the Makefile starts one (CPUS := 1), so other CPUs do not come in
-- and the locks are left out, except in Lock/. No interrupt comes in either while the code
-- between two context switches runs: this leaves out the time in which `scheduler` has
-- interrupts on, when `clockintr` may change the queues while `dequeue` reads them. Lock/Race
-- has the accesses to one lock, without `push_off` and `pop_off` and their panics, and no CPU
-- takes a lock that it holds. In Life.antt the results of the page allocator are arguments.
-- Not modelled: devices, page tables, directories and the walk along a path, the other user
-- programs, and the earlier kernel of projects/project_1b.
pub mod Prelude
pub mod Run
pub mod Queue
pub mod Proc
pub mod Sched
pub mod Life
pub mod Log
pub mod String
pub mod Kalloc
pub mod Pipe
pub mod Bio
pub mod File
pub mod Fs
pub mod Grep
pub mod Lock
pub mod Start
pub mod Trap
pub mod Ulib
