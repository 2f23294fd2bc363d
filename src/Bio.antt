-- ===== src/Bio.antt =====
-- The buffer cache of projects/project_1c/kernel/bio.c. A `struct buf *` is an index: the buffers are
-- 0 to NBUF - 1, and NBUF is the `head` of the list that runs through `prev` and `next`. `fault` is a
-- panic. The disk is a function from devices and block numbers to the words of a block.
use operating_systems_class.Prelude.{
  ℕ, zero, suc, ◌+◌, ◌-◌, ◌%◌, ◌^◌, ◌≡◌, ◌<◌, Bool, true, false, not, ◌&&◌, Option, none, some,
  ◌==◌, if◌then◌else◌, arith,
}
use operating_systems_class.Run.{Run, ok, fault, ◌>>=◌}
use operating_systems_class.Proc.{Kernel}
use operating_systems_class.Lock.{SleepLock, initsleeplock, releasesleep, holdingsleep}

abbrev pub nbuf : ℕ
nbuf = 30

-- `struct buf`
pub record Buf : Type 0 where
  pub valid : Bool
  pub dev : ℕ
  pub blockno : ℕ
  pub lock : SleepLock
  pub refcnt : ℕ
  pub prev : ℕ
  pub next : ℕ
  pub data_ : ℕ → ℕ

abbrev pub put_buf : (ℕ → Buf) → ℕ → Buf → ℕ → Buf
put_buf c b v j = if j == b then v else c j

abbrev pub put_buf_next : (ℕ → Buf) → (b next : ℕ) → ℕ → Buf
put_buf_next c b next = put_buf c b (record (c b) { next = next })

abbrev pub put_buf_prev : (ℕ → Buf) → (b prev : ℕ) → ℕ → Buf
put_buf_prev c b prev = put_buf c b (record (c b) { prev = prev })

-- Buffer `b` becomes the first of the list.
pub insert_first : (ℕ → Buf) → ℕ → ℕ → Buf
insert_first c b =
    let c = put_buf_next c b (c nbuf).next in
    let c = put_buf_prev c b nbuf in let c = put_buf_prev c (c nbuf).next b in put_buf_next c nbuf b

-- The loop of `binit` from buffer `b` on.
pub binit_from : ℕ → ℕ → (ℕ → Buf) → ℕ → Buf
binit_from zero b c = c
binit_from (suc rounds) b c =
    let c = insert_first c b in
    binit_from rounds (b + 1) (put_buf c b (record (c b) { lock = initsleeplock }))

pub binit : (ℕ → Buf) → ℕ → Buf
binit c = binit_from nbuf 0 (put_buf_next (put_buf_prev c nbuf nbuf) nbuf nbuf)

-- The first loop of `bget`, from the most recently used buffer on.
pub find_cached : ℕ → (ℕ → Buf) → (b dev blockno : ℕ) → Option ℕ
find_cached zero c b dev blockno = none
find_cached (suc rounds) c b dev blockno =
    let rest = find_cached rounds c (c b).next dev blockno in
    if b == nbuf
    then none
    else if (c b).dev == dev && (c b).blockno == blockno
    then some b
    else rest

-- The second loop, from the least recently used buffer on.
pub find_free : ℕ → (ℕ → Buf) → ℕ → Option ℕ
find_free zero c b = none
find_free (suc rounds) c b =
    let rest = find_free rounds c (c b).prev in
    if b == nbuf then none else if (c b).refcnt == 0 then some b else rest

recycle : (ℕ → Buf) → (dev blockno : ℕ) → Option ℕ → Run ((ℕ → Buf) × ℕ)
recycle c dev blockno none = fault
recycle c dev blockno (some b) =
    ok (put_buf c b (record (c b) { dev = dev; blockno = blockno; valid = false; refcnt = 1 }), b)

reuse : (ℕ → Buf) → (dev blockno : ℕ) → Option ℕ → Run ((ℕ → Buf) × ℕ)
unfolding recycle
reuse c dev blockno (some b) =
    ok (put_buf c b (record (c b) { refcnt = ((c b).refcnt + 1) % 2 ^ 32 }), b)
reuse c dev blockno none = recycle c dev blockno (find_free (nbuf + 1) c (c nbuf).prev)

-- Up to the `acquiresleep` of the buffer. The list has NBUF buffers and the head.
pub bget : (ℕ → Buf) → (dev blockno : ℕ) → Run ((ℕ → Buf) × ℕ)
unfolding reuse
bget c dev blockno = reuse c dev blockno (find_cached (nbuf + 1) c (c nbuf).next dev blockno)

-- The part of `bread` after the buffer `b` has been locked.
pub bread_locked : (disk : ℕ → ℕ → ℕ → ℕ) → (ℕ → Buf) → ℕ → ℕ → Buf
bread_locked disk c b =
    let p = c b in
    if not p.valid then put_buf c b (record p { data_ = disk p.dev p.blockno; valid = true }) else c

-- By the process number `pid`; the lock of the buffer lies at the address `a`.
pub brelse : (pid a : ℕ) → ℕ → (ℕ → Buf) → Kernel → Run ((ℕ → Buf) × Kernel)
brelse pid a b c k = if not (holdingsleep pid (c b).lock) then fault else (do
  (k, lk) ← releasesleep a (c b).lock k
  let c = put_buf c b (record (c b) { lock = lk; refcnt = ((c b).refcnt + 2 ^ 32 - 1) % 2 ^ 32 })
  let joined = put_buf_prev c (c b).next (c b).prev
  let joined = put_buf_next joined (joined b).prev (joined b).next
  let c = if (c b).refcnt == 0 then insert_first joined b else c
  ok (c, k))

pub bpin : ℕ → (ℕ → Buf) → ℕ → Buf
bpin b c = put_buf c b (record (c b) { refcnt = ((c b).refcnt + 1) % 2 ^ 32 })

pub bunpin : ℕ → (ℕ → Buf) → ℕ → Buf
bunpin b c = put_buf c b (record (c b) { refcnt = ((c b).refcnt + 2 ^ 32 - 1) % 2 ^ 32 })

-- `bunpin` takes back a `bpin`.
pub bunpin-bpin :
    (b : ℕ) (c : ℕ → Buf) (j : ℕ)
    → (c b).refcnt < 2 ^ 32
    → (bunpin b (bpin b c) j).refcnt ≡ (c j).refcnt
unfolding bunpin bpin
bunpin-bpin b c j h = ground arith
