-- ===== src/Log.antt =====
-- projects/project_1c/kernel/log.c: the redo log of the file system. A block is its words, and
-- `cache b` is what `bread` of block `b` shows: the contents of a buffer that is pinned or in use, and
-- those on the disk otherwise. `left` is how many disk writes there are before the machine stops;
-- `none` is a machine that does not stop. A stop leaves only the disk.
pub mod Safe
pub mod Phase
pub mod Commit
pub mod Recover
pub mod Write
pub mod Leaves
pub mod Reserve
pub mod Room
pub mod Full
mod Tests
use operating_systems_class.Prelude.{
  ℕ, zero, suc, ◌+◌, ◌-◌, ◌*◌, Bool, true, false, ◌||◌, Option, none, some, ltb, leb, ◌==◌,
  if◌then◌else◌,
}

abbrev pub maxopblocks : ℕ
maxopblocks = 10

-- LOGSIZE
abbrev pub logsize : ℕ
logsize = maxopblocks * 3

abbrev pub Block : Type 0
Block = ℕ → ℕ

abbrev pub Disk : Type 0
Disk = ℕ → Block

abbrev pub put {ℓ} : {A : Type ℓ} → (ℕ → A) → ℕ → A → ℕ → A
put f i v j = if j == i then v else f j

-- `struct log` with its `struct logheader`, the buffers, the disk and the number of writes left.
pub record LogState : Type 0 where
  pub start : ℕ
  pub size : ℕ
  pub outstanding : ℕ
  pub committing : Bool
  pub n : ℕ
  pub block : ℕ → ℕ
  pub pins : ℕ → ℕ
  pub cache : Disk
  pub disk : Disk
  pub left : Option ℕ

pub data Crash {ℓ} (A : Type ℓ) : Type ℓ where
  done : A → Crash A
  crashed : Disk → Crash A

infixl 5 ◌>>=◌
abbrev pub ◌>>=◌ {ℓ κ} : {A : Type ℓ} {B : Type κ} → Crash A → (A → Crash B) → Crash B
done a >>= f = f a
crashed d >>= f = crashed d

-- What a disk write finds left.
bwrite_left : LogState → ℕ → Option ℕ → Crash LogState
bwrite_left s b none = done (record s { disk = put s.disk b (s.cache b); left = none })
bwrite_left s b (some zero) = crashed s.disk
bwrite_left s b (some (suc left)) =
    done (record s { disk = put s.disk b (s.cache b); left = some left })

-- `bwrite`
pub bwrite : LogState → ℕ → Crash LogState
unfolding bwrite_left
bwrite s b = bwrite_left s b s.left

-- The loop of `install_trans` from index `tail` on; the loop runs while `tail < log.lh.n`.
pub install_from : ℕ → Bool → LogState → ℕ → Crash LogState
install_from zero recovering s tail = done s
install_from (suc rounds) recovering s tail = do
  let dst = s.block tail
  let s = record s { cache = put s.cache dst (s.cache (s.start + tail + 1)) }
  s ← bwrite s dst
  let s = if recovering then s else record s { pins = put s.pins dst (s.pins dst - 1) }
  install_from rounds recovering s (tail + 1)

pub install_trans : Bool → LogState → Crash LogState
install_trans recovering s = install_from s.n recovering s 0

-- The loop of `read_head`.
read_blocks : ℕ → ℕ → Block → (ℕ → ℕ) → ℕ → ℕ
read_blocks zero i head block = block
read_blocks (suc rounds) i head block = read_blocks rounds (i + 1) head (put block i (head (i + 1)))

-- Word 0 of the header block is `n`, and word `i + 1` is `block[i]`.
pub read_head : LogState → LogState
unfolding read_blocks
read_head s =
    let head = s.cache s.start in
    record s { n = head 0; block = read_blocks (head 0) 0 head s.block }

-- The loop of `write_head`.
pub write_blocks : ℕ → ℕ → (ℕ → ℕ) → Block → Block
write_blocks zero i block head = head
write_blocks (suc rounds) i block head =
    write_blocks rounds (i + 1) block (put head (i + 1) (block i))

pub write_head : LogState → Crash LogState
unfolding write_blocks
write_head s =
    let head = write_blocks s.n 0 s.block (put (s.cache s.start) 0 s.n) in
    bwrite (record s { cache = put s.cache s.start head }) s.start

pub recover_from_log : LogState → Crash LogState
recover_from_log s = do s ← install_trans true (read_head s); write_head (record s { n = 0 })

-- `initlog`, on the disk that a machine finds when it starts, where no buffer holds anything else.
pub initlog : Disk → (start size : ℕ) → Option ℕ → Crash LogState
initlog d start size left = recover_from_log (record {
  start = start;
  size = size;
  outstanding = 0;
  committing = false;
  n = 0;
  block = λ i. 0;
  pins = λ b. 0;
  cache = d;
  disk = d;
  left = left;
})

-- The loop of `write_log` from index `tail` on.
pub write_log_from : ℕ → LogState → ℕ → Crash LogState
write_log_from zero s tail = done s
write_log_from (suc rounds) s tail = do
  let to = s.start + tail + 1
  s ← bwrite (record s { cache = put s.cache to (s.cache (s.block tail)) }) to
  write_log_from rounds s (tail + 1)

pub write_log : LogState → Crash LogState
write_log s = write_log_from s.n s 0

pub commit : LogState → Crash LogState
commit s =
    if ltb 0 s.n
    then (do
      s ← write_log s
      s ← write_head s
      s ← install_trans false s
      write_head (record s { n = 0 }))
    else done s

-- One pass of the loop of `begin_op`; `none` is a `sleep`, after which it is tried again.
pub begin_op : LogState → Option LogState
begin_op s =
    if s.committing
    then none
    else if ltb logsize (s.n + (s.outstanding + 1) * maxopblocks)
    then none
    else some (record s { outstanding = s.outstanding + 1 })

-- The first part of `end_op`, with whether to commit; `none` is the panic. It is called by a system
-- call that `begin_op` has counted, so that `outstanding` is not 0 and the decrement does not wrap.
pub end_op_start : LogState → Option (LogState × Bool)
end_op_start s =
    let s' = record s { outstanding = s.outstanding - 1 } in
    if s.committing
    then none
    else if s.outstanding == 1
    then some (record s' { committing = true }, true)
    else some (s', false)

-- The second part, if there is something to commit.
pub end_op_commit : LogState → Crash LogState
end_op_commit s = do s ← commit s; done (record s { committing = false })

-- The loop of `log_write`: the index of the block in the log, or the number of blocks.
pub find_block : ℕ → ℕ → (ℕ → ℕ) → ℕ → ℕ
find_block zero i block b = i
find_block (suc rounds) i block b =
    let rest = find_block rounds (i + 1) block b in if block i == b then i else rest

-- `log_write` of a buffer whose new contents are in the cache; `none` is a panic.
pub log_write : LogState → ℕ → Option LogState
unfolding find_block
log_write s b =
    if leb logsize s.n || leb (s.size - 1) s.n
    then none
    else if ltb s.outstanding 1
    then none
    else (let i = find_block s.n 0 s.block b in
        let s' = record s { block = put s.block i b } in
        some
          (if i == s.n then record s' { pins = put s.pins b (s.pins b + 1); n = s.n + 1 } else s'))
