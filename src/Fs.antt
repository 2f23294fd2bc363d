-- ===== src/Fs.antt =====
-- projects/project_1c/kernel/fs.c, the blocks of the disk. The file system sees the disk through `bread`
-- and `log_write`: a block is its bytes, at offsets below BSIZE, as `bread` shows it, and `written` has the blocks
-- handed to `log_write`, the last one first. Whether the log has room for them is the business of
-- Log.antt. `fault` is a panic. The loop counters of `balloc`, an `int` each, are numbers without a bound, which
-- is the same up to 2 ^ 31 blocks.
pub mod Bitmap
pub mod Balloc
pub mod Inode
pub mod Io
pub mod Table
pub mod Path
mod Tests
use operating_systems_class.Prelude.{
  ℕ, zero, suc, ◌+◌, ◌-◌, ◌*◌, ◌/◌, ◌%◌, ◌^◌, Bool, true, false, Option, none, some, List, [], ◌∷◌,
  ltb, leb, ◌==◌, if◌then◌else◌,
}
use operating_systems_class.Run.{Run, ok, fault}

abbrev pub bsize : ℕ
bsize = 1024

-- BPB
abbrev pub bpb : ℕ
bpb = 8192

-- `struct superblock`
pub record Super : Type 0 where
  pub magic : ℕ
  pub size : ℕ
  pub nblocks : ℕ
  pub ninodes : ℕ
  pub nlog : ℕ
  pub logstart : ℕ
  pub inodestart : ℕ
  pub bmapstart : ℕ

pub record Fs : Type 0 where
  pub disk : ℕ → ℕ → ℕ
  pub written : List ℕ

-- BBLOCK
abbrev pub bblock : ℕ → Super → ℕ
bblock b sb = b / bpb + sb.bmapstart

-- The block `b` changed in the cache, and then handed to `log_write`.
abbrev pub change_block : Fs → ℕ → (ℕ → ℕ) → Fs
change_block fs b d = record fs { disk = λ c. if c == b then d else fs.disk c }

abbrev pub log_block : Fs → ℕ → (ℕ → ℕ) → Fs
log_block fs b d = record (change_block fs b d) { written = b ∷ fs.written }

-- `v & (1 << i)`, as 0 or 1.
unfoldable pub bit : ℕ → ℕ → ℕ
bit v zero = v % 2
bit v (suc i) = bit (v / 2) i

-- `v | (1 << i)` and `v & ~(1 << i)`
abbrev pub set_bit : ℕ → ℕ → ℕ
set_bit v i = if bit v i == 0 then v + 2 ^ i else v

abbrev pub clear_bit : ℕ → ℕ → ℕ
clear_bit v i = if bit v i == 0 then v else v - 2 ^ i

abbrev pub put_byte_at : (ℕ → ℕ) → (o v : ℕ) → ℕ → ℕ
put_byte_at d o v j = if j == o then v else d j

abbrev pub bzero : Fs → ℕ → Fs
bzero fs bno = log_block fs bno (λ o. 0)

-- The inner loop of `balloc` from bit `bi` on, over the bytes `d` of the block of the free map that has the
-- bits of block `b` on.
pub find_bit : ℕ → (d : ℕ → ℕ) → (size b bi : ℕ) → Option ℕ
find_bit zero d size b bi = none
find_bit (suc rounds) d size b bi =
    let rest = find_bit rounds d size b (bi + 1) in
    if leb size (b + bi) then none else if bit (d (bi / 8)) (bi % 8) == 0 then some bi else rest

-- Block `b` is marked and zeroed.
pub take_block : Super → Fs → ℕ → Fs
take_block sb fs b =
    let d = fs.disk (bblock b sb) in
    let o = b % bpb / 8 in
    bzero (log_block fs (bblock b sb) (put_byte_at d o (set_bit (d o) (b % 8)))) b

-- The outer loop of `balloc` from block `b` on. Each round is `bpb` blocks, so that `sb.size` rounds
-- are enough.
pub balloc_from : ℕ → Super → Fs → ℕ → Fs × ℕ
balloc_from zero sb fs b = (fs, 0)
balloc_from (suc rounds) sb fs b =
    let rest = balloc_from rounds sb fs (b + bpb) in
    let found = find_bit bpb (fs.disk (bblock b sb)) sb.size b 0 in
    if leb sb.size b
    then (fs, 0)
    else elim found [ none ↦ rest | some bi ↦ (take_block sb fs (b + bi), b + bi) ]

-- The block, or 0.
pub balloc : Super → Fs → Fs × ℕ
balloc sb fs = balloc_from sb.size sb fs 0

pub bfree : Super → Fs → ℕ → Run Fs
bfree sb fs b =
    let d = fs.disk (bblock b sb) in
    let o = b % bpb / 8 in
    if bit (d o) (b % 8) == 0
    then fault
    else ok (log_block fs (bblock b sb) (put_byte_at d o (clear_bit (d o) (b % 8))))
