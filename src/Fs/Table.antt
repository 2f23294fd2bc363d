-- ===== src/Fs/Table.antt =====
-- projects/project_1c/kernel/fs.c, the table of inodes in memory: `iget`, `idup`, `ilock`, `iput` and `ialloc`. An
-- entry is its index, and an operation that the lock of the table covers is one step. A count of
-- references that would go below 0 is `fault`.
pub mod Unique
pub mod References
use operating_systems_class.Prelude.{
  ℕ, zero, suc, ◌+◌, ◌-◌, ◌*◌, ◌%◌, Bool, true, false, not, ◌||◌, ◌&&◌, Option, none, some, ltb,
  leb, ◌==◌, if◌then◌else◌,
}
use operating_systems_class.Run.{Run, ok, fault, ◌>>=◌}
use operating_systems_class.Fs.{Super, Fs, log_block}
use operating_systems_class.Fs.Inode.{Inode, get_16, put_16, iblock, dinode_at, iupdate, iread}
use operating_systems_class.Fs.Io.{itrunc}

-- NINODE
abbrev pub ninode : ℕ
ninode = 50

-- The fields of `struct inode` that the lock of the table protects, and the rest of it.
pub record Entry : Type 0 where
  pub dev : ℕ
  pub ref : ℕ
  pub inode : Inode

abbrev pub Table : Type 0
Table = ℕ → Entry

abbrev pub put_entry : Table → ℕ → Entry → Table
put_entry t i e j = if j == i then e else t j

abbrev pub is_entry : ℕ → ℕ → Entry → Bool
is_entry dev inum e = ltb 0 e.ref && e.dev == dev && e.inode.inum == inum

abbrev pub is_none : Option ℕ → Bool
is_none none = true
is_none (some _) = false

-- "Recycle an inode entry."
pub recycle_entry : (dev inum : ℕ) → Table → Option ℕ → Run (Table × ℕ)
recycle_entry dev inum t none = fault
recycle_entry dev inum t (some i) =
    let e = t i in
    ok (
      put_entry t i
          (record { dev = dev; ref = 1; inode = record e.inode { inum = inum; valid = false } }),
      i,
    )

-- The loop of `iget` from entry `i` on.
pub iget_from : ℕ → (dev inum : ℕ) → Table → (i : ℕ) → (empty : Option ℕ) → Run (Table × ℕ)
iget_from zero dev inum t i empty = recycle_entry dev inum t empty
iget_from (suc rounds) dev inum t i empty =
    let rest =
      iget_from rounds dev inum t (i + 1)
        (if ((t i).ref == 0) && is_none empty then some i else empty) in
    if is_entry dev inum (t i)
    then ok (put_entry t i (record (t i) { ref = (t i).ref + 1 }), i)
    else rest

pub iget : (dev inum : ℕ) → Table → Run (Table × ℕ)
iget dev inum t = iget_from ninode dev inum t 0 none

pub idup : Table → ℕ → Table
idup t i = put_entry t i (record (t i) { ref = (t i).ref + 1 })

-- `ilock` once the sleep lock is taken.
pub ilock : Super → Fs → Table → ℕ → Run Table
ilock sb fs t i =
    let e = t i in
    if ltb e.ref 1
    then fault
    else (do ip ← iread sb fs e.inode; ok (put_entry t i (record e { inode = ip })))

-- The inode on the disk is freed with the last reference, if no directory names it.
pub iput : Super → Fs → Table → ℕ → Run (Fs × Table)
iput sb fs t i =
    let e = t i in
    if e.ref == 0
    then fault
    else if (e.ref == 1) && e.inode.valid && (e.inode.nlink == 0)
    then (do
      (fs, ip) ← itrunc sb fs e.inode
      let ip = record ip { type = 0 }
      let fs = iupdate sb fs ip
      ok (fs, put_entry t i (record e { ref = e.ref - 1; inode = record ip { valid = false } })))
    else ok (fs, put_entry t i (record e { ref = e.ref - 1 }))

-- `memset(dip, 0, sizeof(*dip))` with the type put in.
abbrev new_dinode : (ℕ → ℕ) → (o type : ℕ) → ℕ → ℕ
new_dinode d o type = put_16 (λ j. if leb o j && ltb j (o + 64) then 0 else d j) o type

-- The loop of `ialloc` from number `inum` on.
pub ialloc_from : ℕ → Super → Fs → Table → (dev type inum : ℕ) → Run (Fs × Table × ℕ)
ialloc_from zero sb fs t dev type inum = fault
ialloc_from (suc rounds) sb fs t dev type inum =
    let rest = ialloc_from rounds sb fs t dev type (inum + 1) in
    let d = fs.disk (iblock inum sb) in
    if ltb inum sb.ninodes
    then (if get_16 d (dinode_at inum) == 0
        then (do
          (t, i) ← iget dev inum t
          ok (log_block fs (iblock inum sb) (new_dinode d (dinode_at inum) type), t, i))
        else rest)
    else fault

pub ialloc : Super → Fs → Table → (dev type : ℕ) → Run (Fs × Table × ℕ)
ialloc sb fs t dev type = ialloc_from sb.ninodes sb fs t dev type 1
