-- ===== src/Fs/Inode.antt =====
-- projects/project_1c/kernel/fs.c, inodes and their content. An operation on an inode that the caller has
-- locked takes the in-memory copy and returns it. A `short` or `uint` on the disk is 2 or 4 bytes, the
-- lowest first.
pub mod Words
pub mod Blocks
pub mod Change
pub mod Update
pub mod Saved
pub mod Keeps
pub mod Bmap
pub mod Mapped
use operating_systems_class.Prelude.{
  ℕ, zero, suc, ◌+◌, ◌-◌, ◌*◌, ◌/◌, ◌%◌, ◌^◌, Bool, true, false, ◌||◌, Option, none, some, List, [],
  ◌∷◌, ltb, leb, ◌==◌, if◌then◌else◌,
}
use operating_systems_class.Run.{Run, ok, fault, no_fuel, ◌>>=◌}
use operating_systems_class.Fs.{bsize, Super, Fs, change_block, log_block, balloc, bfree}

abbrev pub ndirect : ℕ
ndirect = 12

abbrev pub nindirect : ℕ
nindirect = 256

abbrev pub maxfile : ℕ
maxfile = ndirect + nindirect

-- IPB
abbrev pub ipb : ℕ
ipb = 16

-- IBLOCK
abbrev pub iblock : ℕ → Super → ℕ
iblock i sb = i / ipb + sb.inodestart

-- The fields of `struct inode` that its lock protects, with its number.
pub record Inode : Type 0 where
  pub inum : ℕ
  pub valid : Bool
  pub type : ℕ
  pub major : ℕ
  pub minor : ℕ
  pub nlink : ℕ
  pub size : ℕ
  pub addrs : ℕ → ℕ

abbrev pub get_16 : (ℕ → ℕ) → ℕ → ℕ
get_16 d o = d o + d (o + 1) * 2 ^ 8

abbrev pub get_32 : (ℕ → ℕ) → ℕ → ℕ
get_32 d o = d o + d (o + 1) * 2 ^ 8 + d (o + 2) * 2 ^ 16 + d (o + 3) * 2 ^ 24

abbrev pub put_16 : (ℕ → ℕ) → (o v : ℕ) → ℕ → ℕ
put_16 d o v j = if j == o then v % 2 ^ 8 else if j == o + 1 then v / 2 ^ 8 % 2 ^ 8 else d j

abbrev pub put_32 : (ℕ → ℕ) → (o v : ℕ) → ℕ → ℕ
put_32 d o v j =
    if j == o
    then v % 2 ^ 8
    else if j == o + 1
    then v / 2 ^ 8 % 2 ^ 8
    else if j == o + 2
    then v / 2 ^ 16 % 2 ^ 8
    else if j == o + 3
    then v / 2 ^ 24 % 2 ^ 8
    else d j

abbrev pub put_addr : (ℕ → ℕ) → (i a : ℕ) → ℕ → ℕ
put_addr f i a j = if j == i then a else f j

-- `memmove(dip->addrs, ip->addrs, ..)`, from address `i` on.
pub put_addrs : ℕ → (d : ℕ → ℕ) → (o i : ℕ) → (addrs : ℕ → ℕ) → ℕ → ℕ
put_addrs zero d o i addrs = d
put_addrs (suc rounds) d o i addrs =
    put_addrs rounds (put_32 d (o + i * 4) (addrs i)) o (i + 1) addrs

-- The offset of `struct dinode` number `inum` in its block.
abbrev pub dinode_at : ℕ → ℕ
dinode_at inum = inum % ipb * 64

pub put_dinode : (ℕ → ℕ) → Inode → ℕ → ℕ
put_dinode d ip =
    let o = dinode_at ip.inum in
    let d = put_16 d o ip.type in
    let d = put_16 d (o + 2) ip.major in
    let d = put_16 d (o + 4) ip.minor in
    let d = put_16 d (o + 6) ip.nlink in
    let d = put_32 d (o + 8) ip.size in put_addrs (ndirect + 1) d (o + 12) 0 ip.addrs

pub iupdate : Super → Fs → Inode → Fs
iupdate sb fs ip = log_block fs (iblock ip.inum sb) (put_dinode (fs.disk (iblock ip.inum sb)) ip)

-- The part of `ilock` that fills an inode from the disk.
pub iread : Super → Fs → Inode → Run Inode
iread sb fs ip =
    let d = fs.disk (iblock ip.inum sb) in
    let o = dinode_at ip.inum in
    if ip.valid
    then ok ip
    else if get_16 d o == 0
    then fault
    else ok (record {
      inum = ip.inum;
      valid = true;
      type = get_16 d o;
      major = get_16 d (o + 2);
      minor = get_16 d (o + 4);
      nlink = get_16 d (o + 6);
      size = get_32 d (o + 8);
      addrs = λ i. get_32 d (o + 12 + i * 4);
    })

-- `ip->addrs[k]`, allocated if it is 0; 0 for no space.
pub slot_addr : Super → Fs → Inode → ℕ → Fs × Inode × ℕ
slot_addr sb fs ip k =
    let (fs', a) = balloc sb fs in
    if ip.addrs k == 0
    then (if a == 0 then (fs', ip, 0) else (fs', record ip { addrs = put_addr ip.addrs k a }, a))
    else (fs, ip, ip.addrs k)

-- `a[bn]` in the indirect block `addr`, allocated if it is 0.
pub entry_addr : Super → Fs → (addr bn : ℕ) → Fs × ℕ
entry_addr sb fs addr bn =
    let (fs', a) = balloc sb fs in
    let old = get_32 (fs.disk addr) (bn * 4) in
    if old == 0
    then (if a == 0 then (fs', 0) else (log_block fs' addr (put_32 (fs'.disk addr) (bn * 4) a), a))
    else (fs, old)

pub bmap : Super → Fs → Inode → ℕ → Run (Fs × Inode × ℕ)
bmap sb fs ip bn =
    if ltb bn ndirect
    then ok (slot_addr sb fs ip bn)
    else if ltb (bn - ndirect) nindirect
    then (let (fs, ip, addr) = slot_addr sb fs ip ndirect in
        let (fs', a) = entry_addr sb fs addr (bn - ndirect) in
        ok (if addr == 0 then (fs, ip, 0) else (fs', ip, a)))
    else fault
