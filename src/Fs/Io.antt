-- ===== src/Fs/Io.antt =====
-- projects/project_1c/kernel/fs.c, the content of inodes: `itrunc`, `readi` and `writei`. The other side of a
-- copy is a function of the bytes already transferred. `none` is the result -1.
pub mod Store
pub mod Write
pub mod Written
pub mod ReadLoop
pub mod Read
pub mod Roundtrip
pub mod Free
pub mod Trunc
pub mod Truncated
use operating_systems_class.Prelude.{
  ℕ, zero, suc, ◌+◌, ◌-◌, ◌*◌, ◌/◌, ◌%◌, ◌^◌, Bool, true, false, ◌||◌, ◌&&◌, Option, none, some,
  List, [], ◌∷◌, ltb, leb, ◌==◌, if◌then◌else◌,
}
use operating_systems_class.Run.{Run, ok, fault, no_fuel, ◌>>=◌}
use operating_systems_class.Fs.{bsize, Super, Fs, change_block, log_block, bfree}
use operating_systems_class.Fs.Inode.{
  Inode, ndirect, nindirect, maxfile, get_32, put_addr, iupdate, bmap,
}

pub free_if : Super → Fs → ℕ → Run Fs
free_if sb fs a = if a == 0 then ok fs else bfree sb fs a

-- The first loop of `itrunc` from slot `i` on.
pub trunc_slots : ℕ → Super → Fs → Inode → ℕ → Run (Fs × Inode)
unfolding free_if
trunc_slots zero sb fs ip i = ok (fs, ip)
trunc_slots (suc rounds) sb fs ip i = do
  fs ← free_if sb fs (ip.addrs i)
  trunc_slots rounds sb fs (record ip { addrs = put_addr ip.addrs i 0 }) (i + 1)

-- The loop over the entries of the indirect block, whose bytes `d` have been read before.
pub trunc_entries : ℕ → Super → Fs → (d : ℕ → ℕ) → ℕ → Run Fs
unfolding free_if
trunc_entries zero sb fs d j = ok fs
trunc_entries (suc rounds) sb fs d j = do
  fs ← free_if sb fs (get_32 d (j * 4))
  trunc_entries rounds sb fs d (j + 1)

pub trunc_indirect : Super → Fs → Inode → Run (Fs × Inode)
trunc_indirect sb fs ip =
    let a = ip.addrs ndirect in
    if a == 0 then ok (fs, ip) else (do
      fs ← trunc_entries nindirect sb fs (fs.disk a) 0
      fs ← bfree sb fs a
      ok (fs, record ip { addrs = put_addr ip.addrs ndirect 0 }))

pub itrunc : Super → Fs → Inode → Run (Fs × Inode)
unfolding trunc_indirect
itrunc sb fs ip = do
  (fs, ip) ← trunc_slots ndirect sb fs ip 0
  (fs, ip) ← trunc_indirect sb fs ip
  let ip = record ip { size = 0 }
  ok (iupdate sb fs ip, ip)

abbrev pub min : ℕ → ℕ → ℕ
min a b = if ltb a b then a else b

-- How many bytes a round of `readi` or `writei` transfers.
abbrev pub chunk : (n tot off : ℕ) → ℕ
chunk n tot off = min (n - tot) (bsize - off % bsize)

-- The bytes of `f` with `m` of them from `o` on replaced by those of `g` from `p` on.
abbrev pub copy_bytes : (f : ℕ → ℕ) → (o m : ℕ) → (g : ℕ → ℕ) → (p : ℕ) → ℕ → ℕ
copy_bytes f o m g p j = if leb o j && ltb j (o + m) then g (p + (j - o)) else f j

-- The loop of `readi`; `copyout tot m` is how many of the `m` bytes are copied before an error, `m` if
-- there is none. Bytes that are copied before an error are at the destination, but not in the result.
pub read_loop :
    ℕ
    → Super
    → (copyout : ℕ → ℕ → ℕ) → Fs
    → Inode
    → (dst : ℕ → ℕ) → (off n tot : ℕ) → Run (Fs × Inode × (ℕ → ℕ) × Option ℕ)
read_loop zero sb copyout fs ip dst off n tot =
    if ltb tot n then no_fuel else ok (fs, ip, dst, some tot)
read_loop (suc rounds) sb copyout fs ip dst off n tot =
    let m = chunk n tot off in
    let next = λ (fs : Fs) (ip : Inode) (a : ℕ).
      read_loop rounds sb copyout fs ip (copy_bytes dst tot m (fs.disk a) (off % bsize)) (off + m) n
        (tot + m) in
    if ltb tot n
    then (do
      (fs, ip, a) ← bmap sb fs ip (off / bsize)
      if a == 0
          then ok (fs, ip, dst, some tot)
          else if ltb (copyout tot m) m
          then ok (fs, ip, copy_bytes dst tot (copyout tot m) (fs.disk a) (off % bsize), none)
          else next fs ip a)
    else ok (fs, ip, dst, some tot)

-- The bytes read are those of `dst` below the result. `off` and `n` have 32 bits.
pub readi :
    Super
    → (copyout : ℕ → ℕ → ℕ) → Fs
    → Inode
    → (dst : ℕ → ℕ) → (off n : ℕ) → Run (Fs × Inode × (ℕ → ℕ) × Option ℕ)
readi sb copyout fs ip dst off n =
    let end = (off + n) % 2 ^ 32 in
    let n = if ltb ip.size end then ip.size - off else n in
    if ltb ip.size off || ltb end off
    then ok (fs, ip, dst, some 0)
    else read_loop n sb copyout fs ip dst off n 0

-- The loop of `writei`; `copyin tot m` is how many of the `m` bytes are copied before an error, `m` if
-- there is none. Bytes that are copied before an error are in the buffer, but not handed to the log.
pub write_loop :
    ℕ
    → Super
    → (copyin : ℕ → ℕ → ℕ) → (src : ℕ → ℕ) → Fs
    → Inode
    → (off n tot : ℕ) → Run (Fs × Inode × ℕ × ℕ)
write_loop zero sb copyin src fs ip off n tot = if ltb tot n then no_fuel else ok (fs, ip, off, tot)
write_loop (suc rounds) sb copyin src fs ip off n tot =
    let m = chunk n tot off in
    let next = λ (fs : Fs) (ip : Inode) (a : ℕ).
      write_loop rounds sb copyin src
        (log_block fs a (copy_bytes (fs.disk a) (off % bsize) m src tot)) ip (off + m) n
        (tot + m) in
    if ltb tot n
    then (do
      (fs, ip, a) ← bmap sb fs ip (off / bsize)
      if a == 0
          then ok (fs, ip, off, tot)
          else if ltb (copyin tot m) m
          then ok (
            change_block fs a (copy_bytes (fs.disk a) (off % bsize) (copyin tot m) src tot),
            ip,
            off,
            tot,
          )
          else next fs ip a)
    else ok (fs, ip, off, tot)

pub grow_size : Inode → ℕ → Inode
grow_size ip off = if ltb ip.size off then record ip { size = off } else ip

pub writei :
    Super
    → (copyin : ℕ → ℕ → ℕ) → (src : ℕ → ℕ) → Fs
    → Inode
    → (off n : ℕ) → Run (Fs × Inode × Option ℕ)
unfolding grow_size
writei sb copyin src fs ip off n =
    let end = (off + n) % 2 ^ 32 in
    if ltb ip.size off || ltb end off
    then ok (fs, ip, none)
    else if ltb (maxfile * bsize) end
    then ok (fs, ip, none)
    else (do
      (fs, ip, off, tot) ← write_loop n sb copyin src fs ip off n 0
      let ip = grow_size ip off
      ok (iupdate sb fs ip, ip, some tot))
