-- ===== src/File.antt =====
-- The file table of projects/project_1c/kernel/file.c. A `struct file *` is an index into the table.
use operating_systems_class.Prelude.{
  ℕ, zero, suc, ◌+◌, ◌-◌, ◌≡◌, ◌<◌, Bool, Option, none, some, ltb, ◌==◌, if◌then◌else◌, arith,
}

abbrev pub nfile : ℕ
nfile = 100

pub data FileType : Type 0 where
  fd_none fd_pipe fd_inode fd_device : FileType

-- `struct file` without `off` and `major`; `pipe` and `ip` are the addresses of the pipe and the inode.
pub record File : Type 0 where
  pub type : FileType
  pub ref : ℕ
  pub readable : Bool
  pub writable : Bool
  pub pipe : ℕ
  pub ip : ℕ

abbrev pub put_file : (ℕ → File) → ℕ → File → ℕ → File
put_file t f v g = if g == f then v else t g

-- The loop of `filealloc` from file `f` on.
pub filealloc_from : ℕ → ℕ → (ℕ → File) → (ℕ → File) × Option ℕ
filealloc_from zero f t = (t, none)
filealloc_from (suc rounds) f t =
    let rest = filealloc_from rounds (f + 1) t in
    if (t f).ref == 0 then (put_file t f (record (t f) { ref = 1 }), some f) else rest

pub filealloc : (ℕ → File) → (ℕ → File) × Option ℕ
filealloc t = filealloc_from nfile 0 t

-- `none` is a panic.
pub filedup : ℕ → (ℕ → File) → Option (ℕ → File)
filedup f t =
    if ltb (t f).ref 1 then none else some (put_file t f (record (t f) { ref = (t f).ref + 1 }))

-- What is left to do after the table has been changed: nothing, `pipeclose`, or `iput` in a
-- transaction of its own.
pub data Closing : Type 0 where
  nothing : Closing
  close_pipe : (pipe : ℕ) → (writable : Bool) → Closing
  put_inode : (ip : ℕ) → Closing

pub closing : File → Closing
closing f = elim (f.type) [
  | fd_pipe ↦ close_pipe f.pipe f.writable
  | fd_inode ↦ put_inode f.ip
  | fd_device ↦ put_inode f.ip
  | fd_none ↦ nothing
]

pub fileclose : ℕ → (ℕ → File) → Option ((ℕ → File) × Closing)
fileclose f t =
    let ff = record (t f) { ref = (t f).ref - 1 } in
    if ltb (t f).ref 1
    then none
    else if ltb 0 ff.ref
    then some (put_file t f ff, nothing)
    else some (put_file t f (record ff { ref = 0; type = fd_none }), closing ff)

-- `filedup` and then `fileclose` of an open file leaves all files as they were, with nothing to close.
pub fileclose-filedup :
    (f : ℕ) (t : ℕ → File)
    → 0 < (t f).ref
    → (t1 : ℕ → File) × (t2 : ℕ → File) × (filedup f t ≡ some t1)
      × (fileclose f t1 ≡ some (t2, nothing))
      × ((g : ℕ) → (t2 g).ref ≡ (t g).ref)
unfolding filedup fileclose
fileclose-filedup f t h =
    let t1 = put_file t f (record (t f) { ref = (t f).ref + 1 }) in
    (
      t1,
      put_file t1 f (record (t1 f) { ref = (t1 f).ref - 1 }),
      ground arith,
      ground arith,
      λ g. ground arith,
    )
