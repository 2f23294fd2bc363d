-- ===== src/Fs/Io/Read.antt =====
-- `readi`.
use operating_systems_class.Prelude.{
  ℕ, ◌+◌, ◌-◌, ◌*◌, ◌%◌, ◌^◌, ◌≤◌, ◌<◌, ◌≡◌, ◌⊎◌, inl, inr, Bool-cases, ltb, ◌||◌, if◌then◌else◌,
  arith, refl, subst, Option, some,
}
use operating_systems_class.Run.{ok}
use operating_systems_class.Fs.{bsize, Super, Fs}
use operating_systems_class.Fs.Bitmap.{IsFs}
use operating_systems_class.Fs.Inode.{Inode, maxfile}
use operating_systems_class.Fs.Inode.Blocks.{IsInode}
use operating_systems_class.Fs.Io.{min, readi}
use operating_systems_class.Fs.Io.ReadLoop.{ReadTo, read_loop-ReadTo}

-- What `readi` returns: nothing if the offset is past the end of the file or the bytes end past 2 ^ 32.
pub data ReadOutcome (sb : Super) (copyout : ℕ → ℕ → ℕ) (fs : Fs) (ip : Inode) (dst : ℕ → ℕ)
    (off n : ℕ) : Fs × Inode × (ℕ → ℕ) × Option ℕ → Type 0 where
  outside :
      ip.size < off ⊎ 2 ^ 32 ≤ off + n
      → ReadOutcome sb copyout fs ip dst off n (fs, ip, dst, some 0)
  inside :
      (r : Fs × Inode × (ℕ → ℕ) × Option ℕ)
      → off ≤ ip.size
      → ReadTo sb copyout fs ip dst off (min n (ip.size - off)) 0 r
      → ReadOutcome sb copyout fs ip dst off n r

pub readi-ReadOutcome :
    (sb : Super) (copyout : ℕ → ℕ → ℕ) (fs : Fs) (ip : Inode) (dst : ℕ → ℕ) (off n : ℕ)
    → IsFs sb fs
    → IsInode sb fs ip
    → ip.size ≤ maxfile * bsize
    → off < 2 ^ 32
    → n < 2 ^ 32
    → (r : Fs × Inode × (ℕ → ℕ) × Option ℕ) × (readi sb copyout fs ip dst off n ≡ ok r)
      × ReadOutcome sb copyout fs ip dst off n r
unfolding readi
readi-ReadOutcome sb copyout fs ip dst off n m i fits small_off small_n =
    let end = (off + n) % 2 ^ 32 in
    elim (Bool-cases (ltb ip.size off || ltb end off)) [
      | inl e ↦ ((fs, ip, dst, some 0), rw e refl, outside (ground (arith, e)))
      | inr e ↦
          let k = if ltb ip.size end then ip.size - off else n in
          let clipped : k ≡ min n (ip.size - off) = ground (arith, e) in
          let (r, run, w) =
            read_loop-ReadTo k sb copyout fs ip dst off k 0 m i (omega arith) (omega arith)
              (ground (arith, e)) in
          (
            r,
            rw e run,
            inside r (ground (arith, e))
                (subst (λ k. ReadTo sb copyout fs ip dst off k 0 r) clipped w),
          )
    ]
