-- ===== src/Fs/Io/Roundtrip.antt =====
-- `readi` after `writei`.
use operating_systems_class.Prelude.{
  ℕ, ◌+◌, ◌-◌, ◌*◌, ◌^◌, ◌≤◌, ◌<◌, ◌≡◌, ◌⊎◌, arith, refl, ap, ◌∙◌, Option, some,
}
use operating_systems_class.Run.{ok}
use operating_systems_class.Fs.{bsize, Super, Fs}
use operating_systems_class.Fs.Bitmap.{IsFs}
use operating_systems_class.Fs.Inode.{Inode, maxfile}
use operating_systems_class.Fs.Inode.Blocks.{IsInode}
use operating_systems_class.Fs.Inode.Update.{IsHome}
use operating_systems_class.Fs.Io.{min, writei, readi}
use operating_systems_class.Fs.Io.Store.{byte}
use operating_systems_class.Fs.Io.Written.{Written, Outcome, refused, accepted, writei-Outcome}
use operating_systems_class.Fs.Io.ReadLoop.{End, all_read, no_block, cannot_copy}
use operating_systems_class.Fs.Io.Read.{ReadOutcome, outside, inside, readi-ReadOutcome}

inside_file :
    (sb : Super) (copyin : ℕ → ℕ → ℕ) (src : ℕ → ℕ) (fs : Fs) (ip : Inode) (off n : ℕ) (fs1 : Fs)
    (ip1 : Inode) (tot : ℕ)
    → off + n ≤ maxfile * bsize
    → Written sb copyin src fs ip off n fs1 ip1 tot
    → ip1.size < off ⊎ 2 ^ 32 ≤ off + tot
    → ⊥
inside_file sb copyin src fs ip off n fs1 ip1 tot fits w e = ground (arith, e, w.sized, w.count)

-- A read of what a write has written, where no copy to the destination fails.
read_back :
    (sb : Super) (copyin : ℕ → ℕ → ℕ) (src : ℕ → ℕ) (fs : Fs) (ip : Inode) (off n : ℕ) (fs1 : Fs)
    (ip1 : Inode) (tot : ℕ) (dst : ℕ → ℕ) (r : Fs × Inode × (ℕ → ℕ) × Option ℕ)
    → off + n ≤ maxfile * bsize
    → Written sb copyin src fs ip off n fs1 ip1 tot
    → ReadOutcome sb (λ t m. m) fs1 ip1 dst off tot r
    → (r.3 ≡ some tot) × ((x : ℕ) → x < tot → r.2 x ≡ src x)
read_back sb copyin src fs ip off n fs1 ip1 tot dst _ fits w (outside e) =
    absurd (inside_file sb copyin src fs ip off n fs1 ip1 tot fits w e)
read_back sb copyin src fs ip off n fs1 ip1 tot dst _ fits w (inside r e t) =
    let all : min tot (ip1.size - off) ≡ tot = ground (arith, w.sized) in
    let (upto, extra, result) =
      complete r.0 (min tot (ip1.size - off)) (off + (t.upto - 0)) t.upto t.extra r.3 t.ended all
        refl w.count in
    let index : (x : ℕ) → byte fs1 ip1 (off + (x - 0)) ≡ byte fs1 ip1 (off + x) =
      λ x. ap (byte fs1 ip1) (omega arith) in
    let from : (x : ℕ) → src (0 + (off + x - off)) ≡ src x = λ x. ap src (omega arith) in
    (
      result,
      λ x l.
          t.copied x
          ∙ ground (
            arith,
            upto,
            extra,
            l,
            index x,
            w.replaced (off + x) (omega (arith, w.count)),
            from x,
          ),
    )
  where
    complete :
        (fs' : Fs) (m o u x : ℕ) (v : Option ℕ)
        → End sb (λ t m. m) m fs1 ip1 fs' o u x v
        → m ≡ tot
        → o ≡ off + (u - 0)
        → tot ≤ n
        → (u ≡ tot) × (x ≡ 0) × (v ≡ some tot)
    complete fs' m o u _ v (all_read q) a z l = (q ∙ a, refl, ap some (q ∙ a))
    complete fs' m o u _ v (no_block b q f) a z l =
        absurd (w.present o (omega (arith, z)) (omega (arith, z, a, b)) q)
    complete fs' m o u _ v (cannot_copy c r q) a z l = absurd (omega (arith, r, q))

-- `writei` and then `readi` of the same range, where the write begins within the file and ends within MAXFILE
-- blocks, and no copy to the destination fails: the write returns a count `tot` up to `n`, the
-- read returns `tot`, and the destination has the first `tot` bytes of the source. It holds for a write
-- that stops early too.
pub readi-writei :
    (sb : Super) (copyin : ℕ → ℕ → ℕ) (src : ℕ → ℕ) (fs : Fs) (ip : Inode) (off n : ℕ) (dst : ℕ → ℕ)
    → IsFs sb fs
    → IsInode sb fs ip
    → IsHome sb fs ip
    → ip.size ≤ maxfile * bsize
    → off ≤ ip.size
    → off + n ≤ maxfile * bsize
    → (fs' : Fs) × (ip' : Inode) × (tot : ℕ) × (r : Fs × Inode × (ℕ → ℕ) × Option ℕ) × (writei sb
          copyin src fs ip off n
        ≡ ok (fs', ip', some tot))
      × tot ≤ n
      × (readi sb (λ t m. m) fs' ip' dst off tot ≡ ok r)
      × (r.3 ≡ some tot)
      × ((x : ℕ) → x < tot → r.2 x ≡ src x)
readi-writei sb copyin src fs ip off n dst m i h fits starts ends =
    let (r, run, o) = writei-Outcome sb copyin src fs ip off n m i h (omega arith) (omega arith) in
    go r run o
  where
    go :
        (r : Fs × Inode × Option ℕ)
        → writei sb copyin src fs ip off n ≡ ok r
        → Outcome sb copyin src fs ip off n r
        → (fs' : Fs) × (ip' : Inode) × (tot : ℕ) × (r : Fs × Inode × (ℕ → ℕ) × Option ℕ) × (writei
              sb copyin src fs ip off n
            ≡ ok (fs', ip', some tot))
          × tot ≤ n
          × (readi sb (λ t m. m) fs' ip' dst off tot ≡ ok r)
          × (r.3 ≡ some tot)
          × ((x : ℕ) → x < tot → r.2 x ≡ src x)
    go _ run (refused e) = absurd (ground (arith, e))
    go _ run (accepted fs' ip' tot l u w) =
        let (r, read, o) =
          readi-ReadOutcome sb (λ t m. m) fs' ip' dst off tot w.is_fs w.is_inode
            (ground (arith, w.sized, w.count)) (omega arith) (omega (arith, w.count)) in
        let (result, bytes) = read_back sb copyin src fs ip off n fs' ip' tot dst r u w o in
        (fs', ip', tot, r, run, w.count, read, result, bytes)
