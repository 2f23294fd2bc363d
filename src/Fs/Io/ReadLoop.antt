-- ===== src/Fs/Io/ReadLoop.antt =====
-- The loop of `readi`.
use operating_systems_class.Prelude.{
  ℕ, zero, suc, ◌+◌, ◌-◌, ◌*◌, ◌/◌, ◌%◌, ◌≤◌, ◌<◌, ◌≡◌, ◌≢◌, inl, inr, false, Bool-cases, ltb, leb,
  ◌&&◌, ◌==◌, if◌then◌else◌, arith, refl, ap, ◌∙◌, sym, subst, Option, none, some,
}
use native.Mathlib.Decide.{ℕ_discrete, dec_lt}
use operating_systems_class.Run.{ok}
use operating_systems_class.Fs.{bsize, Super, Fs}
use operating_systems_class.Fs.Bitmap.{used, IsFs}
use operating_systems_class.Fs.Inode.{Inode, maxfile}
use operating_systems_class.Fs.Inode.Blocks.{block, IsInode, content}
use operating_systems_class.Fs.Inode.Keeps.{Keeps, Keeps-refl, Keeps-trans, Extends-present}
use operating_systems_class.Fs.Inode.Mapped.{Mapped, bmap-Mapped}
use operating_systems_class.Fs.Io.{copy_bytes, chunk, read_loop}
use operating_systems_class.Fs.Io.Store.{byte}

-- The bytes of `dst` from `tot` up to `upto` are those of the file from `off` on, and the others are kept.
abbrev pub Copied : Fs → Inode → (off tot upto : ℕ) → (dst dst' : ℕ → ℕ) → Type 0
Copied fs ip off tot upto dst dst' =
    (x : ℕ) → dst' x ≡ (if leb tot x && ltb x upto then byte fs ip (off + (x - tot)) else dst x)

-- Why a read stops, `upto` bytes being counted, the next one being that of `off`, and `extra` more
-- being copied before an error.
pub data End (sb : Super) (copyout : ℕ → ℕ → ℕ) (n : ℕ) (fs : Fs) (ip : Inode) (fs' : Fs)
    (off upto : ℕ) : (extra : ℕ) → Option ℕ → Type 0 where
  all_read : upto ≡ n → End sb copyout n fs ip fs' off upto 0 (some upto)
  no_block :
      upto < n
      → block fs ip (off / bsize) ≡ 0
      → ((c : ℕ) → c < sb.size → used sb fs' c ≡ 1)
      → End sb copyout n fs ip fs' off upto 0 (some upto)
  cannot_copy :
      (c : ℕ)
      → copyout upto (chunk n upto off) ≡ c
      → c < chunk n upto off
      → End sb copyout n fs ip fs' off upto c none

pub record ReadTo (sb : Super) (copyout : ℕ → ℕ → ℕ) (fs : Fs) (ip : Inode) (dst : ℕ → ℕ)
    (off n tot : ℕ) (r : Fs × Inode × (ℕ → ℕ) × Option ℕ) : Type 0 where
  pub keeps : Keeps sb fs ip r.0 r.1
  pub upto : ℕ
  pub extra : ℕ
  pub count : tot ≤ upto × upto + extra ≤ n
  pub copied : Copied fs ip off tot (upto + extra) dst r.2
  pub ended : End sb copyout n fs ip r.0 (off + (upto - tot)) upto extra r.3

nothing-Copied :
    (fs : Fs) (ip : Inode) (off tot : ℕ) (dst : ℕ → ℕ) → Copied fs ip off tot (tot + 0) dst dst
nothing-Copied fs ip off tot dst x = ground arith

-- A byte of the block that `bmap` has found for `off`.
mapped_byte :
    {sb : Super} {fs : Fs} {ip : Inode} {fs1 : Fs} {ip1 : Inode} {a : ℕ} (off z : ℕ)
    → Mapped sb fs ip (off / bsize) fs1 ip1 a
    → a ≢ 0
    → off % bsize + z < bsize
    → off + z < maxfile * bsize
    → fs1.disk a (off % bsize + z) ≡ byte fs ip (off + z)
mapped_byte {sb} {fs} {ip} {fs1} {ip1} {a} off z mapped na h u =
    let k = (off + z) / bsize in
    let o = (off + z) % bsize in
    let same : k ≡ off / bsize = omega arith in
    let at : block fs1 ip1 k ≡ a = ap (block fs1 ip1) same ∙ mapped.address na in
    let index : off % bsize + z ≡ o = omega arith in
    let bytes : fs1.disk (block fs1 ip1 k) o ≡ fs1.disk a o = λ t. fs1.disk (at t) o in
    let shown : content fs1 ip1 k o ≡ fs1.disk a o = ground (arith, na, at, bytes) in
    (λ t. fs1.disk a (index t)) ∙ sym shown ∙ mapped.keeps.contents k o (omega arith)

-- The bytes that a failing copy has copied.
part-Copied :
    {sb : Super} {fs : Fs} {ip : Inode} {fs1 : Fs} {ip1 : Inode} {a : ℕ} (off tot q : ℕ)
    (dst : ℕ → ℕ)
    → Mapped sb fs ip (off / bsize) fs1 ip1 a
    → a ≢ 0
    → q ≤ bsize - off % bsize
    → off + q ≤ maxfile * bsize
    → Copied fs ip off tot (tot + q) dst (copy_bytes dst tot q (fs1.disk a) (off % bsize))
part-Copied off tot q dst mapped na h u x = elim (dec_lt x tot) [
  | yes b ↦ ground (arith, b)
  | no b ↦ elim (dec_lt x (tot + q)) [
    | yes c ↦ ground (arith, b, c, mapped_byte off (x - tot) mapped na (omega arith) (omega arith))
    | no c ↦ ground (arith, b, c)
  ]
]

-- A round, and the rounds after it.
ReadTo-step :
    {sb : Super} {copyout : ℕ → ℕ → ℕ} {fs : Fs} {ip : Inode} {dst : ℕ → ℕ} (off n tot q : ℕ)
    {fs1 : Fs} {ip1 : Inode} {a : ℕ} {r : Fs × Inode × (ℕ → ℕ) × Option ℕ}
    → IsFs sb fs
    → Mapped sb fs ip (off / bsize) fs1 ip1 a
    → a ≢ 0
    → q ≤ bsize - off % bsize
    → tot + q ≤ n
    → off + (n - tot) ≤ maxfile * bsize
    → ReadTo sb copyout fs1 ip1
        (copy_bytes dst tot q (fs1.disk a) (off % bsize))
        (off + q)
        n
        (tot + q)
        r
    → ReadTo sb copyout fs ip dst off n tot r
ReadTo-step {sb} {copyout} {fs} {ip} {dst} off n tot q {fs1} {ip1} {a} {r} m mapped na h t fits w =
    record {
      keeps = Keeps-trans mapped.keeps w.keeps;
      upto = w.upto;
      extra = w.extra;
      count = (omega (arith, w.count.0), w.count.1);
      copied = λ x. elim (dec_lt x tot) [
        | yes b ↦ w.copied x ∙ ground (arith, b)
        | no b ↦ elim (dec_lt x (tot + q)) [
          | yes c ↦ w.copied x ∙ ground (arith, b, c, w.count.0, here x (omega arith) c)
          | no c ↦
              let index : byte fs1 ip1 (off + q + (x - (tot + q)))
                  ≡ byte fs1 ip1 (off + (x - tot)) =
                ap (byte fs1 ip1) (omega arith) in
              let kept : x < n → byte fs1 ip1 (off + (x - tot)) ≡ byte fs ip (off + (x - tot)) =
                λ u.
                  mapped.keeps.contents ((off + (x - tot)) / bsize) ((off + (x - tot)) % bsize)
                    (omega arith) in
              w.copied x ∙ past x c w.count.0 (λ u. index ∙ kept (omega (arith, u, w.count.1)))
        ]
      ];
      ended =
          subst (λ o. End sb copyout n fs ip r.0 o w.upto w.extra r.3) (omega (arith, w.count.0))
            (back r.0 (off + q + (w.upto - (tot + q))) w.upto w.extra r.3
              (λ u. omega (arith, w.count.0)) w.ended);
    }
  where
    -- A byte of this round.
    here :
        (x : ℕ)
        → tot ≤ x
        → x < tot + q
        → fs1.disk a (off % bsize + (x - tot)) ≡ byte fs ip (off + (x - tot))
    here x l u = mapped_byte off (x - tot) mapped na (omega arith) (omega arith)

    -- A byte behind this round.
    past :
        (x : ℕ)
        → ¬ (x < tot + q)
        → tot + q ≤ w.upto
        → (x < w.upto + w.extra
            → byte fs1 ip1 (off + q + (x - (tot + q))) ≡ byte fs ip (off + (x - tot)))
        → (if leb (tot + q) x && ltb x (w.upto + w.extra)
            then byte fs1 ip1 (off + q + (x - (tot + q)))
            else copy_bytes dst tot q (fs1.disk a) (off % bsize) x)
          ≡ (if leb tot x && ltb x (w.upto + w.extra) then byte fs ip (off + (x - tot)) else dst x)
    past x c d e = elim (dec_lt x (w.upto + w.extra)) [
      | yes u ↦ ground (arith, c, e u)
      | no u ↦ ground (arith, c, u)
    ]

    before :
        (o : ℕ) → o < maxfile * bsize → block fs1 ip1 (o / bsize) ≡ 0 → block fs ip (o / bsize) ≡ 0
    before o l z = elim (ℕ_discrete (block fs ip (o / bsize)) 0) [
      | yes e ↦ e
      | no e ↦ absurd (Extends-present m mapped.keeps.ext (o / bsize) (omega arith) e z)
    ]

    back :
        (fs' : Fs) (o u x : ℕ) (v : Option ℕ)
        → (u < n → o < maxfile * bsize)
        → End sb copyout n fs1 ip1 fs' o u x v
        → End sb copyout n fs ip fs' o u x v
    back fs' o u _ _ l (all_read e) = all_read e
    back fs' o u _ _ l (no_block g z f) = no_block g (before o (l g) z) f
    back fs' o u _ _ l (cannot_copy c r e) = cannot_copy c r e

gone :
    {sb : Super} {fs : Fs} {ip : Inode} {k : ℕ} {fs1 : Fs} {ip1 : Inode} {a : ℕ}
    → a ≡ 0
    → Mapped sb fs ip k fs1 ip1 a
    → block fs ip k ≡ 0
gone {sb} {fs} {ip} {k} z mapped = elim (ℕ_discrete (block fs ip k) 0) [
  | yes e ↦ e
  | no n ↦ absurd ((mapped.looked_up n).2 z)
]

pub read_loop-ReadTo :
    (rounds : ℕ) (sb : Super) (copyout : ℕ → ℕ → ℕ) (fs : Fs) (ip : Inode) (dst : ℕ → ℕ)
    (off n tot : ℕ)
    → IsFs sb fs
    → IsInode sb fs ip
    → tot ≤ n
    → n ≤ tot + rounds
    → off + (n - tot) ≤ maxfile * bsize
    → (r : Fs × Inode × (ℕ → ℕ) × Option ℕ) × (read_loop rounds sb copyout fs ip dst off n tot
        ≡ ok r)
      × ReadTo sb copyout fs ip dst off n tot r
unfolding read_loop
read_loop-ReadTo zero sb copyout fs ip dst off n tot m i le enough fits =
    let test : ltb tot n ≡ false = ground arith in
    (
      (fs, ip, dst, some tot),
      rw test refl,
      record {
        keeps = Keeps-refl m i;
        upto = tot;
        extra = 0;
        count = (omega arith, omega arith);
        copied = nothing-Copied fs ip off tot dst;
        ended = all_read (omega arith);
      },
    )
read_loop-ReadTo (suc rounds) sb copyout fs ip dst off n tot m i le enough fits =
    elim (Bool-cases (ltb tot n)) [
      | inr e ↦ (
        (fs, ip, dst, some tot),
        rw e refl,
        record {
          keeps = Keeps-refl m i;
          upto = tot;
          extra = 0;
          count = (omega arith, omega arith);
          copied = nothing-Copied fs ip off tot dst;
          ended = all_read (ground (arith, e));
        },
      )
      | inl e ↦
          let more : tot < n = ground (arith, e) in
          let q = chunk n tot off in
          let ((fs1, ip1, a), run, mapped) = bmap-Mapped sb fs ip (off / bsize) m i (omega arith) in
          let stop : off ≡ off + (tot - tot) = omega arith in
          elim (Bool-cases (a == 0)) [
            | inl z ↦ (
              (fs1, ip1, dst, some tot),
              rw (e, run, z) refl,
              record {
                keeps = mapped.keeps;
                upto = tot;
                extra = 0;
                count = (omega arith, omega arith);
                copied = nothing-Copied fs ip off tot dst;
                ended =
                    subst (λ o. End sb copyout n fs ip fs1 o tot 0 (some tot)) stop
                      (no_block more (gone (ground (arith, z)) mapped)
                        (mapped.no_space (ground (arith, z))));
              },
            )
            | inr z ↦ elim (Bool-cases (ltb (copyout tot q) q)) [
              | inl c ↦
                  let short : copyout tot q < q = ground (arith, c) in
                  (
                    (fs1, ip1, copy_bytes dst tot (copyout tot q) (fs1.disk a) (off % bsize), none),
                    rw (e, run, z, c) refl,
                    record {
                      keeps = mapped.keeps;
                      upto = tot;
                      extra = copyout tot q;
                      count = (omega arith, ground arith);
                      copied =
                          part-Copied off tot (copyout tot q) dst mapped (ground (arith, z))
                            (ground arith) (ground arith);
                      ended =
                          subst (λ o. End sb copyout n fs ip fs1 o tot (copyout tot q) none) stop
                            (cannot_copy (copyout tot q) refl short);
                    },
                  )
              | inr c ↦
                  let dst1 = copy_bytes dst tot q (fs1.disk a) (off % bsize) in
                  let (r, rest, w) =
                    read_loop-ReadTo rounds sb copyout fs1 ip1 dst1 (off + q) n (tot + q)
                      mapped.keeps.ext.is_fs mapped.keeps.ext.is_inode (ground arith) (ground arith)
                      (ground arith) in
                  (
                    r,
                    rw (e, run, z, c) rest,
                    ReadTo-step off n tot q m mapped (ground (arith, z)) (ground arith)
                        (ground arith) fits w,
                  )
            ]
          ]
    ]
