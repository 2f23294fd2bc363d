-- ===== src/Fs/Inode/Keeps.antt =====
-- Steps that only add blocks to an inode.
use operating_systems_class.Prelude.{
  ℕ, ◌/◌, ◌%◌, ◌≤◌, ◌<◌, ◌≡◌, ◌≢◌, ◌⊎◌, inl, inr, arith, refl, ap, ◌∙◌, sym, subst,
}
use native.Mathlib.Decide.{ℕ_discrete}
use operating_systems_class.Fs.{Super, Fs, bblock, bpb}
use operating_systems_class.Fs.Bitmap.{used, IsFs, bit-lt}
use operating_systems_class.Fs.Inode.{Inode, maxfile}
use operating_systems_class.Fs.Inode.Blocks.{
  block, IsData, IsInode, content, Grown, Grown-IsFs, Grown-IsInode, Grown-content, block_new,
  block_old,
}

-- What a step on the blocks of an inode keeps: the order, the marks, and every block of other files.
pub record Extends (sb : Super) (fs : Fs) (ip : Inode) (fs' : Fs) (ip' : Inode) : Type 0 where
  pub is_fs : IsFs sb fs'
  pub is_inode : IsInode sb fs' ip'
  pub marks : (c : ℕ) → c < sb.size → used sb fs c ≡ 1 → used sb fs' c ≡ 1
  pub blocks :
      (k : ℕ)
      → k ≤ maxfile
      → (block fs' ip' k ≡ block fs ip k)
        ⊎ (block fs' ip' k < sb.size × (used sb fs (block fs' ip' k) ≡ 0))
  pub foreign :
      (c : ℕ)
      → IsData sb fs c
      → ((k : ℕ) → k ≤ maxfile → block fs ip k ≢ c)
      → fs'.disk c ≡ fs.disk c
  pub fields : ip' ≡ record ip { addrs = ip'.addrs }

pub Extends-refl :
    {sb : Super} {fs : Fs} {ip : Inode} → IsFs sb fs → IsInode sb fs ip → Extends sb fs ip fs ip
Extends-refl m i = record {
  is_fs = m;
  is_inode = i;
  marks = λ c h e. e;
  blocks = λ k h. inl refl;
  foreign = λ c d n. refl;
  fields = refl;
}

pub Extends-trans :
    {sb : Super} {fs fs1 fs2 : Fs} {ip ip1 ip2 : Inode}
    → Extends sb fs ip fs1 ip1
    → Extends sb fs1 ip1 fs2 ip2
    → Extends sb fs ip fs2 ip2
Extends-trans {sb} {fs} {fs1} {fs2} {ip} {ip1} {ip2} a b = record {
  is_fs = b.is_fs;
  is_inode = b.is_inode;
  marks = λ c h e. b.marks c h (a.marks c h e);
  blocks = λ k h. elim (b.blocks k h) [
    | inl e ↦ elim (a.blocks k h) [
      | inl f ↦ inl (e ∙ f)
      | inr (l, z) ↦ inr (subst (λ c. c < sb.size × (used sb fs c ≡ 0)) (sym e) (l, z))
    ]
    | inr (l, z) ↦ inr (
      l,
      ground (
        arith,
        z,
        a.marks (block fs2 ip2 k) l,
        bit-lt (block fs2 ip2 k % 8)
            (fs.disk (bblock (block fs2 ip2 k) sb) (block fs2 ip2 k % bpb / 8)),
      ),
    )
  ];
  foreign = λ c d n.
      b.foreign c
        (record { in_fs = d.in_fs; marked = a.marks c d.in_fs d.marked; not_map = d.not_map })
        (λ k h. elim (a.blocks k h) [
          | inl e ↦ λ q. n k h (sym e ∙ q)
          | inr (l, z) ↦ λ q. ground (arith, ap (used sb fs) q, z, d.marked)
        ])
      ∙ a.foreign c d n;
  fields = b.fields ∙ λ j. record (a.fields j) { addrs = ip2.addrs };
}

-- A block that is there stays there.
pub Extends-present :
    {sb : Super} {fs fs' : Fs} {ip ip' : Inode}
    → IsFs sb fs
    → Extends sb fs ip fs' ip'
    → (k : ℕ) → k ≤ maxfile
    → block fs ip k ≢ 0
    → block fs' ip' k ≢ 0
Extends-present {sb} {fs} m e k h n z = elim (e.blocks k h) [
  | inl q ↦ n (sym q ∙ z)
  | inr (l, u) ↦ ground (arith, ap (used sb fs) z, u, m.boot_used)
]

pub Grown-Extends :
    {sb : Super} {fs : Fs} {ip : Inode} {p b : ℕ} {fs' : Fs} {ip' : Inode}
    → IsFs sb fs
    → IsInode sb fs ip
    → Grown sb fs ip p b fs' ip'
    → ip' ≡ record ip { addrs = ip'.addrs }
    → Extends sb fs ip fs' ip'
Grown-Extends {sb} {fs} {ip} {p} {b} {fs'} {ip'} m i g e =
    let nb : b ≢ 0 = λ z. ground (arith, ap (used sb fs) z, m.boot_used, g.was_free) in
    record {
      is_fs = Grown-IsFs m i g;
      is_inode = Grown-IsInode m i g nb;
      marks = λ c h u. ground (arith, g.marks c h, u);
      blocks = λ k h. elim (ℕ_discrete k p) [
        | yes q ↦ inr (
            subst (λ c. c < sb.size × (used sb fs c ≡ 0)) (sym (block_new m i g k h q))
              (g.in_fs, g.was_free))
        | no q ↦ inl (block_old m i g k h q)
      ];
      foreign = λ c d n.
          g.disks c (λ q. ground (arith, ap (used sb fs) q, d.marked, g.was_free)) d.not_map
            (elim (ℕ_discrete maxfile p) [
              | yes q ↦ λ r. ground (
                arith,
                ap (used sb fs) (sym (block_new m i g maxfile (omega arith) q) ∙ r),
                d.marked,
                g.was_free,
              )
              | no q ↦
                  λ r. n maxfile (omega arith) (sym (block_old m i g maxfile (omega arith) q) ∙ r)
            ]);
      fields = e;
    }

-- A step that only adds blocks keeps the content of the file too.
pub record Keeps (sb : Super) (fs : Fs) (ip : Inode) (fs' : Fs) (ip' : Inode) : Type 0 where
  pub ext : Extends sb fs ip fs' ip'
  pub contents : (k o : ℕ) → k < maxfile → content fs' ip' k o ≡ content fs ip k o

pub Keeps-refl :
    {sb : Super} {fs : Fs} {ip : Inode} → IsFs sb fs → IsInode sb fs ip → Keeps sb fs ip fs ip
Keeps-refl m i = record { ext = Extends-refl m i; contents = λ k o h. refl }

pub Keeps-trans :
    {sb : Super} {fs fs1 fs2 : Fs} {ip ip1 ip2 : Inode}
    → Keeps sb fs ip fs1 ip1
    → Keeps sb fs1 ip1 fs2 ip2
    → Keeps sb fs ip fs2 ip2
Keeps-trans a b = record {
  ext = Extends-trans a.ext b.ext;
  contents = λ k o h. b.contents k o h ∙ a.contents k o h;
}

pub Grown-Keeps :
    {sb : Super} {fs : Fs} {ip : Inode} {p b : ℕ} {fs' : Fs} {ip' : Inode}
    → IsFs sb fs
    → IsInode sb fs ip
    → Grown sb fs ip p b fs' ip'
    → ip' ≡ record ip { addrs = ip'.addrs }
    → Keeps sb fs ip fs' ip'
Grown-Keeps {sb} {fs} {b} m i g e =
    let nb : b ≢ 0 = λ z. ground (arith, ap (used sb fs) z, m.boot_used, g.was_free) in
    record { ext = Grown-Extends m i g e; contents = λ k o h. Grown-content m i g nb k o h }
