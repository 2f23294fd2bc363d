-- ===== src/Fs/Inode/Mapped.antt =====
-- `bmap` on every branch.
use operating_systems_class.Prelude.{
  ℕ, ◌+◌, ◌-◌, ◌*◌, ◌≤◌, ◌<◌, ◌≡◌, ◌≢◌, inl, inr, true, false, Bool-cases, ltb, ◌==◌, if◌then◌else◌,
  arith, refl, ap, ◌∙◌, sym, subst,
}
use operating_systems_class.Run.{ok}
use operating_systems_class.Fs.{Super, Fs, balloc, log_block}
use operating_systems_class.Fs.Bitmap.{used, IsFs, Taken}
use operating_systems_class.Fs.Balloc.{Allocated, out_of_blocks, fresh, balloc-Allocated}
use operating_systems_class.Fs.Inode.{
  Inode, ndirect, nindirect, maxfile, get_32, put_32, put_addr, slot_addr, entry_addr, bmap,
}
use operating_systems_class.Fs.Inode.Blocks.{block, IsInode, Grown}
use operating_systems_class.Fs.Inode.Keeps.{Keeps, Keeps-refl, Keeps-trans, Grown-Keeps}
use operating_systems_class.Fs.Inode.Bmap.{slot, slot_block, slot-Grown, entry-Grown}

-- What `bmap` of block `k` leaves: it only adds blocks; the address it returns is that of the block, or 0 with
-- every block of the file system marked; and a block that is there is only looked up.
pub record Mapped (sb : Super) (fs : Fs) (ip : Inode) (k : ℕ) (fs' : Fs) (ip' : Inode) (a : ℕ)
    : Type 0 where
  pub keeps : Keeps sb fs ip fs' ip'
  pub address : a ≢ 0 → block fs' ip' k ≡ a
  pub no_space : a ≡ 0 → (c : ℕ) → c < sb.size → used sb fs' c ≡ 1
  pub looked_up : block fs ip k ≢ 0 → (fs' ≡ fs) × (ip' ≡ ip) × (a ≢ 0)

MappedBy : Super → Fs → Inode → ℕ → Fs × Inode × ℕ → Type 0
MappedBy sb fs ip k r = Mapped sb fs ip k r.0 r.1 r.2

module _ {sb : Super} {fs : Fs} {ip : Inode} (m : IsFs sb fs) (i : IsInode sb fs ip) where
  fresh_ne : {fs' : Fs} {b : ℕ} → Taken sb fs fs' b → b ≢ 0
  fresh_ne t e = ground (arith, ap (used sb fs) e, m.boot_used, t.was_free)

  found : (k : ℕ) → k ≤ maxfile → (a : ℕ) → a ≢ 0 → block fs ip k ≡ a → Mapped sb fs ip k fs ip a
  found k h a n e = record {
    keeps = Keeps-refl m i;
    address = λ z. e;
    no_space = λ z. absurd (n z);
    looked_up = λ z. (refl, refl, n);
  }

  grown :
      (k : ℕ) {fs' : Fs} {b : ℕ} {ip' : Inode}
      → Taken sb fs fs' b
      → {fs2 : Fs} → Grown sb fs ip k b fs2 ip'
      → ip' ≡ record ip { addrs = ip'.addrs }
      → Mapped sb fs ip k fs2 ip' b
  grown k {fs'} {b} {ip'} t {fs2} g e = record {
    keeps = Grown-Keeps m i g e;
    address = λ z. ground (arith, g.blocks k g.in_file);
    no_space = λ z. absurd (fresh_ne t z);
    looked_up = λ z. absurd (z g.was_none);
  }

  slot_addr-Mapped : (k : ℕ) → k ≤ ndirect → MappedBy sb fs ip (slot k) (slot_addr sb fs ip k)
  unfolding slot_addr MappedBy
  slot_addr-Mapped k h = elim (Bool-cases (ip.addrs k == 0)) [
    | inr n ↦
        rw n (found (slot k) (ground arith) (ip.addrs k) (ground (arith, n)) (slot_block fs ip k h))
    | inl z ↦ rw z (go (ground (arith, z)) (balloc sb fs) (balloc-Allocated sb fs m))
  ]
    where
      go :
          ip.addrs k ≡ 0
          → (r : Fs × ℕ) → Allocated sb fs r
          → MappedBy sb fs ip (slot k) (
              if r.1 == 0
              then (r.0, ip, 0)
              else (r.0, record ip { addrs = put_addr ip.addrs k r.1 }, r.1))
      go z r (out_of_blocks all) = record {
        keeps = Keeps-refl m i;
        address = λ n. absurd (n refl);
        no_space = λ e. all;
        looked_up = λ n. absurd (n (slot_block fs ip k h ∙ z));
      }
      go z (fs', b) (fresh t) =
          let test : (b == 0) ≡ false = ground (arith, fresh_ne t) in
          rw test (grown (slot k) t (slot-Grown m i k h z t) refl)

  entry_addr-Mapped :
      (bn a : ℕ)
      → bn < nindirect
      → a ≢ 0
      → ip.addrs ndirect ≡ a
      → Mapped sb fs ip (bn + ndirect) (entry_addr sb fs a bn).0 ip (entry_addr sb fs a bn).1
  unfolding entry_addr block
  entry_addr-Mapped bn a h n e =
      let some_indirect : ip.addrs ndirect ≢ 0 = λ z. n (sym e ∙ z) in
      let word : get_32 (fs.disk (ip.addrs ndirect)) ((bn + ndirect - ndirect) * 4)
          ≡ get_32 (fs.disk a) (bn * 4) =
        λ j. get_32 (fs.disk (e j)) (index j) in
      let here : block fs ip (bn + ndirect) ≡ get_32 (fs.disk a) (bn * 4) =
        ground (arith, some_indirect, word, h) in
      elim (Bool-cases (get_32 (fs.disk a) (bn * 4) == 0)) [
        | inr z ↦ rw z (
            found (bn + ndirect) (omega arith) (get_32 (fs.disk a) (bn * 4)) (ground (arith, z))
              here)
        | inl z ↦
            rw z
              (go (ground (arith, z)) here some_indirect (balloc sb fs) (balloc-Allocated sb fs m))
      ]
    where
      index : (bn + ndirect - ndirect) * 4 ≡ bn * 4
      index = omega arith

      go :
          get_32 (fs.disk a) (bn * 4) ≡ 0
          → block fs ip (bn + ndirect) ≡ get_32 (fs.disk a) (bn * 4)
          → ip.addrs ndirect ≢ 0
          → (r : Fs × ℕ) → Allocated sb fs r
          → let r' : Fs × ℕ =
              (if r.1 == 0
                then (r.0, 0)
                else (log_block r.0 a (put_32 (r.0.disk a) (bn * 4) r.1), r.1)) in
            Mapped sb fs ip (bn + ndirect) r'.0 ip r'.1
      go z here s r (out_of_blocks all) = record {
        keeps = Keeps-refl m i;
        address = λ n. absurd (n refl);
        no_space = λ e. all;
        looked_up = λ n. absurd (n (here ∙ z));
      }
      go z here s (fs', b) (fresh t) =
          let test : (b == 0) ≡ false = ground (arith, fresh_ne t) in
          rw test (
            grown (bn + ndirect) t
              (subst
                (λ c.
                  Grown sb fs ip (bn + ndirect) b (log_block fs' c (put_32 (fs'.disk c) (bn * 4) b))
                    ip)
                e (entry-Grown m i bn h s ((λ j. get_32 (fs.disk (e j)) (bn * 4)) ∙ z) t))
              refl)

-- A block behind the direct ones needs the indirect block.
block_indirect :
    (fs : Fs) (ip : Inode) (k : ℕ)
    → ndirect ≤ k
    → k < maxfile
    → block fs ip k ≢ 0
    → block fs ip maxfile ≢ 0
unfolding block
block_indirect fs ip k l u n = ground (arith, n)

-- On a file system and an inode in order, `bmap` of a block below MAXFILE does not panic. It returns the block
-- of that index, which it adds if there is none; it returns 0 only if every block of the file
-- system is marked then. Either way it keeps the order of both, the content of the file, and every block
-- of other files; and it changes nothing if the block was there.
pub bmap-Mapped :
    (sb : Super) (fs : Fs) (ip : Inode) (bn : ℕ)
    → IsFs sb fs
    → IsInode sb fs ip
    → bn < maxfile
    → (r : Fs × Inode × ℕ) × (bmap sb fs ip bn ≡ ok r) × Mapped sb fs ip bn r.0 r.1 r.2
unfolding bmap MappedBy
bmap-Mapped sb fs ip bn m i h = elim (Bool-cases (ltb bn ndirect)) [
  | inl d ↦
      let direct : bn < ndirect = ground (arith, d) in
      let at : slot bn ≡ bn = ground (arith, d) in
      (
        slot_addr sb fs ip bn,
        rw d refl,
        subst (λ k. MappedBy sb fs ip k (slot_addr sb fs ip bn)) at
            (slot_addr-Mapped m i bn (omega arith)),
      )
  | inr d ↦
      let indirect : ndirect ≤ bn = ground (arith, d) in
      let test : ltb (bn - ndirect) nindirect ≡ true = ground arith in
      let r = slot_addr sb fs ip ndirect in
      let first = slot_addr-Mapped m i ndirect (omega arith) in
      elim (Bool-cases (r.2 == 0)) [
        | inl z ↦ (
          (r.0, r.1, 0),
          rw (d, test, z) refl,
          record {
            keeps = first.keeps;
            address = λ n. absurd (n refl);
            no_space = λ e. first.no_space (ground (arith, z));
            looked_up = λ n.
                absurd
                  ((first.looked_up (block_indirect fs ip bn indirect h n)).2 (ground (arith, z)));
          },
        )
        | inr z ↦
            let a : r.1.addrs ndirect ≡ r.2 =
              sym (slot_block r.0 r.1 ndirect (omega arith)) ∙ first.address (ground (arith, z)) in
            let second =
              entry_addr-Mapped first.keeps.ext.is_fs first.keeps.ext.is_inode (bn - ndirect) r.2
                (omega arith) (ground (arith, z)) a in
            let q = entry_addr sb r.0 r.2 (bn - ndirect) in
            (
              (q.0, r.1, q.1),
              rw (d, test, z) refl,
              both bn (bn - ndirect + ndirect) (omega arith) indirect h r.0 r.1 r.2 q.0 q.1 first
                  second,
            )
      ]
]
  where
    both :
        (k k' : ℕ)
        → k' ≡ k
        → ndirect ≤ k
        → k < maxfile
        → (fs1 : Fs) (ip1 : Inode) (a1 : ℕ) (fs2 : Fs) (a2 : ℕ) → Mapped sb fs ip maxfile fs1 ip1 a1
        → Mapped sb fs1 ip1 k' fs2 ip1 a2
        → Mapped sb fs ip k fs2 ip1 a2
    both k k' e l u fs1 ip1 a1 fs2 a2 first second = record {
      keeps = Keeps-trans first.keeps second.keeps;
      address = λ n. (λ j. block fs2 ip1 (sym e j)) ∙ second.address n;
      no_space = second.no_space;
      looked_up = λ n.
          let (f, p, some_a) = first.looked_up (block_indirect fs ip k l u n) in
          let there : block fs1 ip1 k' ≢ 0 =
            λ z. n ((λ j. block (sym f j) (sym p j) (sym e j)) ∙ z) in
          let (f', p', some_b) = second.looked_up there in (f' ∙ f, p, some_b);
    }
