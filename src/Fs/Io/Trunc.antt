-- ===== src/Fs/Io/Trunc.antt =====
-- `itrunc`.
use operating_systems_class.Prelude.{
  ℕ, ◌+◌, ◌-◌, ◌*◌, ◌≤◌, ◌<◌, ◌≡◌, ◌≢◌, arith, ap, ◌∙◌, sym, subst,
}
use native.Mathlib.Decide.{dec_lt}
use operating_systems_class.Fs.{Super, Fs, bblock}
use operating_systems_class.Fs.Bitmap.{used, IsFs}
use operating_systems_class.Fs.Inode.{Inode, ndirect, nindirect, maxfile, get_32}
use operating_systems_class.Fs.Inode.Blocks.{block, IsData, IsInode}
use operating_systems_class.Fs.Inode.Bmap.{slot_block}
use operating_systems_class.Fs.Io.Free.{Row, Freed, FreedOne}

module _ {sb : Super} {fs : Fs} {ip : Inode} (m : IsFs sb fs) (i : IsInode sb fs ip) where
  direct_block : (k : ℕ) → k < ndirect → block fs ip k ≡ ip.addrs k
  unfolding block
  direct_block k h = ground (arith, h)

  entry_block :
      ip.addrs ndirect ≢ 0
      → (j : ℕ) → j < nindirect
      → block fs ip (j + ndirect) ≡ get_32 (fs.disk (ip.addrs ndirect)) (j * 4)
  unfolding block
  entry_block n j h =
      let index : get_32 (fs.disk (ip.addrs ndirect)) ((j + ndirect - ndirect) * 4)
          ≡ get_32 (fs.disk (ip.addrs ndirect)) (j * 4) =
        ap (get_32 (fs.disk (ip.addrs ndirect))) (omega arith) in
      ground (arith, n, h, index)

  no_entry : ip.addrs ndirect ≡ 0 → (k : ℕ) → ndirect ≤ k → k ≤ maxfile → block fs ip k ≡ 0
  unfolding block
  no_entry z k l u = ground (arith, z, l, u)

  pub slots-Row : Row sb fs ip.addrs ndirect 0
  slots-Row = record {
    data_ = λ j l u z.
        let at = direct_block j u in
        subst (IsData sb fs) at (i.data_ j (omega arith) (λ q. z (sym at ∙ q)));
    apart = λ j k l u z q.
        i.once j k l (omega arith) (λ w. z (sym (direct_block k u) ∙ w))
          (direct_block j (omega arith) ∙ q ∙ sym (direct_block k u));
  }

  -- A block behind the direct ones is still as it was when they are freed.
  after_slots :
      {fs1 : Fs}
      → Freed sb fs ip.addrs ndirect 0 fs1
      → (k : ℕ) → ndirect ≤ k
      → k ≤ maxfile
      → block fs ip k ≢ 0
      → IsData sb fs1 (block fs ip k)
  after_slots f k l u n =
      let d = i.data_ k u n in
      record {
        in_fs = d.in_fs;
        marked =
            f.kept (block fs ip k)
              (λ j a b z q. i.once j k (omega arith) u n (direct_block j b ∙ q))
            ∙ d.marked;
        not_map = d.not_map;
      }

  pub entries-Row :
      {fs1 : Fs}
      → ip.addrs ndirect ≢ 0
      → Freed sb fs ip.addrs ndirect 0 fs1
      → Row sb fs1 (λ k. get_32 (fs.disk (ip.addrs ndirect)) (k * 4)) nindirect 0
  entries-Row n f = record {
    data_ = λ j l u z.
        let at = entry_block n j u in
        subst (IsData sb _) at
          (after_slots f (j + ndirect) (omega arith) (omega arith) (λ q. z (sym at ∙ q)));
    apart = λ j k l u z q.
        i.once (j + ndirect) (k + ndirect) (omega arith) (omega arith)
          (λ w. z (sym (entry_block n k u) ∙ w))
          (entry_block n j (omega arith) ∙ q ∙ sym (entry_block n k u));
  }

-- The marks of all blocks of an inode are gone, and no others.
pub record Emptied (sb : Super) (fs : Fs) (ip : Inode) (fs' : Fs) : Type 0 where
  pub gone : (k : ℕ) → k ≤ maxfile → block fs ip k ≢ 0 → used sb fs' (block fs ip k) ≡ 0
  pub kept :
      (c : ℕ)
      → ((k : ℕ) → k ≤ maxfile → block fs ip k ≢ 0 → block fs ip k ≢ c)
      → used sb fs' c ≡ used sb fs c
  pub disks : (c : ℕ) → ((x : ℕ) → x < sb.size → bblock x sb ≢ c) → fs'.disk c ≡ fs.disk c

module _ {sb : Super} {fs : Fs} {ip : Inode} (m : IsFs sb fs) (i : IsInode sb fs ip) {fs1 : Fs}
    (f : Freed sb fs ip.addrs ndirect 0 fs1) where
  -- Without an indirect block the first loop does it.
  pub slots-Emptied : ip.addrs ndirect ≡ 0 → Emptied sb fs ip fs1
  slots-Emptied z = record {
    gone = λ k u n. elim (dec_lt k ndirect) [
      | yes l ↦
          let at = direct_block m i k l in
          ap (used sb fs1) at ∙ f.gone k (omega arith) l (λ q. n (at ∙ q))
      | no l ↦ absurd (n (no_entry m i z k (omega arith) u))
    ];
    kept = λ c n. f.kept c (λ j a b q.
        subst (λ x. x ≢ c) (direct_block m i j b)
          (n j (omega arith) (λ w. q (sym (direct_block m i j b) ∙ w))));
    disks = f.disks;
  }

  module _ (n : ip.addrs ndirect ≢ 0) {fs2 : Fs}
      (g : Freed sb fs1 (λ k. get_32 (fs.disk (ip.addrs ndirect)) (k * 4)) nindirect 0 fs2) where
    entry_at :
        (k : ℕ)
        → ndirect ≤ k
        → k < maxfile
        → block fs ip k ≡ get_32 (fs.disk (ip.addrs ndirect)) ((k - ndirect) * 4)
    entry_at k l u =
        let index : k ≡ k - ndirect + ndirect = omega arith in
        ap (block fs ip) index ∙ entry_block m i n (k - ndirect) (omega arith)

    indirect_at : block fs ip maxfile ≡ ip.addrs ndirect
    indirect_at = slot_block fs ip ndirect (omega arith)

    pub indirect-IsData : IsData sb fs2 (ip.addrs ndirect)
    indirect-IsData =
        let some_block : block fs ip maxfile ≢ 0 = λ q. n (sym indirect_at ∙ q) in
        let d =
          subst (IsData sb fs1) indirect_at
            (after_slots m i f maxfile (omega arith) (omega arith) some_block) in
        record {
          in_fs = d.in_fs;
          marked =
              g.kept (ip.addrs ndirect) (λ j a b z q.
                i.once (j + ndirect) maxfile (omega arith) (omega arith) some_block
                  (entry_block m i n j b ∙ q ∙ sym indirect_at))
              ∙ d.marked;
          not_map = d.not_map;
        }

    module _ {fs3 : Fs} (o : FreedOne sb fs2 (ip.addrs ndirect) fs3) where
      still_gone : (c : ℕ) → used sb fs2 c ≡ 0 → used sb fs3 c ≡ 0
      still_gone c z = ground (arith, o.marks c, z)

      pub indirect-Emptied : Emptied sb fs ip fs3
      indirect-Emptied = record {
        gone = λ k u z. elim (dec_lt k ndirect) [
          | yes l ↦
              let at = direct_block m i k l in
              ap (used sb fs3) at
              ∙ still_gone (ip.addrs k) (
                  g.kept (ip.addrs k) (λ j a b w q.
                    i.once k (j + ndirect) (omega (arith, l)) (omega (arith, b))
                      (λ e. w (sym (entry_block m i n j b) ∙ e))
                      (at ∙ sym q ∙ sym (entry_block m i n j b)))
                  ∙ f.gone k (omega arith) l (λ q. z (at ∙ q)))
          | no l ↦ elim (dec_lt k maxfile) [
            | yes v ↦
                let at = entry_at k (omega (arith, l)) v in
                ap (used sb fs3) at
                ∙ still_gone (get_32 (fs.disk (ip.addrs ndirect)) ((k - ndirect) * 4))
                    (g.gone (k - ndirect) (omega arith) (omega (arith, l, v)) (λ q. z (at ∙ q)))
            | no v ↦
                let last : k ≡ maxfile = omega (arith, u, v) in
                ap (used sb fs3) (ap (block fs ip) last ∙ indirect_at)
                ∙ ground (arith, o.marks (ip.addrs ndirect), n)
          ]
        ];
        kept = λ c w.
            let last : ip.addrs ndirect ≢ c =
              subst (λ x. x ≢ c) indirect_at
                (w maxfile (omega arith) (λ q. n (sym indirect_at ∙ q))) in
            ground (arith, o.marks c, last)
            ∙ g.kept c (λ j a b q.
              subst (λ x. x ≢ c) (entry_block m i n j b)
                (w (j + ndirect) (omega (arith, b)) (λ e. q (sym (entry_block m i n j b) ∙ e))))
            ∙ f.kept c (λ j a b q.
              subst (λ x. x ≢ c) (direct_block m i j b)
                (w j (omega (arith, b)) (λ e. q (sym (direct_block m i j b) ∙ e))));
        disks = λ c x. o.same_disks c x ∙ g.disks c x ∙ f.disks c x;
      }
