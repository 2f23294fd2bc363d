-- ===== src/Fs/Inode/Blocks.antt =====
-- The blocks of an inode, and what it is to get one more.
use operating_systems_class.Prelude.{
  ℕ, ◌-◌, ◌*◌, ◌≤◌, ◌<◌, ◌≡◌, ◌≢◌, ltb, ◌==◌, if◌then◌else◌, arith, ap, ◌∙◌, sym, subst,
}
use native.Mathlib.Decide.{ℕ_discrete}
use operating_systems_class.Fs.{Super, Fs, bblock}
use operating_systems_class.Fs.Bitmap.{used, IsFs}
use operating_systems_class.Fs.Inode.{Inode, ndirect, maxfile, get_32}

-- The block of each index below MAXFILE, and that of the index MAXFILE, which is the indirect block; 0 for
-- none.
unfoldable pub block : Fs → Inode → ℕ → ℕ
block fs ip k =
    if ltb k ndirect
    then ip.addrs k
    else if k == maxfile
    then ip.addrs ndirect
    else if ip.addrs ndirect == 0
    then 0
    else get_32 (fs.disk (ip.addrs ndirect)) ((k - ndirect) * 4)

-- A marked block of the file system that is not one of the free map.
pub record IsData (sb : Super) (fs : Fs) (a : ℕ) : Type 0 where
  pub in_fs : a < sb.size
  pub marked : used sb fs a ≡ 1
  pub not_map : (c : ℕ) → c < sb.size → bblock c sb ≢ a

-- Each block of an inode is a data block, and no two are the same.
pub record IsInode (sb : Super) (fs : Fs) (ip : Inode) : Type 0 where
  pub data_ : (k : ℕ) → k ≤ maxfile → block fs ip k ≢ 0 → IsData sb fs (block fs ip k)
  pub once : (j k : ℕ) → j < k → k ≤ maxfile → block fs ip k ≢ 0 → block fs ip j ≢ block fs ip k

-- The byte at `o` of block `k` of the file; a block that is not there is all zeros.
abbrev pub content : Fs → Inode → ℕ → ℕ → ℕ
content fs ip k o = if block fs ip k == 0 then 0 else fs.disk (block fs ip k) o

-- Block `p` has got the new block `b`.
pub record Grown (sb : Super) (fs : Fs) (ip : Inode) (p b : ℕ) (fs' : Fs) (ip' : Inode)
    : Type 0 where
  pub in_file : p ≤ maxfile
  pub was_none : block fs ip p ≡ 0
  pub blocks : (k : ℕ) → k ≤ maxfile → block fs' ip' k ≡ (if k == p then b else block fs ip k)
  pub in_fs : b < sb.size
  pub was_free : used sb fs b ≡ 0
  pub marks : (c : ℕ) → c < sb.size → used sb fs' c ≡ (if c == b then 1 else used sb fs c)
  pub disks :
      (c : ℕ)
      → c ≢ b
      → ((x : ℕ) → x < sb.size → bblock x sb ≢ c)
      → block fs' ip' maxfile ≢ c
      → fs'.disk c ≡ fs.disk c
  pub zeros : p < maxfile → (o : ℕ) → fs'.disk b o ≡ 0

module _ {sb : Super} {fs : Fs} {ip : Inode} {p b : ℕ} {fs' : Fs} {ip' : Inode} (m : IsFs sb fs)
    (i : IsInode sb fs ip) (g : Grown sb fs ip p b fs' ip') where
  pub Grown-IsFs : IsFs sb fs'
  Grown-IsFs = record {
    small = m.small;
    boot_used = ground (arith, g.marks 0 (omega (arith, g.in_fs)), m.boot_used);
    map_in = m.map_in;
    map_used = λ c h. ground (arith, g.marks (bblock c sb) (m.map_in c h), m.map_used c h);
  }

  -- The new block is no other block of the inode.
  pub other_block : (k : ℕ) → k ≤ maxfile → block fs ip k ≢ 0 → block fs ip k ≢ b
  other_block k h n e = ground (arith, ap (used sb fs) e, (i.data_ k h n).marked, g.was_free)

  pub kept_IsData : (k : ℕ) → k ≤ maxfile → block fs ip k ≢ 0 → IsData sb fs' (block fs ip k)
  kept_IsData k h n =
      let d = i.data_ k h n in
      record {
        in_fs = d.in_fs;
        marked = ground (arith, g.marks (block fs ip k) d.in_fs, d.marked);
        not_map = d.not_map;
      }

  pub new_IsData : IsData sb fs' b
  new_IsData = record {
    in_fs = g.in_fs;
    marked = ground (arith, g.marks b g.in_fs);
    not_map = λ c h e. ground (arith, ap (used sb fs) e, m.map_used c h, g.was_free);
  }

  pub block_new : (k : ℕ) → k ≤ maxfile → k ≡ p → block fs' ip' k ≡ b
  block_new k h e = ground (arith, g.blocks k h, e)

  pub block_old : (k : ℕ) → k ≤ maxfile → k ≢ p → block fs' ip' k ≡ block fs ip k
  block_old k h e = ground (arith, g.blocks k h, e)

  pub Grown-IsInode : b ≢ 0 → IsInode sb fs' ip'
  Grown-IsInode nb = record {
    data_ = λ k h n. elim (ℕ_discrete k p) [
      | yes e ↦ subst (IsData sb fs') (sym (block_new k h e)) new_IsData
      | no e ↦
          subst (IsData sb fs') (sym (block_old k h e))
            (kept_IsData k h (λ z. n (block_old k h e ∙ z)))
    ];
    once = λ j k l h n. elim (ℕ_discrete k p) [
      | yes e ↦
          let here = block_new k h e in
          let there = block_old j (omega arith) (omega arith) in
          elim (ℕ_discrete (block fs ip j) 0) [
            | yes z ↦ λ q. nb (sym here ∙ sym q ∙ there ∙ z)
            | no z ↦ λ q. other_block j (omega arith) z (sym there ∙ q ∙ here)
          ]
      | no e ↦
          let there = block_old k h e in
          let some_block : block fs ip k ≢ 0 = λ z. n (there ∙ z) in
          elim (ℕ_discrete j p) [
            | yes f ↦
                λ q. other_block k h some_block (sym there ∙ sym q ∙ block_new j (omega arith) f)
            | no f ↦ λ q. i.once j k l h some_block (sym (block_old j (omega arith) f) ∙ q ∙ there)
          ]
    ];
  }

  -- The content of the file is as it was.
  pub Grown-content : b ≢ 0 → (k o : ℕ) → k < maxfile → content fs' ip' k o ≡ content fs ip k o
  Grown-content nb k o h = elim (ℕ_discrete k p) [
    | yes e ↦
        let here = block_new k (omega arith) e in
        let was : block fs ip k ≡ 0 = ap (block fs ip) e ∙ g.was_none in
        let zero_byte : fs'.disk (block fs' ip' k) o ≡ 0 =
          (λ j. fs'.disk (here j) o) ∙ g.zeros (omega arith) o in
        ground (arith, was, zero_byte)
    | no e ↦
        let there = block_old k (omega arith) e in
        elim (ℕ_discrete (block fs ip k) 0) [
          | yes z ↦ ground (arith, there, z)
          | no z ↦
              let some_block : block fs' ip' k ≢ 0 = λ q. z (sym there ∙ q) in
              let apart : block fs' ip' maxfile ≢ block fs ip k = λ q.
                (Grown-IsInode nb).once k maxfile h (omega arith) (λ w. z (sym q ∙ w))
                  (there ∙ sym q) in
              let same : fs'.disk (block fs' ip' k) o ≡ fs.disk (block fs ip k) o =
                (λ j. fs'.disk (there j) o) ∙ λ j.
                g.disks (block fs ip k) (other_block k (omega arith) z)
                  ((i.data_ k (omega arith) z).not_map) apart j o in
              ground (arith, some_block, z, same)
        ]
  ]
