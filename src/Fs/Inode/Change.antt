-- ===== src/Fs/Inode/Change.antt =====
-- The change of one data block that is not the indirect block of an inode.
use operating_systems_class.Prelude.{
  ℕ, ◌-◌, ◌*◌, ◌/◌, ◌%◌, ◌≤◌, ◌<◌, ◌≡◌, ◌≢◌, arith, ◌∙◌, sym, subst,
}
use native.Mathlib.Decide.{ℕ_discrete}
use operating_systems_class.Fs.{Super, Fs, bblock, bpb, bit}
use operating_systems_class.Fs.Bitmap.{used, IsFs}
use operating_systems_class.Fs.Inode.{Inode, ndirect, maxfile, get_32}
use operating_systems_class.Fs.Inode.Blocks.{block, IsData, IsInode}

module _ {sb : Super} {fs : Fs} {ip : Inode} {c : ℕ} (m : IsFs sb fs) (i : IsInode sb fs ip)
    (f : IsData sb fs c) (n : block fs ip maxfile ≢ 0 → block fs ip maxfile ≢ c) (fs' : Fs)
    (others : (b : ℕ) → b ≢ c → fs'.disk b ≡ fs.disk b) where
  pub same_blocks : (j : ℕ) → j ≤ maxfile → block fs' ip j ≡ block fs ip j
  unfolding block
  same_blocks j h = elim (ℕ_discrete (ip.addrs ndirect) 0) [
    | yes z ↦ ground (arith, z)
    | no q ↦
        let same : get_32 (fs'.disk (ip.addrs ndirect)) ((j - ndirect) * 4)
            ≡ get_32 (fs.disk (ip.addrs ndirect)) ((j - ndirect) * 4) =
          λ t. get_32 (others (ip.addrs ndirect) (n q) t) ((j - ndirect) * 4) in
        ground (arith, q, same)
  ]

  pub same_used : (b : ℕ) → b < sb.size → used sb fs' b ≡ used sb fs b
  same_used b h = λ t. bit (others (bblock b sb) (f.not_map b h) t (b % bpb / 8)) (b % 8)

  pub change-IsFs : IsFs sb fs'
  change-IsFs = record {
    small = m.small;
    boot_used = same_used 0 (omega (arith, f.in_fs)) ∙ m.boot_used;
    map_in = m.map_in;
    map_used = λ b h. same_used (bblock b sb) (m.map_in b h) ∙ m.map_used b h;
  }

  pub change-IsInode : IsInode sb fs' ip
  change-IsInode = record {
    data_ = λ j h q.
        let g = i.data_ j h (λ z. q (same_blocks j h ∙ z)) in
        subst (IsData sb fs') (sym (same_blocks j h)) (record {
          in_fs = g.in_fs;
          marked = same_used (block fs ip j) g.in_fs ∙ g.marked;
          not_map = g.not_map;
        });
    once = λ j l u h q e.
        i.once j l u h (λ z. q (same_blocks l h ∙ z))
          (sym (same_blocks j (omega arith)) ∙ e ∙ same_blocks l h);
  }
