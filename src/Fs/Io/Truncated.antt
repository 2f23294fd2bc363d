-- ===== src/Fs/Io/Truncated.antt =====
-- `itrunc` as a whole.
use operating_systems_class.Prelude.{
  ℕ, ◌*◌, ◌≤◌, ◌<◌, ◌≡◌, ◌≢◌, inl, inr, false, Bool-cases, ◌==◌, arith, refl, ap, ◌∙◌, sym, subst,
}
use native.Mathlib.Decide.{dec_lt}
use operating_systems_class.Run.{ok}
use operating_systems_class.Fs.{Super, Fs, bblock, bfree}
use operating_systems_class.Fs.Bitmap.{used, IsFs}
use operating_systems_class.Fs.Inode.{
  Inode, ndirect, nindirect, maxfile, get_32, put_addr, iblock, put_dinode, iupdate,
}
use operating_systems_class.Fs.Inode.Blocks.{block, IsData, IsInode}
use operating_systems_class.Fs.Inode.Bmap.{slot_block}
use operating_systems_class.Fs.Inode.Update.{
  IsHome, update_others, update_home, used-iupdate, iupdate-IsFs,
}
use operating_systems_class.Fs.Io.{itrunc, trunc_entries, trunc_indirect}
use operating_systems_class.Fs.Io.Free.{
  Row, Freed, Cleared, bfree-FreedOne, trunc_entries-Freed, trunc_slots-Freed,
}
use operating_systems_class.Fs.Io.Trunc.{
  Emptied, slots-Emptied, indirect-Emptied, indirect-IsData, slots-Row, entries-Row,
}

-- No address is left.
abbrev NoAddrs : Inode → Type 0
NoAddrs ip = (k : ℕ) → k ≤ ndirect → ip.addrs k ≡ 0

no_blocks : (fs : Fs) (ip : Inode) → NoAddrs ip → (k : ℕ) → k ≤ maxfile → block fs ip k ≡ 0
unfolding block
no_blocks fs ip z k h = elim (dec_lt k ndirect) [
  | yes l ↦ ground (arith, l, z k (omega arith))
  | no l ↦ ground (arith, l, z ndirect (omega arith))
]

indirect_run :
    (sb : Super) (fs1 : Fs) (ip1 : Inode) (fs2 fs3 : Fs)
    → (ip1.addrs ndirect == 0) ≡ false
    → trunc_entries nindirect sb fs1 (fs1.disk (ip1.addrs ndirect)) 0 ≡ ok fs2
    → bfree sb fs2 (ip1.addrs ndirect) ≡ ok fs3
    → trunc_indirect sb fs1 ip1 ≡ ok (fs3, record ip1 { addrs = put_addr ip1.addrs ndirect 0 })
unfolding trunc_indirect
indirect_run sb fs1 ip1 fs2 fs3 z run freed = rw (z, run, freed) refl

module _ {sb : Super} {fs : Fs} {ip : Inode} (m : IsFs sb fs) (i : IsInode sb fs ip) where
  trunc_indirect-Emptied :
      (fs1 : Fs) (ip1 : Inode)
      → Freed sb fs ip.addrs ndirect 0 fs1
      → Cleared ip ndirect 0 ip1
      → (fs2 : Fs) × (ip2 : Inode) × (trunc_indirect sb fs1 ip1 ≡ ok (fs2, ip2))
        × Emptied sb fs ip fs2
        × NoAddrs ip2
        × (ip2 ≡ record ip1 { addrs = ip2.addrs })
  unfolding trunc_indirect
  trunc_indirect-Emptied fs1 ip1 f c =
      let at : ip1.addrs ndirect ≡ ip.addrs ndirect = ground (arith, c.addrs_ ndirect) in
      elim (Bool-cases (ip1.addrs ndirect == 0)) [
        | inl z ↦ (
          fs1,
          ip1,
          rw z refl,
          slots-Emptied m i f (ground (arith, z, at)),
          λ k h. ground (arith, c.addrs_ k, z, h, λ (e : k ≡ ndirect). ap ip1.addrs e),
          refl,
        )
        | inr z ↦
            let n : ip.addrs ndirect ≢ 0 = ground (arith, z, at) in
            let not_map : (x : ℕ) → x < sb.size → bblock x sb ≢ ip.addrs ndirect = λ x l e.
              (i.data_ maxfile (omega arith)
                  (λ q. n (sym (slot_block fs ip ndirect (omega arith)) ∙ q))).not_map
                x l (e ∙ sym (slot_block fs ip ndirect (omega arith))) in
            let same : fs1.disk (ip1.addrs ndirect) ≡ fs.disk (ip.addrs ndirect) =
              ap fs1.disk at ∙ f.disks (ip.addrs ndirect) not_map in
            let (fs2, run, g) =
              trunc_entries-Freed nindirect sb fs1 (fs1.disk (ip1.addrs ndirect)) nindirect 0 refl (
                subst (λ d. Row sb fs1 (λ k. get_32 d (k * 4)) nindirect 0) (sym same)
                  (entries-Row m i n f)) in
            let g' = subst (λ d. Freed sb fs1 (λ k. get_32 d (k * 4)) nindirect 0 fs2) same g in
            let (fs3, freed, o) =
              bfree-FreedOne sb fs2 (ip.addrs ndirect) n (indirect-IsData m i f n g') in
            (
              fs3,
              record ip1 { addrs = put_addr ip1.addrs ndirect 0 },
              indirect_run sb fs1 ip1 fs2 fs3 z run (ap (bfree sb fs2) at ∙ freed),
              indirect-Emptied m i f n g' o,
              λ k h. ground (arith, c.addrs_ k, h),
              refl,
            )
      ]

-- What `itrunc` leaves.
pub record Truncated (sb : Super) (fs : Fs) (ip : Inode) (fs' : Fs) (ip' : Inode) : Type 0 where
  pub is_fs : IsFs sb fs'
  pub empty : (k : ℕ) → k ≤ maxfile → block fs' ip' k ≡ 0
  pub no_size : ip'.size ≡ 0
  pub gone : (k : ℕ) → k ≤ maxfile → block fs ip k ≢ 0 → used sb fs' (block fs ip k) ≡ 0
  pub kept :
      (c : ℕ)
      → c < sb.size
      → ((k : ℕ) → k ≤ maxfile → block fs ip k ≢ 0 → block fs ip k ≢ c)
      → used sb fs' c ≡ used sb fs c
  pub disks :
      (c : ℕ)
      → ((x : ℕ) → x < sb.size → bblock x sb ≢ c)
      → c ≢ iblock ip.inum sb
      → fs'.disk c ≡ fs.disk c
  pub saved : fs'.disk (iblock ip.inum sb) ≡ put_dinode (fs.disk (iblock ip.inum sb)) ip'
  pub fields : ip' ≡ record ip { addrs = ip'.addrs; size = 0 }

-- After the marks are gone, the inode with no block goes to the disk.
module _ {sb : Super} {fs : Fs} {ip : Inode} (m : IsFs sb fs) (i : IsInode sb fs ip)
    (h : IsHome sb fs ip) {fs2 : Fs} (e : Emptied sb fs ip fs2) where
  Emptied-IsFs : IsFs sb fs2
  Emptied-IsFs = record {
    small = m.small;
    boot_used = e.kept 0 (λ k u n q. n q) ∙ m.boot_used;
    map_in = m.map_in;
    map_used = λ c l.
        e.kept (bblock c sb) (λ k u n q. (i.data_ k u n).not_map c l (sym q)) ∙ m.map_used c l;
  }

  module _ (ip' : Inode) (z : NoAddrs ip')
      (same : ip' ≡ record ip { addrs = ip'.addrs; size = 0 }) where
    none_there : (k : ℕ) → k ≤ maxfile → block fs2 ip' k ≡ 0
    none_there = no_blocks fs2 ip' z

    no_blocks-IsInode : IsInode sb fs2 ip'
    no_blocks-IsInode = record {
      data_ = λ k l n. absurd (n (none_there k l));
      once = λ j k l u n. absurd (n (none_there k u));
    }

    home_at : iblock ip'.inum sb ≡ iblock ip.inum sb
    home_at = λ j. iblock ((same j).inum) sb

    no_blocks-IsHome : IsHome sb fs2 ip'
    no_blocks-IsHome =
        let d = h.home_data in
        record {
          some_home = λ w. h.some_home (sym home_at ∙ w);
          home_data = subst (IsData sb fs2) (sym home_at) (record {
            in_fs = d.in_fs;
            marked = e.kept (iblock ip.inum sb) (λ k u n. h.apart k u) ∙ d.marked;
            not_map = d.not_map;
          });
          apart = λ k l q. h.some_home (sym home_at ∙ sym q ∙ none_there k l);
        }

    update-Truncated : Truncated sb fs ip (iupdate sb fs2 ip') ip'
    update-Truncated =
        let m2 = Emptied-IsFs in
        let i2 = no_blocks-IsInode in
        let h2 = no_blocks-IsHome in
        let d = h.home_data in
        record {
          is_fs = iupdate-IsFs m2 i2 h2;
          empty = no_blocks (iupdate sb fs2 ip') ip' z;
          no_size = λ j. (same j).size;
          gone =
              λ k l n. used-iupdate m2 i2 h2 (block fs ip k) ((i.data_ k l n).in_fs) ∙ e.gone k l n;
          kept = λ c l n. used-iupdate m2 i2 h2 c l ∙ e.kept c n;
          disks = λ c x n. update_others m2 i2 h2 c (λ q. n (q ∙ home_at)) ∙ e.disks c x;
          saved =
              (λ j. (iupdate sb fs2 ip').disk (sym home_at j))
              ∙ update_home m2 i2 h2
              ∙ (λ j. put_dinode (fs2.disk (home_at j)) ip')
              ∙ λ j. put_dinode (e.disks (iblock ip.inum sb) d.not_map j) ip';
          fields = same;
        }

-- On a file system and an inode in order, `itrunc` returns: no block that it frees is free already. The inode has
-- no blocks and size 0 then, in memory and on the disk. The marks of all its blocks are gone, the
-- indirect one included, and no other mark; no block changes but those of the free map and that of the
-- inode on the disk.
pub itrunc-Truncated :
    (sb : Super) (fs : Fs) (ip : Inode)
    → IsFs sb fs
    → IsInode sb fs ip
    → IsHome sb fs ip
    → (fs' : Fs) × (ip' : Inode) × (itrunc sb fs ip ≡ ok (fs', ip')) × Truncated sb fs ip fs' ip'
unfolding itrunc
itrunc-Truncated sb fs ip m i h =
    let (fs1, ip1, run1, f, c) =
      trunc_slots-Freed ndirect sb fs ip ip.addrs ndirect 0 refl (slots-Row m i) (λ j l. refl) in
    let (fs2, ip2, run2, e, z, keep) = trunc_indirect-Emptied m i fs1 ip1 f c in
    let ip3 : Inode = record ip2 { size = 0 } in
    let same : ip3 ≡ record ip { addrs = ip2.addrs; size = 0 } =
      (λ j. record (keep j) { size = 0 }) ∙ λ j. record (c.fields j) {
        addrs = ip2.addrs;
        size = 0;
      } in
    (iupdate sb fs2 ip3, ip3, rw (run1, run2) refl, update-Truncated m i h e ip3 z same)
