-- ===== src/Fs/Inode/Update.antt =====
-- `iupdate`: the inode on the disk, in a block of its own.
use operating_systems_class.Prelude.{ℕ, ◌≤◌, ◌<◌, ◌≡◌, ◌≢◌, true, ◌==◌, arith, refl, ◌∙◌, sym}
use operating_systems_class.Fs.{Super, Fs}
use operating_systems_class.Fs.Bitmap.{used, IsFs}
use operating_systems_class.Fs.Inode.{Inode, maxfile, iblock, put_dinode, iupdate}
use operating_systems_class.Fs.Inode.Blocks.{block, IsData, IsInode, content}
use operating_systems_class.Fs.Inode.Change.{same_blocks, same_used, change-IsFs, change-IsInode}

-- The block of the inode on the disk is a data block and not one of the file.
pub record IsHome (sb : Super) (fs : Fs) (ip : Inode) : Type 0 where
  pub some_home : iblock ip.inum sb ≢ 0
  pub home_data : IsData sb fs (iblock ip.inum sb)
  pub apart : (k : ℕ) → k ≤ maxfile → block fs ip k ≢ iblock ip.inum sb

-- The update of the inode on the disk, which is a block apart.
module _ {sb : Super} {fs : Fs} {ip : Inode} (m : IsFs sb fs) (i : IsInode sb fs ip)
    (h : IsHome sb fs ip) where
  pub update_others : (b : ℕ) → b ≢ iblock ip.inum sb → (iupdate sb fs ip).disk b ≡ fs.disk b
  unfolding iupdate
  update_others b n = ground (arith, n)

  pub update_home :
      (iupdate sb fs ip).disk (iblock ip.inum sb) ≡ put_dinode (fs.disk (iblock ip.inum sb)) ip
  unfolding iupdate
  update_home =
      let same : (iblock ip.inum sb == iblock ip.inum sb) ≡ true = ground arith in rw same refl

  pub update_blocks : (k : ℕ) → k ≤ maxfile → block (iupdate sb fs ip) ip k ≡ block fs ip k
  update_blocks =
      same_blocks m i h.home_data (λ z. h.apart maxfile (omega arith)) (iupdate sb fs ip)
        update_others

  pub used-iupdate : (b : ℕ) → b < sb.size → used sb (iupdate sb fs ip) b ≡ used sb fs b
  used-iupdate =
      same_used m i h.home_data (λ z. h.apart maxfile (omega arith)) (iupdate sb fs ip)
        update_others

  pub iupdate-IsFs : IsFs sb (iupdate sb fs ip)
  iupdate-IsFs =
      change-IsFs m i h.home_data (λ z. h.apart maxfile (omega arith)) (iupdate sb fs ip)
        update_others

  pub iupdate-IsInode : IsInode sb (iupdate sb fs ip) ip
  iupdate-IsInode =
      change-IsInode m i h.home_data (λ z. h.apart maxfile (omega arith)) (iupdate sb fs ip)
        update_others

  pub iupdate-IsHome : IsHome sb (iupdate sb fs ip) ip
  iupdate-IsHome = record {
    some_home = h.some_home;
    home_data = record {
      in_fs = h.home_data.in_fs;
      marked = used-iupdate (iblock ip.inum sb) h.home_data.in_fs ∙ h.home_data.marked;
      not_map = h.home_data.not_map;
    };
    apart = λ k l q. h.apart k l (sym (update_blocks k l) ∙ q);
  }

  pub content-iupdate :
      (k o : ℕ) → k < maxfile → content (iupdate sb fs ip) ip k o ≡ content fs ip k o
  content-iupdate k o l =
      let same = update_blocks k (omega arith) in
      let bytes : (iupdate sb fs ip).disk (block (iupdate sb fs ip) ip k) o
          ≡ fs.disk (block fs ip k) o =
        (λ t. (iupdate sb fs ip).disk (same t) o) ∙ λ t.
        update_others (block fs ip k) (h.apart k (omega arith)) t o in
      ground (arith, same, bytes)

-- The size is no part of what the blocks are.
abbrev pub resize : Inode → ℕ → Inode
resize ip n = record ip { size = n }

pub resize-block : (fs : Fs) (ip : Inode) (n k : ℕ) → block fs (resize ip n) k ≡ block fs ip k
unfolding block
resize-block fs ip n k = refl

pub resize-content :
    (fs : Fs) (ip : Inode) (n k o : ℕ) → content fs (resize ip n) k o ≡ content fs ip k o
unfolding block
resize-content fs ip n k o = refl

pub resize-IsInode :
    {sb : Super} {fs : Fs} {ip : Inode} (n : ℕ) → IsInode sb fs ip → IsInode sb fs (resize ip n)
unfolding block
resize-IsInode n i = record { data_ = i.data_; once = i.once }

pub resize-IsHome :
    {sb : Super} {fs : Fs} {ip : Inode} (n : ℕ) → IsHome sb fs ip → IsHome sb fs (resize ip n)
unfolding block
resize-IsHome n h = record { some_home = h.some_home; home_data = h.home_data; apart = h.apart }
