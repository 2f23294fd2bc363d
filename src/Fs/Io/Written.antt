-- ===== src/Fs/Io/Written.antt =====
-- `writei` with its tests and the update of the inode on the disk.
use operating_systems_class.Prelude.{
  ℕ, ◌+◌, ◌-◌, ◌*◌, ◌/◌, ◌%◌, ◌^◌, ◌≤◌, ◌<◌, ◌≡◌, ◌≢◌, ◌⊎◌, inl, inr, true, false, Bool-cases, ltb,
  leb, ◌&&◌, ◌||◌, if◌then◌else◌, arith, refl, ap, ◌∙◌, sym, subst, Option, none, some,
}
use operating_systems_class.Run.{ok}
use operating_systems_class.Fs.{bsize, Super, Fs}
use operating_systems_class.Fs.Bitmap.{used, IsFs}
use operating_systems_class.Fs.Inode.{Inode, maxfile, iblock, put_dinode, iupdate}
use operating_systems_class.Fs.Inode.Blocks.{block, IsData, IsInode}
use operating_systems_class.Fs.Inode.Update.{
  IsHome, update_others, update_home, used-iupdate, iupdate-IsFs, iupdate-IsInode, iupdate-IsHome,
  update_blocks, content-iupdate, resize, resize-block, resize-content, resize-IsInode,
  resize-IsHome,
}
use operating_systems_class.Fs.Inode.Keeps.{Extends}
use operating_systems_class.Fs.Io.{grow_size, writei}
use operating_systems_class.Fs.Io.Store.{byte}
use operating_systems_class.Fs.Io.Write.{
  Replaced, Stop, all_written, disk_full, cannot_copy, Wrote, write_loop-Wrote,
}

-- What a write that is not refused leaves, with the result `tot`.
pub record Written (sb : Super) (copyin : ℕ → ℕ → ℕ) (src : ℕ → ℕ) (fs : Fs) (ip : Inode)
    (off n : ℕ) (fs' : Fs) (ip' : Inode) (tot : ℕ) : Type 0 where
  pub is_fs : IsFs sb fs'
  pub is_inode : IsInode sb fs' ip'
  pub is_home : IsHome sb fs' ip'
  pub count : tot ≤ n
  pub sized : ip'.size ≡ (if ltb ip.size (off + tot) then off + tot else ip.size)
  pub present : (x : ℕ) → off ≤ x → x < off + tot → block fs' ip' (x / bsize) ≢ 0
  pub extra : ℕ
  pub replaced : Replaced fs ip src off (off + tot + extra) 0 fs' ip'
  pub stop : Stop sb copyin n fs' (off + tot) tot extra
  pub saved : fs'.disk (iblock ip.inum sb) ≡ put_dinode (fs.disk (iblock ip.inum sb)) ip'
  pub foreign :
      (c : ℕ)
      → IsData sb fs c
      → ((k : ℕ) → k ≤ maxfile → block fs ip k ≢ c)
      → c ≢ iblock ip.inum sb
      → fs'.disk c ≡ fs.disk c

pub data Outcome (sb : Super) (copyin : ℕ → ℕ → ℕ) (src : ℕ → ℕ) (fs : Fs) (ip : Inode) (off n : ℕ)
    : Fs × Inode × Option ℕ → Type 0 where
  refused :
      ip.size < off ⊎ maxfile * bsize < off + n → Outcome sb copyin src fs ip off n (fs, ip, none)
  accepted :
      (fs' : Fs) (ip' : Inode) (tot : ℕ)
      → off ≤ ip.size
      → off + n ≤ maxfile * bsize
      → Written sb copyin src fs ip off n fs' ip' tot
      → Outcome sb copyin src fs ip off n (fs', ip', some tot)

-- The reason to stop does not depend on more than the marks.
Stop-marks :
    (sb : Super) (copyin : ℕ → ℕ → ℕ) (n : ℕ) (fs fs' : Fs) (off tot extra : ℕ)
    → ((c : ℕ) → c < sb.size → used sb fs' c ≡ used sb fs c)
    → Stop sb copyin n fs off tot extra
    → Stop sb copyin n fs' off tot extra
Stop-marks sb copyin n fs fs' off tot _ same (all_written e) = all_written e
Stop-marks sb copyin n fs fs' off tot _ same (disk_full f) = disk_full (λ c h. same c h ∙ f c h)
Stop-marks sb copyin n fs fs' off tot _ same (cannot_copy l) = cannot_copy l

module _ {sb : Super} {fs : Fs} {ip : Inode} (i : IsInode sb fs ip) (h : IsHome sb fs ip) {fs' : Fs}
    {ip' : Inode} (e : Extends sb fs ip fs' ip') where
  home_kept : IsData sb fs' (iblock ip.inum sb)
  home_kept = record {
    in_fs = h.home_data.in_fs;
    marked = e.marks (iblock ip.inum sb) h.home_data.in_fs h.home_data.marked;
    not_map = h.home_data.not_map;
  }

  home_apart : (k : ℕ) → k ≤ maxfile → block fs' ip' k ≢ iblock ip.inum sb
  home_apart k l q = elim (e.blocks k l) [
    | inl p ↦ h.apart k l (sym p ∙ q)
    | inr (u, z) ↦ ground (arith, ap (used sb fs) q, z, h.home_data.marked)
  ]

-- `writei` after the loop.
module _ {sb : Super} {copyin : ℕ → ℕ → ℕ} {src : ℕ → ℕ} {fs : Fs} {ip : Inode} {off n : ℕ}
    (i : IsInode sb fs ip) (h : IsHome sb fs ip) (fs' : Fs) (ip' : Inode) (off' tot : ℕ)
    (w : Wrote sb copyin src fs ip off n 0 (fs', ip', off', tot)) where
  end : off' ≡ off + tot
  end = omega (arith, w.moved)

  -- The size after the write.
  abbrev final : ℕ
  final = if ltb ip.size (off + tot) then off + tot else ip.size

  grow_size-final : grow_size ip' off' ≡ resize ip' final
  unfolding grow_size
  grow_size-final =
      let size : ip'.size ≡ ip.size = λ j. (w.ext.fields j).size in
      elim (Bool-cases (ltb ip'.size off')) [
        | inl e ↦ rw e (λ j. resize ip' (longer size e j))
        | inr e ↦ rw e (λ j. resize ip' (shorter size e j))
      ]
    where
      longer : ip'.size ≡ ip.size → ltb ip'.size off' ≡ true → off' ≡ final
      longer size e = ground (arith, size, e, end)

      shorter : ip'.size ≡ ip.size → ltb ip'.size off' ≡ false → ip'.size ≡ final
      shorter size e = ground (arith, size, e, end)

  same_inum : iblock ip'.inum sb ≡ iblock ip.inum sb
  same_inum = λ j. iblock ((w.ext.fields j).inum) sb

  home : IsHome sb fs' (resize ip' final)
  home = resize-IsHome final (record {
    some_home = λ z. h.some_home (sym same_inum ∙ z);
    home_data = subst (IsData sb fs') (sym same_inum) (home_kept i h w.ext);
    apart = λ k l q. home_apart i h w.ext k l (q ∙ same_inum);
  })

  update-Written :
      off + n ≤ maxfile * bsize
      → Written sb copyin src fs ip off n (iupdate sb fs' (resize ip' final)) (resize ip' final) tot
  update-Written fits =
      let inode = resize-IsInode final w.ext.is_inode in
      record {
        is_fs = iupdate-IsFs w.ext.is_fs inode home;
        is_inode = iupdate-IsInode w.ext.is_fs inode home;
        is_home = iupdate-IsHome w.ext.is_fs inode home;
        count = w.count.1;
        sized = refl;
        present = λ x l u z. w.present x l (omega (arith, end, u)) (
            sym (resize-block fs' ip' final (x / bsize))
            ∙ sym (
                update_blocks w.ext.is_fs inode home (x / bsize)
                  (omega (arith, fits, u, w.count.1)))
            ∙ z);
        extra = w.extra;
        replaced = λ x l.
            content-iupdate w.ext.is_fs inode home (x / bsize) (x % bsize) (omega arith)
            ∙ resize-content fs' ip' final (x / bsize) (x % bsize)
            ∙ w.replaced x l
            ∙ moved x;
        stop =
            Stop-marks sb copyin n fs' (iupdate sb fs' (resize ip' final)) (off + tot) tot w.extra
              (used-iupdate w.ext.is_fs inode home)
              (subst (λ o. Stop sb copyin n fs' o tot w.extra) end w.stop);
        saved =
            (λ j. (iupdate sb fs' (resize ip' final)).disk (sym same_inum j))
            ∙ update_home w.ext.is_fs inode home
            ∙ (λ j. put_dinode (fs'.disk (same_inum j)) (resize ip' final))
            ∙ λ j.
                put_dinode (w.ext.foreign (iblock ip.inum sb) h.home_data h.apart j)
                  (resize ip' final);
        foreign = λ c d a q.
            update_others w.ext.is_fs inode home c (λ z. q (z ∙ same_inum)) ∙ w.ext.foreign c d a;
      }
    where
      moved :
          (x : ℕ)
          → (if leb off x && ltb x (off' + w.extra) then src (0 + (x - off)) else byte fs ip x) ≡ (
              if leb off x && ltb x (off + tot + w.extra)
              then src (0 + (x - off))
              else byte fs ip x)
      moved x =
          λ j. if leb off x && ltb x (end j + w.extra) then src (0 + (x - off)) else byte fs ip x

-- On a file system and an inode in order, `writei` returns for every offset and length of 32 bits. It refuses
-- with -1, and changes nothing, exactly when the offset is past the end of the file or the bytes end
-- past MAXFILE blocks. Otherwise it returns a count `tot` up to `n`; the bytes of the file from `off` on
-- are the first `tot` of the source, the size is the larger of the old one and `off + tot`, the inode
-- on the disk is that in memory, and everything stays in order. It stops before `n` only when all
-- blocks are marked, or when a copy from the source fails; then the bytes copied before the error stand behind
-- those counted. No other byte of the file and no block of another file changes.
pub writei-Outcome :
    (sb : Super) (copyin : ℕ → ℕ → ℕ) (src : ℕ → ℕ) (fs : Fs) (ip : Inode) (off n : ℕ)
    → IsFs sb fs
    → IsInode sb fs ip
    → IsHome sb fs ip
    → off < 2 ^ 32
    → n < 2 ^ 32
    → (r : Fs × Inode × Option ℕ) × (writei sb copyin src fs ip off n ≡ ok r)
      × Outcome sb copyin src fs ip off n r
unfolding writei
writei-Outcome sb copyin src fs ip off n m i h small_off small_n =
    elim (Bool-cases (ltb ip.size off || ltb ((off + n) % 2 ^ 32) off)) [
      | inl e ↦ ((fs, ip, none), rw e refl, refused (ground (arith, e)))
      | inr e ↦ elim (Bool-cases (ltb (maxfile * bsize) ((off + n) % 2 ^ 32))) [
        | inl l ↦ ((fs, ip, none), rw (e, l) refl, refused (ground (arith, e, l)))
        | inr l ↦
            let ((fs', ip', off', tot), run, w) =
              write_loop-Wrote n sb copyin src fs ip off n 0 m i (omega arith) (omega arith)
                (ground (arith, e, l)) in
            (
              (iupdate sb fs' (grow_size ip' off'), grow_size ip' off', some tot),
              rw (e, l, run) refl,
              rw (grow_size-final i h fs' ip' off' tot w) (
                  accepted (iupdate sb fs' (resize ip' (final i h fs' ip' off' tot w)))
                    (resize ip' (final i h fs' ip' off' tot w)) tot (ground (arith, e))
                    (ground (arith, e, l))
                    (update-Written i h fs' ip' off' tot w (ground (arith, e, l)))),
            )
      ]
    ]
