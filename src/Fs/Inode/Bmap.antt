-- ===== src/Fs/Inode/Bmap.antt =====
-- `bmap`.
use operating_systems_class.Prelude.{
  ℕ, ◌+◌, ◌-◌, ◌*◌, ◌≤◌, ◌<◌, ◌≡◌, ◌≢◌, ◌==◌, if◌then◌else◌, arith, ap, ◌∙◌, sym, subst,
}
use native.Mathlib.Decide.{ℕ_discrete, dec_lt}
use operating_systems_class.Fs.{Super, Fs, log_block}
use operating_systems_class.Fs.Bitmap.{used, IsFs, Taken}
use operating_systems_class.Fs.Inode.{Inode, ndirect, nindirect, maxfile, get_32, put_32, put_addr}
use operating_systems_class.Fs.Inode.Words.{get_32-put_32, get_32-put_32_ne}
use operating_systems_class.Fs.Inode.Blocks.{block, IsData, IsInode, Grown}

-- The index of `ip->addrs[k]` among the blocks.
abbrev pub slot : ℕ → ℕ
slot k = if k == ndirect then maxfile else k

pub slot_block : (fs : Fs) (ip : Inode) (k : ℕ) → k ≤ ndirect → block fs ip (slot k) ≡ ip.addrs k
unfolding block
slot_block fs ip k h = elim (ℕ_discrete k ndirect) [
  | yes e ↦ let at : ip.addrs ndirect ≡ ip.addrs k = ap ip.addrs (sym e) in ground (arith, e, at)
  | no e ↦ ground (arith, e)
]

-- A word of a block that the allocation of `b` has not touched.
get_32_same : (d d' : ℕ → ℕ) (o : ℕ) → d' ≡ d → get_32 d' o ≡ get_32 d o
get_32_same d d' o e = λ i. get_32 (e i) o

module _ {sb : Super} {fs : Fs} {ip : Inode} (m : IsFs sb fs) (i : IsInode sb fs ip) where
  -- The allocation of `b` leaves the indirect block as it was.
  indirect_same :
      {fs' : Fs} {b : ℕ}
      → Taken sb fs fs' b
      → ip.addrs ndirect ≢ 0
      → fs'.disk (ip.addrs ndirect) ≡ fs.disk (ip.addrs ndirect)
  indirect_same {fs'} {b} t n =
      let at = slot_block fs ip ndirect (omega arith) in
      let d : IsData sb fs (ip.addrs ndirect) =
        subst (IsData sb fs) at (i.data_ maxfile (omega arith) (λ z. n (sym at ∙ z))) in
      t.others (ip.addrs ndirect) (λ e. ground (arith, ap (used sb fs) e, d.marked, t.was_free))
        (λ e. d.not_map b t.in_fs (sym e))

  pub slot-Grown :
      (k : ℕ) {fs' : Fs} {b : ℕ}
      → k ≤ ndirect
      → ip.addrs k ≡ 0
      → Taken sb fs fs' b
      → Grown sb fs ip (slot k) b fs' (record ip { addrs = put_addr ip.addrs k b })
  unfolding block
  slot-Grown k {fs'} {b} h z t =
      let nb : b ≢ 0 = λ e. ground (arith, ap (used sb fs) e, m.boot_used, t.was_free) in
      record {
        in_file = ground arith;
        was_none = slot_block fs ip k h ∙ z;
        blocks = λ j l.
            let o = (j - ndirect) * 4 in
            let zero_word : get_32 (fs'.disk b) o ≡ 0 =
              ground (arith, t.zeroed o, t.zeroed (o + 1), t.zeroed (o + 2), t.zeroed (o + 3)) in
            elim (ℕ_discrete k ndirect) [
              | yes e ↦
                  let none_there : ip.addrs ndirect ≡ 0 = ap ip.addrs (sym e) ∙ z in
                  ground (arith, e, none_there, zero_word, nb)
              | no e ↦ elim (ℕ_discrete (ip.addrs ndirect) 0) [
                | yes q ↦ ground (arith, e, q)
                | no q ↦
                    let same =
                      get_32_same (fs.disk (ip.addrs ndirect)) (fs'.disk (ip.addrs ndirect)) o
                        (indirect_same t q) in
                    ground (arith, e, q, same)
              ]
            ];
        in_fs = t.in_fs;
        was_free = t.was_free;
        marks = t.marked;
        disks = λ c n x y. t.others c n (λ e. x b t.in_fs (sym e));
        zeros = λ l o. t.zeroed o;
      }

  slot-marked : (k : ℕ) → k ≤ ndirect → ip.addrs k ≢ 0 → IsData sb fs (ip.addrs k)
  slot-marked k h n =
      let at = slot_block fs ip k h in
      subst (IsData sb fs) at (i.data_ (slot k) (ground arith) (λ z. n (sym at ∙ z)))

  pub entry-Grown :
      (bn : ℕ) {fs' : Fs} {b : ℕ}
      → bn < nindirect
      → ip.addrs ndirect ≢ 0
      → get_32 (fs.disk (ip.addrs ndirect)) (bn * 4) ≡ 0
      → Taken sb fs fs' b
      → Grown sb fs ip
          (bn + ndirect)
          b
          (log_block fs' (ip.addrs ndirect) (put_32 (fs'.disk (ip.addrs ndirect)) (bn * 4) b))
          ip
  unfolding block
  entry-Grown bn {fs'} {b} h n z t =
      let a = ip.addrs ndirect in
      let d = slot-marked ndirect (omega arith) n in
      let apart : b ≢ a = λ e. ground (arith, ap (used sb fs) e, d.marked, t.was_free) in
      record {
        in_file = omega arith;
        was_none =
            let same : get_32 (fs.disk a) ((bn + ndirect - ndirect) * 4)
                ≡ get_32 (fs.disk a) (bn * 4) =
              ap (get_32 (fs.disk a)) (omega arith) in
            ground (arith, same, z, n);
        blocks = λ j l.
            let o = (j - ndirect) * 4 in
            let d' = put_32 (fs'.disk a) (bn * 4) b in
            let same = get_32_same (fs.disk a) (fs'.disk a) o (indirect_same t n) in
            elim (ℕ_discrete j (bn + ndirect)) [
              | yes e ↦
                  let at : get_32 d' o ≡ get_32 d' (bn * 4) = ap (get_32 d') (omega arith) in
                  let word =
                    get_32-put_32 (fs'.disk a) (bn * 4) b (omega (arith, m.small, t.in_fs)) in
                  ground (arith, e, n, at, word, h)
              | no e ↦ elim (dec_lt j ndirect) [
                | yes q ↦ ground (arith, e, q)
                | no q ↦
                    let word = get_32-put_32_ne (fs'.disk a) (bn * 4) b o (omega arith) in
                    ground (arith, e, n, q, word, same)
              ]
            ];
        in_fs = t.in_fs;
        was_free = t.was_free;
        marks = λ c l. ground (arith, d.not_map c l, t.marked c l);
        disks = λ c x y w.
            let kept = t.others c x (λ e. y b t.in_fs (sym e)) in
            let other : c ≢ a = λ e. w (sym e) in ground (arith, other, kept);
        zeros = λ l o. ground (arith, apart, t.zeroed o);
      }
