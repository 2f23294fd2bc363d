-- ===== src/Fs/Io/Write.antt =====
-- `writei`.
use operating_systems_class.Prelude.{
  ℕ, zero, suc, ◌+◌, ◌-◌, ◌*◌, ◌/◌, ◌%◌, ◌≤◌, ◌<◌, ◌≡◌, ◌≢◌, inl, inr, true, false, Bool-cases, ltb,
  leb, ◌&&◌, ◌==◌, if◌then◌else◌, arith, refl, ap, ◌∙◌, sym,
}
use native.Mathlib.Decide.{ℕ_discrete, dec_lt}
use operating_systems_class.Run.{ok}
use operating_systems_class.Fs.{bsize, Super, Fs, log_block, change_block}
use operating_systems_class.Fs.Bitmap.{used, IsFs}
use operating_systems_class.Fs.Inode.{Inode, maxfile}
use operating_systems_class.Fs.Inode.Blocks.{block, IsInode, content}
use operating_systems_class.Fs.Inode.Keeps.{Extends, Extends-refl, Extends-trans, Extends-present}
use operating_systems_class.Fs.Inode.Mapped.{Mapped, bmap-Mapped}
use operating_systems_class.Fs.Io.{copy_bytes, chunk, write_loop}
use operating_systems_class.Fs.Io.Store.{byte, Stored, Stored-Extends, Stored-content}

-- The bytes of the file from `lo` up to `hi` are those of `src` from `tot` on, and the others are kept.
abbrev pub Replaced : Fs → Inode → (src : ℕ → ℕ) → (lo hi tot : ℕ) → Fs → Inode → Type 0
Replaced fs ip src lo hi tot fs' ip' =
    (x : ℕ)
    → x < maxfile * bsize
    → byte fs' ip' x ≡ (if leb lo x && ltb x hi then src (tot + (x - lo)) else byte fs ip x)

-- One round: `bmap` of the block of `off`, and `q` bytes stored in it.
module _ {sb : Super} {fs : Fs} {ip : Inode} (off q tot : ℕ) (src : ℕ → ℕ) {fs1 : Fs} {ip1 : Inode}
    {a : ℕ} {fs2 : Fs} (mapped : Mapped sb fs ip (off / bsize) fs1 ip1 a)
    (s : Stored fs1 ip1 (off / bsize) a (copy_bytes (fs1.disk a) (off % bsize) q src tot) fs2)
    (h : q ≤ bsize - off % bsize) where
  round-Replaced : Replaced fs ip src off (off + q) tot fs2 ip1
  round-Replaced x l =
      let e = mapped.keeps.ext in
      let stored = Stored-content e.is_fs e.is_inode s (x / bsize) (x % bsize) (omega arith) in
      let kept = mapped.keeps.contents (x / bsize) (x % bsize) (omega arith) in
      elim (ℕ_discrete (x / bsize) (off / bsize)) [
        | yes k ↦
            let at : block fs1 ip1 (x / bsize) ≡ a = ap (block fs1 ip1) k ∙ s.address in
            let some_block : block fs1 ip1 (x / bsize) ≢ 0 = λ z. s.some_block (sym at ∙ z) in
            let o = x % bsize in
            let shown : content fs1 ip1 (x / bsize) o ≡ fs1.disk (block fs1 ip1 (x / bsize)) o =
              ground (arith, some_block) in
            let old : fs1.disk a o ≡ byte fs ip x =
              (λ t. fs1.disk (sym at t) o) ∙ sym shown ∙ kept in
            let index : off ≤ x → src (tot + (o - off % bsize)) ≡ src (tot + (x - off)) =
              λ le. ap src (omega arith) in
            elim (dec_lt x off) [
              | yes b ↦ ground (arith, stored, k, old)
              | no b ↦ ground (arith, stored, k, old, index (omega arith))
            ]
        | no k ↦ ground (arith, stored, k, kept)
      ]

-- Why a write stops, and how many bytes it has changed without counting them.
pub data Stop (sb : Super) (copyin : ℕ → ℕ → ℕ) (n : ℕ) (fs : Fs) (off tot : ℕ)
    : (extra : ℕ) → Type 0 where
  all_written : tot ≡ n → Stop sb copyin n fs off tot 0
  disk_full : ((c : ℕ) → c < sb.size → used sb fs c ≡ 1) → Stop sb copyin n fs off tot 0
  cannot_copy :
      copyin tot (chunk n tot off) < chunk n tot off
      → Stop sb copyin n fs off tot (copyin tot (chunk n tot off))

-- What the loop of `writei` leaves.
pub record Wrote (sb : Super) (copyin : ℕ → ℕ → ℕ) (src : ℕ → ℕ) (fs : Fs) (ip : Inode)
    (off n tot : ℕ) (r : Fs × Inode × ℕ × ℕ) : Type 0 where
  pub ext : Extends sb fs ip r.0 r.1
  pub count : tot ≤ r.3 × r.3 ≤ n
  pub moved : r.2 + tot ≡ off + r.3
  pub present : (x : ℕ) → off ≤ x → x < r.2 → block r.0 r.1 (x / bsize) ≢ 0
  pub extra : ℕ
  pub replaced : Replaced fs ip src off (r.2 + extra) tot r.0 r.1
  pub stop : Stop sb copyin n r.0 r.2 r.3 extra

not_below : (x y : ℕ) → y ≤ x → ¬ (x < y)
not_below x y l u = omega arith

nothing-Replaced :
    (fs : Fs) (ip : Inode) (src : ℕ → ℕ) (off tot : ℕ) → Replaced fs ip src off (off + 0) tot fs ip
nothing-Replaced fs ip src off tot x h = ground arith

-- A round, and the rounds after it.
Replaced-trans :
    (fs fs1 fs2 : Fs) (ip ip1 ip2 : Inode) (src : ℕ → ℕ) (off m tot hi : ℕ)
    → off + m ≤ hi
    → Replaced fs ip src off (off + m) tot fs1 ip1
    → Replaced fs1 ip1 src (off + m) hi (tot + m) fs2 ip2
    → Replaced fs ip src off hi tot fs2 ip2
Replaced-trans fs fs1 fs2 ip ip1 ip2 src off m tot hi h a b x l = elim (dec_lt x (off + m)) [
  | yes q ↦ b x l ∙ ground (arith, q, a x l)
  | no q ↦
      let index : src (tot + m + (x - (off + m))) ≡ src (tot + (x - off)) = ap src (omega arith) in
      b x l ∙ ground (arith, q, a x l, index)
]

-- A round followed by what the rounds after it leave.
Wrote-step :
    {sb : Super} {fs : Fs} {ip : Inode} (copyin : ℕ → ℕ → ℕ) (src : ℕ → ℕ) (off n tot q : ℕ)
    {fs1 : Fs} {ip1 : Inode} {a : ℕ} {fs2 : Fs} {r : Fs × Inode × ℕ × ℕ}
    → Mapped sb fs ip (off / bsize) fs1 ip1 a
    → Stored fs1 ip1 (off / bsize) a (copy_bytes (fs1.disk a) (off % bsize) q src tot) fs2
    → q ≤ bsize - off % bsize
    → Wrote sb copyin src fs2 ip1 (off + q) n (tot + q) r
    → Wrote sb copyin src fs ip off n tot r
Wrote-step {sb} {fs} {ip} copyin src off n tot q {fs1} {ip1} {a} {fs2} {r} mapped s h w = record {
  ext = Extends-trans (Extends-trans mapped.keeps.ext second) w.ext;
  count = (omega (arith, w.count.0), w.count.1);
  moved = omega (arith, w.moved);
  present = λ x l u. elim (dec_lt x (off + q)) [
    | yes b ↦
        Extends-present second.is_fs w.ext (x / bsize) (omega (arith, s.in_file, h)) (here x l b)
    | no b ↦ w.present x (omega arith) u
  ];
  extra = w.extra;
  replaced =
      Replaced-trans fs fs2 r.0 ip ip1 r.1 src off q tot (r.2 + w.extra)
        (omega (arith, w.moved, w.count.0)) (round-Replaced off q tot src mapped s h) w.replaced;
  stop = w.stop;
}
  where
    second : Extends sb fs1 ip1 fs2 ip1
    second = Stored-Extends mapped.keeps.ext.is_fs mapped.keeps.ext.is_inode s

    here : (x : ℕ) → off ≤ x → x < off + q → block fs2 ip1 (x / bsize) ≢ 0
    here x l b =
        let same : x / bsize ≡ off / bsize = omega arith in
        Extends-present mapped.keeps.ext.is_fs second (x / bsize) (omega (arith, s.in_file))
          (λ z. s.some_block (sym s.address ∙ sym (ap (block fs1 ip1) same) ∙ z))

pub write_loop-Wrote :
    (rounds : ℕ) (sb : Super) (copyin : ℕ → ℕ → ℕ) (src : ℕ → ℕ) (fs : Fs) (ip : Inode)
    (off n tot : ℕ)
    → IsFs sb fs
    → IsInode sb fs ip
    → tot ≤ n
    → n ≤ tot + rounds
    → off + (n - tot) ≤ maxfile * bsize
    → (r : Fs × Inode × ℕ × ℕ) × (write_loop rounds sb copyin src fs ip off n tot ≡ ok r)
      × Wrote sb copyin src fs ip off n tot r
unfolding write_loop
write_loop-Wrote zero sb copyin src fs ip off n tot m i le enough fits =
    let test : ltb tot n ≡ false = ground arith in
    (
      (fs, ip, off, tot),
      rw test refl,
      record {
        ext = Extends-refl m i;
        count = (omega arith, le);
        moved = refl;
        present = λ x l u. absurd (not_below x off l u);
        extra = 0;
        replaced = nothing-Replaced fs ip src off tot;
        stop = all_written (omega arith);
      },
    )
write_loop-Wrote (suc rounds) sb copyin src fs ip off n tot m i le enough fits =
    elim (Bool-cases (ltb tot n)) [
      | inr e ↦ (
        (fs, ip, off, tot),
        rw e refl,
        record {
          ext = Extends-refl m i;
          count = (omega arith, le);
          moved = refl;
          present = λ x l u. absurd (not_below x off l u);
          extra = 0;
          replaced = nothing-Replaced fs ip src off tot;
          stop = all_written (ground (arith, e));
        },
      )
      | inl e ↦
          let more : tot < n = ground (arith, e) in
          let ((fs1, ip1, a), run, mapped) = bmap-Mapped sb fs ip (off / bsize) m i (omega arith) in
          elim (Bool-cases (a == 0)) [
            | inl z ↦ (
              (fs1, ip1, off, tot),
              rw (e, run, z) refl,
              record {
                ext = mapped.keeps.ext;
                count = (omega arith, le);
                moved = refl;
                present = λ x l u. absurd (not_below x off l u);
                extra = 0;
                replaced = λ x h.
                    mapped.keeps.contents (x / bsize) (x % bsize) (omega arith)
                    ∙ nothing-Replaced fs ip src off tot x h;
                stop = disk_full (mapped.no_space (ground (arith, z)));
              },
            )
            | inr z ↦
                let q = chunk n tot off in
                let stored : (d : ℕ → ℕ)
                    → (fs' : Fs) → fs'.disk a ≡ d
                    → ((c : ℕ) → c ≢ a → fs'.disk c ≡ fs1.disk c)
                    → Stored fs1 ip1 (off / bsize) a d fs' =
                  λ d fs' e f. record {
                    in_file = omega (arith, fits, more);
                    some_block = ground (arith, z);
                    address = mapped.address (ground (arith, z));
                    here = e;
                    others = f;
                  } in
                elim (Bool-cases (ltb (copyin tot q) q)) [
                  | inl c ↦
                      let p = copyin tot q in
                      let short : p < q = ground (arith, c) in
                      let d = copy_bytes (fs1.disk a) (off % bsize) p src tot in
                      let fs2 = change_block fs1 a d in
                      let s = stored d fs2 (at a d (fs1.disk a)) (λ b n. ground (arith, n)) in
                      (
                        (fs2, ip1, off, tot),
                        rw (e, run, z, c) refl,
                        record {
                          ext =
                              Extends-trans mapped.keeps.ext
                                (Stored-Extends mapped.keeps.ext.is_fs mapped.keeps.ext.is_inode s);
                          count = (omega arith, le);
                          moved = refl;
                          present = λ x l u. absurd (not_below x off l u);
                          extra = p;
                          replaced = round-Replaced off p tot src mapped s (ground (arith, short));
                          stop = cannot_copy short;
                        },
                      )
                  | inr c ↦
                      let d = copy_bytes (fs1.disk a) (off % bsize) q src tot in
                      let fs2 = log_block fs1 a d in
                      let s = stored d fs2 (at a d (fs1.disk a)) (λ b n. ground (arith, n)) in
                      let ext = Stored-Extends mapped.keeps.ext.is_fs mapped.keeps.ext.is_inode s in
                      let (r, rest, w) =
                        write_loop-Wrote rounds sb copyin src fs2 ip1 (off + q) n (tot + q)
                          ext.is_fs ext.is_inode (ground arith) (ground arith) (ground arith) in
                      (
                        r,
                        rw (e, run, z, c) rest,
                        Wrote-step copyin src off n tot q mapped s (ground arith) w,
                      )
                ]
          ]
    ]
  where
    at : (a : ℕ) (d e : ℕ → ℕ) → (if a == a then d else e) ≡ d
    at a d e = let same : (a == a) ≡ true = ground arith in rw same refl
