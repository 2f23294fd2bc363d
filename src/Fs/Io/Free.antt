-- ===== src/Fs/Io/Free.antt =====
-- The loops of `itrunc`, which free a row of blocks.
use operating_systems_class.Prelude.{
  ℕ, zero, suc, ◌+◌, ◌*◌, ◌≤◌, ◌<◌, ◌≡◌, ◌≢◌, inl, inr, Bool-cases, ltb, leb, ◌&&◌, ◌==◌,
  if◌then◌else◌, arith, refl, ap, ◌∙◌, sym,
}
use native.Mathlib.Decide.{ℕ_discrete}
use operating_systems_class.Run.{ok}
use operating_systems_class.Fs.{Super, Fs, bblock, bfree}
use operating_systems_class.Fs.Bitmap.{used}
use operating_systems_class.Fs.Balloc.{bfree_refines}
use operating_systems_class.Fs.Inode.{Inode, get_32, put_addr}
use operating_systems_class.Fs.Inode.Blocks.{IsData}
use operating_systems_class.Fs.Io.{free_if, trunc_slots, trunc_entries}

-- The addresses from `addr i` up to `addr (n - 1)`, less those that are 0, are different data blocks.
pub record Row (sb : Super) (fs : Fs) (addr : ℕ → ℕ) (n i : ℕ) : Type 0 where
  pub data_ : (j : ℕ) → i ≤ j → j < n → addr j ≢ 0 → IsData sb fs (addr j)
  pub apart : (j k : ℕ) → j < k → k < n → addr k ≢ 0 → addr j ≢ addr k

-- Their marks are taken away, and nothing else.
pub record Freed (sb : Super) (fs : Fs) (addr : ℕ → ℕ) (n i : ℕ) (fs' : Fs) : Type 0 where
  pub gone : (j : ℕ) → i ≤ j → j < n → addr j ≢ 0 → used sb fs' (addr j) ≡ 0
  pub kept :
      (c : ℕ) → ((j : ℕ) → i ≤ j → j < n → addr j ≢ 0 → addr j ≢ c) → used sb fs' c ≡ used sb fs c
  pub disks : (c : ℕ) → ((x : ℕ) → x < sb.size → bblock x sb ≢ c) → fs'.disk c ≡ fs.disk c

-- A single block.
pub record FreedOne (sb : Super) (fs : Fs) (a : ℕ) (fs' : Fs) : Type 0 where
  pub marks : (c : ℕ) → used sb fs' c ≡ (if (c == a) && ltb 0 a then 0 else used sb fs c)
  pub same_disks : (c : ℕ) → ((x : ℕ) → x < sb.size → bblock x sb ≢ c) → fs'.disk c ≡ fs.disk c

pub bfree-FreedOne :
    (sb : Super) (fs : Fs) (a : ℕ)
    → a ≢ 0
    → IsData sb fs a
    → (fs' : Fs) × (bfree sb fs a ≡ ok fs') × FreedOne sb fs a fs'
bfree-FreedOne sb fs a n d = elim (bfree_refines sb fs a) [
  | inl (z, f) ↦ absurd (ground (arith, z, d.marked))
  | inr (z, (fs', run, marks, disks, logged)) ↦ (
    fs',
    run,
    record {
      marks = λ c. ground (arith, marks c, n);
      same_disks = λ c x. disks c (λ e. x a d.in_fs (sym e));
    },
  )
]

pub free_if-FreedOne :
    (sb : Super) (fs : Fs) (a : ℕ)
    → (a ≢ 0 → IsData sb fs a)
    → (fs' : Fs) × (free_if sb fs a ≡ ok fs') × FreedOne sb fs a fs'
unfolding free_if
free_if-FreedOne sb fs a d = elim (Bool-cases (a == 0)) [
  | inl z ↦ (fs, rw z refl, record { marks = λ c. ground (arith, z); same_disks = λ c x. refl })
  | inr z ↦
      let n : a ≢ 0 = ground (arith, z) in
      let (fs', run, f) = bfree-FreedOne sb fs a n (d n) in (fs', rw z run, f)
]

module _ {sb : Super} {fs : Fs} {addr : ℕ → ℕ} {n i : ℕ} (r : Row sb fs addr n i) (h : i < n)
    {fs1 : Fs} (f : FreedOne sb fs (addr i) fs1) where
  Row-next : Row sb fs1 addr n (i + 1)
  Row-next = record {
    data_ = λ j l u z.
        let d = r.data_ j (omega arith) u z in
        record {
          in_fs = d.in_fs;
          marked = ground (arith, f.marks (addr j), d.marked, r.apart i j (omega arith) u z);
          not_map = d.not_map;
        };
    apart = r.apart;
  }

  Freed-next : (fs' : Fs) → Freed sb fs1 addr n (i + 1) fs' → Freed sb fs addr n i fs'
  Freed-next fs' g = record {
    gone = λ j l u z. elim (ℕ_discrete j i) [
      | yes e ↦
          let same : addr j ≡ addr i = ap addr e in
          let others : (k : ℕ) → i + 1 ≤ k → k < n → addr k ≢ 0 → addr k ≢ addr j =
            λ k lk uk zk q. r.apart i k (omega arith) uk zk (sym same ∙ sym q) in
          g.kept (addr j) others ∙ ground (arith, f.marks (addr j), same, z)
      | no e ↦ g.gone j (omega (arith, e)) u z
    ];
    kept = λ c m.
        g.kept c (λ j l u z. m j (omega arith) u z)
        ∙ ground (arith, f.marks c, m i (omega arith) h);
    disks = λ c x. g.disks c x ∙ f.same_disks c x;
  }

Freed-none : {sb : Super} {fs : Fs} {addr : ℕ → ℕ} {n i : ℕ} → n ≤ i → Freed sb fs addr n i fs
Freed-none h = record {
  gone = λ j l u z. absurd (omega arith);
  kept = λ c m. refl;
  disks = λ c x. refl;
}

pub trunc_entries-Freed :
    (rounds : ℕ) (sb : Super) (fs : Fs) (d : ℕ → ℕ) (n j : ℕ)
    → j + rounds ≡ n
    → Row sb fs (λ k. get_32 d (k * 4)) n j
    → (fs' : Fs) × (trunc_entries rounds sb fs d j ≡ ok fs')
      × Freed sb fs (λ k. get_32 d (k * 4)) n j fs'
unfolding trunc_entries
trunc_entries-Freed zero sb fs d n j e r = (fs, refl, Freed-none (omega arith))
trunc_entries-Freed (suc rounds) sb fs d n j e r =
    let (fs1, run, f) =
      free_if-FreedOne sb fs (get_32 d (j * 4)) (λ z. r.data_ j (omega arith) (omega arith) z) in
    let (fs', rest, g) =
      trunc_entries-Freed rounds sb fs1 d n (j + 1) (omega arith) (Row-next r (omega arith) f) in
    (fs', rw run rest, Freed-next r (omega arith) f fs' g)

-- What the first loop leaves in memory.
pub record Cleared (ip : Inode) (n i : ℕ) (ip' : Inode) : Type 0 where
  pub addrs_ : (j : ℕ) → ip'.addrs j ≡ (if leb i j && ltb j n then 0 else ip.addrs j)
  pub fields : ip' ≡ record ip { addrs = ip'.addrs }

pub trunc_slots-Freed :
    (rounds : ℕ) (sb : Super) (fs : Fs) (ip : Inode) (addr : ℕ → ℕ) (n i : ℕ)
    → i + rounds ≡ n
    → Row sb fs addr n i
    → ((j : ℕ) → i ≤ j → ip.addrs j ≡ addr j)
    → (fs' : Fs) × (ip' : Inode) × (trunc_slots rounds sb fs ip i ≡ ok (fs', ip'))
      × Freed sb fs addr n i fs'
      × Cleared ip n i ip'
unfolding trunc_slots
trunc_slots-Freed zero sb fs ip addr n i e r same = (
  fs,
  ip,
  refl,
  Freed-none (omega arith),
  record { addrs_ = λ j. ground (arith, e); fields = refl },
)
trunc_slots-Freed (suc rounds) sb fs ip addr n i e r same =
    let at : ip.addrs i ≡ addr i = same i (omega arith) in
    let (fs1, run, f) =
      free_if-FreedOne sb fs (addr i) (λ z. r.data_ i (omega arith) (omega arith) z) in
    let ip1 : Inode = record ip { addrs = put_addr ip.addrs i 0 } in
    let (fs', ip', rest, g, c) =
      trunc_slots-Freed rounds sb fs1 ip1 addr n (i + 1) (omega arith) (Row-next r (omega arith) f)
        (λ j l. ground (arith, same j (omega arith))) in
    (
      fs',
      ip',
      rw (at, run) rest,
      Freed-next r (omega arith) f fs' g,
      record { addrs_ = λ j. ground (arith, c.addrs_ j, e); fields = c.fields },
    )
