-- ===== src/Fs/Balloc.antt =====
-- `balloc` and `bfree` on the set of marked blocks.
use operating_systems_class.Prelude.{
  ℕ, zero, suc, ◌+◌, ◌-◌, ◌*◌, ◌/◌, ◌%◌, ◌≤◌, ◌<◌, ◌≡◌, ◌≢◌, ◌⊎◌, inl, inr, Option, none, some,
  Bool-cases, ◌∷◌, leb, ◌==◌, if◌then◌else◌, arith, refl, ap, ◌∙◌,
}
use native.Mathlib.Decide.{ℕ_discrete, dec_lt}
use operating_systems_class.Run.{ok, fault}
use operating_systems_class.Fs.{
  bpb, Super, Fs, bblock, log_block, bit, set_bit, clear_bit, put_byte_at, find_bit, take_block,
  balloc_from, balloc, bfree,
}
use operating_systems_class.Fs.Bitmap.{
  bit-add, bit-sub, bit-lt, used, used-put, IsFs, Taken, Found, find_bit-Found,
}

set_bit-bit : (v i j : ℕ) → bit (set_bit v i) j ≡ (if j == i then 1 else bit v j)
set_bit-bit v i j = elim (Bool-cases (bit v i == 0)) [
  | inl z ↦ rw z (bit-add i j v (ground (arith, z)))
  | inr z ↦ rw z (elim (ℕ_discrete j i) [
    | yes e ↦ let here : bit v j ≡ bit v i = ap (bit v) e in ground (arith, z, e, here, bit-lt i v)
    | no e ↦ ground (arith, e)
  ])
]

clear_bit-bit : (v i j : ℕ) → bit (clear_bit v i) j ≡ (if j == i then 0 else bit v j)
clear_bit-bit v i j = elim (Bool-cases (bit v i == 0)) [
  | inr z ↦ rw z (bit-sub i j v (ground (arith, z, bit-lt i v)))
  | inl z ↦ rw z (elim (ℕ_discrete j i) [
    | yes e ↦ let here : bit v j ≡ bit v i = ap (bit v) e in ground (arith, z, e, here)
    | no e ↦ ground (arith, e)
  ])
]

-- The bit of block `b + j`, in the terms of the loop.
used_in :
    (sb : Super) (fs : Fs) (b j : ℕ)
    → b % bpb ≡ 0
    → j < bpb
    → used sb fs (b + j) ≡ bit (fs.disk (bblock b sb) (j / 8)) (j % 8)
used_in sb fs b j h l =
    let block : bblock (b + j) sb ≡ bblock b sb = omega arith in
    let byte : (b + j) % bpb / 8 ≡ j / 8 = omega arith in
    let at : (b + j) % 8 ≡ j % 8 = omega arith in λ i. bit (fs.disk (block i) (byte i)) (at i)

used_from :
    (sb : Super) (fs : Fs) (b c : ℕ)
    → b % bpb ≡ 0
    → b ≤ c
    → c < b + bpb
    → used sb fs c ≡ bit (fs.disk (bblock b sb) ((c - b) / 8)) ((c - b) % 8)
used_from sb fs b c h l u =
    let at : c ≡ b + (c - b) = omega arith in
    (λ i. used sb fs (at i)) ∙ used_in sb fs b (c - b) h (omega arith)

take_block-Taken :
    (sb : Super) (fs : Fs) (b : ℕ)
    → IsFs sb fs
    → b < sb.size
    → used sb fs b ≡ 0
    → ((c : ℕ) → c < b → used sb fs c ≡ 1)
    → Taken sb fs (take_block sb fs b) b
unfolding take_block
take_block-Taken sb fs b m h free first =
    let d = fs.disk (bblock b sb) in
    let o = b % bpb / 8 in
    record {
      in_fs = h;
      was_free = free;
      first = first;
      marked = λ c l.
          let apart : bblock c sb ≢ b =
            λ e. ground (arith, m.map_used c l, ap (used sb fs) e, free) in
          ground (
            arith,
            apart,
            used-put sb fs b (set_bit (d o) (b % 8)) 1 (set_bit-bit (d o) (b % 8)) c,
          );
      zeroed = λ o. ground arith;
      others = λ c n k. ground (arith, n, k);
      logged = refl;
    }

pub data Allocated (sb : Super) (fs : Fs) : Fs × ℕ → Type 0 where
  out_of_blocks : ((c : ℕ) → c < sb.size → used sb fs c ≡ 1) → Allocated sb fs (fs, 0)
  fresh : {fs' : Fs} {b : ℕ} → Taken sb fs fs' b → Allocated sb fs (fs', b)

balloc_from-Allocated :
    (rounds : ℕ) (sb : Super) (fs : Fs) (b : ℕ)
    → IsFs sb fs
    → b % bpb ≡ 0
    → sb.size ≤ b + rounds * bpb
    → ((c : ℕ) → c < b → c < sb.size → used sb fs c ≡ 1)
    → Allocated sb fs (balloc_from rounds sb fs b)
unfolding balloc_from
balloc_from-Allocated zero sb fs b m al h all = out_of_blocks (λ c l. all c (omega arith) l)
balloc_from-Allocated (suc rounds) sb fs b m al h all = elim (Bool-cases (leb sb.size b)) [
  | inl e ↦ rw e (out_of_blocks (λ c l. all c (ground (arith, e)) l))
  | inr e ↦ rw e (
      go (find_bit bpb (fs.disk (bblock b sb)) sb.size b 0)
        (find_bit-Found bpb (fs.disk (bblock b sb)) sb.size b 0)
        (λ more. balloc_from-Allocated rounds sb fs (b + bpb) m (omega arith) (omega arith) more))
]
  where
    go :
        (found : Option ℕ)
        → Found (fs.disk (bblock b sb)) sb.size b 0 bpb found
        → (((c : ℕ) → c < b + bpb → c < sb.size → used sb fs c ≡ 1)
            → Allocated sb fs (balloc_from rounds sb fs (b + bpb)))
        → Allocated sb fs (elim found [
          | none ↦ balloc_from rounds sb fs (b + bpb)
          | some bi ↦ (take_block sb fs (b + bi), b + bi)
        ])
    go none f rest = rest (λ c l s. elim (dec_lt c b) [
      | yes q ↦ all c q s
      | no q ↦
          used_from sb fs b c al (omega arith) l
          ∙ f (c - b) (omega arith) (omega arith) (omega arith)
    ])
    go (some k) (l, u, s, z, f) rest = fresh (
        take_block-Taken sb fs (b + k) m s (used_in sb fs b k al u ∙ z) (λ c l. elim (dec_lt c b) [
          | yes q ↦ all c q (omega arith)
          | no q ↦
              used_from sb fs b c al (omega arith) (omega arith)
              ∙ f (c - b) (omega arith) (omega arith)
        ]))

-- On a file system whose free map marks its own blocks, `balloc` returns 0 with nothing changed only if every
-- block is marked; otherwise it takes the first block that is not marked, marks it and no other,
-- fills it with zeros, changes nothing but that block and its block of the free map, and hands
-- these two to the log.
pub balloc-Allocated : (sb : Super) (fs : Fs) → IsFs sb fs → Allocated sb fs (balloc sb fs)
unfolding balloc
balloc-Allocated sb fs m =
    balloc_from-Allocated sb.size sb fs 0 m (omega arith) (omega arith)
      (λ c l s. absurd (omega arith))

-- `bfree` panics on a block that is not marked; it takes the mark of a marked block away, with all other marks
-- and all blocks outside the free map as they were.
pub bfree_refines :
    (sb : Super) (fs : Fs) (b : ℕ)
    → ((used sb fs b ≡ 0) × (bfree sb fs b ≡ fault))
      ⊎ ((used sb fs b ≡ 1)
          × ((fs' : Fs) × (bfree sb fs b ≡ ok fs')
              × ((c : ℕ) → used sb fs' c ≡ (if c == b then 0 else used sb fs c))
              × ((c : ℕ) → c ≢ bblock b sb → fs'.disk c ≡ fs.disk c)
              × (fs'.written ≡ bblock b sb ∷ fs.written)))
unfolding bfree
bfree_refines sb fs b =
    let d = fs.disk (bblock b sb) in
    let o = b % bpb / 8 in
    elim (Bool-cases (bit (d o) (b % 8) == 0)) [
      | inl z ↦ inl (ground (arith, z), rw z refl)
      | inr z ↦ inr (
        ground (arith, z, bit-lt (b % 8) (d o)),
        (
          log_block fs (bblock b sb) (put_byte_at d o (clear_bit (d o) (b % 8))),
          rw z refl,
          used-put sb fs b (clear_bit (d o) (b % 8)) 0 (clear_bit-bit (d o) (b % 8)),
          λ c n. ground (arith, n),
          refl,
        ),
      )
    ]

-- `bfree` of a block that `balloc` has just returned succeeds, and leaves the same blocks marked as before.
pub bfree-balloc :
    (sb : Super) (fs : Fs)
    → IsFs sb fs
    → (balloc sb fs).1 ≢ 0
    → (fs' : Fs) × (bfree sb (balloc sb fs).0 (balloc sb fs).1 ≡ ok fs')
      × ((c : ℕ) → c < sb.size → used sb fs' c ≡ used sb fs c)
bfree-balloc sb fs m n = go (balloc sb fs) (balloc-Allocated sb fs m) n
  where
    go :
        (r : Fs × ℕ)
        → Allocated sb fs r
        → r.1 ≢ 0
        → (fs' : Fs) × (bfree sb r.0 r.1 ≡ ok fs')
          × ((c : ℕ) → c < sb.size → used sb fs' c ≡ used sb fs c)
    go r (out_of_blocks all) n = absurd (n refl)
    go (fs1, b) (fresh t) n = elim (bfree_refines sb fs1 b) [
      | inl (z, f) ↦ absurd (ground (arith, z, t.marked b t.in_fs))
      | inr (z, (fs2, freed, unmarked, same, logged)) ↦
          (fs2, freed, λ c l. ground (arith, unmarked c, t.marked c l, t.was_free))
    ]
