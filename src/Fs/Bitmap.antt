-- ===== src/Fs/Bitmap.antt =====
-- The free map as a set of blocks.
use operating_systems_class.Prelude.{
  ℕ, zero, suc, ◌+◌, ◌-◌, ◌/◌, ◌%◌, ◌^◌, ◌≤◌, ◌<◌, ◌≡◌, ◌≢◌, inl, inr, Option, none, some,
  Bool-cases, ◌∷◌, leb, ◌==◌, if◌then◌else◌, arith, ap, sym, ◌∙◌,
}
use native.Mathlib.Decide.{ℕ_discrete}
use operating_systems_class.Fs.{bpb, Super, Fs, bblock, log_block, bit, put_byte_at, find_bit}

pub bit-add : (i j v : ℕ) → bit v i ≡ 0 → bit (v + 2 ^ i) j ≡ (if j == i then 1 else bit v j)
unfolding bit
bit-add zero zero v h = ground arith
bit-add zero (suc j) v h =
    let half : bit ((v + 2 ^ 0) / 2) j ≡ bit (v / 2) j = ap (λ w. bit w j) (omega arith) in
    ground (arith, half)
bit-add (suc i) zero v h = ground arith
bit-add (suc i) (suc j) v h =
    let half : bit ((v + 2 ^ suc i) / 2) j ≡ bit (v / 2 + 2 ^ i) j =
      ap (λ w. bit w j) (omega arith) in
    half ∙ bit-add i j (v / 2) h ∙ ground arith

pub bit-le : (i v : ℕ) → bit v i ≡ 1 → 2 ^ i ≤ v
unfolding bit
bit-le zero v h = omega arith
bit-le (suc i) v h = omega (arith, bit-le i (v / 2) h)

pub bit-sub : (i j v : ℕ) → bit v i ≡ 1 → bit (v - 2 ^ i) j ≡ (if j == i then 0 else bit v j)
unfolding bit
bit-sub zero zero v h = ground arith
bit-sub zero (suc j) v h =
    let half : bit ((v - 2 ^ 0) / 2) j ≡ bit (v / 2) j = ap (λ w. bit w j) (omega arith) in
    ground (arith, half)
bit-sub (suc i) zero v h = ground (arith, bit-le (suc i) v h)
bit-sub (suc i) (suc j) v h =
    let half : bit ((v - 2 ^ suc i) / 2) j ≡ bit (v / 2 - 2 ^ i) j =
      ap (λ w. bit w j) (omega arith) in
    half ∙ bit-sub i j (v / 2) h ∙ ground arith

pub bit-lt : (i v : ℕ) → bit v i < 2
unfolding bit
bit-lt zero v = omega arith
bit-lt (suc i) v = bit-lt i (v / 2)

-- Block `b` is marked in the free map.
abbrev pub used : Super → Fs → ℕ → ℕ
used sb fs b = bit (fs.disk (bblock b sb) (b % bpb / 8)) (b % 8)

-- A change of one bit of the free map, for the block that holds it and for any other.
pub used-put :
    (sb : Super) (fs : Fs) (b v x : ℕ)
    → ((j : ℕ) → bit v j ≡ (if j == b % 8 then x else bit (fs.disk (bblock b sb) (b % bpb / 8)) j))
    → (c : ℕ)
    → used sb (log_block fs (bblock b sb) (put_byte_at (fs.disk (bblock b sb)) (b % bpb / 8) v)) c
      ≡ (if c == b then x else used sb fs c)
used-put sb fs b v x h c = elim (ℕ_discrete c b) [
  | yes e ↦ ground (arith, e, h (c % 8))
  | no e ↦ elim (ℕ_discrete (bblock c sb) (bblock b sb)) [
    | no other ↦ ground (arith, e, other)
    | yes same ↦ elim (ℕ_discrete (c % bpb / 8) (b % bpb / 8)) [
      | no other ↦
          let here : fs.disk (bblock b sb) (c % bpb / 8) ≡ fs.disk (bblock c sb) (c % bpb / 8) =
            ap (λ d. fs.disk d (c % bpb / 8)) (sym same) in
          ground (arith, e, same, other, here)
      | yes byte ↦
          let differ : c % 8 ≢ b % 8 = omega arith in
          let here : fs.disk (bblock b sb) (b % bpb / 8) ≡ fs.disk (bblock c sb) (c % bpb / 8) =
            (λ i. fs.disk (sym same i) (sym byte i)) in
          let bits : bit (fs.disk (bblock b sb) (b % bpb / 8)) (c % 8)
              ≡ bit (fs.disk (bblock c sb) (c % bpb / 8)) (c % 8) =
            ap (λ z. bit z (c % 8)) here in
          ground (arith, e, same, byte, differ, h (c % 8), bits)
    ]
  ]
]

-- The free map lies inside of the file system, and its own blocks and the boot block are marked in it.
pub record IsFs (sb : Super) (fs : Fs) : Type 0 where
  pub small : sb.size ≤ 2 ^ 32
  pub boot_used : used sb fs 0 ≡ 1
  pub map_in : (c : ℕ) → c < sb.size → bblock c sb < sb.size
  pub map_used : (c : ℕ) → c < sb.size → used sb fs (bblock c sb) ≡ 1

-- What the allocation of block `b` leaves.
pub record Taken (sb : Super) (fs : Fs) (fs' : Fs) (b : ℕ) : Type 0 where
  pub in_fs : b < sb.size
  pub was_free : used sb fs b ≡ 0
  pub first : (c : ℕ) → c < b → used sb fs c ≡ 1
  pub marked : (c : ℕ) → c < sb.size → used sb fs' c ≡ (if c == b then 1 else used sb fs c)
  pub zeroed : (o : ℕ) → fs'.disk b o ≡ 0
  pub others : (c : ℕ) → c ≢ b → c ≢ bblock b sb → fs'.disk c ≡ fs.disk c
  pub logged : fs'.written ≡ b ∷ bblock b sb ∷ fs.written

-- What the inner loop of `balloc` finds.
abbrev pub Found : (d : ℕ → ℕ) → (size b bi rounds : ℕ) → Option ℕ → Type 0
Found d size b bi rounds none =
    (j : ℕ) → bi ≤ j → j < bi + rounds → b + j < size → bit (d (j / 8)) (j % 8) ≡ 1
Found d size b bi rounds (some k) =
    bi ≤ k
    × k < bi + rounds
    × b + k < size
    × (bit (d (k / 8)) (k % 8) ≡ 0)
    × ((j : ℕ) → bi ≤ j → j < k → bit (d (j / 8)) (j % 8) ≡ 1)

pub find_bit-Found :
    (rounds : ℕ) (d : ℕ → ℕ) (size b bi : ℕ)
    → Found d size b bi rounds (find_bit rounds d size b bi)
unfolding find_bit
find_bit-Found zero d size b bi = λ j l u s. absurd (omega arith)
find_bit-Found (suc rounds) d size b bi = elim (Bool-cases (leb size (b + bi))) [
  | inl e ↦ rw e (λ j l u s. absurd (ground (arith, e)))
  | inr e ↦ elim (Bool-cases (bit (d (bi / 8)) (bi % 8) == 0)) [
    | inl z ↦
        rw (e, z)
          (
            omega arith,
            omega arith,
            ground (arith, e),
            ground (arith, z),
            λ j l u. absurd (omega arith),
          )
    | inr z ↦
        rw (e, z)
          (later (find_bit rounds d size b (bi + 1)) (find_bit-Found rounds d size b (bi + 1))
            (ground (arith, z, bit-lt (bi % 8) (d (bi / 8)))))
  ]
]
  where
    from_here :
        (k : ℕ)
        → bit (d (bi / 8)) (bi % 8) ≡ 1
        → ((j : ℕ) → bi + 1 ≤ j → j < k → bit (d (j / 8)) (j % 8) ≡ 1)
        → (j : ℕ) → bi ≤ j
        → j < k
        → bit (d (j / 8)) (j % 8) ≡ 1
    from_here k here f j l u = elim (ℕ_discrete j bi) [
      | yes q ↦ (λ i. bit (d (q i / 8)) (q i % 8)) ∙ here
      | no q ↦ f j (omega arith) u
    ]

    later :
        (r : Option ℕ)
        → Found d size b (bi + 1) rounds r
        → bit (d (bi / 8)) (bi % 8) ≡ 1
        → Found d size b bi (suc rounds) r
    later none f here = λ j l u s. elim (ℕ_discrete j bi) [
      | yes q ↦ (λ i. bit (d (q i / 8)) (q i % 8)) ∙ here
      | no q ↦ f j (omega arith) (omega arith) s
    ]
    later (some k) (l, u, s, z, f) here = (omega arith, omega arith, s, z, from_here k here f)
