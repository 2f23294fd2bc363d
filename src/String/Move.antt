-- ===== src/String/Move.antt =====
-- `memset` and `memmove`.
use operating_systems_class.Prelude.{
  ℕ, zero, suc, ◌+◌, ◌-◌, ◌%◌, ◌≤◌, ◌≡◌, ◌⊎◌, inl, inr, arith, ap, ◌∙◌, leb, ltb, ◌&&◌,
  if◌then◌else◌, Bool-cases, ◌==◌,
}
use native.Mathlib.Decide.{ℕ_discrete, dec_lt}
use operating_systems_class.String.{Memory, store, memset, memset_from, memmove, move_down, move_up}

memset_from-byte :
    (rounds : ℕ) (m : Memory) (dst c i j : ℕ)
    → memset_from rounds m dst c i j
      ≡ (if leb (dst + i) j && ltb j (dst + i + rounds) then c % 256 else m j)
unfolding memset_from
memset_from-byte zero m dst c i j = ground arith
memset_from-byte (suc rounds) m dst c i j =
    memset_from-byte rounds (store m (dst + i) (c % 256)) dst c (i + 1) j ∙ ground arith

-- `memset` sets each of the `n` bytes from `dst` on to the low byte of `c`, and no other.
pub memset-byte :
    (m : Memory) (dst c n j : ℕ)
    → memset m dst c n j ≡ (if leb dst j && ltb j (dst + n) then c % 256 else m j)
unfolding memset
memset-byte m dst c n j = memset_from-byte n m dst c 0 j ∙ ground arith

-- The byte at `j` after a copy of `n` bytes.
abbrev pub copied : Memory → (d s n j : ℕ) → ℕ
copied m d s n j = if leb d j && ltb j (d + n) then m (s + (j - d)) else m j

-- One byte at the start, and the rest from the memory that this leaves.
pub up_step :
    (m : Memory) (d s n j : ℕ)
    → d ≤ s ⊎ s + suc n ≤ d
    → copied (store m d (m s)) (d + 1) (s + 1) n j ≡ copied m d s (suc n) j
up_step m d s n j o = elim (dec_lt d j) [
  | yes l ↦
      let idx : s + 1 + (j - (d + 1)) ≡ s + (j - d) = omega arith in
      let same : m (s + 1 + (j - (d + 1))) ≡ m (s + (j - d)) = ap m idx in ground (arith, same)
  | no l ↦ elim (ℕ_discrete j d) [
    | yes e ↦
        let idx : s ≡ s + (j - d) = omega arith in
        let same : m s ≡ m (s + (j - d)) = ap m idx in ground (arith, same, e)
    | no e ↦ ground (arith, e)
  ]
]

-- One byte at the end.
down_step :
    (m : Memory) (d s n j : ℕ)
    → s ≤ d
    → copied (store m (d + n) (m (s + n))) d s n j ≡ copied m d s (suc n) j
down_step m d s n j o = elim (ℕ_discrete j (d + n)) [
  | yes e ↦
      let idx : s + n ≡ s + (j - d) = omega arith in
      let same : m (s + n) ≡ m (s + (j - d)) = ap m idx in ground (arith, same, e)
  | no e ↦ ground (arith, e)
]

pub move_up-byte :
    (n : ℕ) (m : Memory) (d s j : ℕ)
    → d ≤ s ⊎ s + n ≤ d
    → move_up n m d s j ≡ (if leb d j && ltb j (d + n) then m (s + (j - d)) else m j)
unfolding move_up
move_up-byte zero m d s j o = ground arith
move_up-byte (suc n) m d s j o =
    move_up-byte n (store m d (m s)) (d + 1) (s + 1) j (omega arith) ∙ up_step m d s n j o

pub move_down-byte :
    (n : ℕ) (m : Memory) (d s j : ℕ)
    → s ≤ d
    → move_down n m (d + n) (s + n) j ≡ (if leb d j && ltb j (d + n) then m (s + (j - d)) else m j)
unfolding move_down
move_down-byte zero m d s j o = ground arith
move_down-byte (suc n) m d s j o =
    (λ i. move_down n (store m (e0 i) (m (e1 i))) (e0 i) (e1 i) j)
    ∙ move_down-byte n (store m (d + n) (m (s + n))) d s j o
    ∙ down_step m d s n j o
  where
    e0 : d + suc n - 1 ≡ d + n
    e0 = omega arith

    e1 : s + suc n - 1 ≡ s + n
    e1 = omega arith

-- `memmove` copies the `n` bytes from `src` on as they were, wherever the two ranges overlap, and
-- changes no other byte.
pub memmove-byte :
    (m : Memory) (dst src n j : ℕ)
    → memmove m dst src n j ≡ (if leb dst j && ltb j (dst + n) then m (src + (j - dst)) else m j)
unfolding memmove
memmove-byte m dst src n j = elim (Bool-cases (n == 0)) [
  | inl e ↦ ground arith
  | inr e ↦ elim (Bool-cases (ltb src dst && ltb dst (src + n))) [
    | inl o ↦ rw (e, o) (move_down-byte n m dst src j (ground arith))
    | inr o ↦ rw (e, o) (move_up-byte n m dst src j (ground arith))
  ]
]
