-- ===== src/Ulib.antt =====
-- The string routines of projects/project_1c/user/ulib.c, on the memory of String.antt. A scan to the
-- end of a string has fuel, and `none` is a scan that has not met the end.
use operating_systems_class.Prelude.{
  ℕ, zero, suc, ◌+◌, ◌-◌, ◌*◌, ◌≡◌, inl, inr, not, ◌&&◌, ◌||◌, Option, none, some, ltb, leb, ◌==◌,
  if◌then◌else◌, Bool-cases, arith,
}
use operating_systems_class.Prelude.Int.{ℤ, sub_ℕ}
use operating_systems_class.String.{Memory, store, move_up, move_down}
use operating_systems_class.String.Move.{copied, move_up-byte, move_down-byte}

pub strcpy : ℕ → Memory → (s t : ℕ) → Option Memory
strcpy zero m s t = none
strcpy (suc fuel) m s t =
    let m' = store m s (m t) in
    let rest = strcpy fuel m' (s + 1) (t + 1) in if m t == 0 then some m' else rest

pub strcmp : ℕ → Memory → (p q : ℕ) → Option ℤ
strcmp zero m p q = none
strcmp (suc fuel) m p q =
    let rest = strcmp fuel m (p + 1) (q + 1) in
    if not (m p == 0) && m p == m q then rest else some (sub_ℕ (m p) (m q))

-- The address of the first `c`, and 0 for none.
pub strchr : ℕ → Memory → (s c : ℕ) → Option ℕ
strchr zero m s c = none
strchr (suc fuel) m s c =
    let rest = strchr fuel m (s + 1) c in
    if m s == 0 then some 0 else if m s == c then some s else rest

-- The loop of `gets` from index `i` on; `read` gives the next byte of the input, unless it has ended.
pub gets_from : ℕ → Memory → (buf : ℕ) → (read : ℕ → Option ℕ) → ℕ → Memory
gets_from zero m buf read i = store m (buf + i) 0
gets_from (suc rounds) m buf read i =
    let next = λ (c : ℕ). gets_from rounds (store m (buf + i) c) buf read (i + 1) in
    elim (read i) [
      | none ↦ store m (buf + i) 0
      | some c ↦
          (if c == 10 || c == 13 then store (store m (buf + i) c) (buf + (i + 1)) 0 else next c)
    ]

pub gets : Memory → (buf : ℕ) → (max : ℕ) → (read : ℕ → Option ℕ) → Memory
gets m buf max read = gets_from (max - 1) m buf read 0

-- The loop of `atoi`; the value is unbounded here and an `int` in the source.
pub atoi_from : ℕ → Memory → (s n : ℕ) → Option ℕ
atoi_from zero m s n = none
atoi_from (suc fuel) m s n =
    let rest = atoi_from fuel m (s + 1) (n * 10 + m s - 48) in
    if leb 48 (m s) && leb (m s) 57 then rest else some n

pub atoi : ℕ → Memory → ℕ → Option ℕ
atoi fuel m s = atoi_from fuel m s 0

-- `memmove` of the user library, which moves up exactly if the source lies behind the destination; `n`
-- is not negative.
pub user_memmove : Memory → (vdst vsrc n : ℕ) → Memory
user_memmove m vdst vsrc n =
    if ltb vdst vsrc then move_up n m vdst vsrc else move_down n m (vdst + n) (vsrc + n)

-- It copies the bytes as they were, wherever the two ranges overlap, as `memmove` of the kernel does.
pub user_memmove-copied :
    (m : Memory) (dst src n j : ℕ) → user_memmove m dst src n j ≡ copied m dst src n j
unfolding user_memmove
user_memmove-copied m dst src n j = elim (Bool-cases (ltb dst src)) [
  | inl h ↦ rw h (move_up-byte n m dst src j (ground arith))
  | inr h ↦ rw h (move_down-byte n m dst src j (ground arith))
]
