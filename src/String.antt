-- ===== src/String.antt =====
-- projects/project_1c/kernel/string.c. The memory is a function from addresses to bytes, which are
-- unsigned on RISC-V; addresses are numbers without an end, so that no range wraps around.
pub mod Move
pub mod Compare
pub mod Copy
mod Tests
use operating_systems_class.Prelude.{
  ℕ, zero, suc, ◌+◌, ◌-◌, ◌%◌, Bool, true, false, not, ◌&&◌, ◌||◌, Option, none, some, ltb, leb,
  ◌==◌, if◌then◌else◌,
}
use operating_systems_class.Prelude.Int.{ℤ, pos, negsuc, pos_part, sub_ℕ}

abbrev pub Memory : Type 0
Memory = ℕ → ℕ

abbrev pub store : Memory → ℕ → ℕ → Memory
store m a v b = if b == a then v else m b

-- The loop of `memset` from index `i` on.
pub memset_from : ℕ → Memory → (dst c i : ℕ) → Memory
memset_from zero m dst c i = m
memset_from (suc rounds) m dst c i = memset_from rounds (store m (dst + i) (c % 256)) dst c (i + 1)

pub memset : Memory → (dst c n : ℕ) → Memory
memset m dst c n = memset_from n m dst c 0

pub memcmp : Memory → (v1 v2 n : ℕ) → ℤ
memcmp m v1 v2 zero = pos 0
memcmp m v1 v2 (suc n) =
    let rest = memcmp m (v1 + 1) (v2 + 1) n in
    if not (m v1 == m v2) then sub_ℕ (m v1) (m v2) else rest

-- The loop that copies from the end; `s` and `d` are the addresses behind the bytes to copy.
pub move_down : ℕ → Memory → (d s : ℕ) → Memory
move_down zero m d s = m
move_down (suc n) m d s = move_down n (store m (d - 1) (m (s - 1))) (d - 1) (s - 1)

-- The loop that copies from the start.
pub move_up : ℕ → Memory → (d s : ℕ) → Memory
move_up zero m d s = m
move_up (suc n) m d s = move_up n (store m d (m s)) (d + 1) (s + 1)

pub memmove : Memory → (dst src n : ℕ) → Memory
memmove m dst src n =
    if n == 0
    then m
    else if ltb src dst && ltb dst (src + n)
    then move_down n m (dst + n) (src + n)
    else move_up n m dst src

pub memcpy : Memory → (dst src n : ℕ) → Memory
memcpy m dst src n = memmove m dst src n

pub strncmp : Memory → (p q n : ℕ) → ℤ
strncmp m p q zero = pos 0
strncmp m p q (suc n) =
    let rest = strncmp m (p + 1) (q + 1) n in
    if not (m p == 0) && m p == m q then rest else sub_ℕ (m p) (m q)

-- The first loop of `strncpy`, and that of `safestrcpy`: the memory, the address behind the last byte
-- written, and the rounds that are left.
pub copy_string : ℕ → Memory → (s t : ℕ) → Memory × ℕ × ℕ
copy_string zero m s t = (m, s, 0)
copy_string (suc n) m s t =
    let m' = store m s (m t) in
    let rest = copy_string n m' (s + 1) (t + 1) in if m t == 0 then (m', s + 1, n) else rest

-- The second loop of `strncpy`.
pub pad : ℕ → Memory → ℕ → Memory
pad zero m s = m
pad (suc n) m s = pad n (store m s 0) (s + 1)

-- A negative `n` copies nothing.
pub strncpy : Memory → (s t : ℕ) → ℤ → Memory
strncpy m s t n = let (m', s', left) = copy_string (pos_part n) m s t in pad left m' s'

pub safestrcpy : Memory → (s t : ℕ) → ℤ → Memory
safestrcpy m s t n =
    if pos_part n == 0
    then m
    else (let (m', s', left) = copy_string (pos_part n - 1) m s t in store m' s' 0)

-- `none` is a scan that has not met the end in `fuel` rounds.
pub strlen_from : ℕ → Memory → (s n : ℕ) → Option ℕ
strlen_from zero m s n = none
strlen_from (suc fuel) m s n =
    let rest = strlen_from fuel m s (n + 1) in if m (s + n) == 0 then some n else rest

pub strlen : ℕ → Memory → ℕ → Option ℕ
strlen fuel m s = strlen_from fuel m s 0
