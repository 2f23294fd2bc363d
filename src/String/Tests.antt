-- ===== src/String/Tests.antt =====
-- The theorems on the string routines at small memories.
use operating_systems_class.Prelude.{
  ℕ, ◌+◌, ◌-◌, ◌≤◌, ◌<◌, ◌≡◌, ◌⊎◌, inl, inr, arith, refl, ◌&&◌, leb, ltb, if◌then◌else◌,
}
use operating_systems_class.Prelude.Int.{pos}
use operating_systems_class.String.{Memory, memmove, safestrcpy}
use operating_systems_class.String.Move.{memmove-byte}
use operating_systems_class.String.Copy.{IsString, safestrcpy-IsString}

-- The byte at each address below 200 is that address, and the rest is zero.
abbrev ramp : Memory
ramp a = if ltb a 200 then a else 0

-- The ranges from 10 to 15 and from 12 to 17 overlap.
memmove-byte_example :
    memmove ramp 12 10 5 14
    ≡ (if leb 12 14 && ltb 14 (12 + 5) then ramp (10 + (14 - 12)) else ramp 14)
memmove-byte_example = memmove-byte ramp 12 10 5 14

-- The string of two bytes at 198.
short : IsString ramp 198 8 2 3
short = record { nonzero = λ j h. ground arith; ends = inr (omega arith, refl, refl) }

safestrcpy-IsString_example :
    ((j : ℕ) → j < 2 → safestrcpy ramp 50 198 (pos 9) (50 + j) ≡ ramp (198 + j))
    × (safestrcpy ramp 50 198 (pos 9) (50 + 2) ≡ 0)
    × ((b : ℕ) → (b < 50) ⊎ (50 + 9 ≤ b) → safestrcpy ramp 50 198 (pos 9) b ≡ ramp b)
safestrcpy-IsString_example =
    safestrcpy-IsString ramp 50 198 9 2 3 (omega arith) (inl (omega arith)) short
