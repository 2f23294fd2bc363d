-- ===== src/Fs/Path.antt =====
-- projects/project_1c/kernel/fs.c, `skipelem`. A path is the list of its bytes before the NUL. The name that
-- `skipelem` leaves is a string of up to DIRSIZ bytes, without a NUL if it has them all.
pub mod Elements
use operating_systems_class.Prelude.{
  ℕ, zero, suc, Bool, true, false, Option, none, some, List, [], ◌∷◌, ◌==◌, if◌then◌else◌, take,
}

-- DIRSIZ
abbrev pub dirsiz : ℕ
dirsiz = 14

abbrev pub slash : ℕ
slash = 47

pub skip_slashes : List ℕ → List ℕ
skip_slashes [] = []
skip_slashes (b ∷ path) = let rest = skip_slashes path in if b == slash then rest else b ∷ path

-- The bytes up to the next slash, and what follows.
pub first_elem : List ℕ → List ℕ × List ℕ
first_elem [] = ([], [])
first_elem (b ∷ path) =
    let (s, rest) = first_elem path in if b == slash then ([], b ∷ path) else (b ∷ s, rest)

elem_of : List ℕ → Option (List ℕ × List ℕ)
elem_of [] = none
elem_of (b ∷ path) =
    let (s, rest) = first_elem (b ∷ path) in some (skip_slashes rest, take dirsiz s)

-- The rest of the path, and the name.
pub skipelem : List ℕ → Option (List ℕ × List ℕ)
unfolding elem_of
skipelem path = elem_of (skip_slashes path)
