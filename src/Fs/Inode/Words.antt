-- ===== src/Fs/Inode/Words.antt =====
-- Numbers in bytes.
use operating_systems_class.Prelude.{ℕ, ◌+◌, ◌^◌, ◌≤◌, ◌<◌, ◌≡◌, ◌⊎◌, arith}
use operating_systems_class.Fs.Inode.{get_32, put_32}

pub get_32-put_32 : (d : ℕ → ℕ) (o v : ℕ) → v < 2 ^ 32 → get_32 (put_32 d o v) o ≡ v
get_32-put_32 d o v h = ground arith

pub get_32-put_32_ne :
    (d : ℕ → ℕ) (o v p : ℕ) → p + 4 ≤ o ⊎ o + 4 ≤ p → get_32 (put_32 d o v) p ≡ get_32 d p
get_32-put_32_ne d o v p h = ground arith
