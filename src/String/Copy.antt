-- ===== src/String/Copy.antt =====
-- `strncpy` and `safestrcpy`.
use operating_systems_class.Prelude.{
  ℕ, zero, suc, ◌+◌, ◌-◌, ◌≤◌, ◌<◌, ◌≡◌, ◌≢◌, ◌⊎◌, arith, ap, ◌∙◌, sym, ◌&&◌, true, false, ◌==◌,
  leb, ltb, if◌then◌else◌,
}
use operating_systems_class.Prelude.Int.{pos}
use native.Mathlib.Decide.{ℕ_discrete}
use operating_systems_class.String.{Memory, store, copy_string, pad, strncpy, safestrcpy}
use operating_systems_class.String.Move.{copied, up_step}

pad-byte :
    (n : ℕ) (m : Memory) (s b : ℕ) → pad n m s b ≡ (if leb s b && ltb b (s + n) then 0 else m b)
unfolding pad
pad-byte zero m s b = ground arith
pad-byte (suc n) m s b = pad-byte n (store m s 0) (s + 1) b ∙ ground arith

-- `k` bytes of the string at `t` come before its end or the limit `n`, and `w` bytes are written.
pub record IsString (m : Memory) (t n k w : ℕ) : Type 0 where
  pub nonzero : (j : ℕ) → j < k → m (t + j) ≢ 0
  pub ends : ((k ≡ n) × (w ≡ n)) ⊎ (k < n × (m (t + k) ≡ 0) × (w ≡ k + 1))

-- The ranges of `n` bytes do not overlap.
abbrev pub Apart : (s t n : ℕ) → Type 0
Apart s t n = (s + n ≤ t) ⊎ (t + n ≤ s)

record IsCopy (m : Memory) (s t n w : ℕ) (r : Memory × ℕ × ℕ) : Type 0 where
  pub bytes : (b : ℕ) → r.0 b ≡ copied m s t w b
  pub next : r.1 ≡ s + w
  pub left : r.2 ≡ n - w

at_0 : (m : Memory) (a : ℕ) → m (a + 0) ≡ m a
at_0 m a = ap m (omega arith)

at_suc : (m : Memory) (a j : ℕ) → m (a + suc j) ≡ m (a + 1 + j)
at_suc m a j = ap m (omega arith)

first_byte : (m : Memory) (s t w b : ℕ) → w ≡ 1 → store m s (m t) b ≡ copied m s t w b
first_byte m s t w b e = elim (ℕ_discrete b s) [
  | yes h ↦
      let idx : t ≡ t + (b - s) = omega arith in
      let same : m t ≡ m (t + (b - s)) = ap m idx in ground (arith, same, h, e)
  | no h ↦ ground (arith, h, e)
]

-- The string behind its first byte, in the memory where that has been copied.
rest_IsString :
    (n : ℕ) (m : Memory) (s t k w : ℕ)
    → Apart s t (suc n)
    → IsString m t (suc n) (suc k) w
    → IsString (store m s (m t)) (t + 1) n k (w - 1)
rest_IsString n m s t k w a e = record {
  nonzero = λ j h. ground (arith, e.nonzero (suc j) (omega arith), at_suc m t j, e.ends);
  ends = ground (arith, e.ends, at_suc m t k);
}

copy_string-IsCopy :
    (n : ℕ) (m : Memory) (s t k w : ℕ)
    → Apart s t n
    → IsString m t n k w
    → IsCopy m s t n w (copy_string n m s t)
unfolding copy_string
copy_string-IsCopy zero m s t k w a e = record {
  bytes = λ b. ground (arith, e.ends);
  next = ground (arith, e.ends);
  left = omega arith;
}
copy_string-IsCopy (suc n) m s t zero w a e =
    let z : m t ≡ 0 = sym (at_0 m t) ∙ ground (arith, e.ends) in
    let test : (m t == 0) ≡ true = ground (arith, z) in
    let one : w ≡ 1 = ground (arith, e.ends) in
    rw test
      (record { bytes = λ b. first_byte m s t w b one; next = omega arith; left = omega arith })
copy_string-IsCopy (suc n) m s t (suc k) w a e =
    let z : m t ≢ 0 = λ q. e.nonzero 0 (omega arith) (at_0 m t ∙ q) in
    let test : (m t == 0) ≡ false = ground (arith, z) in
    let c =
      copy_string-IsCopy n (store m s (m t)) (s + 1) (t + 1) k (w - 1) (omega arith)
        (rest_IsString n m s t k w a e) in
    let more : w ≡ suc (w - 1) = ground (arith, e.ends) in
    rw test (record {
      bytes = λ b. c.bytes b ∙ up_step m s t (w - 1) b (ground (arith, a, e.ends)) ∙ λ i.
          copied m s t (sym more i) b;
      next = c.next ∙ omega arith;
      left = c.left ∙ omega arith;
    })

back : (m : Memory) (s t j : ℕ) → m (t + (s + j - s)) ≡ m (t + j)
back m s t j = ap m (omega arith)

-- `strncpy` between ranges of `n` bytes that do not overlap, where the string has `k` bytes
-- before its end or the limit `n`: it writes those, then zero bytes up to `n`, and changes no
-- other byte.
pub strncpy-byte :
    (m : Memory) (s t n k w b : ℕ)
    → Apart s t n
    → IsString m t n k w
    → strncpy m s t (pos n) b
      ≡ (if leb s b && ltb b (s + n) then (if ltb b (s + k) then m (t + (b - s)) else 0) else m b)
unfolding strncpy
strncpy-byte m s t n k w b a e =
    let c = copy_string-IsCopy n m s t k w a e in
    let r = copy_string n m s t in
    pad-byte (r.2) (r.0) (r.1) b ∙ elim (ℕ_discrete b (s + k)) [
      | yes q ↦
          let idx : t + (b - s) ≡ t + k = omega arith in
          let same : m (t + (b - s)) ≡ m (t + k) = ap m idx in
          ground (arith, c.bytes b, c.next, c.left, e.ends, same, q)
      | no q ↦ ground (arith, c.bytes b, c.next, c.left, e.ends, q)
    ]

-- `safestrcpy` into `n` bytes, at least one, that do not overlap the string, where the string has
-- `k` bytes before its end or the limit `n - 1`: it writes those and then a zero byte, and
-- changes no byte outside of the `n`.
pub safestrcpy-IsString :
    (m : Memory) (s t n k w : ℕ)
    → 0 < n
    → Apart s t n
    → IsString m t (n - 1) k w
    → ((j : ℕ) → j < k → safestrcpy m s t (pos n) (s + j) ≡ m (t + j))
      × (safestrcpy m s t (pos n) (s + k) ≡ 0)
      × ((b : ℕ) → (b < s) ⊎ (s + n ≤ b) → safestrcpy m s t (pos n) b ≡ m b)
unfolding safestrcpy
safestrcpy-IsString m s t n k w h a e =
    let c = copy_string-IsCopy (n - 1) m s t k w (omega arith) e in
    let test : (n == 0) ≡ false = ground arith in
    rw test (
      λ j l. ground (arith, c.bytes (s + j), c.next, e.ends, back m s t j),
      ground (arith, c.bytes (s + k), c.next, e.ends, back m s t k),
      λ b o. ground (arith, c.bytes b, c.next, e.ends),
    )
