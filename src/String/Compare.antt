-- ===== src/String/Compare.antt =====
-- `memcmp`, `strncmp` and `strlen`.
use operating_systems_class.Prelude.{
  ℕ, zero, suc, ◌+◌, ◌≤◌, ◌<◌, ◌≡◌, ◌≢◌, ◌⊎◌, inl, inr, some, arith, refl, ap, ◌∙◌, sym, not, ◌&&◌,
  true, false, ◌==◌, Bool-cases,
}
use operating_systems_class.Prelude.Int.{ℤ, pos, sub_ℕ}
use native.Mathlib.Decide.{ℕ_discrete}
use operating_systems_class.String.{Memory, memcmp, strncmp, strlen, strlen_from}

-- What `memcmp` finds.
abbrev pub Compared : Memory → (v1 v2 n : ℕ) → ℤ → Type 0
Compared m v1 v2 n r =
    ((r ≡ pos 0) × ((j : ℕ) → j < n → m (v1 + j) ≡ m (v2 + j)))
    ⊎ ((i : ℕ) × i < n
        × ((j : ℕ) → j < i → m (v1 + j) ≡ m (v2 + j))
        × (m (v1 + i) ≢ m (v2 + i))
        × (r ≡ sub_ℕ (m (v1 + i)) (m (v2 + i))))

shift : (m : Memory) (a j : ℕ) → m (a + 1 + j) ≡ m (a + (j + 1))
shift m a j = ap m (omega arith)

at_suc : (m : Memory) (a j : ℕ) → m (a + suc j) ≡ m (a + 1 + j)
at_suc m a j = ap m (omega arith)

at_0 : (m : Memory) (a : ℕ) → m (a + 0) ≡ m a
at_0 m a = ap m (omega arith)

-- The bytes before index `i + 1`, from the first one and those behind it.
before_suc :
    (m : Memory) (a b i : ℕ)
    → m a ≡ m b
    → ((j : ℕ) → j < i → m (a + 1 + j) ≡ m (b + 1 + j))
    → (j : ℕ) → j < i + 1
    → m (a + j) ≡ m (b + j)
before_suc m a b i e f zero h = at_0 m a ∙ e ∙ sym (at_0 m b)
before_suc m a b i e f (suc j) h = at_suc m a j ∙ f j (omega arith) ∙ sym (at_suc m b j)

nonzero_suc :
    (m : Memory) (a i : ℕ)
    → m a ≢ 0
    → ((j : ℕ) → j < i → m (a + 1 + j) ≢ 0)
    → (j : ℕ) → j < i + 1
    → m (a + j) ≢ 0
nonzero_suc m a i e f zero h q = e (sym (at_0 m a) ∙ q)
nonzero_suc m a i e f (suc j) h q = f j (omega arith) (sym (at_suc m a j) ∙ q)

-- If `memcmp` returns 0, the two ranges hold the same bytes; otherwise there is a first index where they
-- differ, and the result is the difference of the two bytes there.
pub memcmp-Compared : (m : Memory) (v1 v2 n : ℕ) → Compared m v1 v2 n (memcmp m v1 v2 n)
unfolding memcmp
memcmp-Compared m v1 v2 zero = inl (refl, λ j h. absurd (omega arith))
memcmp-Compared m v1 v2 (suc n) = elim (ℕ_discrete (m v1) (m v2)) [
  | no e ↦
      let t : not (m v1 == m v2) ≡ true = ground (arith, e) in
      inr (
        0,
        omega arith,
        λ j h. absurd (omega arith),
        λ h. e (sym (at_0 m v1) ∙ h ∙ at_0 m v2),
        rw t (λ i. sub_ℕ (sym (at_0 m v1) i) (sym (at_0 m v2) i)),
      )
  | yes e ↦
      let t : not (m v1 == m v2) ≡ false = ground (arith, e) in
      rw t (elim (memcmp-Compared m (v1 + 1) (v2 + 1) n) [
        | inl (r, f) ↦ inl (r, λ j h. before_suc m v1 v2 n e f j (omega arith))
        | inr (i, h, f, d, r) ↦ inr (
          i + 1,
          omega arith,
          before_suc m v1 v2 i e f,
          λ q. d (shift m v1 i ∙ q ∙ sym (shift m v2 i)),
          r ∙ λ k. sub_ℕ (shift m v1 i k) (shift m v2 i k),
        )
      ])
]

-- What `strncmp` finds: `i` is the first index at which it stops.
abbrev pub ComparedStrings : Memory → (p q n : ℕ) → ℤ → Type 0
ComparedStrings m p q n r =
    (i : ℕ) × i ≤ n
    × ((j : ℕ) → j < i → m (p + j) ≡ m (q + j))
    × ((j : ℕ) → j < i → m (p + j) ≢ 0)
    × (((i ≡ n) × (r ≡ pos 0))
        ⊎ (i < n
            × ((m (p + i) ≡ 0) ⊎ (m (p + i) ≢ m (q + i)))
            × (r ≡ sub_ℕ (m (p + i)) (m (q + i)))))

-- `strncmp` stops at the first index where a string ends or the two differ, and returns the difference of
-- the two bytes there; it returns 0 if there is no such index below `n`.
pub strncmp-ComparedStrings : (m : Memory) (p q n : ℕ) → ComparedStrings m p q n (strncmp m p q n)
unfolding strncmp
strncmp-ComparedStrings m p q zero =
    (0, omega arith, λ j h. absurd (omega arith), λ j h. absurd (omega arith), inl (refl, refl))
strncmp-ComparedStrings m p q (suc n) = elim (Bool-cases (not (m p == 0) && m p == m q)) [
  | inr e ↦ rw e (
    0,
    omega arith,
    λ j h. absurd (omega arith),
    λ j h. absurd (omega arith),
    inr (
      omega arith,
      ground (arith, e, at_0 m p, at_0 m q),
      λ i. sub_ℕ (sym (at_0 m p) i) (sym (at_0 m q) i),
    ),
  )
  | inl e ↦
      let (i, l, same, none_ends, end) = strncmp-ComparedStrings m (p + 1) (q + 1) n in
      rw e (
        i + 1,
        omega arith,
        before_suc m p q i (ground arith) same,
        nonzero_suc m p i (ground arith) none_ends,
        later i end,
      )
]
  where
    later :
        (i : ℕ)
        → (((i ≡ n) × (strncmp m (p + 1) (q + 1) n ≡ pos 0))
            ⊎ (i < n
                × ((m (p + 1 + i) ≡ 0) ⊎ (m (p + 1 + i) ≢ m (q + 1 + i)))
                × (strncmp m (p + 1) (q + 1) n ≡ sub_ℕ (m (p + 1 + i)) (m (q + 1 + i)))))
        → ((i + 1 ≡ suc n) × (strncmp m (p + 1) (q + 1) n ≡ pos 0))
          ⊎ (i + 1 < suc n
              × ((m (p + (i + 1)) ≡ 0) ⊎ (m (p + (i + 1)) ≢ m (q + (i + 1))))
              × (strncmp m (p + 1) (q + 1) n ≡ sub_ℕ (m (p + (i + 1))) (m (q + (i + 1)))))
    later i (inl (h, r)) = inl (omega arith, r)
    later i (inr (h, d, r)) = inr (
      omega arith,
      ground (arith, shift m p i, shift m q i),
      r ∙ λ k. sub_ℕ (shift m p i k) (shift m q i k),
    )

-- For a string whose first zero byte has index `k`, `strlen` returns `k`, on fuel for more than
-- `k` rounds.
pub strlen_lem :
    (fuel : ℕ) (m : Memory) (s k : ℕ)
    → m (s + k) ≡ 0
    → ((j : ℕ) → j < k → m (s + j) ≢ 0)
    → k < fuel
    → strlen fuel m s ≡ some k
unfolding strlen strlen_from
strlen_lem fuel m s k z f h = go fuel 0 (omega arith) (omega arith)
  where
    go : (fuel n : ℕ) → n ≤ k → k < n + fuel → strlen_from fuel m s n ≡ some k
    go zero n l u = absurd (omega arith)
    go (suc fuel) n l u = elim (ℕ_discrete n k) [
      | yes e ↦ ground (arith, e, z)
      | no e ↦ ground (arith, f n, go fuel (n + 1))
    ]
