-- ===== src/Queue/Chain.antt =====
-- Entries of the table that are linked both ways between two ends, and what the two updates of
-- queue.c do to them: one entry linked in, one entry taken out.
use operating_systems_class.Prelude.{
  ℕ, ◌≡◌, refl, ◌≢◌, ◌⊎◌, inl, inr, Bool, true, false, ◌||◌, List, [], ◌∷◌, ◌++◌, arith, ◌==◌,
  if◌then◌else◌, Bool-cases,
}
use operating_systems_class.Queue.{QTable}

abbrev pub has : ℕ → List ℕ → Bool
has i [] = false
has i (x ∷ xs) = i == x || has i xs

abbrev pub Distinct : List ℕ → Type 0
Distinct [] = Unit
Distinct (x ∷ xs) = (has x xs ≡ false) × Distinct xs

-- From `a` the `next` links lead through `xs` to `b`, and the `prev` links lead back.
abbrev pub Chain : QTable → ℕ → List ℕ → ℕ → Type 0
Chain t a [] b = ((t a).next ≡ b) × ((t b).prev ≡ a)
Chain t a (x ∷ xs) b = ((t a).next ≡ x) × ((t x).prev ≡ a) × Chain t x xs b

-- `x` linked in between `m` and `n`.
abbrev pub link : QTable → (m x n pass : ℕ) → QTable
link t m x n pass j = record {
  pass = if j == x then pass else (t j).pass;
  prev = if j == n then x else if j == x then m else (t j).prev;
  next = if j == m then x else if j == x then n else (t j).next;
}

-- `x` taken out: its neighbours are joined, and its own links hold 999.
abbrev pub unlink : QTable → ℕ → QTable
unlink t x j = record {
  pass = (t j).pass;
  prev = if j == x then 999 else if j == (t x).next then (t x).prev else (t j).prev;
  next = if j == x then 999 else if j == (t x).prev then (t x).next else (t j).next;
}

-- A list less the first occurrence of an element.
abbrev pub erase : ℕ → List ℕ → List ℕ
erase x [] = []
erase x (y ∷ ys) = if y == x then ys else y ∷ erase x ys

pub has-snoc : (i x : ℕ) (xs : List ℕ) → has i (xs ++ (x ∷ [])) ≡ (has i xs || i == x)
has-snoc i x [] = ground arith
has-snoc i x (y ∷ ys) = ground (arith, has-snoc i x ys)

pub Distinct-snoc :
    (x : ℕ) (xs : List ℕ) → has x xs ≡ false → Distinct xs → Distinct (xs ++ (x ∷ []))
Distinct-snoc x [] f d = (refl, tt)
Distinct-snoc x (y ∷ ys) f d =
    (ground (arith, has-snoc y x ys), Distinct-snoc x ys (ground arith) d.1)

pub ne_of_has : (i a : ℕ) (xs : List ℕ) → has i xs ≡ true → has a xs ≡ false → i ≢ a
ne_of_has i a xs h f e = absurd (ground arith)

module _ (t : QTable) where
  -- The links outside a chain do not matter to it.
  pub Chain-frame :
      (t' : QTable) (a : ℕ) (xs : List ℕ) (b : ℕ)
      → ((i : ℕ) → (i == a || has i xs) ≡ true → (t' i).next ≡ (t i).next)
      → ((i : ℕ) → (i == b || has i xs) ≡ true → (t' i).prev ≡ (t i).prev)
      → Chain t a xs b
      → Chain t' a xs b
  Chain-frame t' a [] b n p c = ground (arith, n a, p b)
  Chain-frame t' a (x ∷ xs) b n p c = (
    ground (arith, n a),
    ground (arith, p x),
    Chain-frame t' x xs b (λ i h. n i (ground arith)) (λ i h. p i (ground arith)) c.2,
  )

  pub next-prev_end : (a : ℕ) (xs : List ℕ) (b : ℕ) → Chain t a xs b → (t (t b).prev).next ≡ b
  next-prev_end a [] b c = ground arith
  next-prev_end a (x ∷ xs) b c = next-prev_end x xs b c.2

  -- The first entry of a chain is its other end or a member, and so is the last.
  pub next-cases :
      (a : ℕ) (xs : List ℕ) (b : ℕ) → Chain t a xs b → ((t a).next ≡ b) ⊎ (has (t a).next xs ≡ true)
  next-cases a [] b c = inl c.0
  next-cases a (x ∷ xs) b c = inr (ground arith)

  pub prev-cases :
      (a : ℕ) (xs : List ℕ) (b : ℕ) → Chain t a xs b → ((t b).prev ≡ a) ⊎ (has (t b).prev xs ≡ true)
  prev-cases a [] b c = inl c.1
  prev-cases a (x ∷ xs) b c = ground (arith, prev-cases x xs b c.2)

  -- Inside a chain the two kinds of link are inverse to one another.
  pub next-prev :
      (x a : ℕ) (xs : List ℕ) (b : ℕ) → Chain t a xs b → has x xs ≡ true → (t (t x).prev).next ≡ x
  next-prev x a [] b c h = absurd (ground arith)
  next-prev x a (y ∷ ys) b c h = elim (Bool-cases (x == y)) [
    | inl e ↦ ground arith
    | inr e ↦ next-prev x y ys b c.2 (ground arith)
  ]

  pub prev-next :
      (x a : ℕ) (xs : List ℕ) (b : ℕ) → Chain t a xs b → has x xs ≡ true → (t (t x).next).prev ≡ x
  prev-next x a [] b c h = absurd (ground arith)
  prev-next x a (y ∷ []) b c h = ground arith
  prev-next x a (y ∷ z ∷ zs) b c h = elim (Bool-cases (x == y)) [
    | inl e ↦ ground arith
    | inr e ↦ prev-next x y (z ∷ zs) b c.2 (ground arith)
  ]

  -- An entry linked in behind `a` is the first of the chain.
  pub Chain-link_front :
      (a x : ℕ) (xs : List ℕ) (b pass : ℕ)
      → Chain t a xs b
      → has x xs ≡ false
      → x ≢ a
      → x ≢ b
      → a ≢ b
      → has a xs ≡ false
      → has b xs ≡ false
      → Distinct xs
      → Chain (link t a x (t a).next pass) a (x ∷ xs) b
  Chain-link_front a x [] b pass c f na nb ab fa fb d = ground arith
  Chain-link_front a x (y ∷ ys) b pass c f na nb ab fa fb d = (
    ground arith,
    ground arith,
    (
      ground arith,
      ground arith,
      Chain-frame (link t a x (t a).next pass) y ys b
          (λ i h. ground (arith, ne_of_has i a ys, ne_of_has i x ys))
          (λ i h. ground (arith, ne_of_has i x ys)) c.2,
    ),
  )

  -- An entry linked in before `b` is the last of the chain.
  pub Chain-link_back :
      (a x : ℕ) (xs : List ℕ) (b pass : ℕ)
      → Chain t a xs b
      → has x xs ≡ false
      → x ≢ a
      → x ≢ b
      → a ≢ b
      → has a xs ≡ false
      → has b xs ≡ false
      → Distinct xs
      → Chain (link t (t b).prev x b pass) a (xs ++ (x ∷ [])) b
  Chain-link_back a x [] b pass c f na nb ab fa fb d = ground arith
  Chain-link_back a x (y ∷ ys) b pass c f na nb ab fa fb d = (
    ground (arith, next-prev_end a (y ∷ ys) b c),
    ground arith,
    Chain-link_back y x ys b pass c.2 (ground arith) (ground arith) nb (ground arith) d.0
        (ground arith) d.1,
  )

  -- An entry in the middle of a chain taken out.
  pub Chain-unlink :
      (a x : ℕ) (xs : List ℕ) (b : ℕ)
      → Chain t a xs b
      → has x xs ≡ true
      → x ≢ a
      → x ≢ b
      → a ≢ b
      → has a xs ≡ false
      → has b xs ≡ false
      → Distinct xs
      → Chain (unlink t x) a (erase x xs) b
  Chain-unlink a x [] b c f na nb ab fa fb d = absurd (ground arith)
  Chain-unlink a x (y ∷ ys) b c f na nb ab fa fb d = elim (Bool-cases (y == x)) [
    | inl e ↦ rw e (first ys e c.2 fb d fa)
    | inr e ↦ rw e (
      ground (arith, next-prev x a (y ∷ ys) b c f),
      ground (arith, prev-next x a (y ∷ ys) b c f),
      Chain-unlink y x ys b c.2 (ground arith) (ground arith) nb (ground arith) d.0 (ground arith)
          d.1,
    )
  ]
    where
      first :
          (zs : List ℕ)
          → (y == x) ≡ true
          → Chain t y zs b
          → has b (y ∷ zs) ≡ false
          → Distinct (y ∷ zs)
          → has a (y ∷ zs) ≡ false
          → Chain (unlink t x) a zs b
      first [] e k g h m = ground arith
      first (z ∷ zs) e k g h m = (
        ground arith,
        ground arith,
        Chain-frame (unlink t x) z zs b
            (λ i u. ground (arith, ne_of_has i a (z ∷ zs), ne_of_has i y (z ∷ zs)))
            (λ i u. ground (arith, ne_of_has i z zs, ne_of_has i y (z ∷ zs))) k.2,
      )
