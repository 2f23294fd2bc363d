-- ===== src/Fs/Path/Elements.antt =====
-- `skipelem` again and again, against the fields between the slashes.
use operating_systems_class.Prelude.{
  ℕ, zero, suc, ◌≤◌, ◌<◌, ◌≡◌, ◌⊎◌, inl, inr, Bool-cases, false, Option, none, some, List, [], ◌∷◌,
  map, length, ◌==◌, if◌then◌else◌, take, arith, refl, ap, ◌∙◌, sym,
}
use operating_systems_class.Fs.Path.{dirsiz, slash, skip_slashes, first_elem, elem_of, skipelem}

abbrev name_then : (List ℕ → List (List ℕ)) → Option (List ℕ × List ℕ) → List (List ℕ)
name_then names none = []
name_then names (some (rest, name)) = name ∷ names rest

-- The names that the loop of `namex` sees, in order.
pub names : ℕ → List ℕ → List (List ℕ)
names zero path = []
names (suc rounds) path = name_then (names rounds) (skipelem path)

cons_first : ℕ → List (List ℕ) → List (List ℕ)
cons_first b [] = (b ∷ []) ∷ []
cons_first b (f ∷ fs) = (b ∷ f) ∷ fs

-- The fields of a path, with the empty ones, so that there is one more than slashes.
pub fields : List ℕ → List (List ℕ)
unfolding cons_first
fields [] = [] ∷ []
fields (b ∷ path) = if b == slash then [] ∷ fields path else cons_first b (fields path)

pub drop_empty : List (List ℕ) → List (List ℕ)
drop_empty [] = []
drop_empty ([] ∷ fs) = drop_empty fs
drop_empty ((b ∷ f) ∷ fs) = (b ∷ f) ∷ drop_empty fs

-- The elements of a path.
abbrev pub elements : List ℕ → List (List ℕ)
elements path = map (take dirsiz) (drop_empty (fields path))

skip_slashes-fields :
    (path : List ℕ) → drop_empty (fields (skip_slashes path)) ≡ drop_empty (fields path)
unfolding skip_slashes fields drop_empty
skip_slashes-fields [] = refl
skip_slashes-fields (b ∷ path) = elim (Bool-cases (b == slash)) [
  | inl e ↦ rw e (skip_slashes-fields path)
  | inr e ↦ rw e (rw e refl)
]

-- The first field is the bytes up to the next slash.
first_elem-fields :
    (path : List ℕ)
    → (fs : List (List ℕ)) × (fields path ≡ (first_elem path).0 ∷ fs)
      × (drop_empty fs ≡ drop_empty (fields (first_elem path).1))
unfolding first_elem fields drop_empty cons_first
first_elem-fields [] = ([], refl, refl)
first_elem-fields (b ∷ path) = elim (Bool-cases (b == slash)) [
  | inl e ↦ (fields path, rw e refl, rw e (rw e refl))
  | inr e ↦
      let (fs, first, others) = first_elem-fields path in (fs, rw (e, first) refl, rw e others)
]

-- A path without leading slashes.
data Trimmed : List ℕ → Type 0 where
  at_end : Trimmed []
  at_elem : {b : ℕ} {path : List ℕ} → (b == slash) ≡ false → Trimmed (b ∷ path)

skip_slashes-Trimmed : (path : List ℕ) → Trimmed (skip_slashes path)
unfolding skip_slashes
skip_slashes-Trimmed [] = at_end
skip_slashes-Trimmed (b ∷ path) = elim (Bool-cases (b == slash)) [
  | inl e ↦ rw e (skip_slashes-Trimmed path)
  | inr e ↦ rw e (at_elem e)
]

length-skip_slashes : (path : List ℕ) → length (skip_slashes path) ≤ length path
unfolding skip_slashes
length-skip_slashes [] = omega arith
length-skip_slashes (b ∷ path) = ground (arith, length-skip_slashes path)

length-first_elem : (path : List ℕ) → length (first_elem path).1 ≤ length path
unfolding first_elem
length-first_elem [] = omega arith
length-first_elem (b ∷ path) = ground (arith, length-first_elem path)

-- One round of the loop.
elem_of-elements :
    (path : List ℕ)
    → Trimmed path
    → ((elem_of path ≡ none) × (elements path ≡ []))
      ⊎ ((rest : List ℕ) × (name : List ℕ) × (elem_of path ≡ some (rest, name))
          × (elements path ≡ name ∷ elements rest)
          × length rest < length path)
unfolding elem_of first_elem fields drop_empty cons_first
elem_of-elements _ at_end = inl (refl, refl)
elem_of-elements _ (at_elem {b} {path} e) =
    let (fs, first, others) = first_elem-fields path in
    let tail = (first_elem path).1 in
    inr (
      skip_slashes tail,
      take dirsiz (b ∷ (first_elem path).0),
      rw e refl,
      ap (map (take dirsiz)) (dropped fs first)
          ∙ ap (λ t. take dirsiz (b ∷ (first_elem path).0) ∷ map (take dirsiz) t)
              (others ∙ sym (skip_slashes-fields tail)),
      omega (arith, length-skip_slashes tail, length-first_elem path),
    )
  where
    dropped :
        (fs : List (List ℕ))
        → fields path ≡ (first_elem path).0 ∷ fs
        → drop_empty (fields (b ∷ path)) ≡ (b ∷ (first_elem path).0) ∷ drop_empty fs
    dropped fs first = rw (e, first) refl

-- The names that repeated calls of `skipelem` give, until it returns 0, are the nonempty fields of the path
-- between slashes, each cut to its first DIRSIZ bytes; as many calls as the path has bytes are enough.
pub names-elements :
    (rounds : ℕ) (path : List ℕ) → length path ≤ rounds → names rounds path ≡ elements path
unfolding names skipelem fields drop_empty
names-elements zero [] h = refl
names-elements zero (b ∷ path) h = absurd (omega arith)
names-elements (suc rounds) path h =
    elim (elem_of-elements (skip_slashes path) (skip_slashes-Trimmed path)) [
      | inl (e, none_left) ↦ rw (names, e) (sym none_left ∙ same)
      | inr (rest, name, e, split, shorter) ↦
          rw (names, e)
            (ap (λ t. name ∷ t)
                (names-elements rounds rest (omega (arith, h, shorter, length-skip_slashes path)))
              ∙ sym split
              ∙ same)
    ]
  where
    same : elements (skip_slashes path) ≡ elements path
    same = ap (map (take dirsiz)) (skip_slashes-fields path)
