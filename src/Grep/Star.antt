-- ===== src/Grep/Star.antt =====
-- `matchstar` and a star in the language.
use operating_systems_class.Prelude.{
  ℕ, ◌≡◌, inl, inr, Bool, true, Bool-cases, ◌||◌, List, [], ◌∷◌, ◌++◌, ◌==◌, refl, ap, arith,
}
use operating_systems_class.Grep.{dot, matchstar}
use operating_systems_class.Grep.Language.{accepts, Item, many, InLanguage, leave, again}

-- The bytes of `u` are all accepted by `c`.
pub data Repeats (c : ℕ) : List ℕ → Type 0 where
  no_more : Repeats c []
  one_more : {b : ℕ} {u : List ℕ} → accepts c b ≡ true → Repeats c u → Repeats c (b ∷ u)

-- `matchstar` finds a split of the text.
pub record Splits (c : ℕ) (here : List ℕ → Bool) (text : List ℕ) : Type 0 where
  pub front : List ℕ
  pub back : List ℕ
  pub split : text ≡ front ++ back
  pub repeats : Repeats c front
  pub found : here back ≡ true

accepts_sym : (c b : ℕ) → ((b == c) || (c == dot)) ≡ accepts c b
accepts_sym c b = ground arith

pub matchstar-Splits :
    (c : ℕ) (here : List ℕ → Bool) (text : List ℕ)
    → matchstar c here text ≡ true
    → Splits c here text
unfolding matchstar
matchstar-Splits c here [] e = record {
  front = [];
  back = [];
  split = refl;
  repeats = no_more;
  found = e;
}
matchstar-Splits c here (b ∷ text) e = elim (Bool-cases (here (b ∷ text))) [
  | inl h ↦ record { front = []; back = b ∷ text; split = refl; repeats = no_more; found = h }
  | inr h ↦ elim (Bool-cases (accepts c b)) [
    | inl a ↦
        let s = matchstar-Splits c here text (ground (arith, e, h, a)) in
        record {
          front = b ∷ s.front;
          back = s.back;
          split = ap (λ t. b ∷ t) s.split;
          repeats = one_more a s.repeats;
          found = s.found;
        }
    | inr a ↦ absurd (ground (arith, e, h, a))
  ]
]

pub Splits-matchstar :
    (c : ℕ) (here : List ℕ → Bool) (front back : List ℕ)
    → Repeats c front
    → here back ≡ true
    → matchstar c here (front ++ back) ≡ true
unfolding matchstar
Splits-matchstar c here _ [] no_more h = h
Splits-matchstar c here _ (b ∷ back) no_more h = rw h refl
Splits-matchstar c here _ back (one_more {b} {u} a r) h =
    let rest = Splits-matchstar c here u back r h in
    elim (Bool-cases (here (b ∷ u ++ back))) [
      | inl e ↦ rw e refl
      | inr e ↦ rw (e, accepts_sym c b, a) rest
    ]

-- The word of a split of the text and of the pattern behind it.
pub join :
    (c : ℕ) (p : List Item) (u w : List ℕ)
    → Repeats c u
    → InLanguage p w
    → InLanguage (many c ∷ p) (u ++ w)
join c p _ w no_more i = leave i
join c p _ w (one_more a r) i = again a (join c p _ w r i)

pub record Cuts (c : ℕ) (p : List Item) (word : List ℕ) : Type 0 where
  pub front : List ℕ
  pub back : List ℕ
  pub cut : word ≡ front ++ back
  pub repeats : Repeats c front
  pub behind : InLanguage p back

pub cut_many : (c : ℕ) (p : List Item) (w : List ℕ) → InLanguage (many c ∷ p) w → Cuts c p w
cut_many c p w (leave i) = record {
  front = [];
  back = w;
  cut = refl;
  repeats = no_more;
  behind = i;
}
cut_many c p _ (again {b = b} {w = w} a i) =
    let s = cut_many c p w i in
    record {
      front = b ∷ s.front;
      back = s.back;
      cut = ap (λ t. b ∷ t) s.cut;
      repeats = one_more a s.repeats;
      behind = s.behind;
    }

pub append_assoc : (xs ys zs : List ℕ) → (xs ++ ys) ++ zs ≡ xs ++ (ys ++ zs)
append_assoc [] ys zs = refl
append_assoc (x ∷ xs) ys zs = ap (λ t. x ∷ t) (append_assoc xs ys zs)
