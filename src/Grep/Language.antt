-- ===== src/Grep/Language.antt =====
-- The language of a pattern of grep, apart from the matcher.
use operating_systems_class.Prelude.{
  ℕ, ◌≡◌, Bool, true, false, ◌||◌, List, [], ◌∷◌, ◌++◌, ◌==◌, if◌then◌else◌,
}
use operating_systems_class.Grep.{dot, star, dollar, caret}

-- A byte of a pattern, once or any number of times.
pub data Item : Type 0 where
  once : ℕ → Item
  many : ℕ → Item

-- A dot stands for any byte.
abbrev pub accepts : ℕ → ℕ → Bool
accepts c b = (c == dot) || (c == b)

pub data InLanguage : List Item → List ℕ → Type 0 where
  nothing : InLanguage [] []
  byte :
      {c b : ℕ} {p : List Item} {w : List ℕ}
      → accepts c b ≡ true
      → InLanguage p w
      → InLanguage (once c ∷ p) (b ∷ w)
  leave : {c : ℕ} {p : List Item} {w : List ℕ} → InLanguage p w → InLanguage (many c ∷ p) w
  again :
      {c b : ℕ} {p : List Item} {w : List ℕ}
      → accepts c b ≡ true
      → InLanguage (many c ∷ p) w
      → InLanguage (many c ∷ p) (b ∷ w)

-- The items of a pattern without its anchors: a star belongs to the byte in front of it.
unfoldable pub items : List ℕ → List Item
items [] = []
items (c ∷ []) = if c == dollar then [] else once c ∷ []
items (c ∷ d ∷ re) = if d == star then many c ∷ items re else once c ∷ items (d ∷ re)

-- Does the pattern end with a dollar that no star follows, and that is not itself a starred byte?
unfoldable pub anchored : List ℕ → Bool
anchored [] = false
anchored (c ∷ []) = c == dollar
anchored (c ∷ d ∷ re) = if d == star then anchored re else anchored (d ∷ re)

-- A front part of the text is a word of the pattern, and all of the text if the pattern ends with a dollar.
pub record Prefix (re text : List ℕ) : Type 0 where
  pub word : List ℕ
  pub rest : List ℕ
  pub split : text ≡ word ++ rest
  pub in_language : InLanguage (items re) word
  pub whole : anchored re ≡ true → rest ≡ []

-- The same for a part of the text anywhere.
pub record Occurs (re text : List ℕ) : Type 0 where
  pub before : List ℕ
  pub from : List ℕ
  pub split : text ≡ before ++ from
  pub here : Prefix re from

-- What a pattern selects: a caret in front ties it to the beginning of the text.
unfoldable pub Selected : List ℕ → List ℕ → Type 0
Selected [] text = Occurs [] text
Selected (c ∷ re) text = if c == caret then Prefix re text else Occurs (c ∷ re) text
