-- ===== src/Grep.antt =====
-- projects/project_1c/user/grep.c. A string is the list of its bytes before the NUL.
pub mod Language
pub mod Star
pub mod Matcher
mod Tests
use operating_systems_class.Prelude.{
  ℕ, Bool, true, false, ◌&&◌, ◌||◌, List, [], ◌∷◌, ◌==◌, if◌then◌else◌,
}

abbrev pub dot : ℕ
dot = 46

abbrev pub star : ℕ
star = 42

abbrev pub dollar : ℕ
dollar = 36

abbrev pub caret : ℕ
caret = 94

abbrev pub is_empty : List ℕ → Bool
is_empty [] = true
is_empty (_ ∷ _) = false

-- `here` is the call of `matchhere` on the rest of the pattern.
pub matchstar : (c : ℕ) → (here : List ℕ → Bool) → (text : List ℕ) → Bool
matchstar c here [] = here []
matchstar c here (b ∷ text) =
    let rest = matchstar c here text in
    if here (b ∷ text) then true else if (b == c) || (c == dot) then rest else false

-- The last test of `matchhere`, for the first byte `c` of the pattern; `here` is the call on the rest of it.
abbrev pub match_byte : (c : ℕ) → (here : List ℕ → Bool) → (text : List ℕ) → Bool
match_byte c here [] = false
match_byte c here (b ∷ text) = if (c == dot) || (c == b) then here text else false

pub matchhere : (re text : List ℕ) → Bool
matchhere [] text = true
matchhere (c ∷ []) text = if c == dollar then is_empty text else match_byte c (matchhere []) text
matchhere (c ∷ d ∷ re) text =
    let starred = matchstar c (matchhere re) text in
    let plain = match_byte c (matchhere (d ∷ re)) text in if d == star then starred else plain

-- The loop of `match` over the ends of the text.
pub match_from : (re text : List ℕ) → Bool
match_from re [] = matchhere re []
match_from re (b ∷ text) =
    let rest = match_from re text in if matchhere re (b ∷ text) then true else rest

pub match : (re text : List ℕ) → Bool
match [] text = match_from [] text
match (c ∷ re) text = if c == caret then matchhere re text else match_from (c ∷ re) text
