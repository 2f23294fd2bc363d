-- ===== src/Grep/Tests.antt =====
-- The pattern `a.*c$`.
use operating_systems_class.Prelude.{ℕ, ◌≡◌, ◌↔◌, true, List, [], ◌∷◌}
use operating_systems_class.Grep.{match}
use operating_systems_class.Grep.Language.{Selected}
use operating_systems_class.Grep.Matcher.{match-Selected}

abbrev pattern_ac : List ℕ
pattern_ac = 97 ∷ 46 ∷ 42 ∷ 99 ∷ 36 ∷ []

-- `xabbc`
abbrev text_xabbc : List ℕ
text_xabbc = 120 ∷ 97 ∷ 98 ∷ 98 ∷ 99 ∷ []

match-Selected_example : (match pattern_ac text_xabbc ≡ true) ↔ Selected pattern_ac text_xabbc
match-Selected_example = match-Selected pattern_ac text_xabbc
