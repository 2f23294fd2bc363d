-- ===== src/Grep/Matcher.antt =====
-- The matcher decides the language.
use operating_systems_class.Prelude.{
  ℕ, ◌≡◌, ◌↔◌, inl, inr, true, Bool-cases, List, [], ◌∷◌, ◌++◌, ◌==◌, refl, ap, ap₂, sym, ◌∙◌,
  subst, arith,
}
use operating_systems_class.Grep.{
  star, dollar, caret, is_empty, match_byte, matchstar, matchhere, match_from, match,
}
use operating_systems_class.Grep.Language.{
  once, InLanguage, nothing, byte, items, anchored, Prefix, Occurs, Selected,
}
use operating_systems_class.Grep.Star.{
  matchstar-Splits, Splits-matchstar, join, cut_many, append_assoc,
}

-- One byte of the pattern, and the rest `re'` of it.
module _ (re re' : List ℕ) (c : ℕ) (is_first : items re ≡ once c ∷ items re')
    (same_end : anchored re ≡ anchored re') where
  match_byte-Prefix :
      (text : List ℕ)
      → match_byte c (matchhere re') text ≡ true
      → ((t : List ℕ) → matchhere re' t ≡ true → Prefix re' t)
      → Prefix re text
  match_byte-Prefix [] e h = absurd (ground (arith, e))
  match_byte-Prefix (b ∷ t) e h =
      let q = h t (ground (arith, e)) in
      record {
        word = b ∷ q.word;
        rest = q.rest;
        split = ap (λ u. b ∷ u) q.split;
        in_language =
            subst (λ i. InLanguage i (b ∷ q.word)) (sym is_first)
              (byte (ground (arith, e)) q.in_language);
        whole = λ z. q.whole (sym same_end ∙ z);
      }

  Prefix-match_byte :
      (text : List ℕ)
      → Prefix re text
      → ((t : List ℕ) → Prefix re' t → matchhere re' t ≡ true)
      → match_byte c (matchhere re') text ≡ true
  Prefix-match_byte text q h =
      go q.word (subst (λ i. InLanguage i q.word) is_first q.in_language) text q.split
    where
      go :
          (w : List ℕ)
          → InLanguage (once c ∷ items re') w
          → (t : List ℕ) → t ≡ w ++ q.rest
          → match_byte c (matchhere re') t ≡ true
      go _ (byte {b = b} {w = w} a i) t e =
          subst (λ t. match_byte c (matchhere re') t ≡ true) (sym e)
            (rw
              (
                a,
                h (w ++ q.rest) (record {
                  word = w;
                  rest = q.rest;
                  split = refl;
                  in_language = i;
                  whole = λ z. q.whole (same_end ∙ z);
                }),
              )
              refl)

empty_word : (w : List ℕ) → InLanguage [] w → w ≡ []
empty_word _ nothing = refl

-- What a match of `matchhere` is in the language.
matchhere-Prefix : (re text : List ℕ) → matchhere re text ≡ true → Prefix re text
unfolding matchhere items anchored
matchhere-Prefix [] text e = record {
  word = [];
  rest = text;
  split = refl;
  in_language = nothing;
  whole = λ z. absurd (ground (arith, z));
}
matchhere-Prefix (c ∷ []) text e = elim (Bool-cases (c == dollar)) [
  | inl s ↦ record {
    word = [];
    rest = text;
    split = refl;
    in_language = rw s nothing;
    whole = λ z. empty text (ground (arith, e, s));
  }
  | inr s ↦
      match_byte-Prefix (c ∷ []) [] c (rw s refl) s text (ground (arith, e, s))
        (matchhere-Prefix [])
]
  where
    empty : (t : List ℕ) → is_empty t ≡ true → t ≡ []
    empty [] e = refl
    empty (b ∷ t) e = absurd (ground (arith, e))
matchhere-Prefix (c ∷ d ∷ re) text e = elim (Bool-cases (d == star)) [
  | inl s ↦
      let t = matchstar-Splits c (matchhere re) text (ground (arith, e, s)) in
      let q = matchhere-Prefix re t.back t.found in
      record {
        word = t.front ++ q.word;
        rest = q.rest;
        split = t.split ∙ ap (λ u. t.front ++ u) q.split ∙ sym (append_assoc t.front q.word q.rest);
        in_language = rw s (join c (items re) t.front q.word t.repeats q.in_language);
        whole = λ z. q.whole (ground (arith, z, s));
      }
  | inr s ↦
      match_byte-Prefix (c ∷ d ∷ re) (d ∷ re) c (rw s refl) (rw s refl) text (ground (arith, e, s))
        (matchhere-Prefix (d ∷ re))
]

Prefix-matchhere : (re text : List ℕ) → Prefix re text → matchhere re text ≡ true
unfolding matchhere items anchored
Prefix-matchhere [] text q = refl
Prefix-matchhere (c ∷ []) text q = elim (Bool-cases (c == dollar)) [
  | inl s ↦ rw s (
      nothing_left (subst (λ i. InLanguage i q.word) (rw s refl) q.in_language) (q.whole s) text
        q.split)
  | inr s ↦ rw s (Prefix-match_byte (c ∷ []) [] c (rw s refl) s text q (Prefix-matchhere []))
]
  where
    nothing_left :
        InLanguage [] q.word → q.rest ≡ [] → (t : List ℕ) → t ≡ q.word ++ q.rest → is_empty t ≡ true
    nothing_left i z t e = ap is_empty (e ∙ ap₂ ◌++◌ (empty_word q.word i) z)
Prefix-matchhere (c ∷ d ∷ re) text q = elim (Bool-cases (d == star)) [
  | inl s ↦
      let w =
        cut_many c (items re) q.word (subst (λ i. InLanguage i q.word) (rw s refl) q.in_language) in
      let all : text ≡ w.front ++ (w.back ++ q.rest) =
        q.split ∙ ap (λ u. u ++ q.rest) w.cut ∙ append_assoc w.front w.back q.rest in
      let found : matchhere re (w.back ++ q.rest) ≡ true =
        Prefix-matchhere re (w.back ++ q.rest) (record {
          word = w.back;
          rest = q.rest;
          split = refl;
          in_language = w.behind;
          whole = λ z. q.whole (ground (arith, z, s));
        }) in
      rw s (
        subst (λ t. matchstar c (matchhere re) t ≡ true) (sym all)
          (Splits-matchstar c (matchhere re) w.front (w.back ++ q.rest) w.repeats found))
  | inr s ↦ rw s (
      Prefix-match_byte (c ∷ d ∷ re) (d ∷ re) c (rw s refl) (rw s refl) text q
        (Prefix-matchhere (d ∷ re)))
]

match_from-Occurs : (re text : List ℕ) → match_from re text ≡ true → Occurs re text
unfolding match_from
match_from-Occurs re [] e = record {
  before = [];
  from = [];
  split = refl;
  here = matchhere-Prefix re [] e;
}
match_from-Occurs re (b ∷ text) e = elim (Bool-cases (matchhere re (b ∷ text))) [
  | inl h ↦ record {
    before = [];
    from = b ∷ text;
    split = refl;
    here = matchhere-Prefix re (b ∷ text) h;
  }
  | inr h ↦
      let o = match_from-Occurs re text (ground (arith, e, h)) in
      record {
        before = b ∷ o.before;
        from = o.from;
        split = ap (λ t. b ∷ t) o.split;
        here = o.here;
      }
]

Prefix-match_from :
    (re before from : List ℕ) → Prefix re from → match_from re (before ++ from) ≡ true
unfolding match_from
Prefix-match_from re [] [] h = Prefix-matchhere re [] h
Prefix-match_from re [] (b ∷ from) h = rw (Prefix-matchhere re (b ∷ from) h) refl
Prefix-match_from re (b ∷ before) from h = elim (Bool-cases (matchhere re (b ∷ before ++ from))) [
  | inl e ↦ rw e refl
  | inr e ↦ rw e (Prefix-match_from re before from h)
]

Occurs-match_from : (re text : List ℕ) → Occurs re text → match_from re text ≡ true
Occurs-match_from re text o =
    subst (λ t. match_from re t ≡ true) (sym o.split) (Prefix-match_from re o.before o.from o.here)

-- `match` says 1 exactly when the pattern selects the text: some part of the text is a word of the pattern's
-- language, at the beginning of the text if the pattern starts with a caret, and at the end of it if the
-- pattern ends with a dollar.
pub match-Selected : (re text : List ℕ) → (match re text ≡ true) ↔ Selected re text
unfolding match Selected
match-Selected [] text = (match_from-Occurs [] text, Occurs-match_from [] text)
match-Selected (c ∷ re) text = elim (Bool-cases (c == caret)) [
  | inl e ↦ rw e (matchhere-Prefix re text, Prefix-matchhere re text)
  | inr e ↦ rw e (match_from-Occurs (c ∷ re) text, Occurs-match_from (c ∷ re) text)
]
