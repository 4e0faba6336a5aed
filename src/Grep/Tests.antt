-- ===== src/Grep/Tests.antt =====
-- Tests of the model of grep.c.
use assignment1_cs.Base.{ℕ, ◌≡◌, ◌↔◌, refl, true, false, List, [], ◌∷◌, ◌++◌}
use assignment1_cs.Grep.{matchstar, matchhere, match_loop, match, caret, dot, asterisk, dollar}
use assignment1_cs.Grep.Language.{parse, Begins}
use assignment1_cs.Grep.Correct.{match_iff}

-- `^a.*b$`
abbrev pattern_line : List ℕ
pattern_line = caret ∷ 97 ∷ dot ∷ asterisk ∷ 98 ∷ dollar ∷ []

matches : match pattern_line (97 ∷ 99 ∷ 98 ∷ 98 ∷ []) ≡ true
unfolding match matchhere matchstar match_loop
matches = refl

misses : match pattern_line (97 ∷ 99 ∷ 98 ∷ 99 ∷ []) ≡ false
unfolding match matchhere matchstar match_loop
misses = refl

match_iff_example : (match pattern_line (97 ∷ 98 ∷ []) ≡ true) ↔ (
    (pre post : List ℕ) × (◌≡◌ {A = List ℕ} (97 ∷ 98 ∷ []) (pre ++ post))
    × (caret ≡ caret → pre ≡ [])
    × Begins (parse (97 ∷ dot ∷ asterisk ∷ 98 ∷ dollar ∷ [])) post)
match_iff_example = match_iff caret (97 ∷ dot ∷ asterisk ∷ 98 ∷ dollar ∷ []) (97 ∷ 98 ∷ [])
