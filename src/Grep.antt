-- ===== src/Grep.antt =====
-- grep.c: the matcher for patterns with `^ . * $`. A C string is the list of its characters, without
-- the final NUL; a test for '\0' is a test for the empty list.
pub mod Language
pub mod Correct
mod Tests
use assignment1_cs.Base.{ℕ, Bool, true, false, ◌&&◌, ◌||◌, List, [], ◌∷◌, if◌then◌else◌, ◌==◌}

-- The characters.
abbrev pub caret : ℕ
caret = 94

abbrev pub dot : ℕ
dot = 46

abbrev pub asterisk : ℕ
asterisk = 42

abbrev pub dollar : ℕ
dollar = 36

abbrev pub accepts : ℕ → ℕ → Bool
accepts c t = c == dot || c == t

-- `matchstar`, for the call `matchhere(re, ·)` that it is given.
pub matchstar : ℕ → (List ℕ → Bool) → List ℕ → Bool
matchstar c here [] = here []
matchstar c here (t ∷ ts) = here (t ∷ ts) || (t == c || c == dot) && matchstar c here ts

abbrev pub at_end : List ℕ → Bool
at_end [] = true
at_end (t ∷ ts) = false

-- The last test of `matchhere`, with its call for the rest.
abbrev pub match_char : ℕ → (List ℕ → Bool) → List ℕ → Bool
match_char c here [] = false
match_char c here (t ∷ ts) = if accepts c t then here ts else false

pub matchhere : List ℕ → List ℕ → Bool
matchhere [] text = true
matchhere (c ∷ []) text = if c == dollar then at_end text else match_char c (matchhere []) text
matchhere (c ∷ d ∷ re) text =
    if d == asterisk
    then matchstar c (matchhere re) text
    else match_char c (matchhere (d ∷ re)) text

-- The loop of `match`.
pub match_loop : List ℕ → List ℕ → Bool
match_loop re [] = matchhere re []
match_loop re (t ∷ ts) = matchhere re (t ∷ ts) || match_loop re ts

pub match : List ℕ → List ℕ → Bool
match [] text = match_loop [] text
match (c ∷ re) text = if c == caret then matchhere re text else match_loop (c ∷ re) text
