-- ===== src/Sh/Tokens.antt =====
-- What the shell's tokens are at the beginning of a string.
use assignment1_cs.Base.{
  ℕ, ◌≤◌, ◌<◌, ◌≡◌, refl, sym, ◌∙◌, inl, inr, true, false, ◌||◌, Bool-cases, List, [], ◌∷◌, ◌++◌,
  length, ◌==◌, ==→eq, arith,
}
use assignment1_cs.Sh.{
  among, is_space, is_symbol, skip_space, word, token_of, greater, gettoken, starts, word_token,
}
use assignment1_cs.Sh.Print.{Plain, AllPlain, IsWord}

-- A string without whitespace in front.
abbrev pub Bare : List ℕ → Type 0
Bare [] = Unit
Bare (c ∷ s) = is_space c ≡ false

pub skip_space-Bare : (s : List ℕ) → Bare s → skip_space s ≡ s
unfolding skip_space
skip_space-Bare [] bare = refl
skip_space-Bare (c ∷ s) bare = rw bare refl

pub Bare-skip_space : (s : List ℕ) → Bare (skip_space s)
unfolding skip_space
Bare-skip_space [] = tt
Bare-skip_space (c ∷ s) = elim (Bool-cases (is_space c)) [
  | inl h ↦ rw h (Bare-skip_space s)
  | inr h ↦ rw h h
]

pub skip_space-skip_space : (s : List ℕ) → skip_space (skip_space s) ≡ skip_space s
skip_space-skip_space s = skip_space-Bare (skip_space s) (Bare-skip_space s)

pub length-skip_space : (s : List ℕ) → length (skip_space s) ≤ length s
unfolding skip_space
length-skip_space [] = omega arith
length-skip_space (c ∷ s) = elim (Bool-cases (is_space c)) [
  | inl h ↦ rw h (omega (arith, length-skip_space s))
  | inr h ↦ rw h (omega arith)
]

-- What is behind a character other than whitespace is shorter than what `skip_space` leaves.
pub skip_space-behind :
    (a : List ℕ) (c : ℕ) (b : List ℕ)
    → is_space c ≡ false
    → length b < length (skip_space (a ++ c ∷ b))
unfolding skip_space
skip_space-behind [] c b h = rw h (omega arith)
skip_space-behind (x ∷ a) c b h = elim (Bool-cases (is_space x)) [
  | inl e ↦ rw e (skip_space-behind a c b h)
  | inr e ↦ rw e (omega (arith, length-behind a c b))
]
  where
    length-behind : (a : List ℕ) (c : ℕ) (b : List ℕ) → length b < length (a ++ c ∷ b)
    length-behind [] c b = omega arith
    length-behind (x ∷ a) c b = omega (arith, length-behind a c b)

-- The end of a word is here.
abbrev pub Ends : List ℕ → Type 0
Ends [] = Unit
Ends (c ∷ s) = (is_space c || is_symbol c) ≡ true

pub word-append : (w t : List ℕ) → AllPlain w → Ends t → word (w ++ t) ≡ (w, t)
unfolding word
word-append [] [] p e = refl
word-append [] (c ∷ t) p e = rw e refl
word-append (c ∷ w) t p e = rw (p.0, word-append w t p.1 e) refl

Plain-space : (c : ℕ) → Plain c → is_space c ≡ false
Plain-space c h = elim (Bool-cases (is_space c)) [ inl e ↦ cc | inr e ↦ e ]

pub Plain-symbol : (c : ℕ) → Plain c → is_symbol c ≡ false
Plain-symbol c h = elim (Bool-cases (is_space c)) [ inl e ↦ cc | inr e ↦ sym (rw e refl) ∙ h ]

-- A plain character is none of the symbols.
Plain-ne : (c d : ℕ) → Plain c → is_symbol d ≡ true → (c == d) ≡ false
Plain-ne c d h k = elim (Bool-cases (c == d)) [
  | inl e ↦ (let same = ==→eq c d e in let no_symbol = Plain-symbol c h in cc)
  | inr e ↦ e
]

Plain-ne_sym : (c d : ℕ) → Plain c → is_symbol d ≡ true → (d == c) ≡ false
Plain-ne_sym c d h k = elim (Bool-cases (d == c)) [
  | inl e ↦ (let same = ==→eq d c e in let no_symbol = Plain-symbol c h in cc)
  | inr e ↦ e
]

abbrev pub AllSymbols : List ℕ → Type 0
AllSymbols [] = Unit
AllSymbols (d ∷ toks) = (is_symbol d ≡ true) × AllSymbols toks

Plain-among : (c : ℕ) (toks : List ℕ) → Plain c → AllSymbols toks → among c toks ≡ false
unfolding among
Plain-among c [] h k = refl
Plain-among c (d ∷ toks) h k = rw (Plain-ne_sym c d h k.0, Plain-among c toks h k.1) refl

token_of-word :
    (c : ℕ) (w t : List ℕ)
    → AllPlain (c ∷ w)
    → Ends t
    → token_of (c ∷ (w ++ t)) ≡ (word_token, c ∷ w, t)
unfolding token_of among
token_of-word c w t p e =
    rw (Plain-ne c 62 p.0 refl, Plain-symbol c p.0, word-append (c ∷ w) t p e) refl

pub word-Bare : (w t : List ℕ) → IsWord w → Bare (w ++ t)
word-Bare [] t h = absurd (h.nonempty refl)
word-Bare (c ∷ w) t h = Plain-space c h.plain.0

pub starts-word : (toks w t : List ℕ) → IsWord w → AllSymbols toks → starts toks (w ++ t) ≡ false
unfolding starts
starts-word toks [] t h k = absurd (h.nonempty refl)
starts-word toks (c ∷ w) t h k = Plain-among c toks h.plain.0 k

-- A word and what ends it give the word's token.
pub gettoken-word :
    (w t : List ℕ) → IsWord w → Ends t → gettoken (w ++ t) ≡ (word_token, w, skip_space t)
unfolding gettoken
gettoken-word [] t h e = absurd (h.nonempty refl)
gettoken-word (c ∷ w) t h e =
    rw (skip_space-Bare (c ∷ (w ++ t)) (Plain-space c h.plain.0), token_of-word c w t h.plain e)
      refl

-- '>' before a word is not '>>'.
pub gettoken-greater : (w t : List ℕ) → IsWord w → gettoken (62 ∷ (w ++ t)) ≡ (62, 62 ∷ [], w ++ t)
unfolding gettoken skip_space token_of greater among
gettoken-greater [] t h = absurd (h.nonempty refl)
gettoken-greater (c ∷ w) t h = rw (Plain-ne c 62 h.plain.0 refl, Plain-space c h.plain.0) refl
