-- ===== src/Grep/Language.antt =====
-- What a pattern means, without reference to the matcher: a sequence of items, each a set of words,
-- perhaps tied to the start and to the end of the line.
use assignment1_cs.Base.{
  ℕ, ◌≡◌, ◌⊎◌, inl, inr, refl, Bool, true, false, List, [], ◌∷◌, ◌++◌, if◌then◌else◌, ◌==◌,
}
use assignment1_cs.Grep.{accepts, asterisk, dollar}

pub data Item : Type 0 where
  one : ℕ → Item
  many : ℕ → Item

-- The words that a sequence of items stands for.
pub data Word : List Item → List ℕ → Type 0 where
  nil : Word [] []
  char :
      {is : List Item} {w : List ℕ} (c x : ℕ)
      → accepts c x ≡ true
      → Word is w
      → Word (one c ∷ is) (x ∷ w)
  stop : {is : List Item} {w : List ℕ} (c : ℕ) → Word is w → Word (many c ∷ is) w
  more :
      {is : List Item} {w : List ℕ} (c x : ℕ)
      → accepts c x ≡ true
      → Word (many c ∷ is) w
      → Word (many c ∷ is) (x ∷ w)

pub record Pattern : Type 0 where
  pub items : List Item
  pub to_end : Bool

abbrev pub with_item : Item → Pattern → Pattern
with_item i p = record p { items = i ∷ p.items }

-- Reading a pattern after its `^`: `c*` is an item, a final `$` asks for the end, all else is a
-- character.
abbrev pub parse : List ℕ → Pattern
parse [] = record { items = []; to_end = false }
parse (c ∷ []) =
    if c == dollar
    then record { items = []; to_end = true }
    else record { items = one c ∷ []; to_end = false }
parse (c ∷ d ∷ re) =
    let starred = with_item (many c) (parse re) in
    let plain = with_item (one c) (parse (d ∷ re)) in if d == asterisk then starred else plain

-- A word of the pattern begins the text, and is all of it if the pattern asks for the end.
pub record Begins (p : Pattern) (text : List ℕ) : Type 0 where
  pub word : List ℕ
  pub post : List ℕ
  pub split : text ≡ word ++ post
  pub fits : Word p.items word
  pub ends : p.to_end ≡ true → post ≡ []

pub many-inversion :
    {is : List Item} {w : List ℕ} {c : ℕ}
    → Word (many c ∷ is) w
    → Word is w
      ⊎ ((x : ℕ) × (v : List ℕ) × (w ≡ x ∷ v) × (accepts c x ≡ true) × Word (many c ∷ is) v)
many-inversion (stop _ f) = inl f
many-inversion (more {w = v} _ x a f) = inr (x, v, refl, a, f)

pub one-inversion :
    {is : List Item} {w : List ℕ} {c : ℕ}
    → Word (one c ∷ is) w
    → (x : ℕ) × (v : List ℕ) × (w ≡ x ∷ v) × (accepts c x ≡ true) × Word is v
one-inversion (char {w = v} _ x a f) = (x, v, refl, a, f)

pub nil-inversion : {w : List ℕ} → Word [] w → w ≡ []
nil-inversion nil = refl
