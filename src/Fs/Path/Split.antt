-- ===== src/Fs/Path/Split.antt =====
-- `skipelem`, and splitting a path at its slashes.
use assignment1_cs.Base.{
  ℕ, ◌≤◌, ◌≡◌, inl, inr, refl, sym, ap, ◌∙◌, false, Bool-cases, Option, none, some, List, [], ◌∷◌,
  ◌++◌, take, length, if◌then◌else◌, ◌==◌, arith, append_assoc, append-nil, subst,
}
use assignment1_cs.Fs.Path.{dirsiz, slash, Name, skip_slashes, element, skip_from, skipelem}

-- An element that has been read, unless it is empty.
abbrev pub close : Name → List Name → List Name
close [] es = es
close (c ∷ e) es = (c ∷ e) ∷ es

-- The parts of a path between slashes, without the empty ones; `e` is the part that has been read.
abbrev pub split : Name → List ℕ → List Name
split e [] = close e []
split e (c ∷ path) = if c == slash then close e (split [] path) else split (e ++ c ∷ []) path

abbrev pub elements : List ℕ → List Name
elements path = split [] path

-- The path does not begin with a slash.
abbrev pub Trimmed : List ℕ → Type 0
Trimmed [] = Unit
Trimmed (c ∷ path) = (c == slash) ≡ false

skip_slashes-elements : (path : List ℕ) → elements (skip_slashes path) ≡ elements path
unfolding skip_slashes
skip_slashes-elements [] = refl
skip_slashes-elements (c ∷ path) = elim (Bool-cases (c == slash)) [
  | inl s ↦ rw s (skip_slashes-elements path)
  | inr s ↦ rw s (rw s refl)
]

pub skip_slashes-Trimmed : (path : List ℕ) → Trimmed (skip_slashes path)
unfolding skip_slashes
skip_slashes-Trimmed [] = tt
skip_slashes-Trimmed (c ∷ path) = elim (Bool-cases (c == slash)) [
  | inl s ↦ rw s (skip_slashes-Trimmed path)
  | inr s ↦ rw s s
]

pub length-skip_slashes : (path : List ℕ) → length (skip_slashes path) ≤ length path
unfolding skip_slashes
length-skip_slashes [] = omega arith
length-skip_slashes (c ∷ path) = elim (Bool-cases (c == slash)) [
  | inl s ↦ rw s (omega (arith, length-skip_slashes path))
  | inr s ↦ rw s (omega arith)
]

pub split-element :
    (e path : List ℕ) → split e path ≡ close (e ++ (element path).0) (elements (element path).1)
unfolding element
split-element e [] = ap (λ z. close z []) (sym (append-nil e))
split-element e (c ∷ path) = elim (Bool-cases (c == slash)) [
  | inl s ↦ rw s (rw s (ap (λ z. close z (split [] path)) (sym (append-nil e))))
  | inr s ↦ rw s (
      split-element (e ++ c ∷ []) path
      ∙ ap (λ z. close z (split [] (element path).1)) (append_assoc e (c ∷ []) (element path).0))
]

-- What a call of `skipelem` may come to.
abbrev pub Skipped : List Name → Option (List ℕ × Name) → Type 0
Skipped [] out = out ≡ none
Skipped (e ∷ es) out =
    (rest : List ℕ) × (out ≡ some (rest, take dirsiz e)) × (elements rest ≡ es) × Trimmed rest

skip_from-Skipped : (path : List ℕ) → Trimmed path → Skipped (elements path) (skip_from path)
unfolding skip_from element
skip_from-Skipped [] trimmed = refl
skip_from-Skipped (c ∷ path) trimmed =
    let (e, rest) = element path in
    let whole : elements (c ∷ path) ≡ (c ∷ e) ∷ elements rest =
      rw trimmed (split-element (c ∷ []) path) in
    subst (λ es. Skipped es (skip_from (c ∷ path))) (sym whole)
      (skip_slashes rest, rw trimmed refl, skip_slashes-elements rest, skip_slashes-Trimmed rest)

-- `skipelem` returns null for a path without parts, and else the first 14 characters of the first
-- of the parts between slashes, and a rest without leading slashes whose parts are the other ones.
pub skipelem_lem : (path : List ℕ) → Skipped (elements path) (skipelem path)
unfolding skipelem
skipelem_lem path =
    subst (λ es. Skipped es (skip_from (skip_slashes path))) (skip_slashes-elements path)
      (skip_from-Skipped (skip_slashes path) (skip_slashes-Trimmed path))
