-- ===== src/Base/Slots.antt =====
-- Tables of slots, as lists: searching for a slot, and changing one.
use assignment1_cs.Base.Tests.{if◌then◌else◌, Bool-cases, Option-cases, some_inj}
use assignment1_cs.Base.Lists.{length, get_elem?}
use Prim.Native.Nat.{ℕ, zero, suc}
use mathlib.Core.Path.{◌≡◌, refl, sym, ap, ◌∙◌}
use mathlib.Core.Logic.{◌≢◌, ◌⊎◌, inl, inr}
use mathlib.Core.Bool.{Bool, true, false}
use mathlib.Core.Option.{Option, none, some}
use mathlib.Core.List.{List, [], ◌∷◌}
use native.Mathlib.Omega.{arith}

module _ {ℓ} {A : Type ℓ} where
  -- The first slot that satisfies the test.
  abbrev pub find_index : (A → Bool) → List A → Option ℕ
  find_index test [] = none
  find_index test (p ∷ t) =
      if test p then some 0 else elim (find_index test t) [ none ↦ none | some i ↦ some (suc i) ]

  -- Applies `f` to slot `i`.
  abbrev pub modify : List A → ℕ → (A → A) → List A
  modify [] i f = []
  modify (p ∷ t) zero f = f p ∷ t
  modify (p ∷ t) (suc i) f = p ∷ modify t i f

  pub get_elem?-modify_self :
      (t : List A) (i : ℕ) (f : A → A) {p : A}
      → get_elem? t i ≡ some p
      → get_elem? (modify t i f) i ≡ some (f p)
  get_elem?-modify_self [] i f e = cc
  get_elem?-modify_self (q ∷ t) zero f {p} e = ap some (ap f (some_inj e))
  get_elem?-modify_self (q ∷ t) (suc i) f e = get_elem?-modify_self t i f e

  pub get_elem?-modify_ne :
      (t : List A) (i j : ℕ) (f : A → A) → i ≢ j → get_elem? (modify t i f) j ≡ get_elem? t j
  get_elem?-modify_ne [] i j f h = refl
  get_elem?-modify_ne (q ∷ t) zero zero f h = absurd (h refl)
  get_elem?-modify_ne (q ∷ t) zero (suc j) f h = refl
  get_elem?-modify_ne (q ∷ t) (suc i) zero f h = refl
  get_elem?-modify_ne (q ∷ t) (suc i) (suc j) f h = get_elem?-modify_ne t i j f (λ e. h (ap suc e))

  -- Who stands at `j` after slot `i` was modified.
  pub modify_inversion :
      (t : List A) (i j : ℕ) (f : A → A) {q : A}
      → get_elem? (modify t i f) j ≡ some q
      → ((i ≡ j) × ((p : A) × (get_elem? t j ≡ some p) × (q ≡ f p)))
        ⊎ ((i ≢ j) × (get_elem? t j ≡ some q))
  modify_inversion [] i j f e = cc
  modify_inversion (p ∷ t) zero zero f e = inl (refl, (p, refl, sym (some_inj e)))
  modify_inversion (p ∷ t) zero (suc j) f e = inr ((λ h. omega arith), e)
  modify_inversion (p ∷ t) (suc i) zero f e = inr ((λ h. omega arith), e)
  modify_inversion (p ∷ t) (suc i) (suc j) f e = elim (modify_inversion t i j f e) [
    | inl (h, r) ↦ inl (ap suc h, r)
    | inr (h, r) ↦ inr ((λ k. h (omega arith)), r)
  ]

  -- A slot that a search finds, by the step of the search.
  find_index-cons :
      (test : A → Bool) (p : A) (t : List A) {i : ℕ}
      → find_index test (p ∷ t) ≡ some i
      → ((test p ≡ true) × (i ≡ 0))
        ⊎ ((test p ≡ false) × ((j : ℕ) × (find_index test t ≡ some j) × (i ≡ suc j)))
  find_index-cons test p t e = elim (Bool-cases (test p)) [
    | inl h ↦ inl (h, ground arith)
    | inr h ↦ elim (Option-cases (find_index test t)) [
      | inl f ↦ absurd (ground arith)
      | inr (j, f) ↦ inr (h, (j, f, ground arith))
    ]
  ]

  pub find_index-some :
      (test : A → Bool) (t : List A) {i : ℕ}
      → find_index test t ≡ some i
      → (p : A) × (get_elem? t i ≡ some p) × (test p ≡ true)
  find_index-some test [] e = cc
  find_index-some test (p ∷ t) {i} e = elim (find_index-cons test p t e) [
    | inl (h, z) ↦ (p, rw z, h)
    | inr (h, (j, f, z)) ↦ rw z (find_index-some test t f)
  ]

  find_index-cons_none :
      (test : A → Bool) (q : A) (t : List A)
      → find_index test (q ∷ t) ≡ none
      → (test q ≡ false) × (find_index test t ≡ none)
  find_index-cons_none test q t e = elim (Bool-cases (test q)) [
    | inl h ↦ absurd (ground arith)
    | inr h ↦ (h, ground arith)
  ]

  pub find_index-none :
      (test : A → Bool) (t : List A) (i : ℕ) {p : A}
      → find_index test t ≡ none
      → get_elem? t i ≡ some p
      → test p ≡ false
  find_index-none test [] i e g = cc
  find_index-none test (q ∷ t) zero e g =
      ap test (sym (some_inj g)) ∙ (find_index-cons_none test q t e).0
  find_index-none test (q ∷ t) (suc i) e g =
      find_index-none test t i (find_index-cons_none test q t e).1 g

  pub length-modify : (t : List A) (i : ℕ) (f : A → A) → length (modify t i f) ≡ length t
  length-modify [] i f = refl
  length-modify (p ∷ t) zero f = refl
  length-modify (p ∷ t) (suc i) f = ap suc (length-modify t i f)

  pub find_index-modify :
      (test : A → Bool) (t : List A) (i : ℕ) (f : A → A)
      → ((p : A) → get_elem? t i ≡ some p → test (f p) ≡ test p)
      → find_index test (modify t i f) ≡ find_index test t
  find_index-modify test [] i f h = refl
  find_index-modify test (p ∷ t) zero f h = rw (h p refl)
  find_index-modify test (p ∷ t) (suc i) f h = rw (find_index-modify test t i f h)

  pub modify_outside : (t : List A) (i : ℕ) (f : A → A) → get_elem? t i ≡ none → modify t i f ≡ t
  modify_outside [] i f e = refl
  modify_outside (x ∷ t) zero f e = cc e
  modify_outside (x ∷ t) (suc i) f e = ap (λ u. x ∷ u) (modify_outside t i f e)
