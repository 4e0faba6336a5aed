-- ===== src/Base/Refs.antt =====
-- Reference counts: `refs` lists the references that are held, a slot once for each of them.
use assignment1_cs.Base.Tests.{
  if◌then◌else◌, ◌==◌, Bool-cases, Option-cases, some_inj, ==→eq, ==→ne,
}
use assignment1_cs.Base.Lists.{get_elem?}
use assignment1_cs.Base.Slots.{modify, get_elem?-modify_self, get_elem?-modify_ne}
use Prim.Native.Nat.{ℕ, suc, ◌-◌, ◌<◌}
use mathlib.Core.Path.{◌≡◌, refl, sym, ap, ◌∙◌}
use mathlib.Core.Logic.{◌≢◌, inl, inr}
use mathlib.Core.Option.{none, some}
use mathlib.Core.List.{List, [], ◌∷◌}
use native.Mathlib.Omega.{arith}

-- How many references to slot `i` are held.
abbrev pub held : List ℕ → ℕ → ℕ
held [] i = 0
held (x ∷ xs) i = if x == i then suc (held xs i) else held xs i

-- One reference to `i` less.
abbrev pub drop_ref : List ℕ → ℕ → List ℕ
drop_ref [] i = []
drop_ref (x ∷ xs) i = if x == i then xs else x ∷ drop_ref xs i

pub held-drop_ref_self : (refs : List ℕ) (i : ℕ) → held (drop_ref refs i) i ≡ held refs i - 1
held-drop_ref_self [] i = refl
held-drop_ref_self (x ∷ xs) i = let rest = held-drop_ref_self xs i in ground arith

pub held-drop_ref_ne : (refs : List ℕ) (i j : ℕ) → i ≢ j → held (drop_ref refs i) j ≡ held refs j
held-drop_ref_ne [] i j ne = refl
held-drop_ref_ne (x ∷ xs) i j ne = let rest = held-drop_ref_ne xs i j ne in ground arith

pub held-cons_self : (refs : List ℕ) (i : ℕ) → held (i ∷ refs) i ≡ suc (held refs i)
held-cons_self refs i = ground arith

pub held-cons_ne : (refs : List ℕ) (i j : ℕ) → i ≢ j → held (i ∷ refs) j ≡ held refs j
held-cons_ne refs i j ne = ground arith

pub drop_ref-cons : (i : ℕ) (is : List ℕ) → drop_ref (i ∷ is) i ≡ is
drop_ref-cons i is = ground arith

-- Every count is right, and no reference leads out of the table; `count` reads a slot's count.
pub record Counted {ℓ} {A : Type ℓ} (count : A → ℕ) (t : List A) (refs : List ℕ) : Type ℓ where
  pub counts : (i : ℕ) (x : A) → get_elem? t i ≡ some x → count x ≡ held refs i
  pub inside : (i : ℕ) → get_elem? t i ≡ none → held refs i ≡ 0

module _ {ℓ} {A : Type ℓ} (count : A → ℕ) where
  -- A held reference leads to a slot.
  pub held-slot :
      (t : List A) (refs : List ℕ) (i : ℕ)
      → Counted count t refs
      → 0 < held refs i
      → (x : A) × (get_elem? t i ≡ some x) × (count x ≡ held refs i)
  held-slot t refs i c h = elim (Option-cases (get_elem? t i)) [
    | inl z ↦ absurd (omega (arith, h, c.inside i z))
    | inr (x, z) ↦ (x, z, c.counts i x z)
  ]

  -- The counts stay right if the slot of `i` and the references to it change alike.
  pub Counted-modify :
      (t : List A) (refs refs' : List ℕ) (i : ℕ) (f : A → A) {x : A}
      → Counted count t refs
      → get_elem? t i ≡ some x
      → count (f x) ≡ held refs' i
      → ((j : ℕ) → i ≢ j → held refs' j ≡ held refs j)
      → Counted count (modify t i f) refs'
  Counted-modify t refs refs' i f {x} c there at elsewhere = record {
    counts = λ j g e. elim (Bool-cases (i == j)) [
      | inl same ↦
          let ij : i ≡ j = ==→eq i j same in
          let found : f x ≡ g =
            some_inj
              (sym (get_elem?-modify_self t i f there) ∙ ap (get_elem? (modify t i f)) ij ∙ e) in
          ap count (sym found) ∙ at ∙ ap (held refs') ij
      | inr other ↦
          let ne : i ≢ j = ==→ne i j other in
          c.counts j g (sym (get_elem?-modify_ne t i j f ne) ∙ e) ∙ sym (elsewhere j ne)
    ];
    inside = λ j e. elim (Bool-cases (i == j)) [
      | inl same ↦
          let gone : none ≡ some (f x) =
            sym e
            ∙ ap (get_elem? (modify t i f)) (sym (==→eq i j same))
            ∙ get_elem?-modify_self t i f there in
          absurd (cc gone)
      | inr other ↦
          let ne : i ≢ j = ==→ne i j other in
          elsewhere j ne ∙ c.inside j (sym (get_elem?-modify_ne t i j f ne) ∙ e)
    ];
  }
