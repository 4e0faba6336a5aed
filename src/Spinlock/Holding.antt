-- ===== src/Spinlock/Holding.antt =====
-- `holding`, asked by a processor at any time.
use assignment1_cs.Base.{
  ℕ, ◌≡◌, ◌≢◌, sym, ap, ◌∙◌, inl, inr, ◌↔◌, Bool, true, false, Bool-cases, ◌==◌, arith, ==→eq,
  ==→ne,
}
use assignment1_cs.Spinlock.{Spinlock, is_cpu, holding}
use assignment1_cs.Spinlock.Exclusion.{Phase, held, owns, owner_mark, Owned, Reach, Reach-Owned}

abbrev is_held : Phase → Bool
is_held held = true
is_held _ = false

is_held-unowned : (p : Phase) → owns p ≡ false → is_held p ≡ false
is_held-unowned p h = ground arith

is_held→eq : (p : Phase) → is_held p ≡ true → p ≡ held
is_held→eq p h = ground arith

mark_self : (p : Phase) (i : ℕ) → is_cpu (owner_mark p i) i ≡ is_held p
mark_self p i = ground arith

mark_other : (p : Phase) (i j : ℕ) → i ≢ j → is_cpu (owner_mark p i) j ≡ false
mark_other p i j ne = ground arith

holding-Owned :
    {lk : Spinlock} {ph : ℕ → Phase} (i : ℕ) → Owned lk ph → holding lk i ≡ is_held (ph i)
unfolding holding
holding-Owned {lk} {ph} i (inl f) = rw f.unlocked (sym (is_held-unowned (ph i) (f.nobody i)))
holding-Owned {lk} {ph} i (inr (k, o)) =
    rw (o.locked, o.marked, holding)
      (elim (Bool-cases (k == i)) [
        | inl same ↦
            let ki : k ≡ i = ==→eq k i same in
            ap (is_cpu (owner_mark (ph k) k)) (sym ki)
            ∙ mark_self (ph k) k
            ∙ ap (λ z. is_held (ph z)) ki
        | inr other ↦
            let ne : k ≢ i = ==→ne k i other in
            mark_other (ph k) k i ne ∙ sym (is_held-unowned (ph i) (o.alone i ne))
      ])

-- In every state that the processors reach, `holding` is true for a processor exactly from the end
-- of its `acquire` to the beginning of its `release`.
pub holding_iff :
    {lk : Spinlock} {ph : ℕ → Phase} (i : ℕ) → Reach lk ph → (holding lk i ≡ true) ↔ (ph i ≡ held)
holding_iff {lk} {ph} i r =
    let exact = holding-Owned i (Reach-Owned r) in
    ((λ h. is_held→eq (ph i) (sym exact ∙ h)), λ at. exact ∙ ap is_held at)
