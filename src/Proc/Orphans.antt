-- ===== src/Proc/Orphans.antt =====
-- The parents of started processes, whatever the processes do.
use assignment1_cs.Base.{
  modify, ℕ, ◌≡◌, refl, sym, subst, ◌∙◌, ◌⊎◌, inl, inr, Bool, true, false, some, get_elem?, arith,
}
use assignment1_cs.Proc.{Proc, ProcState, sleeping, runnable, running, zombie, Chan, Table, wakeup1}
use assignment1_cs.Proc.Table.{
  Related, Related-back, Related-forth, Related-then, Related-modify, Related-refl, Related-wakeup1,
  woken,
}

-- Able to run some time, as it is.
abbrev pub lives : ProcState → Bool
lives sleeping = true
lives runnable = true
lives running = true
lives _ = false

-- Between the end of `fork` and the parent's `wait`.
abbrev pub started : ProcState → Bool
started zombie = true
started s = lives s

pub record Alive (t : Table) (j : ℕ) : Type 0 where
  pub who : Proc
  pub there : get_elem? t j ≡ some who
  pub living : lives who.state ≡ true

pub record NoOrphans (init : ℕ) (t : Table) : Type 0 where
  pub init_lives : Alive t init
  pub parents :
      (j : ℕ) (p : Proc)
      → get_elem? t j ≡ some p
      → started p.state ≡ true
      → (j ≡ init) ⊎ ((k : ℕ) × (p.parent ≡ some k) × Alive t k)

-- A change of a process that matters to nobody's parent.
pub record Kept (p q : Proc) : Type 0 where
  pub lives_same : lives q.state ≡ lives p.state
  pub started_same : started q.state ≡ started p.state
  pub parent_same : q.parent ≡ p.parent

pub Kept-refl : (p : Proc) → Kept p p
Kept-refl p = record { lives_same = refl; started_same = refl; parent_same = refl }

abbrev pub AllKept : Table → Table → Type 0
AllKept t u = (j : ℕ) → Related Kept (get_elem? t j) (get_elem? u j)

pub Alive-kept : {t u : Table} → AllKept t u → (j : ℕ) → Alive t j → Alive u j
Alive-kept {t} {u} k j a =
    let (q, e, r) = Related-forth Kept (get_elem? t j) (get_elem? u j) (k j) a.there in
    record { who = q; there = e; living = r.lives_same ∙ a.living }

pub NoOrphans-kept : {init : ℕ} {t u : Table} → AllKept t u → NoOrphans init t → NoOrphans init u
NoOrphans-kept {init} {t} {u} k h = record {
  init_lives = Alive-kept k init h.init_lives;
  parents = λ j q e s.
      let (p, f, r) = Related-back Kept (get_elem? t j) (get_elem? u j) (k j) e in
      elim (h.parents j p f (sym r.started_same ∙ s)) [
        | inl i ↦ inl i
        | inr (m, g, a) ↦ inr (m, r.parent_same ∙ g, Alive-kept k m a)
      ];
}

pub modify-Kept :
    {init : ℕ} (t : Table) (i : ℕ) (f : Proc → Proc)
    → ((p : Proc) → get_elem? t i ≡ some p → Kept p (f p))
    → NoOrphans init t
    → NoOrphans init (modify t i f)
modify-Kept t i f h = NoOrphans-kept (λ j. Related-modify Kept t i j f Kept-refl h)

pub woken-Kept : (chan : Chan) (p : Proc) → Kept p (woken chan p)
unfolding woken
woken-Kept chan p = ground arith

pub wakeup1-AllKept : (chan : Chan) (t : Table) → AllKept t (wakeup1 chan t)
wakeup1-AllKept chan t j =
    Related-then (λ p q. q ≡ woken chan p) (λ p q. p ≡ q) Kept (get_elem? t j)
      (get_elem? (wakeup1 chan t) j) (get_elem? (wakeup1 chan t) j)
      (λ p q r e f. subst (Kept p) (sym e ∙ f) (woken-Kept chan p)) (Related-wakeup1 chan t j)
      (Related-refl (λ p q. p ≡ q) (get_elem? (wakeup1 chan t) j) (λ p. refl))
