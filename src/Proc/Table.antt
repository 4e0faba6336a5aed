-- ===== src/Proc/Table.antt =====
-- Lookups in the process table after its operations.
use assignment1_cs.Base.{
  modify, ℕ, zero, suc, ◌≡◌, refl, ap, subst, Option, none, some, [], ◌∷◌, length, get_elem?,
  if◌then◌else◌, ◌&&◌, some_inj,
}
use assignment1_cs.Proc.{Proc, sleeping, runnable, Chan, Table, wakeup1, state_eq, chan_eq}

-- Two tables are related slot by slot.
abbrev pub Related : (Proc → Proc → Type 0) → Option Proc → Option Proc → Type 0
Related R none none = Unit
Related R none (some q) = ⊥
Related R (some p) none = ⊥
Related R (some p) (some q) = R p q

pub Related-back :
    (R : Proc → Proc → Type 0) (x y : Option Proc) {q : Proc}
    → Related R x y
    → y ≡ some q
    → (p : Proc) × (x ≡ some p) × R p q
Related-back R none none r e = cc
Related-back R none (some q) r e = absurd r
Related-back R (some p) none r e = absurd r
Related-back R (some p) (some q) r e = (p, refl, subst (R p) (some_inj e) r)

pub Related-forth :
    (R : Proc → Proc → Type 0) (x y : Option Proc) {p : Proc}
    → Related R x y
    → x ≡ some p
    → (q : Proc) × (y ≡ some q) × R p q
Related-forth R none none r e = cc
Related-forth R none (some q) r e = absurd r
Related-forth R (some p) none r e = absurd r
Related-forth R (some p) (some q) r e = (q, refl, subst (λ x. R x q) (some_inj e) r)

pub Related-then :
    (R S T : Proc → Proc → Type 0) (x y z : Option Proc)
    → ((p q r : Proc) → R p q → S q r → T p r)
    → Related R x y
    → Related S y z
    → Related T x z
Related-then R S T none none none h r s = tt
Related-then R S T none none (some c) h r s = absurd s
Related-then R S T none (some b) z h r s = absurd r
Related-then R S T (some a) none z h r s = absurd r
Related-then R S T (some a) (some b) none h r s = absurd s
Related-then R S T (some a) (some b) (some c) h r s = h a b c r s

pub Related-refl :
    (R : Proc → Proc → Type 0) (x : Option Proc) → ((p : Proc) → R p p) → Related R x x
Related-refl R none same = tt
Related-refl R (some p) same = same p

pub Related-modify :
    (R : Proc → Proc → Type 0) (t : Table) (i j : ℕ) (f : Proc → Proc)
    → ((p : Proc) → R p p)
    → ((p : Proc) → get_elem? t i ≡ some p → R p (f p))
    → Related R (get_elem? t j) (get_elem? (modify t i f) j)
Related-modify R [] i j f same h = tt
Related-modify R (p ∷ t) zero zero f same h = h p refl
Related-modify R (p ∷ t) zero (suc j) f same h = Related-refl R (get_elem? t j) same
Related-modify R (p ∷ t) (suc i) zero f same h = same p
Related-modify R (p ∷ t) (suc i) (suc j) f same h = Related-modify R t i j f same h

-- `wakeup1` makes exactly the sleepers on the channel runnable.
unfoldable pub woken : Chan → Proc → Proc
woken chan p =
    if state_eq p.state sleeping && chan_eq p.chan chan then record p { state = runnable } else p

pub Related-wakeup1 :
    (chan : Chan) (t : Table) (j : ℕ)
    → Related (λ p q. q ≡ woken chan p) (get_elem? t j) (get_elem? (wakeup1 chan t) j)
unfolding wakeup1 woken
Related-wakeup1 chan [] j = tt
Related-wakeup1 chan (p ∷ t) zero = refl
Related-wakeup1 chan (p ∷ t) (suc j) = Related-wakeup1 chan t j

pub length-wakeup1 : (chan : Chan) (t : Table) → length (wakeup1 chan t) ≡ length t
unfolding wakeup1
length-wakeup1 chan [] = refl
length-wakeup1 chan (p ∷ t) = ap suc (length-wakeup1 chan t)

pub Related-refl_at :
    (R : Proc → Proc → Type 0) (x : Option Proc) → ((p : Proc) → x ≡ some p → R p p) → Related R x x
Related-refl_at R none h = tt
Related-refl_at R (some p) h = h p refl
