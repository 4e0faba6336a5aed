-- ===== src/Spinlock/Exclusion.antt =====
-- The steps of processors at a lock, and mutual exclusion.
use assignment1_cs.Base.{
  ℕ, ◌≡◌, ◌≢◌, refl, sym, ap, subst, ◌∙◌, ◌⊎◌, inl, inr, Bool, true, false, Bool-cases, Option,
  none, some, ◌==◌, arith, update, update_self, update_ne, ==→eq, ==→ne, if◌then◌else◌,
}
use assignment1_cs.Spinlock.{
  Cpu, Spinlock, initlock, acquire_enter, acquire_spin, acquire_record, release_clear, release_free,
}

-- Where a processor stands with respect to the lock.
pub data Phase : Type 0 where
  outside spinning taken held cleared : Phase

abbrev pub owns : Phase → Bool
owns outside = false
owns spinning = false
owns taken = true
owns held = true
owns cleared = true

-- What `cpu` holds while processor `i` owns the lock.
abbrev pub owner_mark : Phase → ℕ → Option ℕ
owner_mark outside i = none
owner_mark spinning i = none
owner_mark taken i = none
owner_mark held i = some i
owner_mark cleared i = none

pub data Step (lk : Spinlock) (ph : ℕ → Phase) : Spinlock → (ℕ → Phase) → Type 0 where
  enter :
      (c : Cpu) {c' : Cpu} (i : ℕ)
      → ph i ≡ outside
      → acquire_enter lk i c ≡ some c'
      → Step lk ph lk (update ph i spinning)
  spin :
      (i : ℕ)
      → ph i ≡ spinning
      → Step lk ph
          (acquire_spin lk).1
          (update ph i (if (acquire_spin lk).0 then taken else spinning))
  note : (i : ℕ) → ph i ≡ taken → Step lk ph (acquire_record lk i) (update ph i held)
  clear :
      {lk' : Spinlock} (i : ℕ)
      → ph i ≡ held
      → release_clear lk i ≡ some lk'
      → Step lk ph lk' (update ph i cleared)
  free : (i : ℕ) → ph i ≡ cleared → Step lk ph (release_free lk) (update ph i outside)

-- What the processors of a machine reach from a new lock.
pub data Reach : Spinlock → (ℕ → Phase) → Type 0 where
  start : Reach initlock (λ i. outside)
  next : {lk lk' : Spinlock} {ph ph' : ℕ → Phase} → Reach lk ph → Step lk ph lk' ph' → Reach lk' ph'

-- Nobody owns the lock.
pub record Free (lk : Spinlock) (ph : ℕ → Phase) : Type 0 where
  pub unlocked : lk.locked ≡ 0
  pub unmarked : lk.cpu ≡ none
  pub nobody : (j : ℕ) → owns (ph j) ≡ false

-- Processor `i` and nobody else does.
pub record OwnedBy (i : ℕ) (lk : Spinlock) (ph : ℕ → Phase) : Type 0 where
  pub locked : lk.locked ≡ 1
  pub marked : lk.cpu ≡ owner_mark (ph i) i
  pub owner : owns (ph i) ≡ true
  pub alone : (j : ℕ) → i ≢ j → owns (ph j) ≡ false

abbrev pub Owned : Spinlock → (ℕ → Phase) → Type 0
Owned lk ph = Free lk ph ⊎ ((i : ℕ) × OwnedBy i lk ph)

-- The owner is the processor of which it is known.
known_owner :
    {lk : Spinlock} {ph : ℕ → Phase} (i : ℕ) → owns (ph i) ≡ true → Owned lk ph → OwnedBy i lk ph
known_owner {lk} {ph} i own (inl f) = absurd (cc (own, f.nobody i))
known_owner {lk} {ph} i own (inr (k, o)) = elim (Bool-cases (k == i)) [
  | inl same ↦ subst (λ z. OwnedBy z lk ph) (==→eq k i same) o
  | inr other ↦ absurd (cc (own, o.alone i (==→ne k i other)))
]

module _ (ph : ℕ → Phase) (i : ℕ) (p : Phase) where
  owns_here : owns (update ph i p i) ≡ owns p
  owns_here = ap owns (update_self ph i p)

  owns_elsewhere : (j : ℕ) → i ≢ j → owns (update ph i p j) ≡ owns (ph j)
  owns_elsewhere j ne = ap owns (update_ne ph i j p ne)

  -- Nobody owns the lock afterwards either.
  nobody_owns :
      owns p ≡ false
      → ((j : ℕ) → i ≢ j → owns (ph j) ≡ false)
      → (j : ℕ) → owns (update ph i p j) ≡ false
  nobody_owns not_p rest j = elim (Bool-cases (i == j)) [
    | inl same ↦ ap (λ z. owns (update ph i p z)) (sym (==→eq i j same)) ∙ owns_here ∙ not_p
    | inr other ↦ let ne : i ≢ j = ==→ne i j other in owns_elsewhere j ne ∙ rest j ne
  ]

-- A processor that owns the lock goes on to own it.
owner_moves :
    (i : ℕ) (p : Phase) (lk' : Spinlock) (ph : ℕ → Phase)
    → ((j : ℕ) → i ≢ j → owns (ph j) ≡ false)
    → owns p ≡ true
    → lk'.locked ≡ 1
    → lk'.cpu ≡ owner_mark p i
    → Owned lk' (update ph i p)
owner_moves i p lk' ph alone own on mark = inr (
  i,
  record {
    locked = on;
    marked = mark ∙ ap (λ z. owner_mark z i) (sym (update_self ph i p));
    owner = owns_here ph i p ∙ own;
    alone = λ j ne. owns_elsewhere ph i p j ne ∙ alone j ne;
  },
)

-- A processor that does not own the lock stays without it.
other_moves :
    (i : ℕ) (p : Phase) {lk : Spinlock} {ph : ℕ → Phase}
    → owns (ph i) ≡ false
    → owns p ≡ false
    → Owned lk ph
    → Owned lk (update ph i p)
other_moves i p {lk} {ph} out out' (inl f) = inl (record {
  unlocked = f.unlocked;
  unmarked = f.unmarked;
  nobody = nobody_owns ph i p out' (λ j ne. f.nobody j);
})
other_moves i p {lk} {ph} out out' (inr (k, o)) =
    let ne : i ≢ k = (λ e. cc (out, o.owner, ap (λ z. owns (ph z)) e)) in
    inr (
      k,
      record {
        locked = o.locked;
        marked = o.marked ∙ ap (λ z. owner_mark z k) (sym (update_ne ph i k p ne));
        owner = owns_elsewhere ph i p k ne ∙ o.owner;
        alone = alone k o.alone;
      },
    )
  where
    alone :
        (k : ℕ)
        → ((j : ℕ) → k ≢ j → owns (ph j) ≡ false)
        → (j : ℕ) → k ≢ j
        → owns (update ph i p j) ≡ false
    alone k rest j ne = elim (Bool-cases (i == j)) [
      | inl same ↦ ap (λ z. owns (update ph i p z)) (sym (==→eq i j same)) ∙ owns_here ph i p ∙ out'
      | inr other ↦ owns_elsewhere ph i p j (==→ne i j other) ∙ rest j ne
    ]

Step-Owned :
    {lk lk' : Spinlock} {ph ph' : ℕ → Phase} → Step lk ph lk' ph' → Owned lk ph → Owned lk' ph'
unfolding acquire_spin acquire_record release_clear release_free
Step-Owned {lk} {ph = ph} (enter c i at ok) h = other_moves i spinning (ap owns at) refl h
Step-Owned {lk} {ph = ph} (spin i at) (inl f) =
    rw (f.unlocked, acquire_spin)
      (owner_moves i taken (record lk { locked = 1 }) ph (λ j ne. f.nobody j) refl refl f.unmarked)
Step-Owned {lk} {ph = ph} (spin i at) (inr (k, o)) =
    let busy : (lk.locked == 0) ≡ false = ground (arith, o.locked) in
    let same : lk ≡ record lk { locked = 1 } = ap (λ z. record lk { locked = z }) o.locked in
    rw (busy, acquire_spin)
      (subst (λ z. Owned z (update ph i spinning)) same
        (other_moves i spinning (ap owns at) refl (inr (k, o))))
Step-Owned {lk} {ph = ph} (note i at) h =
    let o = known_owner i (ap owns at) h in
    owner_moves i held (record lk { cpu = some i }) ph o.alone refl o.locked refl
Step-Owned {lk} {ph = ph} (clear {lk'} i at ok) h =
    let o = known_owner i (ap owns at) h in
    let is : record lk { cpu = none } ≡ lk' = ground arith in
    subst (λ z. Owned z (update ph i cleared)) is
      (owner_moves i cleared (record lk { cpu = none }) ph o.alone refl o.locked refl)
Step-Owned {lk} {ph = ph} (free i at) h =
    let o = known_owner i (ap owns at) h in
    inl (record {
      unlocked = refl;
      unmarked = o.marked ∙ ap (λ z. owner_mark z i) at;
      nobody = nobody_owns ph i outside refl o.alone;
    })

pub Reach-Owned : {lk : Spinlock} {ph : ℕ → Phase} → Reach lk ph → Owned lk ph
unfolding initlock
Reach-Owned start = inl (record { unlocked = refl; unmarked = refl; nobody = λ j. refl })
Reach-Owned (next r st) = Step-Owned st (Reach-Owned r)

-- However the steps of the processors interleave from a new lock, while one processor stands
-- between the successful exchange of `acquire` and the exchange of `release`, no other does.
pub mutual_exclusion :
    {lk : Spinlock} {ph : ℕ → Phase} (i j : ℕ)
    → Reach lk ph
    → i ≢ j
    → owns (ph i) ≡ true
    → owns (ph j) ≡ false
mutual_exclusion i j r ne own = let o = known_owner i own (Reach-Owned r) in o.alone j ne
