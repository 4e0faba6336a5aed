-- ===== src/Proc/Wait.antt =====
-- `wait`: whom it frees, and when it sleeps or gives up.
use assignment1_cs.Base.{
  find_index, find_index-some, find_index-none, get_elem?-modify_self, get_elem?-modify_ne, ℕ, ◌≡◌,
  ◌≢◌, refl, ◌⊎◌, inl, inr, Bool, true, false, Bool-cases, Option-cases, none, some, List, [], ◌∷◌,
  get_elem?, ◌&&◌, arith,
}
use assignment1_cs.Proc.{
  Proc, zombie, Table, Effect, kfree, freevm, state_eq, parent_eq, reaped, wait_round, Waited, reap,
  no_children, sleeps,
}
use assignment1_cs.Proc.System.{state_eq→eq, and_right}

abbrev pub ChildOf : ℕ → Proc → Type 0
ChildOf me p = parent_eq p.parent me ≡ true

abbrev pub is_zombie : Proc → Bool
is_zombie p = state_eq p.state zombie

-- What a round of `wait` may come to.
abbrev pub WaitResult : Table → ℕ → Bool → Table → Waited → List Effect → Type 0
WaitResult t me killed u (reap i pid) es =
    (p : Proc) × (get_elem? t i ≡ some p)
    × ChildOf me p
    × (p.state ≡ zombie)
    × (pid ≡ p.pid)
    × (get_elem? u i ≡ some (reaped p))
    × ((j : ℕ) → i ≢ j → get_elem? u j ≡ get_elem? t j)
    × (es ≡ kfree p.kstack ∷ freevm p.pgdir ∷ [])
WaitResult t me killed u no_children es =
    (u ≡ t)
    × (es ≡ [])
    × ((j : ℕ) (p : Proc) → get_elem? t j ≡ some p → ChildOf me p → p.state ≢ zombie)
    × ((killed ≡ true) ⊎ ((j : ℕ) (p : Proc) → get_elem? t j ≡ some p → ChildOf me p → ⊥))
WaitResult t me killed u sleeps es =
    (u ≡ t)
    × (es ≡ [])
    × (killed ≡ false)
    × ((j : ℕ) (p : Proc) → get_elem? t j ≡ some p → ChildOf me p → p.state ≢ zombie)
    × ((j : ℕ) × (p : Proc) × (get_elem? t j ≡ some p) × ChildOf me p)

no_zombies :
    (t : Table) (me : ℕ)
    → find_index (λ p. parent_eq p.parent me && state_eq p.state zombie) t ≡ none
    → (j : ℕ) (p : Proc) → get_elem? t j ≡ some p
    → ChildOf me p
    → p.state ≢ zombie
no_zombies t me f j p e child z =
    let miss : (parent_eq p.parent me && state_eq p.state zombie) ≡ false =
      find_index-none (λ p. parent_eq p.parent me && state_eq p.state zombie) t j f e in
    let hit : (parent_eq p.parent me && state_eq p.state zombie) ≡ true = simp (child, z) in cc

-- A round of `wait` frees a zombie child and no other slot, and returns its process number and the
-- pages to free; or it leaves the table alone, when there is no zombie child: with -1 if there is
-- no child or the caller was killed, asleep if there is a child and the caller was not.
pub wait_round_lem :
    (t : Table) (me : ℕ) (killed : Bool)
    → let (u, out, es) = wait_round t me killed in WaitResult t me killed u out es
unfolding wait_round
wait_round_lem t me killed =
    elim (Option-cases (find_index (λ p. parent_eq p.parent me && state_eq p.state zombie) t)) [
      | inr (i, f) ↦
          let (p, there, both) =
            find_index-some (λ p. parent_eq p.parent me && state_eq p.state zombie) t f in
          rw (f, there, wait_round)
            (
              p,
              there,
              and_left (parent_eq p.parent me) _ both,
              state_eq→eq p.state zombie (and_right (parent_eq p.parent me) _ both),
              refl,
              get_elem?-modify_self t i reaped there,
              (λ j ne. get_elem?-modify_ne t i j reaped ne),
              refl,
            )
      | inl f ↦ elim (Option-cases (find_index (λ p. parent_eq p.parent me) t)) [
        | inl g ↦
            rw (f, g, wait_round)
              (
                refl,
                refl,
                no_zombies t me f,
                inr (λ j p e child. cc (find_index-none (λ p. parent_eq p.parent me) t j g e)),
              )
        | inr (i, g) ↦ elim (Bool-cases killed) [
          | inl k ↦ rw (f, g, k, wait_round) (refl, refl, no_zombies t me f, inl refl)
          | inr k ↦
              rw (f, g, k, wait_round)
                (let (p, e, child) = find_index-some (λ p. parent_eq p.parent me) t g in
                  (refl, refl, refl, no_zombies t me f, (i, p, e, child)))
        ]
      ]
    ]
  where
    and_left : (a b : Bool) → (a && b) ≡ true → a ≡ true
    and_left a b h = ground arith
