-- ===== src/Proc/Exit.antt =====
-- `exit` and the parents of the processes.
use assignment1_cs.Base.{
  modify, get_elem?-modify_self, get_elem?-modify_ne, modify_inversion, ℕ, zero, suc, ◌+◌, ◌≡◌, ◌≢◌,
  refl, sym, ap, subst, ◌∙◌, ◌⊎◌, inl, inr, Bool, true, false, Bool-cases, Option-cases, Option,
  some, length, get_elem?, get_elem?-lt, if◌then◌else◌, ◌==◌, ltb, leb, ◌&&◌, arith, some_inj,
  ==→eq, ==→ne,
}
use assignment1_cs.Proc.{
  Proc, running, zombie, Table, wakeup1, state_eq, parent_eq, pass_child, pass_children, of_proc,
  chan_of, exit_locked,
}
use assignment1_cs.Proc.Table.{
  Related, Related-back, Related-forth, Related-then, Related-refl, Related-refl_at, length-wakeup1,
}
use assignment1_cs.Proc.Orphans.{
  lives, started, Alive, NoOrphans, Kept, AllKept, NoOrphans-kept, wakeup1-AllKept,
}

module _ (me init : ℕ) where
  -- What the loop of `exit` does to a process, once it has come to its slot or before.
  pub record Passed (handled : Bool) (p q : Proc) : Type 0 where
    pub lives_same : lives q.state ≡ lives p.state
    pub started_same : started q.state ≡ started p.state
    pub parent : q.parent ≡ (if handled && parent_eq p.parent me then some init else p.parent)

  unpassed : (p : Proc) → Passed false p p
  unpassed p = record { lives_same = refl; started_same = refl; parent = refl }

  kept_after :
      (handled : Bool) (t u v : Table) (j : ℕ)
      → Related (Passed handled) (get_elem? t j) (get_elem? u j)
      → AllKept u v
      → Related (Passed handled) (get_elem? t j) (get_elem? v j)
  kept_after handled t u v j h k =
      Related-then (Passed handled) Kept (Passed handled) (get_elem? t j) (get_elem? u j)
        (get_elem? v j)
        (λ p q r a b. record {
          lives_same = b.lives_same ∙ a.lives_same;
          started_same = b.started_same ∙ a.started_same;
          parent = b.parent_same ∙ a.parent;
        })
        h (k j)

  not_child :
      (t : Table) (i j : ℕ)
      → ((p : Proc) → get_elem? t i ≡ some p → parent_eq p.parent me ≡ false)
      → Related (Passed (i == j)) (get_elem? t j) (get_elem? t j)
  not_child t i j h = elim (Bool-cases (i == j)) [
    | inl same ↦ rw same (
        Related-refl_at (Passed true) (get_elem? t j) (λ p e.
          let stays : parent_eq p.parent me ≡ false =
            h p (ap (get_elem? t) (omega (arith, ==→eq i j same)) ∙ e) in
          record { lives_same = refl; started_same = refl; parent = rw stays }))
    | inr other ↦ rw other (Related-refl (Passed false) (get_elem? t j) unpassed)
  ]

  adopted :
      (t : Table) (i j : ℕ) (p : Proc)
      → get_elem? t i ≡ some p
      → parent_eq p.parent me ≡ true
      → Related
          (Passed (i == j))
          (get_elem? t j)
          (get_elem? (modify t i (λ q. record q { parent = some init })) j)
  adopted t i j p e h = elim (Bool-cases (i == j)) [
    | inl same ↦
        let k : i ≡ j = ==→eq i j same in
        rw
          (
            same,
            ap (get_elem? t) (sym k) ∙ e,
            ap (get_elem? (modify t i (λ q. record q { parent = some init }))) (sym k)
                ∙ get_elem?-modify_self t i (λ q. record q { parent = some init }) e,
          )
          (record { lives_same = refl; started_same = refl; parent = rw h })
    | inr other ↦
        rw
          (
            other,
            get_elem?-modify_ne t i j (λ q. record q { parent = some init }) (==→ne i j other),
          )
          (Related-refl (Passed false) (get_elem? t j) unpassed)
  ]

  pass_child-Passed :
      (i : ℕ) (t : Table) (j : ℕ)
      → Related (Passed (i == j)) (get_elem? t j) (get_elem? (pass_child i me init t) j)
  unfolding pass_child
  pass_child-Passed i t j = elim (Option-cases (get_elem? t i)) [
    | inl e ↦ rw (e, pass_child) (not_child t i j (λ p f. cc))
    | inr (p, e) ↦ elim (Bool-cases (parent_eq p.parent me)) [
      | inr h ↦
          rw (e, pass_child, h)
            (not_child t i j (λ q f. ap (λ x. parent_eq x.parent me) (some_inj (sym f ∙ e)) ∙ h))
      | inl h ↦ elim (Bool-cases (state_eq p.state zombie)) [
        | inr z ↦ rw (e, pass_child, h, z) (adopted t i j p e h)
        | inl z ↦
            rw (e, pass_child, h, z)
              (kept_after (i == j) t _ _ j (adopted t i j p e h) (wakeup1-AllKept (of_proc init) _))
      ]
    ]
  ]

  -- Two rounds of the loop one after the other.
  Passed-then :
      (n i j : ℕ) (p q r : Proc)
      → Passed (i == j) p q
      → Passed (leb (i + 1) j && ltb j (i + 1 + n)) q r
      → Passed (leb i j && ltb j (i + suc n)) p r
  Passed-then n i j p q r a b = record {
    lives_same = b.lives_same ∙ a.lives_same;
    started_same = b.started_same ∙ a.started_same;
    parent = grind (arith, a.parent, b.parent);
  }

  pass_children-Passed :
      (n i : ℕ) (t : Table) (j : ℕ)
      → Related
          (Passed (leb i j && ltb j (i + n)))
          (get_elem? t j)
          (get_elem? (pass_children n i me init t) j)
  unfolding pass_children
  pass_children-Passed zero i t j =
      let before : (leb i j && ltb j (i + 0)) ≡ false = ground arith in
      rw before (Related-refl (Passed false) (get_elem? t j) unpassed)
  pass_children-Passed (suc n) i t j =
      Related-then (Passed (i == j)) (Passed (leb (i + 1) j && ltb j (i + 1 + n)))
        (Passed (leb i j && ltb j (i + suc n))) (get_elem? t j)
        (get_elem? (pass_child i me init t) j)
        (get_elem? (pass_children n (i + 1) me init (pass_child i me init t)) j) (Passed-then n i j)
        (pass_child-Passed i t j) (pass_children-Passed n (i + 1) (pass_child i me init t) j)

  -- The loop over the whole table.
  loop-Passed :
      (t : Table) (j : ℕ) {q : Proc}
      → get_elem? (pass_children (length t) 0 me init t) j ≡ some q
      → (p : Proc) × (get_elem? t j ≡ some p) × Passed true p q
  loop-Passed t j {q} e =
      let (p, f, r) = Related-back _ (get_elem? t j) _ (pass_children-Passed (length t) 0 t j) e in
      let inside : (leb 0 j && ltb j (0 + length t)) ≡ true = ground (arith, get_elem?-lt t j f) in
      (p, f, subst (λ b. Passed b p q) inside r)

  -- After the loop nobody has the exiting process for a parent.
  record Handed (t : Table) : Type 0 where
    init_lives : Alive t init
    parents :
        (j : ℕ) (p : Proc)
        → get_elem? t j ≡ some p
        → started p.state ≡ true
        → (j ≡ init) ⊎ ((k : ℕ) × (p.parent ≡ some k) × (me ≢ k) × Alive t k)

  Alive-passed : (t : Table) (j : ℕ) → Alive t j → Alive (pass_children (length t) 0 me init t) j
  Alive-passed t j a =
      let (q, e, r) =
        Related-forth _ (get_elem? t j) _ (pass_children-Passed (length t) 0 t j) a.there in
      record { who = q; there = e; living = r.lives_same ∙ a.living }

  chosen_init :
      (x : Option ℕ) (k : ℕ)
      → x ≡ some k
      → (k == me) ≡ true
      → (if parent_eq x me then some init else x) ≡ some init
  chosen_init x k e same = rw (e, same)

  chosen_old :
      (x : Option ℕ) (k : ℕ)
      → x ≡ some k
      → (k == me) ≡ false
      → (if parent_eq x me then some init else x) ≡ some k
  chosen_old x k e diff = rw (e, diff)

  new_parent :
      (t : Table) (p q : Proc) (k : ℕ)
      → me ≢ init
      → Alive t init
      → Passed true p q
      → p.parent ≡ some k
      → Alive t k
      → (m : ℕ) × (q.parent ≡ some m) × (me ≢ m) × Alive t m
  new_parent t p q k ne i r e a = elim (Bool-cases (k == me)) [
    | inl same ↦ (init, r.parent ∙ chosen_init p.parent k e same, ne, i)
    | inr other ↦ (k, r.parent ∙ chosen_old p.parent k e other, (λ h. ==→ne k me other (sym h)), a)
  ]

  pass_children-Handed :
      (t : Table) → me ≢ init → NoOrphans init t → Handed (pass_children (length t) 0 me init t)
  pass_children-Handed t ne h = record {
    init_lives = Alive-passed t init h.init_lives;
    parents = λ j q e s.
        let (p, f, r) = loop-Passed t j e in
        elim (h.parents j p f (sym r.started_same ∙ s)) [
          | inl i ↦ inl i
          | inr (k, g, a) ↦
              let (m, g', d, b) = new_parent t p q k ne h.init_lives r g a in
              inr (m, g', d, Alive-passed t m b)
        ];
  }

  Alive-other : (t : Table) (j : ℕ) (f : Proc → Proc) → me ≢ j → Alive t j → Alive (modify t me f) j
  Alive-other t j f ne a = record {
    who = a.who;
    there = get_elem?-modify_ne t me j f ne ∙ a.there;
    living = a.living;
  }

  die-NoOrphans :
      (t : Table) {p : Proc}
      → me ≢ init
      → get_elem? t me ≡ some p
      → started p.state ≡ true
      → Handed t
      → NoOrphans init (modify t me (λ q. record q { state = zombie }))
  die-NoOrphans t {p} ne there s h = record {
    init_lives = Alive-other t init (λ q. record q { state = zombie }) ne h.init_lives;
    parents = λ j q e t'. elim (modify_inversion t me j (λ q. record q { state = zombie }) e) [
      | inl (same, (p', e', z)) ↦
          let p'-started : started p'.state ≡ true =
            ap (λ x. started x.state) (some_inj (sym e' ∙ ap (get_elem? t) (sym same) ∙ there))
            ∙ s in
          elim (h.parents j p' e' p'-started) [
            | inl i ↦ inl i
            | inr (k, g, d, a) ↦ inr (
              k,
              ap (λ x. x.parent) z ∙ g,
              Alive-other t k (λ q. record q { state = zombie }) d a,
            )
          ]
      | inr (diff, e') ↦ elim (h.parents j q e' t') [
        | inl i ↦ inl i
        | inr (k, g, d, a) ↦ inr (k, g, Alive-other t k (λ q. record q { state = zombie }) d a)
      ]
    ];
  }

  pub exit_locked-NoOrphans :
      (t : Table) {p : Proc}
      → get_elem? t me ≡ some p
      → p.state ≡ running
      → me ≢ init
      → NoOrphans init t
      → NoOrphans init (exit_locked t me init)
  unfolding exit_locked
  exit_locked-NoOrphans t {p} there runs ne h =
      let t1 = wakeup1 (chan_of p.parent) t in
      let k1 = wakeup1-AllKept (chan_of p.parent) t in
      let (p1, e1, r1) = Related-forth Kept (get_elem? t me) (get_elem? t1 me) (k1 me) there in
      let t2 = pass_children (length t1) 0 me init t1 in
      let (p2, e2, r2) =
        Related-forth _ (get_elem? t1 me) (get_elem? t2 me)
          (pass_children-Passed (length t1) 0 t1 me) e1 in
      let was : started p.state ≡ true = ap started runs in
      rw (there, exit_locked, ← length-wakeup1 (chan_of p.parent) t)
        (die-NoOrphans t2 ne e2 (r2.started_same ∙ r1.started_same ∙ was)
          (pass_children-Handed t1 ne (NoOrphans-kept k1 h)))
