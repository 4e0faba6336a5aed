-- ===== src/Fs/Icache/Refs.antt =====
-- The cache of inodes under any interleaving of its operations.
use assignment1_cs.Base.{
  ℕ, ◌+◌, ◌-◌, ◌≡◌, ◌≢◌, ◌<◌, refl, sym, ap, subst, ◌∙◌, ◌⊎◌, inl, inr, Bool, Bool-cases,
  Option-cases, true, false, Option, none, some, List, ◌∷◌, get_elem?, arith, some_inj, modify,
  get_elem?-modify_self, modify_inversion, held, drop_ref, held-cons_self, held-cons_ne,
  held-drop_ref_self, held-drop_ref_ne, Counted, Counted-modify, held-slot, modify_outside,
}
use assignment1_cs.Fs.Icache.{
  Inode, Icache, Dinode, Search, cached, missing, is_inode, iget_loop, iget, idup, ilock_begin,
  ilock_load, iunlock, iput_begin, iput_free, iput_end,
}
use assignment1_cs.Fs.Icache.Unique.{
  SameInode, Unique, Keeps, modify-Unique, iget_loop-cached, iget_loop-missing, iget_loop-empty,
  iget_loop-full,
}

-- `refs` lists the references to slots that are held, by files, directories and calls.
pub record IsCache (t : Icache) (refs : List ℕ) : Type 0 where
  pub unique : Unique t
  pub counted : Counted (λ (ip : Inode). ip.ref) t refs

-- A slot of which the inode and the count stay.
same_slot :
    (t : Icache) (refs : List ℕ) (i : ℕ) (f : Inode → Inode)
    → ((a : Inode) → SameInode a (f a) × ((f a).ref ≡ a.ref))
    → IsCache t refs
    → IsCache (modify t i f) refs
same_slot t refs i f keeps c = record {
  unique = modify-Unique t i f (λ a e. ((keeps a).0, λ h. omega (arith, h, (keeps a).1))) c.unique;
  counted = elim (Option-cases (get_elem? t i)) [
    | inl z ↦
        subst (λ u. Counted (λ (ip : Inode). ip.ref) u refs) (sym (modify_outside t i f z))
          c.counted
    | inr (x, z) ↦
        Counted-modify (λ (ip : Inode). ip.ref) t refs refs i f c.counted z
          ((keeps x).1 ∙ c.counted.counts i x z) (λ j ne. refl)
  ];
}

-- A slot that changes its count with the references held.
recounted :
    (t : Icache) (refs refs' : List ℕ) (i : ℕ) (f : Inode → Inode) {x : Inode}
    → get_elem? t i ≡ some x
    → Keeps x (f x)
    → (f x).ref ≡ held refs' i
    → ((j : ℕ) → i ≢ j → held refs' j ≡ held refs j)
    → IsCache t refs
    → IsCache (modify t i f) refs'
recounted t refs refs' i f {x} there keeps at elsewhere c = record {
  unique =
      modify-Unique t i f (λ a e. subst (λ z. Keeps z (f z)) (some_inj (sym there ∙ e)) keeps)
        c.unique;
  counted = Counted-modify (λ (ip : Inode). ip.ref) t refs refs' i f c.counted there at elsewhere;
}

holds_inode :
    (dev inum : ℕ) (ip : Inode)
    → is_inode dev inum ip ≡ true
    → (0 < ip.ref) × (ip.dev ≡ dev) × (ip.inum ≡ inum)
holds_inode dev inum ip h = ground arith

other_inode :
    (dev inum : ℕ) (ip : Inode)
    → is_inode dev inum ip ≡ false
    → 0 < ip.ref
    → dev ≡ ip.dev
    → inum ≡ ip.inum
    → ⊥
other_inode dev inum ip h used d n = ground arith

abbrev recycle : ℕ → ℕ → Inode → Inode
recycle dev inum ip = record ip { dev = dev; inum = inum; ref = 1; busy = false; valid = false }

recycle-Unique :
    (t : Icache) (i dev inum : ℕ)
    → ((j : ℕ) (ip : Inode) → get_elem? t j ≡ some ip → is_inode dev inum ip ≡ false)
    → Unique t
    → Unique (modify t i (recycle dev inum))
recycle-Unique t i dev inum absent unique j k a b ea eb ra rb same =
    elim (modify_inversion t i j (recycle dev inum) ea) [
      | inl (ij, (a', there, is)) ↦ elim (modify_inversion t i k (recycle dev inum) eb) [
        | inl (ik, _) ↦ sym ij ∙ ik
        | inr (ik, eb') ↦ absurd (
            other_inode dev inum b (absent k b eb') rb (ap (λ z. z.dev) (sym is) ∙ same.0)
              (ap (λ z. z.inum) (sym is) ∙ same.1))
      ]
      | inr (ij, ea') ↦ elim (modify_inversion t i k (recycle dev inum) eb) [
        | inl (ik, (b', there, is)) ↦ absurd (
            other_inode dev inum a (absent j a ea') ra (ap (λ z. z.dev) (sym is) ∙ sym same.0)
              (ap (λ z. z.inum) (sym is) ∙ sym same.1))
        | inr (ik, eb') ↦ unique j k a b ea' eb' ra rb same
      ]
    ]

-- What a call of `iget` may come to.
abbrev pub Got : ℕ → ℕ → Icache → List ℕ → Option (ℕ × Icache) → Type 0
Got dev inum t refs none =
    (j : ℕ) (ip : Inode) → get_elem? t j ≡ some ip → (is_inode dev inum ip ≡ false) × (0 < ip.ref)
Got dev inum t refs (some (i, u)) =
    IsCache u (i ∷ refs)
    × ((ip : Inode) × (get_elem? u i ≡ some ip) × (ip.dev ≡ dev) × (ip.inum ≡ inum))
    × ((0 < held refs i)
        ⊎ ((held refs i ≡ 0)
            × ((j : ℕ) (ip : Inode) → get_elem? t j ≡ some ip → is_inode dev inum ip ≡ false)))

Search-cases :
    (s : Search)
    → ((i : ℕ) × (s ≡ cached i)) ⊎ (s ≡ missing none) ⊎ ((i : ℕ) × (s ≡ missing (some i)))
Search-cases (cached i) = inl (i, refl)
Search-cases (missing none) = inr (inl refl)
Search-cases (missing (some i)) = inr (inr (i, refl))

-- On a cache whose counts are right and in which no inode is twice, `iget` returns a slot with the
-- inode asked for and keeps the cache so with the new reference, and the slot was in use, or held
-- by nobody with the inode in no slot in use; it panics only if the inode is in no slot and every
-- slot is in use.
pub iget_lem :
    (t : Icache) (refs : List ℕ) (dev inum : ℕ)
    → IsCache t refs
    → Got dev inum t refs (iget dev inum t)
unfolding iget
iget_lem t refs dev inum c = elim (Search-cases (iget_loop dev inum t 0 none)) [
  | inl (i, e) ↦
      let (j, ip, at, there, is) = iget_loop-cached dev inum t 0 none e in
      let ji : j ≡ i = omega (arith, at) in
      let here : get_elem? t i ≡ some ip = ap (get_elem? t) (sym ji) ∙ there in
      let (used, d, n) = holds_inode dev inum ip is in
      let code : iget dev inum t ≡ some (i, modify t i (λ ip. record ip { ref = ip.ref + 1 })) =
        rw (e, iget) refl in
      subst (Got dev inum t refs) (sym code) (
        recounted t refs (i ∷ refs) i (λ ip. record ip { ref = ip.ref + 1 }) here
            ((refl, refl), λ h. used)
            (omega (arith, held-cons_self refs i, c.counted.counts i ip here))
            (λ j ne. held-cons_ne refs i j ne) c,
        (record ip { ref = ip.ref + 1 }, get_elem?-modify_self t i _ here, d, n),
        inl (omega (arith, used, c.counted.counts i ip here)),
      )
  | inr (inl e) ↦
      let code : iget dev inum t ≡ none = rw (e, iget) refl in
      subst (Got dev inum t refs) (sym code) (λ j ip at. (
        iget_loop-missing dev inum t 0 none e j ip at,
        (iget_loop-full dev inum t 0 none e).1 j ip at,
      ))
  | inr (inr (i, e)) ↦ elim (iget_loop-empty dev inum t 0 none e) [
    | inl wrong ↦ absurd (cc wrong)
    | inr (j, ip, at, there, free) ↦
        let ji : j ≡ i = omega (arith, at) in
        let here : get_elem? t i ≡ some ip = ap (get_elem? t) (sym ji) ∙ there in
        let absent = iget_loop-missing dev inum t 0 none e in
        let fresh : held refs i ≡ 0 = sym (c.counted.counts i ip here) ∙ free in
        let code : iget dev inum t ≡ some (i, modify t i (recycle dev inum)) = rw (e, iget) refl in
        subst (Got dev inum t refs) (sym code) (
          record {
            unique = recycle-Unique t i dev inum absent c.unique;
            counted =
                Counted-modify (λ (ip : Inode). ip.ref) t refs (i ∷ refs) i (recycle dev inum)
                  c.counted here (omega (arith, held-cons_self refs i, fresh))
                  (λ j ne. held-cons_ne refs i j ne);
          },
          (recycle dev inum ip, get_elem?-modify_self t i _ here, refl, refl),
          inr (fresh, absent),
        )
  ]
]

-- Each operation that finds its slot changes that slot only.
module _ (t : Icache) (refs : List ℕ) (i : ℕ) (c : IsCache t refs) where
  ilock_begin-IsCache : {got : Bool} {u : Icache} → ilock_begin t i ≡ some (got, u) → IsCache u refs
  unfolding ilock_begin
  ilock_begin-IsCache {got} {u} e = elim (Option-cases (get_elem? t i)) [
    | inl z ↦ absurd (ground arith)
    | inr (ip, z) ↦ elim (Bool-cases ip.busy) [
      | inl b ↦ let same : t ≡ u = ground arith in subst (λ v. IsCache v refs) same c
      | inr b ↦
          let same : modify t i (λ ip. record ip { busy = true }) ≡ u = ground arith in
          subst (λ v. IsCache v refs) same (same_slot t refs i _ (λ a. ((refl, refl), refl)) c)
    ]
  ]

  ilock_load-IsCache : (dip : Dinode) {u : Icache} → ilock_load t i dip ≡ some u → IsCache u refs
  unfolding ilock_load
  ilock_load-IsCache dip {u} e = elim (Option-cases (get_elem? t i)) [
    | inl z ↦ absurd (ground arith)
    | inr (ip, z) ↦ elim (Bool-cases ip.valid) [
      | inl b ↦ let same : t ≡ u = ground arith in subst (λ v. IsCache v refs) same c
      | inr b ↦
          let same : modify t i (λ ip. record ip { disk = dip; valid = true }) ≡ u = ground arith in
          subst (λ v. IsCache v refs) same (same_slot t refs i _ (λ a. ((refl, refl), refl)) c)
    ]
  ]

  iunlock-IsCache : {u : Icache} → iunlock t i ≡ some u → IsCache u refs
  unfolding iunlock
  iunlock-IsCache {u} e = elim (Option-cases (get_elem? t i)) [
    | inl z ↦ absurd (ground arith)
    | inr (ip, z) ↦
        let same : modify t i (λ ip. record ip { busy = false }) ≡ u = ground arith in
        subst (λ v. IsCache v refs) same (same_slot t refs i _ (λ a. ((refl, refl), refl)) c)
  ]

  iput_begin-IsCache :
      {u : Icache}
      → 0 < held refs i
      → iput_begin t i ≡ some (false, u)
      → IsCache u (drop_ref refs i)
  unfolding iput_begin
  iput_begin-IsCache {u} h e =
      let (ip, here, count) = held-slot (λ (ip : Inode). ip.ref) t refs i c.counted h in
      let same : modify t i (λ ip. record ip { ref = ip.ref - 1 }) ≡ u = ground arith in
      subst (λ v. IsCache v (drop_ref refs i)) same
        (recounted t refs (drop_ref refs i) i _ here ((refl, refl), λ _. omega (arith, h, count))
          (omega (arith, held-drop_ref_self refs i, count)) (λ j ne. held-drop_ref_ne refs i j ne)
          c)

  iput_last-IsCache : {u : Icache} → iput_begin t i ≡ some (true, u) → IsCache u refs
  unfolding iput_begin
  iput_last-IsCache {u} e = elim (Option-cases (get_elem? t i)) [
    | inl z ↦ absurd (ground arith)
    | inr (ip, z) ↦
        let same : modify t i (λ ip. record ip { busy = true }) ≡ u = ground arith in
        subst (λ v. IsCache v refs) same (same_slot t refs i _ (λ a. ((refl, refl), refl)) c)
  ]

-- A step, and the references that are held after it.
pub data Step (t : Icache) (refs : List ℕ) : Icache → List ℕ → Type 0 where
  get :
      {i : ℕ} {u : Icache} (dev inum : ℕ) → iget dev inum t ≡ some (i, u) → Step t refs u (i ∷ refs)
  dup : (i : ℕ) → 0 < held refs i → Step t refs (idup t i) (i ∷ refs)
  lock : {got : Bool} {u : Icache} (i : ℕ) → ilock_begin t i ≡ some (got, u) → Step t refs u refs
  load : {u : Icache} (i : ℕ) (dip : Dinode) → ilock_load t i dip ≡ some u → Step t refs u refs
  unlock : {u : Icache} (i : ℕ) → iunlock t i ≡ some u → Step t refs u refs
  put :
      {u : Icache} (i : ℕ)
      → 0 < held refs i
      → iput_begin t i ≡ some (false, u)
      → Step t refs u (drop_ref refs i)
  put_last : {u : Icache} (i : ℕ) → iput_begin t i ≡ some (true, u) → Step t refs u refs
  free : (i : ℕ) → Step t refs (iput_free t i) refs
  end : (i : ℕ) → 0 < held refs i → Step t refs (iput_end t i) (drop_ref refs i)

pub data Reach (t : Icache) (refs : List ℕ) : Icache → List ℕ → Type 0 where
  here : Reach t refs t refs
  next : {u v : Icache} {us vs : List ℕ} → Reach t refs u us → Step u us v vs → Reach t refs v vs

Step-IsCache : {t u : Icache} {refs us : List ℕ} → Step t refs u us → IsCache t refs → IsCache u us
unfolding idup iput_free iput_end
Step-IsCache {t} {u} {refs} (get {i} dev inum e) c =
    (subst (Got dev inum t refs) e (iget_lem t refs dev inum c)).0
Step-IsCache {t} {u} {refs} (dup i h) c =
    let (ip, there, count) = held-slot (λ (ip : Inode). ip.ref) t refs i c.counted h in
    recounted t refs (i ∷ refs) i (λ ip. record ip { ref = ip.ref + 1 }) there
      ((refl, refl), λ _. omega (arith, h, count)) (omega (arith, held-cons_self refs i, count))
      (λ j ne. held-cons_ne refs i j ne) c
Step-IsCache {t} {u} {refs} (lock i e) c = ilock_begin-IsCache t refs i c e
Step-IsCache {t} {u} {refs} (load i dip e) c = ilock_load-IsCache t refs i c dip e
Step-IsCache {t} {u} {refs} (unlock i e) c = iunlock-IsCache t refs i c e
Step-IsCache {t} {u} {refs} (put i h e) c = iput_begin-IsCache t refs i c h e
Step-IsCache {t} {u} {refs} (put_last i e) c = iput_last-IsCache t refs i c e
Step-IsCache {t} {u} {refs} (free i) c = same_slot t refs i _ (λ a. ((refl, refl), refl)) c
Step-IsCache {t} {u} {refs} (end i h) c =
    let (ip, there, count) = held-slot (λ (ip : Inode). ip.ref) t refs i c.counted h in
    recounted t refs (drop_ref refs i) i _ there ((refl, refl), λ _. omega (arith, h, count))
      (omega (arith, held-drop_ref_self refs i, count)) (λ j ne. held-drop_ref_ne refs i j ne) c

-- Whatever operations of the cache follow one another, no inode is in two slots in use, and the
-- reference count of each slot is the number of references held to it.
pub Reach-IsCache :
    {t : Icache} {refs : List ℕ} {u : Icache} {us : List ℕ}
    → IsCache t refs
    → Reach t refs u us
    → IsCache u us
Reach-IsCache c here = c
Reach-IsCache c (next r st) = Step-IsCache st (Reach-IsCache c r)
