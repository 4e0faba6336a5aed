-- ===== src/Fs/Icache/Unique.antt =====
-- Inodes and references in the cache.
use assignment1_cs.Base.{
  ℕ, zero, suc, ◌+◌, ◌≡◌, ◌<◌, refl, sym, ap, subst, ◌∙◌, ◌⊎◌, inl, inr, Bool-cases, true, false,
  Option, none, some, [], ◌∷◌, get_elem?, ◌==◌, arith, some_inj, ==→eq, modify, modify_inversion,
}
use assignment1_cs.Fs.Icache.{Inode, Icache, cached, missing, is_inode, remember, iget_loop}

abbrev pub SameInode : Inode → Inode → Type 0
SameInode a b = (a.dev ≡ b.dev) × (a.inum ≡ b.inum)

-- No two slots in use hold the same inode.
abbrev pub Unique : Icache → Type 0
Unique t =
    (i j : ℕ) (a b : Inode)
    → get_elem? t i ≡ some a
    → get_elem? t j ≡ some b
    → 0 < a.ref
    → 0 < b.ref
    → SameInode a b
    → i ≡ j

-- A slot keeps its inode, and is not taken into use.
abbrev pub Keeps : Inode → Inode → Type 0
Keeps a b = SameInode a b × (0 < b.ref → 0 < a.ref)

origin :
    (t : Icache) (i : ℕ) (f : Inode → Inode)
    → ((a : Inode) → get_elem? t i ≡ some a → Keeps a (f a))
    → (j : ℕ) {b : Inode} → get_elem? (modify t i f) j ≡ some b
    → (a : Inode) × (get_elem? t j ≡ some a) × Keeps a b
origin t i f keeps j {b} e = elim (modify_inversion t i j f e) [
  | inl (same, (a, there, is)) ↦
      (a, there, subst (Keeps a) (sym is) (keeps a (ap (get_elem? t) same ∙ there)))
  | inr (other, there) ↦ (b, there, ((refl, refl), λ h. h))
]

pub modify-Unique :
    (t : Icache) (i : ℕ) (f : Inode → Inode)
    → ((a : Inode) → get_elem? t i ≡ some a → Keeps a (f a))
    → Unique t
    → Unique (modify t i f)
modify-Unique t i f keeps unique j k a b ea eb ra rb same =
    let (a', ea', ka) = origin t i f keeps j ea in
    let (b', eb', kb) = origin t i f keeps k eb in
    unique j k a' b' ea' eb' (ka.1 ra) (kb.1 rb)
      (ka.0.0 ∙ same.0 ∙ sym kb.0.0, ka.0.1 ∙ same.1 ∙ sym kb.0.1)

-- The slot found holds the inode and is in use.
pub iget_loop-cached :
    (dev inum : ℕ) (t : Icache) (i : ℕ) (empty : Option ℕ) {k : ℕ}
    → iget_loop dev inum t i empty ≡ cached k
    → (j : ℕ) × (ip : Inode) × (k ≡ i + j)
      × (get_elem? t j ≡ some ip)
      × (is_inode dev inum ip ≡ true)
unfolding iget_loop
iget_loop-cached dev inum [] i empty e = cc e
iget_loop-cached dev inum (ip ∷ t) i empty {k} e = elim (Bool-cases (is_inode dev inum ip)) [
  | inl h ↦ let here : cached i ≡ cached k = sym (rw h refl) ∙ e in (0, ip, ground arith, refl, h)
  | inr h ↦
      let later : iget_loop dev inum t (i + 1) (remember empty ip i) ≡ cached k =
        sym (rw h refl) ∙ e in
      let (j, x, at, there, is) = iget_loop-cached dev inum t (i + 1) (remember empty ip i) later in
      (suc j, x, omega (arith, at), there, is)
]

-- No slot holds the inode.
pub iget_loop-missing :
    (dev inum : ℕ) (t : Icache) (i : ℕ) (empty : Option ℕ) {out : Option ℕ}
    → iget_loop dev inum t i empty ≡ missing out
    → (j : ℕ) (ip : Inode) → get_elem? t j ≡ some ip
    → is_inode dev inum ip ≡ false
unfolding iget_loop
iget_loop-missing dev inum [] i empty e j ip at = cc at
iget_loop-missing dev inum (q ∷ t) i empty {out} e j ip at =
    elim (Bool-cases (is_inode dev inum q)) [
      | inl h ↦ let here : cached i ≡ missing out = sym (rw h refl) ∙ e in cc here
      | inr h ↦
          let later : iget_loop dev inum t (i + 1) (remember empty q i) ≡ missing out =
            sym (rw h refl) ∙ e in
          missing_step j at h (iget_loop-missing dev inum t (i + 1) (remember empty q i) later)
    ]
  where
    missing_step :
        (j : ℕ)
        → get_elem? (q ∷ t) j ≡ some ip
        → is_inode dev inum q ≡ false
        → ((j : ℕ) (ip : Inode) → get_elem? t j ≡ some ip → is_inode dev inum ip ≡ false)
        → is_inode dev inum ip ≡ false
    missing_step zero at h others = ap (is_inode dev inum) (sym (some_inj at)) ∙ h
    missing_step (suc j) at h others = others j ip at

-- The slot remembered is free, unless it was remembered before.
pub iget_loop-empty :
    (dev inum : ℕ) (t : Icache) (i : ℕ) (empty : Option ℕ) {k : ℕ}
    → iget_loop dev inum t i empty ≡ missing (some k)
    → (empty ≡ some k)
      ⊎ ((j : ℕ) × (ip : Inode) × (k ≡ i + j) × (get_elem? t j ≡ some ip) × (ip.ref ≡ 0))
unfolding iget_loop
iget_loop-empty dev inum [] i empty e = inl (cc e)
iget_loop-empty dev inum (q ∷ t) i empty {k} e = elim (Bool-cases (is_inode dev inum q)) [
  | inl h ↦ let here : cached i ≡ missing (some k) = sym (rw h refl) ∙ e in cc here
  | inr h ↦
      let later : iget_loop dev inum t (i + 1) (remember empty q i) ≡ missing (some k) =
        sym (rw h refl) ∙ e in
      elim (iget_loop-empty dev inum t (i + 1) (remember empty q i) later) [
        | inl kept ↦ remembered empty kept
        | inr (j, ip, at, there, free) ↦ inr (suc j, ip, omega (arith, at), there, free)
      ]
]
  where
    remembered :
        (empty : Option ℕ)
        → remember empty q i ≡ some k
        → (empty ≡ some k)
          ⊎ ((j : ℕ) × (ip : Inode) × (k ≡ i + j) × (get_elem? (q ∷ t) j ≡ some ip) × (ip.ref ≡ 0))
    remembered (some x) kept = inl kept
    remembered none kept = elim (Bool-cases (q.ref == 0)) [
      | inl free ↦ inr (0, q, ground arith, refl, ==→eq q.ref 0 free)
      | inr used ↦ absurd (ground arith)
    ]

-- If no slot is remembered, all are in use.
pub iget_loop-full :
    (dev inum : ℕ) (t : Icache) (i : ℕ) (empty : Option ℕ)
    → iget_loop dev inum t i empty ≡ missing none
    → (empty ≡ none) × ((j : ℕ) (ip : Inode) → get_elem? t j ≡ some ip → 0 < ip.ref)
unfolding iget_loop
iget_loop-full dev inum [] i empty e = (cc e, λ j ip at. cc at)
iget_loop-full dev inum (q ∷ t) i empty e = elim (Bool-cases (is_inode dev inum q)) [
  | inl h ↦ let here : cached i ≡ missing none = sym (rw h refl) ∙ e in cc here
  | inr h ↦
      let later : iget_loop dev inum t (i + 1) (remember empty q i) ≡ missing none =
        sym (rw h refl) ∙ e in
      full_step empty (iget_loop-full dev inum t (i + 1) (remember empty q i) later)
]
  where
    full_slots :
        0 < q.ref
        → ((j : ℕ) (ip : Inode) → get_elem? t j ≡ some ip → 0 < ip.ref)
        → (j : ℕ) (ip : Inode) → get_elem? (q ∷ t) j ≡ some ip
        → 0 < ip.ref
    full_slots used others zero ip at = omega (arith, used, ap (λ z. z.ref) (some_inj at))
    full_slots used others (suc j) ip at = others j ip at

    full_step :
        (empty : Option ℕ)
        → (remember empty q i ≡ none)
          × ((j : ℕ) (ip : Inode) → get_elem? t j ≡ some ip → 0 < ip.ref)
        → (empty ≡ none) × ((j : ℕ) (ip : Inode) → get_elem? (q ∷ t) j ≡ some ip → 0 < ip.ref)
    full_step (some x) (kept, others) = absurd (cc kept)
    full_step none (kept, others) = (refl, full_slots (ground arith) others)
