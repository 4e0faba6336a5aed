-- ===== src/Fs/Dir/Find.antt =====
-- A directory as one run of bytes: the search of its entries.
use assignment1_cs.Base.{
  ℕ, zero, suc, ◌+◌, ◌*◌, ◌^◌, ◌≤◌, ◌<◌, ◌≡◌, inl, inr, refl, ap, ap₂, ◌∙◌, Bool-cases, Option,
  none, some, List, if◌then◌else◌, ◌==◌, ==→eq, arith,
}
use assignment1_cs.Strings.{Memory}
use assignment1_cs.Fs.Path.{Name, dirsiz}
use assignment1_cs.Fs.Content.{bytes_at}
use assignment1_cs.Fs.Content.Flat.{bytes_at-same}
use assignment1_cs.Fs.Dir.{namecmp, entry_size}
use assignment1_cs.Fs.Dir.Names.{SameName, namecmp-same}

abbrev pub inum_at : Memory → ℕ → ℕ
inum_at v off = v off + v (off + 1) * 2 ^ 8

abbrev pub name_at : Memory → ℕ → List ℕ
name_at v off = bytes_at v (off + 2) dirsiz

-- The entry in use with this name, if there is one at `off`.
abbrev pub entry_for : Memory → Name → ℕ → Option (ℕ × ℕ)
entry_for v s off =
    if inum_at v off == 0
    then none
    else if namecmp s (name_at v off) == 0
    then some (off, inum_at v off)
    else none

abbrev pub or_else {ℓ} : {A : Type ℓ} → Option A → Option A → Option A
or_else none y = y
or_else (some x) y = some x

-- The first one of `n` entries from `off` on that is in use and has the name.
abbrev pub find : ℕ → Memory → Name → ℕ → Option (ℕ × ℕ)
find zero v s off = none
find (suc n) v s off = or_else (entry_for v s off) (find n v s (off + entry_size))

-- The first one that is not in use, or the end.
abbrev pub empty : ℕ → Memory → ℕ → ℕ
empty zero v off = off
empty (suc n) v off = if inum_at v off == 0 then off else empty n v (off + entry_size)

-- Two runs of bytes agree in `n` entries.
abbrev pub Agree : Memory → Memory → ℕ → ℕ → Type 0
Agree v w off n = (p : ℕ) → off ≤ p → p < off + n * entry_size → v p ≡ w p

inum_at-same : (v w : Memory) (off : ℕ) → Agree v w off 1 → inum_at v off ≡ inum_at w off
inum_at-same v w off h =
    ap₂ (λ x y. x + y * 2 ^ 8) (h off (omega arith) (omega arith))
      (h (off + 1) (omega arith) (omega arith))

pub entry_for-same :
    (v w : Memory) (s : Name) (off : ℕ) → Agree v w off 1 → entry_for v s off ≡ entry_for w s off
entry_for-same v w s off h =
    let i = inum_at-same v w off h in
    let n : name_at v off ≡ name_at w off =
      bytes_at-same dirsiz v w (off + 2) (off + 2)
        (λ j l. h (off + 2 + j) (omega arith) (omega (arith, l))) in
    ap₂ (λ x y. if x == 0 then none else if namecmp s y == 0 then some (off, x) else none) i n

first-Agree : (v w : Memory) (off n : ℕ) → Agree v w off (suc n) → Agree v w off 1
first-Agree v w off n h p low high = h p low (omega (arith, high))

rest-Agree : (v w : Memory) (off n : ℕ) → Agree v w off (suc n) → Agree v w (off + entry_size) n
rest-Agree v w off n h p low high = h p (omega (arith, low)) (omega (arith, high))

pub find-same :
    (n : ℕ) (v w : Memory) (s : Name) (off : ℕ) → Agree v w off n → find n v s off ≡ find n w s off
find-same zero v w s off h = refl
find-same (suc n) v w s off h =
    ap₂ or_else (entry_for-same v w s off (first-Agree v w off n h))
      (find-same n v w s (off + entry_size) (rest-Agree v w off n h))

pub empty-same : (n : ℕ) (v w : Memory) (off : ℕ) → Agree v w off n → empty n v off ≡ empty n w off
empty-same zero v w off h = refl
empty-same (suc n) v w off h =
    ap₂ (λ x y. if x == 0 then off else y) (inum_at-same v w off (first-Agree v w off n h))
      (empty-same n v w (off + entry_size) (rest-Agree v w off n h))

-- The first entries, and then the others.
pub find-append :
    (m n : ℕ) (v : Memory) (s : Name) (off : ℕ)
    → find (m + n) v s off ≡ or_else (find m v s off) (find n v s (off + m * entry_size))
find-append zero n v s off = ap₂ (λ k x. find k v s x) (omega arith) (omega arith)
find-append (suc m) n v s off =
    let e : suc m + n ≡ suc (m + n) = omega arith in
    let k : off + entry_size + m * entry_size ≡ off + suc m * entry_size = omega arith in
    ap (λ x. find x v s off) e
    ∙ ap (or_else (entry_for v s off)) (find-append m n v s (off + entry_size))
    ∙ or_else_assoc (entry_for v s off) (find m v s (off + entry_size)) _
    ∙ ap (λ x. or_else (find (suc m) v s off) (find n v s x)) k
  where
    or_else_assoc : (x y z : Option (ℕ × ℕ)) → or_else x (or_else y z) ≡ or_else (or_else x y) z
    or_else_assoc none y z = refl
    or_else_assoc (some x) y z = refl

-- A name that is the same is found at the same place.
pub find-SameName :
    (n : ℕ) (v : Memory) (s t : Name) (off : ℕ) → SameName s t → find n v s off ≡ find n v t off
find-SameName zero v s t off h = refl
find-SameName (suc n) v s t off h =
    let e = namecmp-same s t (name_at v off) h in
    ap₂
      (λ x y.
        or_else
          (if inum_at v off == 0 then none else if x == 0 then some (off, inum_at v off) else none)
          y)
      e (find-SameName n v s t (off + entry_size) h)

-- Where the search for an entry that is not in use ends.
pub empty-place :
    (n : ℕ) (v : Memory) (off : ℕ)
    → (k : ℕ) × (k ≤ n)
      × (empty n v off ≡ off + k * entry_size)
      × ((k < n) → inum_at v (empty n v off) ≡ 0)
empty-place zero v off = (0, omega arith, omega arith, λ l. absurd (omega (arith, l)))
empty-place (suc n) v off = elim (Bool-cases (inum_at v off == 0)) [
  | inl free ↦ rw free (0, omega arith, omega arith, λ l. ==→eq (inum_at v off) 0 free)
  | inr used ↦
      let (k, l, e, z) = empty-place n v (off + entry_size) in
      rw used (suc k, omega (arith, l), omega (arith, e), λ m. z (omega (arith, m)))
]
