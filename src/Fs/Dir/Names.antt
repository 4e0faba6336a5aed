-- ===== src/Fs/Dir/Names.antt =====
-- What `namecmp` compares, and what `strncpy` stores of a name.
use assignment1_cs.Base.{
  ℕ, zero, suc, ◌+◌, ◌-◌, ◌^◌, ◌≤◌, ◌<◌, ◌≡◌, ◌↔◌, inl, inr, refl, sym, ap, fun_ext, subst, ◌∙◌,
  Bool-cases, false, List, [], ◌∷◌, get_or, ltb, arith,
}
use assignment1_cs.Strings.{Memory, strncmp, strncpy}
use assignment1_cs.Strings.Compare.{IsBytes, SameString, strncmp_iff}
use assignment1_cs.Strings.Pad.{strncpy-Padded}
use assignment1_cs.Fs.Path.{Name, dirsiz}
use assignment1_cs.Fs.Content.{bytes_at}
use assignment1_cs.Fs.Dir.{two_names, namecmp, stored_name}

-- The characters of a name: bytes, none of them zero.
abbrev pub IsName : Name → Type 0
IsName [] = Unit
IsName (c ∷ s) = (0 < c) × (c < 2 ^ 8) × IsName s

-- Character `j` of a name, with NULs behind its end.
abbrev pub char : Name → ℕ → ℕ
char s j = get_or s j 0

-- The same name, in the first DIRSIZ characters.
abbrev pub SameName : Name → Name → Type 0
SameName s t = (j : ℕ) → j < dirsiz → char s j ≡ char t j

char-lt : (s : Name) (j : ℕ) → IsName s → char s j < 2 ^ 8
char-lt [] j h = omega arith
char-lt (c ∷ s) zero h = h.1
char-lt (c ∷ s) (suc j) h = char-lt s j h.2

-- Behind a NUL there are only NULs.
char-padded : (s : Name) (i j : ℕ) → IsName s → i ≤ j → char s i ≡ 0 → char s j ≡ 0
char-padded [] i j h l e = refl
char-padded (c ∷ s) zero j h l e = absurd (omega (arith, h.0, e))
char-padded (c ∷ s) (suc i) zero h l e = absurd (omega (arith, l))
char-padded (c ∷ s) (suc i) (suc j) h l e = char-padded s i j h.2 (omega (arith, l)) e

-- Names that agree in their first DIRSIZ characters are not told apart.
pub namecmp-same : (s t : Name) (u : List ℕ) → SameName s t → namecmp s u ≡ namecmp t u
unfolding namecmp
namecmp-same s t u h = ap (strncmp 0 dirsiz dirsiz) (
    fun_ext (λ a. elim (Bool-cases (ltb a dirsiz)) [
      | inl here ↦ let e = h a (ground arith) in rw here e
      | inr there ↦ rw there refl
    ]))

-- Bytes with only NULs behind the first NUL.
pub record IsPadded (t : List ℕ) : Type 0 where
  pub small : (j : ℕ) → char t j < 2 ^ 8
  pub padded : (i j : ℕ) → i ≤ j → char t i ≡ 0 → char t j ≡ 0

pub name-IsPadded : (s : Name) → IsName s → IsPadded s
name-IsPadded s h = record {
  small = λ j. char-lt s j h;
  padded = λ i j l e. char-padded s i j h l e;
}

two_names-IsBytes : (s t : List ℕ) → IsPadded s → IsPadded t → IsBytes (two_names s t)
two_names-IsBytes s t hs ht a = elim (Bool-cases (ltb a dirsiz)) [
  | inl here ↦ let e = hs.small a in rw here e
  | inr there ↦ let e = ht.small (a - dirsiz) in rw there e
]

SameString-padded :
    (n p q : ℕ) (m : Memory)
    → SameString p q n m
    → ((i j : ℕ) → i ≤ j → j < n → m (p + i) ≡ 0 → m (p + j) ≡ 0)
    → ((i j : ℕ) → i ≤ j → j < n → m (q + i) ≡ 0 → m (q + j) ≡ 0)
    → (j : ℕ) → j < n
    → m (p + j) ≡ m (q + j)
SameString-padded zero p q m same hp hq j l = absurd (omega (arith, l))
SameString-padded (suc n) p q m same hp hq zero l = ap m (omega arith) ∙ same.0 ∙ ap m (omega arith)
SameString-padded (suc n) p q m same hp hq (suc j) l = elim same.1 [
  | inl end ↦
      let ps = hp 0 (suc j) (omega arith) l (ap m (omega arith) ∙ end) in
      let qs = hq 0 (suc j) (omega arith) l (ap m (omega arith) ∙ sym same.0 ∙ end) in ps ∙ sym qs
  | inr rest ↦
      let step : (r i k : ℕ)
          → ((i' k' : ℕ) → i' ≤ k' → k' < suc n → m (r + i') ≡ 0 → m (r + k') ≡ 0)
          → i ≤ k
          → k < n
          → m (r + 1 + i) ≡ 0
          → m (r + 1 + k) ≡ 0 =
        λ r i k h a b e.
          ap m (omega arith)
          ∙ h (suc i) (suc k) (omega (arith, a)) (omega (arith, b)) (ap m (omega arith) ∙ e) in
      ap m (omega arith)
      ∙ SameString-padded n (p + 1) (q + 1) m rest (λ i k a b e. step p i k hp a b e)
          (λ i k a b e. step q i k hq a b e) j (omega (arith, l))
      ∙ ap m (omega arith)
]

SameString-same :
    (n p q : ℕ) (m : Memory) → ((j : ℕ) → j < n → m (p + j) ≡ m (q + j)) → SameString p q n m
SameString-same zero p q m h = tt
SameString-same (suc n) p q m h = (
  ap m (omega arith) ∙ h 0 (omega arith) ∙ ap m (omega arith),
  inr (
      SameString-same n (p + 1) (q + 1) m
        (λ j l. ap m (omega arith) ∙ h (suc j) (omega (arith, l)) ∙ ap m (omega arith))),
)

first-char : (s t : List ℕ) (j : ℕ) → j < dirsiz → two_names s t (0 + j) ≡ char s j
first-char s t j h = ground arith

second-char : (s t : List ℕ) (j : ℕ) → j < dirsiz → two_names s t (dirsiz + j) ≡ char t j
second-char s t j h =
    let e : dirsiz + j - dirsiz ≡ j = omega arith in
    let far : ltb (dirsiz + j) dirsiz ≡ false = ground arith in rw (far, e) refl

-- `namecmp` gives 0 exactly for the same name.
pub namecmp_iff : (s t : List ℕ) → IsPadded s → IsPadded t → (namecmp s t ≡ 0) ↔ SameName s t
unfolding namecmp
namecmp_iff s t hs ht =
    let m = two_names s t in
    let cmp = strncmp_iff 0 dirsiz dirsiz m (two_names-IsBytes s t hs ht) in
    (
      (λ e j l.
          sym (first-char s t j l)
          ∙ SameString-padded dirsiz 0 dirsiz m (cmp.0 e)
              (λ i k a b z.
                first-char s t k b
                ∙ hs.padded i k a (sym (first-char s t i (omega (arith, a, b))) ∙ z))
              (λ i k a b z.
                second-char s t k b
                ∙ ht.padded i k a (sym (second-char s t i (omega (arith, a, b))) ∙ z))
              j l
          ∙ second-char s t j l),
      (λ same. cmp.1 (
          SameString-same dirsiz 0 dirsiz m
            (λ j l. first-char s t j l ∙ same j l ∙ sym (second-char s t j l)))),
    )

pub char-bytes_at : (m : Memory) (n a j : ℕ) → j < n → char (bytes_at m a n) j ≡ m (a + j)
char-bytes_at m zero a j h = absurd (omega (arith, h))
char-bytes_at m (suc n) a zero h = ap m (omega arith)
char-bytes_at m (suc n) a (suc j) h =
    char-bytes_at m n (a + 1) j (omega (arith, h)) ∙ ap m (omega arith)

char-bytes_at_end : (m : Memory) (n a j : ℕ) → n ≤ j → char (bytes_at m a n) j ≡ 0
char-bytes_at_end m zero a j h = refl
char-bytes_at_end m (suc n) a zero h = absurd (omega (arith, h))
char-bytes_at_end m (suc n) a (suc j) h = char-bytes_at_end m n (a + 1) j (omega (arith, h))

-- What is stored of a name is the same name.
pub char-stored_name :
    (s : Name) (j : ℕ) → IsName s → j < dirsiz → char (stored_name s) j ≡ char s j
char-stored_name s j h l =
    let m = two_names [] s in
    char-bytes_at (strncpy 0 dirsiz dirsiz m) dirsiz 0 j l
    ∙ strncpy-Padded dirsiz 0 dirsiz m (omega arith)
        (λ i k a b z.
          second-char [] s k b
          ∙ char-padded s i k h a (sym (second-char [] s i (omega (arith, a, b))) ∙ z))
        j l
    ∙ second-char [] s j l

pub stored_name-IsPadded : (s : Name) → IsName s → IsPadded (stored_name s)
stored_name-IsPadded s h = record {
  small = λ j. elim (Bool-cases (ltb j dirsiz)) [
    | inl here ↦
        let l : j < dirsiz = ground arith in
        subst (λ x. x < 2 ^ 8) (sym (char-stored_name s j h l)) (char-lt s j h)
    | inr there ↦
        subst (λ x. x < 2 ^ 8)
          (sym (
            char-bytes_at_end (strncpy 0 dirsiz dirsiz (two_names [] s)) dirsiz 0 j (ground arith)))
          (omega arith)
  ];
  padded = λ i j a e. elim (Bool-cases (ltb j dirsiz)) [
    | inl here ↦
        let l : j < dirsiz = ground arith in
        char-stored_name s j h l
        ∙ char-padded s i j h a (sym (char-stored_name s i h (omega (arith, a, l))) ∙ e)
    | inr there ↦
        char-bytes_at_end (strncpy 0 dirsiz dirsiz (two_names [] s)) dirsiz 0 j (ground arith)
  ];
}

-- The name is found where it is stored, and no other name is.
pub namecmp-stored_name :
    (s t : Name) → IsName s → IsName t → (namecmp s (stored_name t) ≡ 0) ↔ SameName s t
namecmp-stored_name s t hs ht =
    let cmp = namecmp_iff s (stored_name t) (name-IsPadded s hs) (stored_name-IsPadded t ht) in
    (
      (λ e j l. cmp.0 e j l ∙ char-stored_name t j ht l),
      (λ same. cmp.1 (λ j l. same j l ∙ sym (char-stored_name t j ht l))),
    )
