-- ===== src/Sh/Shape.antt =====
-- The form of the commands that the parser gives.
pub mod Lines
use assignment1_cs.Base.{
  ℕ, zero, suc, ◌+◌, ◌≤◌, ◌≡◌, ◌≢◌, refl, subst, ◌∙◌, ap, inl, inr, Bool, true, false, ◌||◌,
  Bool-cases, leb, lt→ltb, List, [], ◌∷◌, ◌++◌, length, if◌then◌else◌, ◌==◌, ==→eq, arith,
}
use assignment1_cs.Sh.{
  Cmd, exec, redir, pipe, list, back, Parse, parsed, failed, out_of_fuel, and_then, is_space,
  is_symbol, skip_space, word, greater, token_of, gettoken, starts, redirected, parseredirs,
  add_arg, parseargs, parseblock, parseexec, parsepipe, parsetail, parseline, all_read, parsecmd,
  word_token, append_token, among,
}
use assignment1_cs.Sh.Print.{AllPlain, IsWord, AllWords, IsKind, IsCommand}
use assignment1_cs.Sh.Tokens.{Bare, Bare-skip_space}

abbrev pub Gives {ℓ} : {A : Type ℓ} → (A → Type 0) → Parse A → Type 0
Gives P (parsed a s) = P a
Gives P (failed m) = Unit
Gives P out_of_fuel = Unit

pub and_then-Gives {ℓ ℓ₁} :
    {A : Type ℓ} {B : Type ℓ₁} (P : A → Type 0) (Q : B → Type 0) (p : Parse A)
    (k : A → List ℕ → Parse B)
    → Gives P p
    → ((a : A) (s : List ℕ) → P a → Gives Q (k a s))
    → Gives Q (and_then p k)
unfolding and_then
and_then-Gives P Q (parsed a s) k h next = next a s h
and_then-Gives P Q (failed e) k h next = tt
and_then-Gives P Q out_of_fuel k h next = tt

word-AllPlain : (s : List ℕ) → AllPlain (word s).0
unfolding word
word-AllPlain [] = tt
word-AllPlain (c ∷ s) = elim (Bool-cases (is_space c || is_symbol c)) [
  | inl h ↦ rw h tt
  | inr h ↦ rw h (h, word-AllPlain s)
]

cons_plain-IsWord :
    (c : ℕ) (s : List ℕ) → is_space c ≡ false → is_symbol c ≡ false → IsWord (word (c ∷ s)).0
unfolding word
cons_plain-IsWord c s h k =
    rw (h, k) (record { nonempty = λ e. cc; plain = (rw (h, k) refl, word-AllPlain s) })

greater-token : (s : List ℕ) → ((greater s).0 == word_token) ≡ false
unfolding greater
greater-token [] = refl
greater-token (c ∷ s) = elim (Bool-cases (c == 62)) [ inl h ↦ rw h refl | inr h ↦ rw h refl ]

symbol-token : (c : ℕ) → is_symbol c ≡ true → (c == word_token) ≡ false
unfolding among
symbol-token c h = elim (Bool-cases (c == 97)) [
  | inl e ↦ (let bad : is_symbol 97 ≡ true = subst (λ x. is_symbol x ≡ true) (==→eq c 97 e) h in cc)
  | inr e ↦ e
]

IsWordToken : ℕ × List ℕ × List ℕ → Type 0
IsWordToken r = (r.0 == word_token) ≡ true

-- The text of a word's token is a word.
token_of-IsWord : (t : List ℕ) → Bare t → IsWordToken (token_of t) → IsWord (token_of t).1
unfolding token_of IsWordToken
token_of-IsWord [] bare h = cc
token_of-IsWord (c ∷ s) bare h = elim (Bool-cases (c == 62)) [
  | inl e ↦
      (let same : token_of (c ∷ s) ≡ greater s = rw e refl in
        let bad : ((greater s).0 == word_token) ≡ true = subst (λ r. IsWordToken r) same h in
        let good = greater-token s in cc)
  | inr e ↦ elim (Bool-cases (is_symbol c)) [
    | inl k ↦
        (let same : token_of (c ∷ s) ≡ (c, c ∷ [], s) = rw (e, k) refl in
          let bad : (c == word_token) ≡ true = subst (λ r. IsWordToken r) same h in
          let good = symbol-token c k in cc)
    | inr k ↦ rw (e, k) (cons_plain-IsWord c s bare k)
  ]
]

pub gettoken-IsWord : (s : List ℕ) → ((gettoken s).0 == word_token) ≡ true → IsWord (gettoken s).1
unfolding gettoken IsWordToken
gettoken-IsWord s h = token_of-IsWord (skip_space s) (Bare-skip_space s) h

-- A property of commands that a redirection of a word keeps.
abbrev Kept : (Cmd → Type 0) → Type 0
Kept P =
    (cmd : Cmd) (file : List ℕ) (mode fd : ℕ)
    → P cmd
    → IsWord file
    → IsKind mode fd
    → P (redir cmd file mode fd)

redirected-Kept :
    (P : Cmd → Type 0)
    → Kept P
    → (tok : ℕ) (cmd : Cmd) (file : List ℕ) → P cmd
    → IsWord file
    → P (redirected tok cmd file)
unfolding redirected
redirected-Kept P keep tok cmd file h w = elim (Bool-cases (tok == 60)) [
  | inl a ↦ rw a (keep cmd file 0 0 h w (inl (refl, refl)))
  | inr a ↦ elim (Bool-cases (tok == 62)) [
    | inl b ↦ rw (a, b) (keep cmd file 513 1 h w (inr (refl, refl)))
    | inr b ↦ elim (Bool-cases (tok == append_token)) [
      | inl c ↦ rw (a, b, c) (keep cmd file 513 1 h w (inr (refl, refl)))
      | inr c ↦ rw (a, b, c) h
    ]
  ]
]

pub parseredirs-Gives :
    (P : Cmd → Type 0)
    → Kept P
    → (fuel : ℕ) (cmd : Cmd) (s : List ℕ) → P cmd
    → Gives P (parseredirs fuel cmd s)
unfolding parseredirs
parseredirs-Gives P keep zero cmd s h = tt
parseredirs-Gives P keep (suc fuel) cmd s h =
    let t = skip_space s in
    let u = (gettoken t).2 in
    elim (Bool-cases (starts (60 ∷ 62 ∷ []) t)) [
      | inr no_more ↦ rw (Gives, no_more) h
      | inl more ↦ elim (Bool-cases ((gettoken u).0 == word_token)) [
        | inr bad ↦ rw (Gives, more, parseredirs, bad) tt
        | inl good ↦
            rw (Gives, more, parseredirs, good)
              (parseredirs-Gives P keep fuel (redirected (gettoken t).0 cmd (gettoken u).1)
                (gettoken u).2
                (redirected-Kept P keep (gettoken t).0 cmd (gettoken u).1 h
                  (gettoken-IsWord u good)))
      ]
    ]
