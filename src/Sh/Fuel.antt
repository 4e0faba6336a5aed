-- ===== src/Sh/Fuel.antt =====
-- How much of the string the loops and the recursion of the parser read.
pub mod Lines
use assignment1_cs.Base.{
  ℕ, zero, suc, ◌+◌, ◌≤◌, ◌<◌, ◌≡◌, refl, subst, ap, ◌∙◌, ◌⊎◌, inl, inr, true, false, ◌||◌,
  Bool-cases, leb, List, [], ◌∷◌, length, ◌==◌, arith,
}
use assignment1_cs.Sh.{
  Cmd, Message, exec, back, Parse, parsed, failed, out_of_fuel, and_then, is_space, is_symbol,
  skip_space, word, greater, token_of, gettoken, starts, redirected, parseredirs, add_arg,
  parseargs, parseblock, parseexec, parsepipe, parsetail, parseline, all_read, parsecmd, word_token,
}
use assignment1_cs.Sh.Tokens.{
  Bare, Bare-skip_space, skip_space-Bare, skip_space-skip_space, length-skip_space,
}

-- A result that leaves at most `n` characters, or a panic.
abbrev pub Within {ℓ} : {A : Type ℓ} → ℕ → Parse A → Type 0
Within n (parsed a s) = length s ≤ n
Within n (failed m) = Unit
Within n out_of_fuel = ⊥

pub and_then-Within {ℓ ℓ₁} :
    {A : Type ℓ} {B : Type ℓ₁} (m n : ℕ) (p : Parse A) (k : A → List ℕ → Parse B)
    → Within m p
    → ((a : A) (s : List ℕ) → length s ≤ m → Within n (k a s))
    → Within n (and_then p k)
unfolding and_then
and_then-Within m n (parsed a s) k h next = next a s h
and_then-Within m n (failed e) k h next = tt
and_then-Within m n out_of_fuel k h next = absurd h

pub Within-weaken {ℓ} : {A : Type ℓ} (m n : ℕ) (p : Parse A) → m ≤ n → Within m p → Within n p
Within-weaken m n (parsed a s) l h = omega (arith, l, h)
Within-weaken m n (failed e) l h = tt
Within-weaken m n out_of_fuel l h = h

length-word_rest : (s : List ℕ) → length (word s).1 ≤ length s
unfolding word
length-word_rest [] = omega arith
length-word_rest (c ∷ s) = elim (Bool-cases (is_space c || is_symbol c)) [
  | inl h ↦ rw h (omega arith)
  | inr h ↦ rw h (omega (arith, length-word_rest s))
]

length-greater : (s : List ℕ) → length (greater s).2 ≤ length s
unfolding greater
length-greater [] = omega arith
length-greater (c ∷ s) = elim (Bool-cases (c == 62)) [
  | inl h ↦ rw h (omega arith)
  | inr h ↦ rw h (omega arith)
]

length-word_shorter :
    (c : ℕ) (s : List ℕ)
    → is_space c ≡ false
    → is_symbol c ≡ false
    → length (word (c ∷ s)).1 ≤ length s
unfolding word
length-word_shorter c s h k = rw (h, k) (length-word_rest s)

length-token_of : (c : ℕ) (s : List ℕ) → is_space c ≡ false → length (token_of (c ∷ s)).2 ≤ length s
unfolding token_of
length-token_of c s h = elim (Bool-cases (c == 62)) [
  | inl e ↦ rw e (length-greater s)
  | inr e ↦ elim (Bool-cases (is_symbol c)) [
    | inl k ↦ rw (e, k) (omega arith)
    | inr k ↦ rw (e, k) (length-word_shorter c s h k)
  ]
]

-- A token that is not the end is at least one character.
gettoken-shorter : (t : List ℕ) → Bare t → (t ≡ []) ⊎ (length (gettoken t).2 < length t)
unfolding gettoken
gettoken-shorter [] bare = inl refl
gettoken-shorter (c ∷ s) bare = inr (
    rw (skip_space-Bare (c ∷ s) bare)
      (omega (arith, length-token_of c s bare, length-skip_space (token_of (c ∷ s)).2)))

gettoken-skip : (s : List ℕ) → gettoken (skip_space s) ≡ gettoken s
unfolding gettoken
gettoken-skip s = rw (skip_space-skip_space s) refl

gettoken-nil : (s : List ℕ) → skip_space s ≡ [] → gettoken s ≡ (0, [], [])
unfolding gettoken token_of skip_space
gettoken-nil s e = rw e refl

length-gettoken : (s : List ℕ) → length (gettoken s).2 ≤ length s
length-gettoken s = elim (gettoken-shorter (skip_space s) (Bare-skip_space s)) [
  | inl e ↦ rw (gettoken-nil s e) (omega arith)
  | inr h ↦ omega (
    arith,
    length-skip_space s,
    subst (λ x. length x.2 < length (skip_space s)) (gettoken-skip s) h,
  )
]

-- A symbol that `peek` has found is read by `gettoken`.
pub starts-shorter :
    (toks s : List ℕ)
    → starts toks (skip_space s) ≡ true
    → length (gettoken (skip_space s)).2 < length s
unfolding starts
starts-shorter toks s h = elim (gettoken-shorter (skip_space s) (Bare-skip_space s)) [
  | inl e ↦ (let bad : starts toks [] ≡ true = subst (λ t. starts toks t ≡ true) e h in cc)
  | inr l ↦ omega (arith, l, length-skip_space s)
]

pub parseredirs-Within :
    (fuel : ℕ) (cmd : Cmd) (s : List ℕ)
    → length s < fuel
    → Within (length s) (parseredirs fuel cmd s)
unfolding parseredirs
parseredirs-Within zero cmd s h = absurd (omega (arith, h))
parseredirs-Within (suc fuel) cmd s h =
    let t = skip_space s in
    let u = (gettoken t).2 in
    let v = (gettoken u).2 in
    elim (Bool-cases (starts (60 ∷ 62 ∷ []) t)) [
      | inr no_more ↦ rw (Within, no_more) (length-skip_space s)
      | inl more ↦ elim (Bool-cases ((gettoken u).0 == word_token)) [
        | inr bad ↦ rw (Within, more, parseredirs, bad) tt
        | inl good ↦
            (let shorter = starts-shorter (60 ∷ 62 ∷ []) s more in
              let behind = length-gettoken u in
              rw (Within, more, parseredirs, good)
                (Within-weaken (length v) (length s)
                  (parseredirs fuel (redirected (gettoken t).0 cmd (gettoken u).1) v)
                  (omega (arith, shorter, behind))
                  (parseredirs-Within fuel (redirected (gettoken t).0 cmd (gettoken u).1) v
                    (omega (arith, h, shorter, behind)))))
      ]
    ]

token-shorter :
    (s : List ℕ)
    → ((gettoken (skip_space s)).0 == 0) ≡ false
    → length (gettoken (skip_space s)).2 < length s
token-shorter s h = elim (gettoken-shorter (skip_space s) (Bare-skip_space s)) [
  | inl e ↦
      (let none_left : (gettoken (skip_space s)).0 ≡ 0 =
          ap (λ x. x.0) (gettoken-skip s ∙ gettoken-nil s e) in
        let bad : (0 == 0) ≡ false = subst (λ x. (x == 0) ≡ false) none_left h in cc)
  | inr l ↦ omega (arith, l, length-skip_space s)
]

pub parseargs-Within :
    (fuel argc : ℕ) (ret : Cmd) (s : List ℕ)
    → length s < fuel
    → Within (length s) (parseargs fuel argc ret s)
unfolding parseargs
parseargs-Within zero argc ret s h = absurd (omega (arith, h))
parseargs-Within (suc fuel) argc ret s h =
    let t = skip_space s in
    let u = (gettoken t).2 in
    elim (Bool-cases (starts (124 ∷ 41 ∷ 38 ∷ 59 ∷ []) t)) [
      | inl stop ↦ rw (Within, stop) (length-skip_space s)
      | inr go ↦ elim (Bool-cases ((gettoken t).0 == 0)) [
        | inl over ↦
            rw (Within, go, parseargs, over) (omega (arith, length-skip_space s, length-gettoken t))
        | inr some_token ↦ elim (Bool-cases ((gettoken t).0 == word_token)) [
          | inr bad ↦ rw (Within, go, parseargs, some_token, parseargs, bad) tt
          | inl good ↦ elim (Bool-cases (leb 10 (argc + 1))) [
            | inl many ↦ rw (Within, go, parseargs, some_token, parseargs, good, parseargs, many) tt
            | inr few ↦
                (let shorter = token-shorter s some_token in
                  rw (Within, go, parseargs, some_token, parseargs, good, parseargs, few)
                    (and_then-Within (length u) (length s)
                      (parseredirs (suc (length u)) (add_arg (gettoken t).1 ret) u)
                      (λ cmd v. parseargs fuel (argc + 1) cmd v)
                      (parseredirs-Within (suc (length u)) (add_arg (gettoken t).1 ret) u
                        (omega arith))
                      (λ cmd v l.
                        Within-weaken (length v) (length s) (parseargs fuel (argc + 1) cmd v)
                          (omega (arith, l, shorter))
                          (parseargs-Within fuel (argc + 1) cmd v (omega (arith, h, l, shorter))))))
          ]
        ]
      ]
    ]
