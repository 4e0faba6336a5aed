-- ===== src/Console/Reading.antt =====
-- `consoleread`: which characters a section takes, and when it ends without a sleep.
use assignment1_cs.Base.{
  ℕ, zero, suc, ◌+◌, ◌-◌, ◌%◌, ◌<◌, ◌≡◌, ◌⊎◌, refl, sym, subst, ap, ◌∙◌, inl, inr, Bool, true,
  false, Bool-cases, List, [], ◌∷◌, ◌++◌, if◌then◌else◌, ◌==◌, ==→ne, ltb, arith,
}
use assignment1_cs.Console.{
  Input, consputc, wakeup, input_buf, ctrl_d, newline, uint_add, uint_sub, key, Outcome, returned,
  failed, asleep, consoleread_loop, store_char,
}
use assignment1_cs.Console.Window.{window, ready_size, ready, line, IsInput, window-mod}
use assignment1_cs.Console.Typing.{NoNewline, store_char-Shows}

-- The same on the list of the characters that are ready: those taken, those left, and the end.
abbrev pub take_line : Bool → ℕ → ℕ → List ℕ → List ℕ × List ℕ × Outcome
take_line killed target zero rd = ([], rd, returned target)
take_line killed target (suc n) [] = ([], [], if killed then failed else asleep (suc n))
take_line killed target (suc n) (c ∷ rd) =
    let (cs, rest, out) = take_line killed target n rd in
    if c == ctrl_d
    then ([], if ltb (suc n) target then c ∷ rd else rd, returned (target - suc n))
    else (if c == newline then (c ∷ [], rd, returned (target - n)) else (c ∷ cs, rest, out))

-- What a section that began with `s` has done when it ends with `s'`.
pub record Took (s s' : Input) (rest : List ℕ) : Type 0 where
  pub valid : IsInput s'
  pub left : ready s' ≡ rest
  pub line_same : line s' ≡ line s

abbrev advance : Input → Input
advance s = record s { r = uint_add s.r 1 }

ready-empty : (s : Input) → IsInput s → (s.r == s.w) ≡ true → ready s ≡ []
ready-empty s v h = let n : ready_size s ≡ 0 = ground arith in ap (window s.buf s.r) n

ready-advance :
    (s : Input)
    → IsInput s
    → (s.r == s.w) ≡ false
    → ready s ≡ s.buf (s.r % input_buf) ∷ ready (advance s)
ready-advance s v h =
    let n : ready_size s ≡ suc (ready_size (advance s)) = ground arith in
    ap (window s.buf s.r) n
    ∙ ap (λ t. s.buf (s.r % input_buf) ∷ t)
        (window-mod s.buf (s.r + 1) (uint_add s.r 1) (ready_size (advance s)) (omega arith))

advance-IsInput : (s : Input) → IsInput s → (s.r == s.w) ≡ false → IsInput (advance s)
advance-IsInput s v h = ground arith

-- From a line buffer in order, a section of `consoleread` takes from the characters that are ready
-- at most the number asked for, up to a newline; a Ctrl-D ends it and stays unless nothing was
-- read before it; it sleeps, or fails if the process was killed, exactly when the characters run
-- out; and the line being typed stays.
pub consoleread_loop-Took :
    (s : Input) (killed : Bool) (target n : ℕ)
    → IsInput s
    → let (s', cs, out) = consoleread_loop s killed target n in
      let (bytes, rest, end) = take_line killed target n (ready s) in
      Took s s' rest × (cs ≡ bytes) × (out ≡ end)
unfolding consoleread_loop
consoleread_loop-Took s killed target zero v =
    (record { valid = v; left = refl; line_same = refl }, refl, refl)
consoleread_loop-Took s killed target (suc n) v = elim (Bool-cases (s.r == s.w)) [
  | inl empty ↦
      let e = ready-empty s v empty in
      rw (empty, e) (record { valid = v; left = e; line_same = refl }, refl, refl)
  | inr more ↦
      let e = ready-advance s v more in
      let v' = advance-IsInput s v more in
      let c = s.buf (s.r % input_buf) in
      elim (Bool-cases (c == ctrl_d)) [
        | inl end ↦ elim (Bool-cases (ltb (suc n) target)) [
          | inl later ↦
              rw (more, e, end, later)
                (record { valid = v; left = e; line_same = refl }, refl, refl)
          | inr first ↦
              rw (more, e, end, first)
                (record { valid = v'; left = refl; line_same = refl }, refl, refl)
        ]
        | inr not_d ↦ elim (Bool-cases (c == newline)) [
          | inl end ↦
              rw (more, e, not_d, end)
                (record { valid = v'; left = refl; line_same = refl }, refl, refl)
          | inr goes_on ↦
              let (t, bytes, out) = consoleread_loop-Took (advance s) killed target n v' in
              rw (more, e, not_d, goes_on)
                (
                  record { valid = t.valid; left = t.left; line_same = t.line_same },
                  ap (λ x. c ∷ x) bytes,
                  out,
                )
        ]
      ]
]

-- A newline or the end of the input is among the characters.
abbrev pub HasEnd : List ℕ → Type 0
HasEnd [] = ⊥
HasEnd (c ∷ cs) = (c ≡ newline) ⊎ ((c ≡ ctrl_d) ⊎ HasEnd cs)

take_line-HasEnd :
    (killed : Bool) (target n : ℕ) (rd : List ℕ)
    → HasEnd rd
    → (k : ℕ) × ((take_line killed target n rd).2 ≡ returned k)
take_line-HasEnd killed target zero rd h = (target, refl)
take_line-HasEnd killed target (suc n) [] h = elim h [ ]
take_line-HasEnd killed target (suc n) (c ∷ rd) h = elim (Bool-cases (c == ctrl_d)) [
  | inl end ↦ (target - suc n, rw end)
  | inr not_d ↦ elim (Bool-cases (c == newline)) [
    | inl end ↦ (target - n, rw (not_d, end))
    | inr goes_on ↦ elim h [
      | inl e ↦ absurd (==→ne c newline goes_on e)
      | inr (inl e) ↦ absurd (==→ne c ctrl_d not_d e)
      | inr (inr r) ↦ rw (not_d, goes_on) (take_line-HasEnd killed target n rd r)
    ]
  ]
]

HasEnd-append : (xs ys : List ℕ) → HasEnd ys → HasEnd (xs ++ ys)
HasEnd-append [] ys h = h
HasEnd-append (x ∷ xs) ys h = inr (inr (HasEnd-append xs ys h))

-- A newline typed into a line buffer in order that has a place left is echoed and wakes the
-- readers, and after it a section of `consoleread` for any number of characters returns without a
-- sleep.
pub enter_serves :
    (s : Input)
    → IsInput s
    → NoNewline (line s)
    → uint_sub s.e s.r < input_buf
    → let (s', out) = key s newline in
      (out ≡ consputc newline ∷ wakeup ∷ [])
      × ((killed : Bool) (target n : ℕ)
          → (k : ℕ) × ((consoleread_loop s' killed target n).2 ≡ returned k))
unfolding key
enter_serves s v p room =
    let test : ltb (uint_sub s.e s.r) input_buf ≡ true = ground arith in
    let k = store_char-Shows s newline v p room in
    let ends : HasEnd (ready (store_char s newline).0) = subst HasEnd (sym k.ready_same) (
      HasEnd-append (ready s) (line s ++ newline ∷ [])
        (HasEnd-append (line s) (newline ∷ []) (inl refl))) in
    rw test (
      refl,
      λ killed target n.
          let (_, _, out) =
            consoleread_loop-Took (store_char s newline).0 killed target n k.valid in
          let (m, e) = take_line-HasEnd killed target n (ready (store_char s newline).0) ends in
          (m, out ∙ e),
    )
