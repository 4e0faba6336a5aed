-- ===== src/Sh/Shape/Lines.antt =====
-- The parsing functions from the arguments of a command up.
use assignment1_cs.Base.{
  ℕ, zero, suc, ◌+◌, ◌≤◌, ◌≡◌, refl, subst, inl, inr, false, Bool-cases, leb, List, [], ◌∷◌, ◌++◌,
  length, ◌==◌, arith,
}
use assignment1_cs.Sh.{
  Cmd, exec, redir, pipe, list, back, Parse, parsed, skip_space, word, gettoken, starts,
  parseredirs, add_arg, parseargs, parseblock, parseexec, parsepipe, parsetail, parseline, all_read,
  parsecmd, word_token,
}
use assignment1_cs.Sh.Print.{IsWord, AllWords, IsKind, IsCommand}
use assignment1_cs.Sh.Shape.{Gives, and_then-Gives, gettoken-IsWord, parseredirs-Gives}

-- `argc` is the number of the arguments that are stored.
abbrev Args : ℕ → Cmd → Type 0
Args n (exec argv) = AllWords argv × (length argv ≡ n)
Args n (redir cmd file mode fd) = Args n cmd × IsWord file × IsKind mode fd
Args n (pipe left right) = ⊥
Args n (list left right) = ⊥
Args n (back cmd) = ⊥

AllWords-snoc : (ws : List (List ℕ)) (w : List ℕ) → AllWords ws → IsWord w → AllWords (ws ++ w ∷ [])
AllWords-snoc [] w all h = (h, tt)
AllWords-snoc (x ∷ ws) w all h = (all.0, AllWords-snoc ws w all.1 h)

length-snoc : (ws : List (List ℕ)) (w : List ℕ) → length (ws ++ w ∷ []) ≡ length ws + 1
length-snoc [] w = refl
length-snoc (x ∷ ws) w = omega (arith, length-snoc ws w)

add_arg-Args :
    (n : ℕ) (w : List ℕ) (cmd : Cmd) → IsWord w → Args n cmd → Args (n + 1) (add_arg w cmd)
unfolding add_arg
add_arg-Args n w (exec argv) word h =
    (AllWords-snoc argv w h.0 word, omega (arith, h.1, length-snoc argv w))
add_arg-Args n w (redir cmd file mode fd) word h = (add_arg-Args n w cmd word h.0, h.1, h.2)
add_arg-Args n w (pipe left right) word h = absurd h
add_arg-Args n w (list left right) word h = absurd h
add_arg-Args n w (back cmd) word h = absurd h

Args-IsCommand : (n : ℕ) (cmd : Cmd) → n + 1 ≤ 10 → Args n cmd → IsCommand cmd
Args-IsCommand n (exec argv) few h = (h.0, omega (arith, few, h.1))
Args-IsCommand n (redir cmd file mode fd) few h = (Args-IsCommand n cmd few h.0, h.1, h.2)
Args-IsCommand n (pipe left right) few h = absurd h
Args-IsCommand n (list left right) few h = absurd h
Args-IsCommand n (back cmd) few h = absurd h

few-le : (n : ℕ) → leb 10 (n + 1) ≡ false → n + 1 + 1 ≤ 10
few-le n h = grind arith

parseargs-Gives :
    (fuel argc : ℕ) (ret : Cmd) (s : List ℕ)
    → argc + 1 ≤ 10
    → Args argc ret
    → Gives IsCommand (parseargs fuel argc ret s)
unfolding parseargs
parseargs-Gives zero argc ret s few h = tt
parseargs-Gives (suc fuel) argc ret s few h =
    let t = skip_space s in
    let u = (gettoken t).2 in
    elim (Bool-cases (starts (124 ∷ 41 ∷ 38 ∷ 59 ∷ []) t)) [
      | inl stop ↦ rw (Gives, stop) (Args-IsCommand argc ret few h)
      | inr go ↦ elim (Bool-cases ((gettoken t).0 == 0)) [
        | inl over ↦ rw (Gives, go, parseargs, over) (Args-IsCommand argc ret few h)
        | inr some_token ↦ elim (Bool-cases ((gettoken t).0 == word_token)) [
          | inr bad ↦ rw (Gives, go, parseargs, some_token, parseargs, bad) tt
          | inl good ↦ elim (Bool-cases (leb 10 (argc + 1))) [
            | inl many ↦ rw (Gives, go, parseargs, some_token, parseargs, good, parseargs, many) tt
            | inr room ↦
                rw (Gives, go, parseargs, some_token, parseargs, good, parseargs, room)
                  (and_then-Gives (Args (argc + 1)) IsCommand
                    (parseredirs (suc (length u)) (add_arg (gettoken t).1 ret) u)
                    (λ cmd v. parseargs fuel (argc + 1) cmd v)
                    (parseredirs-Gives (Args (argc + 1)) (λ cmd file mode fd k w kind. (k, w, kind))
                      (suc (length u)) (add_arg (gettoken t).1 ret) u
                      (add_arg-Args argc (gettoken t).1 ret (gettoken-IsWord t good) h))
                    (λ cmd v k. parseargs-Gives fuel (argc + 1) cmd v (few-le argc room) k))
          ]
        ]
      ]
    ]

module _ (line : List ℕ → Parse Cmd) (lines : (x : List ℕ) → Gives IsCommand (line x)) where
  parseblock-Gives : (s : List ℕ) → Gives IsCommand (parseblock line s)
  unfolding parseblock
  parseblock-Gives s = elim (Bool-cases (starts (40 ∷ []) (skip_space s))) [
    | inr other ↦ rw (Gives, other) tt
    | inl block ↦
        rw (Gives, block)
          (and_then-Gives IsCommand IsCommand (line (gettoken (skip_space s)).2) _
            (lines (gettoken (skip_space s)).2)
            (λ cmd v h. elim (Bool-cases (starts (41 ∷ []) (skip_space v))) [
              | inr other ↦ rw (Gives, other) tt
              | inl closed ↦
                  (let w = (gettoken (skip_space v)).2 in
                    rw (Gives, closed)
                      (parseredirs-Gives IsCommand (λ cmd file mode fd k w kind. (k, w, kind))
                        (suc (length w)) cmd w h))
            ]))
  ]

  parseexec-Gives : (s : List ℕ) → Gives IsCommand (parseexec line s)
  unfolding parseexec
  parseexec-Gives s =
      let t = skip_space s in
      elim (Bool-cases (starts (40 ∷ []) t)) [
        | inl block ↦ rw (Gives, block) (parseblock-Gives t)
        | inr other ↦
            rw (Gives, other)
              (and_then-Gives (Args 0) IsCommand (parseredirs (suc (length t)) (exec []) t) _
                (parseredirs-Gives (Args 0) (λ cmd file mode fd k w kind. (k, w, kind))
                  (suc (length t)) (exec []) t (tt, refl))
                (λ ret v h. parseargs-Gives (suc (length v)) 0 ret v (omega arith) h))
      ]

  parsepipe-Gives : (fuel : ℕ) (s : List ℕ) → Gives IsCommand (parsepipe line fuel s)
  unfolding parsepipe
  parsepipe-Gives zero s = tt
  parsepipe-Gives (suc fuel) s =
      and_then-Gives IsCommand IsCommand (parseexec line s) _ (parseexec-Gives s) (λ left t h.
        elim (Bool-cases (starts (124 ∷ []) (skip_space t))) [
          | inr over ↦ rw (Gives, over) h
          | inl bar ↦
              (let v = (gettoken (skip_space t)).2 in
                rw (Gives, bar)
                  (and_then-Gives IsCommand IsCommand (parsepipe line fuel v) _
                    (parsepipe-Gives fuel v) (λ right w k. (h, k))))
        ])

  parsetail-Gives :
      (fuel : ℕ) (cmd : Cmd) (s : List ℕ)
      → IsCommand cmd
      → Gives IsCommand (parsetail line fuel cmd s)
  unfolding parsetail
  parsetail-Gives zero cmd s h = tt
  parsetail-Gives (suc fuel) cmd s h =
      let t = skip_space s in
      elim (Bool-cases (starts (38 ∷ []) t)) [
        | inl ampersand ↦ rw (Gives, ampersand) (parsetail-Gives fuel (back cmd) (gettoken t).2 h)
        | inr no_more ↦ elim (Bool-cases (starts (59 ∷ []) (skip_space t))) [
          | inr over ↦ rw (Gives, no_more, parsetail, over) h
          | inl semicolon ↦
              (let v = (gettoken (skip_space t)).2 in
                rw (Gives, no_more, parsetail, semicolon)
                  (and_then-Gives IsCommand IsCommand (line v) _ (lines v) (λ right w k. (h, k))))
        ]
      ]

parseline-Gives : (fuel : ℕ) (s : List ℕ) → Gives IsCommand (parseline fuel s)
unfolding parseline
parseline-Gives zero s = tt
parseline-Gives (suc fuel) s =
    let lines : (x : List ℕ) → Gives IsCommand (parseline fuel x) = λ x. parseline-Gives fuel x in
    and_then-Gives IsCommand IsCommand (parsepipe (parseline fuel) (suc (length s)) s) _
      (parsepipe-Gives (parseline fuel) lines (suc (length s)) s)
      (λ cmd t h. parsetail-Gives (parseline fuel) lines (suc (length t)) cmd t h)

all_read-Gives : (cmd : Cmd) (s : List ℕ) → IsCommand cmd → Gives IsCommand (all_read cmd s)
unfolding all_read
all_read-Gives cmd [] h = h
all_read-Gives cmd (c ∷ s) h = tt

-- A command that `parsecmd` gives, on any string, has at most nine arguments in each simple
-- command, so that `argv` has room for them and its final 0; its arguments and files are words of
-- characters that are neither whitespace nor symbols, and its redirections are of the two kinds
-- that the shell makes.
pub parsecmd-IsCommand :
    (s rest : List ℕ) (cmd : Cmd) → parsecmd s ≡ parsed cmd rest → IsCommand cmd
unfolding parsecmd
parsecmd-IsCommand s rest cmd e =
    let whole : Gives IsCommand (parsecmd s) =
      and_then-Gives IsCommand IsCommand (parseline (suc (length s)) s) _
        (parseline-Gives (suc (length s)) s) (λ c t h. all_read-Gives c (skip_space t) h) in
    subst (λ p. Gives IsCommand p) e whole
