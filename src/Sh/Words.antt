-- ===== src/Sh/Words.antt =====
-- The loops of `parseredirs` and `parseexec` on printed redirections and arguments.
use assignment1_cs.Base.{
  ℕ, zero, suc, ◌+◌, ◌≤◌, ◌<◌, ◌≡◌, refl, ap, ◌∙◌, ◌⊎◌, inl, inr, true, false, leb, leb→le,
  Bool-cases, List, [], ◌∷◌, ◌++◌, append_assoc, length, arith,
}
use assignment1_cs.Sh.{
  Cmd, exec, redir, parsed, and_then, among, skip_space, gettoken, starts, token_of, redirected,
  parseredirs, add_arg, parseargs, word_token,
}
use assignment1_cs.Sh.Print.{IsWord, AllWords, IsKind, print_args, print_redir}
use assignment1_cs.Sh.Tokens.{
  Bare, Ends, skip_space-Bare, word-Bare, starts-word, gettoken-word, gettoken-greater,
}

-- Files with the mode and the descriptor.
abbrev pub Redirs : Type 0
Redirs = List (List ℕ × ℕ × ℕ)

abbrev pub wrap : Redirs → Cmd → Cmd
wrap [] cmd = cmd
wrap ((file, mode, fd) ∷ rs) cmd = wrap rs (redir cmd file mode fd)

abbrev pub print_redirs : Redirs → List ℕ → List ℕ
print_redirs [] s = s
print_redirs ((file, mode, fd) ∷ rs) s = print_redir file fd ++ print_redirs rs s

abbrev pub AllRedirs : Redirs → Type 0
AllRedirs [] = Unit
AllRedirs ((file, mode, fd) ∷ rs) = (IsWord file × IsKind mode fd) × AllRedirs rs

-- A command's words and redirections end here.
pub record IsEnd (s : List ℕ) : Type 0 where
  pub bare : Bare s
  pub ends : Ends s
  pub no_redir : starts (60 ∷ 62 ∷ []) s ≡ false
  pub no_block : starts (40 ∷ []) s ≡ false
  pub stops : (s ≡ []) ⊎ (starts (124 ∷ 41 ∷ 38 ∷ 59 ∷ []) s ≡ true)

pub redirs-Bare : (rs : Redirs) (s : List ℕ) → AllRedirs rs → IsEnd s → Bare (print_redirs rs s)
unfolding among
redirs-Bare [] s all end = end.bare
redirs-Bare ((file, mode, fd) ∷ rs) s ((w, inl (m, f)), all) end = rw f refl
redirs-Bare ((file, mode, fd) ∷ rs) s ((w, inr (m, f)), all) end = rw f refl

pub redirs-Ends : (rs : Redirs) (s : List ℕ) → AllRedirs rs → IsEnd s → Ends (print_redirs rs s)
unfolding among
redirs-Ends [] s all end = end.ends
redirs-Ends ((file, mode, fd) ∷ rs) s ((w, inl (m, f)), all) end = rw f refl
redirs-Ends ((file, mode, fd) ∷ rs) s ((w, inr (m, f)), all) end = rw f refl

pub redirs-no_block :
    (rs : Redirs) (s : List ℕ)
    → AllRedirs rs
    → IsEnd s
    → starts (40 ∷ []) (print_redirs rs s) ≡ false
unfolding among starts
redirs-no_block [] s all end = end.no_block
redirs-no_block ((file, mode, fd) ∷ rs) s ((w, inl (m, f)), all) end = rw f refl
redirs-no_block ((file, mode, fd) ∷ rs) s ((w, inr (m, f)), all) end = rw f refl

-- One round of the loop, by the tokens that it reads.
parseredirs-round :
    (fuel : ℕ) (cmd : Cmd) (s : List ℕ) (tok : ℕ) (op u file v : List ℕ)
    → skip_space s ≡ s
    → starts (60 ∷ 62 ∷ []) s ≡ true
    → gettoken s ≡ (tok, op, u)
    → gettoken u ≡ (word_token, file, v)
    → parseredirs (suc fuel) cmd s ≡ parseredirs fuel (redirected tok cmd file) v
unfolding parseredirs
parseredirs-round fuel cmd s tok op u file v a b c d = rw (a, b, parseredirs, a, c, d, a, c, d) refl

gettoken-less : (s : List ℕ) → Bare s → gettoken (60 ∷ s) ≡ (60, 60 ∷ [], s)
unfolding gettoken skip_space token_of among
gettoken-less s b = rw (skip_space-Bare s b) refl

-- One round of the loop on a printed redirection.
parseredirs-step :
    (fuel : ℕ) (cmd : Cmd) (file : List ℕ) (mode fd : ℕ) (t : List ℕ)
    → IsWord file
    → IsKind mode fd
    → Ends t
    → Bare t
    → parseredirs (suc fuel) cmd (print_redir file fd ++ t)
      ≡ parseredirs fuel (redir cmd file mode fd) t
unfolding starts among skip_space redirected
parseredirs-step fuel cmd file mode fd t w (inl (m, f)) e b =
    rw (f, m)
      (parseredirs-round fuel cmd (60 ∷ (file ++ t)) 60 (60 ∷ []) (file ++ t) file t refl refl
        (gettoken-less (file ++ t) (word-Bare file t w))
        (rw (gettoken-word file t w e, skip_space-Bare t b) refl))
parseredirs-step fuel cmd file mode fd t w (inr (m, f)) e b =
    rw (f, m)
      (parseredirs-round fuel cmd (62 ∷ (file ++ t)) 62 (62 ∷ []) (file ++ t) file t refl refl
        (gettoken-greater file t w) (rw (gettoken-word file t w e, skip_space-Bare t b) refl))

pub parseredirs-stop :
    (fuel : ℕ) (cmd : Cmd) (t : List ℕ)
    → Bare t
    → starts (60 ∷ 62 ∷ []) t ≡ false
    → parseredirs (suc fuel) cmd t ≡ parsed cmd t
unfolding parseredirs
parseredirs-stop fuel cmd t b h = rw (skip_space-Bare t b, h, parseredirs, skip_space-Bare t b) refl

length-behind : (w t : List ℕ) → length t ≤ length (w ++ t)
length-behind [] t = omega arith
length-behind (x ∷ w) t = omega (arith, length-behind w t)

pub parseredirs-wrap :
    (rs : Redirs) (fuel : ℕ) (cmd : Cmd) (s : List ℕ)
    → AllRedirs rs
    → IsEnd s
    → length (print_redirs rs s) < fuel
    → parseredirs fuel cmd (print_redirs rs s) ≡ parsed (wrap rs cmd) s
parseredirs-wrap rs zero cmd s all end h = absurd (omega (arith, h))
parseredirs-wrap [] (suc fuel) cmd s all end h = parseredirs-stop fuel cmd s end.bare end.no_redir
parseredirs-wrap ((file, mode, fd) ∷ rs) (suc fuel) cmd s ((w, k), all) end h =
    parseredirs-step fuel cmd file mode fd (print_redirs rs s) w k (redirs-Ends rs s all end)
      (redirs-Bare rs s all end)
    ∙ parseredirs-wrap rs fuel (redir cmd file mode fd) s all end
        (omega (arith, h, length-behind file (print_redirs rs s)))

-- One round of the loop of `parseexec` on a word.
parseargs-round :
    (fuel argc : ℕ) (ret : Cmd) (w t : List ℕ)
    → IsWord w
    → Ends t
    → leb 10 (argc + 1) ≡ false
    → parseargs (suc fuel) argc ret (w ++ t)
      ≡ and_then
          (parseredirs (suc (length (skip_space t))) (add_arg w ret) (skip_space t))
          (λ cmd v. parseargs fuel (argc + 1) cmd v)
unfolding parseargs among
parseargs-round fuel argc ret w t h e k =
    let bare = skip_space-Bare (w ++ t) (word-Bare w t h) in
    let token = gettoken-word w t h e in
    let go = starts-word (124 ∷ 41 ∷ 38 ∷ 59 ∷ []) w t h (refl, (refl, (refl, (refl, tt)))) in
    rw (bare, go, parseargs, bare, token, bare, token, k, parseargs, bare, token) refl

pub parseargs-stop :
    (fuel argc : ℕ) (ret : Cmd) (s : List ℕ)
    → IsEnd s
    → parseargs (suc fuel) argc ret s ≡ parsed ret s
unfolding parseargs gettoken token_of starts skip_space
parseargs-stop fuel argc ret s end = elim end.stops [
  | inl e ↦ rw e refl
  | inr e ↦ rw (skip_space-Bare s end.bare, e, parseargs, skip_space-Bare s end.bare) refl
]

pub parseredirs-word :
    (fuel : ℕ) (cmd : Cmd) (w t : List ℕ)
    → IsWord w
    → parseredirs (suc fuel) cmd (w ++ t) ≡ parsed cmd (w ++ t)
unfolding among
parseredirs-word fuel cmd w t h =
    parseredirs-stop fuel cmd (w ++ t) (word-Bare w t h)
      (starts-word (60 ∷ 62 ∷ []) w t h (refl, (refl, tt)))

print_args-Ends : (ws : List (List ℕ)) (t : List ℕ) → Ends t → Ends (print_args ws ++ t)
unfolding among
print_args-Ends [] t e = e
print_args-Ends (w ∷ ws) t e = refl

length-word : (w t : List ℕ) → IsWord w → length t < length (w ++ t)
length-word [] t h = absurd (h.nonempty refl)
length-word (c ∷ w) t h = omega (arith, length-behind w t)

few-leb : (n : ℕ) → n + 1 < 10 → leb 10 (n + 1) ≡ false
few-leb n h = elim (Bool-cases (leb 10 (n + 1))) [
  | inl e ↦ absurd (omega (arith, h, leb→le 10 (n + 1) e))
  | inr e ↦ e
]

pub skip_space-arg : (x t : List ℕ) → IsWord x → skip_space (32 ∷ (x ++ t)) ≡ x ++ t
unfolding skip_space among
skip_space-arg x t h = skip_space-Bare (x ++ t) (word-Bare x t h)

-- The loop of `parseexec` at a printed word, with the other words and the redirections behind it.
pub parseargs-wrap :
    (ws : List (List ℕ)) (w : List ℕ) (fuel argc : ℕ) (argv : List (List ℕ)) (rs : Redirs)
    (s : List ℕ)
    → AllWords (w ∷ ws)
    → AllRedirs rs
    → IsEnd s
    → argc + length ws + 2 ≤ 10
    → length (w ++ (print_args ws ++ print_redirs rs s)) < fuel
    → parseargs fuel argc (exec argv) (w ++ (print_args ws ++ print_redirs rs s))
      ≡ parsed (wrap rs (exec (argv ++ w ∷ ws))) s
unfolding and_then add_arg
parseargs-wrap ws w zero argc argv rs s words all end few h = absurd (omega (arith, h))
parseargs-wrap ws w (suc zero) argc argv rs s words all end few h =
    absurd (omega (arith, h, length-word w (print_args ws ++ print_redirs rs s) words.0))
parseargs-wrap [] w (suc (suc fuel)) argc argv rs s words all end few h =
    let R = print_redirs rs s in
    parseargs-round (suc fuel) argc (exec argv) w R words.0 (redirs-Ends rs s all end)
      (few-leb argc (omega (arith, few)))
    ∙ rw
        (
          skip_space-Bare R (redirs-Bare rs s all end),
          parseredirs-wrap rs (suc (length R)) (exec (argv ++ w ∷ [])) s all end (omega arith),
          parseargs-stop fuel (argc + 1) (wrap rs (exec (argv ++ w ∷ []))) s end,
        )
        refl
parseargs-wrap (x ∷ ws) w (suc (suc fuel)) argc argv rs s words all end few h =
    let R = print_redirs rs s in
    let more = print_args ws ++ R in
    let whole : print_args (x ∷ ws) ++ R ≡ 32 ∷ (x ++ more) =
      ap (λ z. 32 ∷ z) (append_assoc x (print_args ws) R) in
    let shorter = length-word w (print_args (x ∷ ws) ++ R) words.0 in
    let same : length (print_args (x ∷ ws) ++ R) ≡ suc (length (x ++ more)) = ap length whole in
    parseargs-round (suc fuel) argc (exec argv) w (print_args (x ∷ ws) ++ R) words.0
      (print_args-Ends (x ∷ ws) R (redirs-Ends rs s all end)) (few-leb argc (omega (arith, few)))
    ∙ rw
        (
          whole,
          skip_space-arg x more words.1.0,
          parseredirs-word (length (x ++ more)) (exec (argv ++ w ∷ [])) x more words.1.0,
          parseargs-wrap ws x (suc fuel) (argc + 1) (argv ++ w ∷ []) rs s words.1 all end
              (omega (arith, few)) (omega (arith, h, shorter, same)),
          append_assoc argv (w ∷ []) (x ∷ ws),
        )
        refl
