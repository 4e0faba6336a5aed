-- ===== src/Sh/Tests.antt =====
-- The parser at concrete lines.
use assignment1_cs.Base.{◌≡◌, refl, inr, List, [], ◌∷◌, ℕ, arith}
use assignment1_cs.Sh.{
  Cmd, exec, redir, pipe, list, back, parsed, failed, missing_file, and_then, parseredirs,
  parseargs, parseexec, parsepipe, parseline, parsecmd, starts, skip_space, among, gettoken,
  token_of, word, greater,
}
use assignment1_cs.Sh.Print.{print, IsWord, AllPlain, IsCommand}
use assignment1_cs.Sh.Round.{parsecmd-print}
use assignment1_cs.Sh.Fuel.Lines.{Ended, parsecmd-Ended}
use assignment1_cs.Sh.Shape.Lines.{parsecmd-IsCommand}

-- `a >`
parsecmd-no_file : parsecmd (97 ∷ 32 ∷ 62 ∷ []) ≡ failed missing_file
unfolding parsecmd and_then parseredirs parseargs parseexec parsepipe parseline starts skip_space
    among gettoken token_of word greater
parsecmd-no_file = refl

parsecmd-Ended_example : Ended (parsecmd (97 ∷ 32 ∷ 62 ∷ []))
parsecmd-Ended_example = parsecmd-Ended (97 ∷ 32 ∷ 62 ∷ [])

-- `(a|b>f)&;cd`
abbrev sample : Cmd
sample =
    list (back (pipe (exec ((97 ∷ []) ∷ [])) (redir (exec ((98 ∷ []) ∷ [])) (102 ∷ []) 513 1)))
      (exec ((99 ∷ 100 ∷ []) ∷ []))

cons-IsWord : (c : ℕ) (w : List ℕ) → AllPlain (c ∷ w) → IsWord (c ∷ w)
cons-IsWord c w p = record { nonempty = λ e. cc; plain = p }

sample-IsCommand : IsCommand sample
unfolding among
sample-IsCommand = (
  ((
    ((cons-IsWord 97 [] (refl, tt), tt), omega arith),
    (
      ((cons-IsWord 98 [] (refl, tt), tt), omega arith),
      cons-IsWord 102 [] (refl, tt),
      inr (refl, refl),
    ),
  )),
  ((cons-IsWord 99 (100 ∷ []) (refl, (refl, tt)), tt), omega arith),
)

parsecmd-print_example : parsecmd (print 0 sample) ≡ parsed sample []
parsecmd-print_example = parsecmd-print sample sample-IsCommand

parsecmd-print_again : parsecmd (print 0 sample) ≡ parsed sample []
parsecmd-print_again = parsecmd-print sample sample-IsCommand

parsecmd-IsCommand_example : IsCommand sample
parsecmd-IsCommand_example = parsecmd-IsCommand (print 0 sample) [] sample parsecmd-print_again
