-- ===== src/Sh/Round/Levels.antt =====
-- What each parsing function does with a printed command, from what the ones below it do.
use assignment1_cs.Base.{
  ℕ, zero, suc, ◌≤◌, ◌<◌, ◌≡◌, refl, ap, ◌∙◌, false, List, [], ◌∷◌, ◌++◌, append_assoc, length,
  arith,
}
use assignment1_cs.Sh.{
  Cmd, exec, redir, pipe, list, back, parsed, and_then, among, skip_space, starts, parseexec,
  parsepipe, parsetail, parseline,
}
use assignment1_cs.Sh.Print.{print, print_args, print_redir, IsWord, IsKind, IsCommand}
use assignment1_cs.Sh.Tokens.{
  skip_space-Bare, skip_space-skip_space, length-skip_space, skip_space-behind, starts-word,
}
use assignment1_cs.Sh.Words.{
  Redirs, wrap, print_redirs, AllRedirs, IsEnd, redirs-Bare, redirs-no_block, parseredirs-wrap,
  parseredirs-word, parseargs-wrap, parseargs-stop, skip_space-arg,
}
use assignment1_cs.Sh.Steps.{
  IsPipeEnd, IsLineEnd, bar-IsEnd, ampersand-IsPipeEnd, semicolon-IsPipeEnd, close-IsLineEnd,
  parseexec-open, parseexec-block, parsepipe-last, parsepipe-bar, parsetail-end,
  parsetail-ampersand, parsetail-semicolon, parseline-pipe,
}

-- Each function gives back `cmd` from any string that reads, behind its whitespace, as the print of
-- `cmd` with an end behind it.
abbrev pub AtExec : Cmd → Type 0
AtExec cmd =
    (fuel : ℕ) (rs : Redirs) (s t : List ℕ)
    → AllRedirs rs
    → IsEnd s
    → skip_space t ≡ skip_space (print 3 cmd ++ print_redirs rs s)
    → length t ≤ fuel
    → parseexec (parseline fuel) t ≡ parsed (wrap rs cmd) s

abbrev pub AtPipe : Cmd → Type 0
AtPipe cmd =
    (fuel k : ℕ) (s t : List ℕ)
    → IsPipeEnd s
    → skip_space t ≡ skip_space (print 2 cmd ++ s)
    → length t ≤ fuel
    → length t < k
    → parsepipe (parseline fuel) k t ≡ parsed cmd s

abbrev pub AtTail : Cmd → Type 0
AtTail cmd =
    (fuel : ℕ) (s t : List ℕ)
    → IsPipeEnd s
    → skip_space t ≡ skip_space (print 1 cmd ++ s)
    → length t ≤ fuel
    → parseline (suc fuel) t ≡ parsetail (parseline fuel) (suc (length s)) cmd s

abbrev pub AtLine : Cmd → Type 0
AtLine cmd =
    (fuel : ℕ) (s t : List ℕ)
    → IsLineEnd s
    → skip_space t ≡ skip_space (print 0 cmd ++ s)
    → length t < fuel
    → parseline fuel t ≡ parsed cmd s

-- What is behind a symbol in a string is shorter than the string.
behind :
    (t a : List ℕ) (c : ℕ) (b : List ℕ)
    → (among c (32 ∷ 9 ∷ 13 ∷ 10 ∷ 11 ∷ [])) ≡ false
    → skip_space t ≡ skip_space (a ++ c ∷ b)
    → length (skip_space b) < length t
behind t a c b h e =
    let same : length (skip_space t) ≡ length (skip_space (a ++ c ∷ b)) = ap length e in
    omega (arith, same, length-skip_space t, length-skip_space b, skip_space-behind a c b h)

word-no_block : (w x : List ℕ) → IsWord w → starts (40 ∷ []) (w ++ x) ≡ false
unfolding among
word-no_block w x h = starts-word (40 ∷ []) w x h (refl, tt)

pub exec-AtExec : (argv : List (List ℕ)) → IsCommand (exec argv) → AtExec (exec argv)
unfolding print and_then
exec-AtExec [] ok fuel rs s t all end e h =
    let R = print_redirs rs s in
    parseexec-open (parseline fuel) t R (e ∙ skip_space-Bare R (redirs-Bare rs s all end))
      (redirs-no_block rs s all end)
    ∙ rw
        (
          parseredirs-wrap rs (suc (length R)) (exec []) s all end (omega arith),
          parseargs-stop (length s) 0 (wrap rs (exec [])) s end,
        )
        refl
exec-AtExec (w ∷ ws) ok fuel rs s t all end e h =
    let x = print_args ws ++ print_redirs rs s in
    let whole : skip_space t ≡ w ++ x =
      e
      ∙ ap (λ z. skip_space (32 ∷ z)) (append_assoc w (print_args ws) (print_redirs rs s))
      ∙ skip_space-arg w x ok.0.0 in
    parseexec-open (parseline fuel) t (w ++ x) whole (word-no_block w x ok.0.0)
    ∙ rw
        (
          parseredirs-word (length (w ++ x)) (exec []) w x ok.0.0,
          parseargs-wrap ws w (suc (length (w ++ x))) 0 [] rs s ok.0 all end (omega (arith, ok.1))
              (omega arith),
        )
        refl

pub redir-AtExec :
    (cmd : Cmd) (file : List ℕ) (mode fd : ℕ)
    → IsWord file
    → IsKind mode fd
    → AtExec cmd
    → AtExec (redir cmd file mode fd)
unfolding print
redir-AtExec cmd file mode fd w k inner fuel rs s t all end e h =
    inner fuel ((file, mode, fd) ∷ rs) s t ((w, k), all) end
      (e ∙ ap skip_space (append_assoc (print 3 cmd) (print_redir file fd) (print_redirs rs s))) h

pub block-AtExec :
    (cmd : Cmd) → print 3 cmd ≡ 40 ∷ (print 0 cmd ++ 41 ∷ []) → AtLine cmd → AtExec cmd
unfolding skip_space among
block-AtExec cmd shape inner fuel rs s t all end e h =
    let R = print_redirs rs s in
    let x = print 0 cmd ++ 41 ∷ R in
    let whole : print 3 cmd ++ R ≡ 40 ∷ x =
      ap (λ z. z ++ R) shape ∙ ap (λ z. 40 ∷ z) (append_assoc (print 0 cmd) (41 ∷ []) R) in
    let open_x : skip_space t ≡ 40 ∷ x = e ∙ ap skip_space whole in
    parseexec-block (parseline fuel) t x cmd rs s all end open_x (
      inner fuel (41 ∷ R) (skip_space x) (close-IsLineEnd R) (skip_space-skip_space x)
        (omega (arith, h, behind t [] 40 x refl open_x)))

pub exec-AtPipe : (cmd : Cmd) → print 2 cmd ≡ print 3 cmd → AtExec cmd → AtPipe cmd
exec-AtPipe cmd shape at fuel zero s t end e h l = absurd (omega (arith, l))
exec-AtPipe cmd shape at fuel (suc k) s t end e h l =
    parsepipe-last (parseline fuel) k t cmd s end
      (at fuel [] s t tt end.end (e ∙ ap (λ z. skip_space (z ++ s)) shape) h)

pub pipe-AtPipe : (left right : Cmd) → AtExec left → AtPipe right → AtPipe (pipe left right)
unfolding print among
pipe-AtPipe left right at_left at_right fuel zero s t end e h l = absurd (omega (arith, l))
pipe-AtPipe left right at_left at_right fuel (suc k) s t end e h l =
    let x = print 2 right ++ s in
    let whole = e ∙ ap skip_space (append_assoc (print 3 left) (124 ∷ print 2 right) s) in
    let shorter = behind t (print 3 left) 124 x refl whole in
    parsepipe-bar (parseline fuel) k t left right x s
      (at_left fuel [] (124 ∷ x) t tt (bar-IsEnd x) whole h)
      (at_right fuel k s (skip_space x) end (skip_space-skip_space x) (omega (arith, h, shorter))
        (omega (arith, l, shorter)))

pub pipe-AtTail : (cmd : Cmd) → print 1 cmd ≡ print 2 cmd → AtPipe cmd → AtTail cmd
pipe-AtTail cmd shape at fuel s t end e h =
    parseline-pipe fuel t cmd s
      (at fuel (suc (length t)) s t end (e ∙ ap (λ z. skip_space (z ++ s)) shape) h (omega arith))

pub back-AtTail : (cmd : Cmd) → AtTail cmd → AtTail (back cmd)
unfolding print
back-AtTail cmd at fuel s t end e h =
    at fuel (38 ∷ s) t (ampersand-IsPipeEnd s)
      (e ∙ ap skip_space (append_assoc (print 1 cmd) (38 ∷ []) s)) h
    ∙ parsetail-ampersand (parseline fuel) (suc (length s)) cmd s end.end.bare

pub tail-AtLine : (cmd : Cmd) → print 0 cmd ≡ print 1 cmd → AtTail cmd → AtLine cmd
tail-AtLine cmd shape at zero s t end e h = absurd (omega (arith, h))
tail-AtLine cmd shape at (suc fuel) s t end e h =
    at fuel s t end.pipe_end (e ∙ ap (λ z. skip_space (z ++ s)) shape) (omega (arith, h))
    ∙ parsetail-end (parseline fuel) (length s) cmd s end

pub list-AtLine : (left right : Cmd) → AtTail left → AtLine right → AtLine (list left right)
unfolding print among
list-AtLine left right at_left at_right zero s t end e h = absurd (omega (arith, h))
list-AtLine left right at_left at_right (suc fuel) s t end e h =
    let x = print 0 right ++ s in
    let whole = e ∙ ap skip_space (append_assoc (print 1 left) (59 ∷ print 0 right) s) in
    at_left fuel (59 ∷ x) t (semicolon-IsPipeEnd x) whole (omega (arith, h))
    ∙ parsetail-semicolon (parseline fuel) (suc (length x)) left right x s (
        at_right fuel s (skip_space x) end (skip_space-skip_space x)
          (omega (arith, h, behind t (print 1 left) 59 x refl whole)))
