-- ===== src/Sh/Round.antt =====
-- Parsing of printed commands.
mod Levels
use assignment1_cs.Base.{
  ℕ, zero, suc, ◌≤◌, ◌<◌, ◌≡◌, refl, sym, ap, ◌∙◌, false, List, [], ◌∷◌, ◌++◌, append_assoc,
  append-nil, length, arith,
}
use assignment1_cs.Sh.{
  Cmd, exec, redir, pipe, list, back, parsed, and_then, among, skip_space, starts, all_read,
  parseexec, parsepipe, parsetail, parseline, parsecmd,
}
use assignment1_cs.Sh.Print.{print, print_args, print_redir, IsWord, IsKind, IsCommand}
use assignment1_cs.Sh.Tokens.{
  skip_space-Bare, skip_space-skip_space, length-skip_space, skip_space-behind, starts-word,
}
use assignment1_cs.Sh.Words.{
  Redirs, wrap, print_redirs, AllRedirs, IsEnd, redirs-Bare, redirs-no_block, parseredirs-wrap,
  parseredirs-word, parseargs-wrap, parseargs-stop, skip_space-arg,
}
use assignment1_cs.Sh.Steps.{
  IsPipeEnd, IsLineEnd, bar-IsEnd, ampersand-IsPipeEnd, semicolon-IsPipeEnd, close-IsLineEnd,
  nil-IsLineEnd, parseexec-open, parseexec-block, parsepipe-last, parsepipe-bar, parsetail-end,
  parsetail-ampersand, parsetail-semicolon, parseline-pipe,
}
use assignment1_cs.Sh.Round.Levels.{
  AtExec, AtPipe, AtTail, AtLine, exec-AtExec, redir-AtExec, block-AtExec, exec-AtPipe, pipe-AtPipe,
  pipe-AtTail, back-AtTail, tail-AtLine, list-AtLine,
}

record AtAll (cmd : Cmd) : Type 0 where
  at_exec : AtExec cmd
  at_pipe : AtPipe cmd
  at_tail : AtTail cmd
  at_line : AtLine cmd

exec-AtAll :
    (cmd : Cmd)
    → print 2 cmd ≡ print 3 cmd
    → print 1 cmd ≡ print 2 cmd
    → print 0 cmd ≡ print 1 cmd
    → AtExec cmd
    → AtAll cmd
exec-AtAll cmd shape₂ shape₁ shape₀ at =
    let piped = exec-AtPipe cmd shape₂ at in
    let tailed = pipe-AtTail cmd shape₁ piped in
    record {
      at_exec = at;
      at_pipe = piped;
      at_tail = tailed;
      at_line = tail-AtLine cmd shape₀ tailed;
    }

-- Each level takes the command as the level above it does, or in parentheses.
AtAll-IsCommand : (cmd : Cmd) → IsCommand cmd → AtAll cmd
unfolding print
AtAll-IsCommand (exec argv) ok = exec-AtAll (exec argv) refl refl refl (exec-AtExec argv ok)
AtAll-IsCommand (redir cmd file mode fd) ok =
    exec-AtAll (redir cmd file mode fd) refl refl refl
      (redir-AtExec cmd file mode fd ok.1 ok.2 (AtAll-IsCommand cmd ok.0).at_exec)
AtAll-IsCommand (pipe left right) ok =
    let piped =
      pipe-AtPipe left right (AtAll-IsCommand left ok.0).at_exec
        (AtAll-IsCommand right ok.1).at_pipe in
    let tailed = pipe-AtTail (pipe left right) refl piped in
    let lined = tail-AtLine (pipe left right) refl tailed in
    record {
      at_exec = block-AtExec (pipe left right) refl lined;
      at_pipe = piped;
      at_tail = tailed;
      at_line = lined;
    }
AtAll-IsCommand (back cmd) ok =
    let tailed = back-AtTail cmd (AtAll-IsCommand cmd ok).at_tail in
    let lined = tail-AtLine (back cmd) refl tailed in
    let blocked = block-AtExec (back cmd) refl lined in
    record {
      at_exec = blocked;
      at_pipe = exec-AtPipe (back cmd) refl blocked;
      at_tail = tailed;
      at_line = lined;
    }
AtAll-IsCommand (list left right) ok =
    let lined =
      list-AtLine left right (AtAll-IsCommand left ok.0).at_tail
        (AtAll-IsCommand right ok.1).at_line in
    let blocked = block-AtExec (list left right) refl lined in
    let piped = exec-AtPipe (list left right) refl blocked in
    record {
      at_exec = blocked;
      at_pipe = piped;
      at_tail = pipe-AtTail (list left right) refl piped;
      at_line = lined;
    }

-- For a command whose arguments and file names are words of characters that are neither whitespace
-- nor symbols, with at most nine arguments in each simple command and the two kinds of redirection
-- that the shell makes, `parsecmd` reads the text of the command, printed with parentheses where
-- the grammar needs them, as that command, with nothing left.
pub parsecmd-print : (cmd : Cmd) → IsCommand cmd → parsecmd (print 0 cmd) ≡ parsed cmd []
unfolding parsecmd and_then skip_space all_read
parsecmd-print cmd ok =
    let s = print 0 cmd in
    let line : parseline (suc (length s)) s ≡ parsed cmd [] =
      (AtAll-IsCommand cmd ok).at_line (suc (length s)) [] s nil-IsLineEnd
        (ap skip_space (sym (append-nil s))) (omega arith) in
    rw line refl
