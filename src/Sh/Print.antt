-- ===== src/Sh/Print.antt =====
-- The text of a command, with parentheses where the shell's grammar needs them.
use assignment1_cs.Base.{
  ℕ, Bool, ◌+◌, ◌≤◌, ◌≡◌, ◌≢◌, false, ◌||◌, ◌⊎◌, List, [], ◌∷◌, ◌++◌, if◌then◌else◌, ◌==◌, ltb,
  length,
}
use assignment1_cs.Sh.{
  Cmd, exec, redir, pipe, list, back, is_space, is_symbol, read_only, write_create,
}

abbrev pub print_args : List (List ℕ) → List ℕ
print_args [] = []
print_args (w ∷ ws) = 32 ∷ (w ++ print_args ws)

abbrev pub print_redir : List ℕ → ℕ → List ℕ
print_redir file fd = (if fd == 0 then 60 else 62) ∷ file

abbrev pub enclose : Bool → List ℕ → List ℕ
enclose b s = if b then 40 ∷ (s ++ 41 ∷ []) else s

-- The levels are those of `parseline`, of its loop, of `parsepipe` and of `parseexec`.
unfoldable pub print : ℕ → Cmd → List ℕ
print level (exec argv) = print_args argv
print level (redir cmd file mode fd) = print 3 cmd ++ print_redir file fd
print level (pipe left right) = enclose (ltb 2 level) (print 3 left ++ 124 ∷ print 2 right)
print level (list left right) = enclose (ltb 0 level) (print 1 left ++ 59 ∷ print 0 right)
print level (back cmd) = enclose (ltb 1 level) (print 1 cmd ++ 38 ∷ [])

-- A character that is neither whitespace nor a symbol.
abbrev pub Plain : ℕ → Type 0
Plain c = (is_space c || is_symbol c) ≡ false

abbrev pub AllPlain : List ℕ → Type 0
AllPlain [] = Unit
AllPlain (c ∷ w) = Plain c × AllPlain w

pub record IsWord (w : List ℕ) : Type 0 where
  pub nonempty : w ≢ []
  pub plain : AllPlain w

abbrev pub AllWords : List (List ℕ) → Type 0
AllWords [] = Unit
AllWords (w ∷ ws) = IsWord w × AllWords ws

-- The two kinds of redirection that the shell makes.
abbrev pub IsKind : ℕ → ℕ → Type 0
IsKind mode fd = ((mode ≡ read_only) × (fd ≡ 0)) ⊎ ((mode ≡ write_create) × (fd ≡ 1))

-- At most nine arguments, and words for them and for the files.
abbrev pub IsCommand : Cmd → Type 0
IsCommand (exec argv) = AllWords argv × (length argv + 1 ≤ 10)
IsCommand (redir cmd file mode fd) = IsCommand cmd × IsWord file × IsKind mode fd
IsCommand (pipe left right) = IsCommand left × IsCommand right
IsCommand (list left right) = IsCommand left × IsCommand right
IsCommand (back cmd) = IsCommand cmd
