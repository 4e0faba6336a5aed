-- ===== src/Sh.antt =====
-- sh.c: the parser of the shell. A C string is the list of its characters, without the final NUL,
-- and a pointer into it is what is left from there. The text of a token is the list of its
-- characters: the NULs that `nulterminate` puts behind the tokens make the C string that text.
pub mod Print
pub mod Tokens
pub mod Words
pub mod Steps
pub mod Round
pub mod Fuel
pub mod Shape
mod Tests
use assignment1_cs.Base.{
  ℕ, zero, suc, ◌+◌, Bool, true, false, ◌||◌, List, [], ◌∷◌, ◌++◌, if◌then◌else◌, ◌==◌, leb, length,
}

abbrev pub maxargs : ℕ
maxargs = 10

-- `O_RDONLY` and `O_WRONLY|O_CREATE`
abbrev pub read_only : ℕ
read_only = 0

abbrev pub write_create : ℕ
write_create = 513

pub data Cmd : Type 0 where
  exec : List (List ℕ) → Cmd
  redir : Cmd → List ℕ → ℕ → ℕ → Cmd
  pipe list : Cmd → Cmd → Cmd
  back : Cmd → Cmd

-- The messages of `panic`, which ends the shell's child.
pub data Message : Type 0 where
  leftovers missing_file no_block missing_close syntax too_many_args : Message

-- What a parsing function leaves: its result and the rest of the string, or a panic.
pub data Parse {ℓ} (A : Type ℓ) : Type ℓ where
  parsed : A → List ℕ → Parse A
  failed : Message → Parse A
  out_of_fuel : Parse A

pub and_then {ℓ ℓ₁} : {A : Type ℓ} {B : Type ℓ₁} → Parse A → (A → List ℕ → Parse B) → Parse B
and_then (parsed a s) k = k a s
and_then (failed m) k = failed m
and_then out_of_fuel k = out_of_fuel

-- `strchr(toks, c)` as a test, for a `c` that is not NUL.
pub among : ℕ → List ℕ → Bool
among c [] = false
among c (t ∷ toks) = (t == c) || among c toks

-- " \t\r\n\v"
abbrev pub whitespace : List ℕ
whitespace = 32 ∷ 9 ∷ 13 ∷ 10 ∷ 11 ∷ []

-- "<|>&;()"
abbrev pub symbols : List ℕ
symbols = 60 ∷ 124 ∷ 62 ∷ 38 ∷ 59 ∷ 40 ∷ 41 ∷ []

abbrev pub is_space : ℕ → Bool
is_space c = among c whitespace

abbrev pub is_symbol : ℕ → Bool
is_symbol c = among c symbols

-- `while(s < es && strchr(whitespace, *s)) s++`
pub skip_space : List ℕ → List ℕ
skip_space [] = []
skip_space (c ∷ s) = if is_space c then skip_space s else c ∷ s

-- The loop of the default case: the characters of the word, and what is behind it.
pub word : List ℕ → List ℕ × List ℕ
word [] = ([], [])
word (c ∷ s) =
    let (w, rest) = word s in if is_space c || is_symbol c then ([], c ∷ s) else (c ∷ w, rest)

-- `'a'` and `'+'`, the tokens of words and of `>>`.
abbrev pub word_token : ℕ
word_token = 97

abbrev pub append_token : ℕ
append_token = 43

-- The case of '>', behind it.
pub greater : List ℕ → ℕ × List ℕ × List ℕ
greater [] = (62, 62 ∷ [], [])
greater (c ∷ s) = if c == 62 then (append_token, 62 ∷ 62 ∷ [], s) else (62, 62 ∷ [], c ∷ s)

-- The `switch` of `gettoken`: the token, its text, and what is behind it.
pub token_of : List ℕ → ℕ × List ℕ × List ℕ
token_of [] = (0, [], [])
token_of (c ∷ s) =
    if c == 62
    then greater s
    else (if is_symbol c then (c, c ∷ [], s) else (word_token, (word (c ∷ s)).0, (word (c ∷ s)).1))

pub gettoken : List ℕ → ℕ × List ℕ × List ℕ
gettoken s = let (tok, text, rest) = token_of (skip_space s) in (tok, text, skip_space rest)

pub starts : List ℕ → List ℕ → Bool
starts toks [] = false
starts toks (c ∷ s) = among c toks

-- The answer, and the string at which the pointer is left.
abbrev pub peek : List ℕ → List ℕ → Bool × List ℕ
peek toks s = (starts toks (skip_space s), skip_space s)

-- The `switch` of `parseredirs`, on '<', '>' and '+'.
pub redirected : ℕ → Cmd → List ℕ → Cmd
redirected tok cmd file =
    if tok == 60
    then redir cmd file read_only 0
    else (if tok == 62
        then redir cmd file write_create 1
        else (if tok == append_token then redir cmd file write_create 1 else cmd))

-- For at most `fuel` tests of the loop's condition.
pub parseredirs : ℕ → Cmd → List ℕ → Parse Cmd
parseredirs zero cmd s = out_of_fuel
parseredirs (suc fuel) cmd s =
    let (more, t) = peek (60 ∷ 62 ∷ []) s in
    elim more [
      | false ↦ parsed cmd t
      | true ↦
          let (tok, _, u) = gettoken t in
          let (kind, file, v) = gettoken u in
          elim (kind == word_token) [
            | false ↦ failed missing_file
            | true ↦ parseredirs fuel (redirected tok cmd file) v
          ]
    ]

-- `cmd->argv[argc] = q`, on the command that the redirections around it belong to.
pub add_arg : List ℕ → Cmd → Cmd
add_arg q (exec argv) = exec (argv ++ q ∷ [])
add_arg q (redir cmd file mode fd) = redir (add_arg q cmd) file mode fd
add_arg q (pipe left right) = pipe left right
add_arg q (list left right) = list left right
add_arg q (back cmd) = back cmd

-- The loop of `parseexec`, for at most `fuel` tests of its condition.
pub parseargs : ℕ → ℕ → Cmd → List ℕ → Parse Cmd
parseargs zero argc ret s = out_of_fuel
parseargs (suc fuel) argc ret s =
    let (stop, t) = peek (124 ∷ 41 ∷ 38 ∷ 59 ∷ []) s in
    let (tok, q, u) = gettoken t in
    elim stop [
      | true ↦ parsed ret t
      | false ↦ elim (tok == 0) [
        | true ↦ parsed ret u
        | false ↦ elim (tok == word_token) [
          | false ↦ failed syntax
          | true ↦ elim (leb maxargs (argc + 1)) [
            | true ↦ failed too_many_args
            | false ↦
                and_then (parseredirs (suc (length u)) (add_arg q ret) u)
                  (λ cmd v. parseargs fuel (argc + 1) cmd v)
          ]
        ]
      ]
    ]

-- `line` is `parseline` for what stands in parentheses.
module _ (line : List ℕ → Parse Cmd) where
  pub parseblock : List ℕ → Parse Cmd
  parseblock s =
      let (block, t) = peek (40 ∷ []) s in
      elim block [
        | false ↦ failed no_block
        | true ↦ and_then (line (gettoken t).2) (λ cmd u.
            let (closed, v) = peek (41 ∷ []) u in
            elim closed [
              | false ↦ failed missing_close
              | true ↦ let (_, _, w) = gettoken v in parseredirs (suc (length w)) cmd w
            ])
      ]

  pub parseexec : List ℕ → Parse Cmd
  parseexec s =
      let (block, t) = peek (40 ∷ []) s in
      elim block [
        | true ↦ parseblock t
        | false ↦
            and_then (parseredirs (suc (length t)) (exec []) t)
              (λ ret u. parseargs (suc (length u)) 0 ret u)
      ]

  pub parsepipe : ℕ → List ℕ → Parse Cmd
  parsepipe zero s = out_of_fuel
  parsepipe (suc fuel) s = and_then (parseexec s) (λ left t.
      let (bar, u) = peek (124 ∷ []) t in
      elim bar [
        | false ↦ parsed left u
        | true ↦ and_then (parsepipe fuel (gettoken u).2) (λ right v. parsed (pipe left right) v)
      ])

  -- The loop of `parseline` and what follows it.
  pub parsetail : ℕ → Cmd → List ℕ → Parse Cmd
  parsetail zero cmd s = out_of_fuel
  parsetail (suc fuel) cmd s =
      let (ampersand, t) = peek (38 ∷ []) s in
      let (semicolon, u) = peek (59 ∷ []) t in
      elim ampersand [
        | true ↦ parsetail fuel (back cmd) (gettoken t).2
        | false ↦ elim semicolon [
          | false ↦ parsed cmd u
          | true ↦ and_then (line (gettoken u).2) (λ right v. parsed (list cmd right) v)
        ]
      ]

-- Each nested call of `parseline` is behind a character that was read.
pub parseline : ℕ → List ℕ → Parse Cmd
parseline zero s = out_of_fuel
parseline (suc fuel) s =
    and_then (parsepipe (parseline fuel) (suc (length s)) s)
      (λ cmd t. parsetail (parseline fuel) (suc (length t)) cmd t)

pub all_read : Cmd → List ℕ → Parse Cmd
all_read cmd [] = parsed cmd []
all_read cmd (c ∷ s) = failed leftovers

pub parsecmd : List ℕ → Parse Cmd
parsecmd s = and_then (parseline (suc (length s)) s) (λ cmd t. all_read cmd (skip_space t))
