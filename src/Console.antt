-- ===== src/Console.antt =====
-- console.c: the line buffer behind the keyboard and the reads from it, and the screen (Screen). A
-- function is what `consoleintr` does with `cons.lock` held, or what `consoleread` does from the
-- acquisition of the lock to its return or its call of `sleep`. The three indices are `uint`.
pub mod Window
pub mod Typing
pub mod Reading
pub mod Screen
mod Tests
use assignment1_cs.Base.{
  ℕ, zero, suc, ◌+◌, ◌-◌, ◌%◌, ◌^◌, Bool, true, false, not, ◌&&◌, ◌||◌, List, [], ◌∷◌, ◌++◌,
  if◌then◌else◌, ◌==◌, ltb, update,
}

abbrev pub input_buf : ℕ
input_buf = 128

pub record Input : Type 0 where
  pub buf : ℕ → ℕ
  pub r : ℕ
  pub w : ℕ
  pub e : ℕ

-- What the console asks of the screen and of the scheduler; the channel is `&input.r`.
pub data Event : Type 0 where
  consputc : ℕ → Event
  wakeup : Event

abbrev pub backspace : ℕ
backspace = 0x100

-- `C('P')`, `C('U')`, `C('H')` and `C('D')`.
abbrev pub ctrl_p : ℕ
ctrl_p = 16

abbrev pub ctrl_u : ℕ
ctrl_u = 21

abbrev pub ctrl_h : ℕ
ctrl_h = 8

abbrev pub ctrl_d : ℕ
ctrl_d = 4

abbrev pub newline : ℕ
newline = 10

abbrev pub uint_add : ℕ → ℕ → ℕ
uint_add a b = (a + b) % 2 ^ 32

abbrev pub uint_sub : ℕ → ℕ → ℕ
uint_sub a b = (a + 2 ^ 32 - b) % 2 ^ 32

-- `input.e--; consputc(BACKSPACE);`
abbrev pub erase : Input → Input
erase s = record s { e = uint_sub s.e 1 }

-- The loop that kills the line, for at most `fuel` rounds.
pub kill_line : ℕ → Input → Input × List Event
kill_line zero s = (s, [])
kill_line (suc fuel) s =
    let (s', out) = kill_line fuel (erase s) in
    if not (s.e == s.w) && not (s.buf (uint_sub s.e 1 % input_buf) == newline)
    then (s', consputc backspace ∷ out)
    else (s, [])

-- `c = (c == '\r') ? '\n' : c`
abbrev pub line_end : ℕ → ℕ
line_end c = if c == 13 then newline else c

-- `input.buf[input.e++ % INPUT_BUF] = c`
abbrev pub insert_char : Input → ℕ → Input
insert_char s c = record s { buf = update s.buf (s.e % input_buf) c; e = uint_add s.e 1 }

-- The line is handed to the readers.
abbrev pub finish_line : Input → Input
finish_line s = record s { w = s.e }

-- The default case, for a character that is stored.
abbrev pub store_char : Input → ℕ → Input × List Event
store_char s c =
    let s' = insert_char s c in
    if (c == newline) || ((c == ctrl_d) || (s'.e == uint_add s'.r input_buf))
    then (finish_line s', consputc c ∷ wakeup ∷ [])
    else (s', consputc c ∷ [])

-- One round of the loop of `consoleintr`.
pub key : Input → ℕ → Input × List Event
key s c =
    if c == ctrl_p
    then (s, [])
    else (if c == ctrl_u
        then kill_line input_buf s
        else (if (c == ctrl_h) || (c == 127)
            then (if not (s.e == s.w) then (erase s, consputc backspace ∷ []) else (s, []))
            else (if not (c == 0) && ltb (uint_sub s.e s.r) input_buf
                then store_char s (line_end c)
                else (s, []))))

-- `consoleintr`, for the characters that `getc` returns before a negative result; the Boolean is
-- `doprocdump`.
pub consoleintr : Input → List ℕ → Input × Bool × List Event
consoleintr s [] = (s, false, [])
consoleintr s (c ∷ cs) =
    let (s', out) = key s c in
    let (s'', dump, rest) = consoleintr s' cs in (s'', (c == ctrl_p) || dump, out ++ rest)

-- How a section of `consoleread` ends: with `target - n`, with -1, or asleep with `n` bytes to go.
pub data Outcome : Type 0 where
  returned : ℕ → Outcome
  failed : Outcome
  asleep : ℕ → Outcome

-- The loop, with `n` bytes to go; the list is what it stores in `dst`.
pub consoleread_loop : Input → Bool → ℕ → ℕ → Input × List ℕ × Outcome
consoleread_loop s killed target zero = (s, [], returned target)
consoleread_loop s killed target (suc n) =
    let c = s.buf (s.r % input_buf) in
    let s' = record s { r = uint_add s.r 1 } in
    let (last, cs, out) = consoleread_loop s' killed target n in
    if s.r == s.w
    then (s, [], if killed then failed else asleep (suc n))
    else (if c == ctrl_d
        then (if ltb (suc n) target then s else s', [], returned (target - suc n))
        else (if c == newline then (s', c ∷ [], returned (target - n)) else (last, c ∷ cs, out)))
