-- ===== src/Console/Screen.antt =====
-- console.c: `cgaputc`, which puts a character on the screen of 25 lines of 80 cells. The video
-- memory is a memory of bytes with `crt` at address 0, two for each cell; `pos` is the cursor of the
-- hardware, a 16-bit register. `none` is a panic.
pub mod Cursor
use assignment1_cs.Base.{
  ℕ, ◌+◌, ◌-◌, ◌*◌, ◌/◌, ◌%◌, ◌^◌, Option, none, some, List, [], ◌∷◌, ◌++◌, if◌then◌else◌, ◌==◌,
  ltb, leb, update,
}
use assignment1_cs.Strings.{Memory, memset, memmove}
use assignment1_cs.Console.{backspace, newline}

pub record Screen : Type 0 where
  pub crt : Memory
  pub pos : ℕ

-- `crt[pos] = v`
abbrev pub set_cell : Memory → ℕ → ℕ → Memory
set_cell m pos v = update (update m (2 * pos) (v % 256)) (2 * pos + 1) (v / 256 % 256)

-- `(c&0xff) | 0x0700`: black on white.
abbrev pub glyph : ℕ → ℕ
glyph c = c % 256 + 0x0700

-- The cursor moves, and the character is written.
abbrev pub put_char : Screen → ℕ → Screen
put_char s c =
    if c == newline
    then record s { pos = s.pos + (80 - s.pos % 80) }
    else (if c == backspace
        then (if ltb 0 s.pos then record s { pos = s.pos - 1 } else s)
        else record { crt = set_cell s.crt s.pos (glyph c); pos = s.pos + 1 })

abbrev pub scroll : Screen → Screen
scroll s =
    let pos' = s.pos - 80 in
    record {
      crt = memset (2 * pos') 0 (2 * (24 * 80 - pos')) (memmove 0 (2 * 80) (2 * (23 * 80)) s.crt);
      pos = pos';
    }

pub cgaputc : Screen → ℕ → Option Screen
cgaputc s c =
    let t = put_char s c in
    if ltb (25 * 80) t.pos
    then none
    else (let u = if leb 24 (t.pos / 80) then scroll t else t in
        some (record u { crt = set_cell u.crt u.pos 0x0720 }))

-- The screen after `consputc`, and what it sends to the serial port, while no processor panicked.
pub consputc_out : Screen → ℕ → Option (Screen × List ℕ)
consputc_out s c = elim (cgaputc s c) [
  | none ↦ none
  | some s' ↦ some (s', if c == backspace then 8 ∷ 32 ∷ 8 ∷ [] else c ∷ [])
]

-- The loop of `consolewrite`, with `cons.lock` held.
pub consolewrite : Screen → List ℕ → Option (Screen × List ℕ)
consolewrite s [] = some (s, [])
consolewrite s (c ∷ buf) = elim (consputc_out s (c % 2 ^ 8)) [
  | none ↦ none
  | some (s', out) ↦ elim (consolewrite s' buf) [
    | none ↦ none
    | some (s'', rest) ↦ some (s'', out ++ rest)
  ]
]
