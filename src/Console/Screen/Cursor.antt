-- ===== src/Console/Screen/Cursor.antt =====
-- `cgaputc` and `consolewrite`, and what a terminal shows.
use assignment1_cs.Base.{
  ℕ, ◌+◌, ◌-◌, ◌*◌, ◌/◌, ◌%◌, ◌^◌, ◌≤◌, ◌<◌, ◌≡◌, refl, ap, ap₂, ◌∙◌, inl, inr, true, false,
  Bool-cases, some, List, [], ◌∷◌, if◌then◌else◌, ◌==◌, ltb, leb, arith, ltb→lt,
}
use assignment1_cs.Strings.{Memory, memmove}
use assignment1_cs.Strings.Memmove.{memmove-Copied}
use assignment1_cs.Strings.Memset.{memset-Filled}
use assignment1_cs.Console.{backspace, newline}
use assignment1_cs.Console.Screen.{
  Screen, set_cell, glyph, put_char, scroll, cgaputc, consputc_out, consolewrite,
}

-- The cells that are used: 24 lines.
abbrev pub cells : ℕ
cells = 1920

abbrev pub cell : Memory → ℕ → ℕ
cell m j = m (2 * j) + m (2 * j + 1) * 256

abbrev pub blank : ℕ
blank = 0x0720

-- Where the cursor goes, and the cells after the character is written.
abbrev pub next_pos : ℕ → ℕ → ℕ
next_pos pos c =
    if c == newline then pos + (80 - pos % 80) else if c == backspace then pos - 1 else pos + 1

abbrev pub typed_cell : (ℕ → ℕ) → ℕ → ℕ → ℕ → ℕ
typed_cell f pos c j =
    if c == newline then f j else if c == backspace then f j else if pos == j then glyph c else f j

-- Cell `j` of the screen afterwards: a line up if the cursor has left the last line, the new last
-- line empty, and a blank at the cursor.
abbrev pub shown : (ℕ → ℕ) → ℕ → ℕ → ℕ → ℕ
shown f pos c j =
    if ltb (next_pos pos c) cells
    then (if next_pos pos c == j then blank else typed_cell f pos c j)
    else (if next_pos pos c - 80 == j
        then blank
        else if ltb j (23 * 80)
        then typed_cell f pos c (j + 80)
        else 0)

abbrev pub shown_pos : ℕ → ℕ → ℕ
shown_pos pos c = if ltb (next_pos pos c) cells then next_pos pos c else next_pos pos c - 80

cell-set_cell :
    (m : Memory) (p v j : ℕ)
    → v < 2 ^ 16
    → cell (set_cell m p v) j ≡ (if p == j then v else cell m j)
cell-set_cell m p v j h = ground arith

put_char-next : (s : Screen) (c : ℕ) → (put_char s c).pos ≡ next_pos s.pos c
put_char-next s c = ground arith

put_char-typed :
    (s : Screen) (c j : ℕ) → cell (put_char s c).crt j ≡ typed_cell (cell s.crt) s.pos c j
put_char-typed s c j = elim (Bool-cases (c == newline)) [
  | inl line ↦ rw line refl
  | inr char ↦ elim (Bool-cases (c == backspace)) [
    | inl back ↦ elim (Bool-cases (ltb 0 s.pos)) [
      | inl room ↦ rw (char, back, room) refl
      | inr start ↦ rw (char, back, start) refl
    ]
    | inr glyph_char ↦ rw (char, glyph_char) (cell-set_cell s.crt s.pos (glyph c) j (omega arith))
  ]
]

cell-scroll_up :
    (s : Screen) (j : ℕ) → s.pos ≡ cells → j < 23 * 80 → cell (scroll s).crt j ≡ cell s.crt (j + 80)
cell-scroll_up s j e h =
    let moved = memmove 0 (2 * 80) (2 * (23 * 80)) s.crt in
    let c = memmove-Copied 0 (2 * 80) (2 * (23 * 80)) s.crt in
    let f = memset-Filled (2 * (s.pos - 80)) 0 (2 * (24 * 80 - (s.pos - 80))) moved in
    let at : (k : ℕ) → k < 2 * (23 * 80) → (scroll s).crt k ≡ s.crt (2 * 80 + k) =
      λ k l. f.outside k (inl (omega (arith, e, l))) ∙ ap moved (omega arith) ∙ c.inside k l in
    let p : 2 * 80 + 2 * j ≡ 2 * (j + 80) = omega arith in
    let q : 2 * 80 + (2 * j + 1) ≡ 2 * (j + 80) + 1 = omega arith in
    ap₂ (λ x y. x + y * 256) (at (2 * j) (omega (arith, h)) ∙ ap s.crt p)
      (at (2 * j + 1) (omega (arith, h)) ∙ ap s.crt q)

cell-scroll_new :
    (s : Screen) (j : ℕ) → s.pos ≡ cells → 23 * 80 ≤ j → j < cells → cell (scroll s).crt j ≡ 0
cell-scroll_new s j e low high =
    let moved = memmove 0 (2 * 80) (2 * (23 * 80)) s.crt in
    let f = memset-Filled (2 * (s.pos - 80)) 0 (2 * (24 * 80 - (s.pos - 80))) moved in
    ap₂ (λ x y. x + y * 256) (f.inside (2 * j) (omega (arith, e, low)) (omega (arith, e, high)))
      (f.inside (2 * j + 1) (omega (arith, e, low)) (omega (arith, e, high)))

-- From a cursor on the screen `cgaputc` does not panic: it leaves the cursor at the position that
-- `shown_pos` gives, on the screen, and every cell as `shown` says.
pub cgaputc_lem :
    (s : Screen) (c : ℕ)
    → s.pos < cells
    → (s' : Screen) × (cgaputc s c ≡ some s')
      × (s'.pos ≡ shown_pos s.pos c)
      × (s'.pos < cells)
      × ((j : ℕ) → j < cells → cell s'.crt j ≡ shown (cell s.crt) s.pos c j)
unfolding cgaputc
cgaputc_lem s c h =
    let t = put_char s c in
    let next : t.pos ≡ next_pos s.pos c = put_char-next s c in
    let range : next_pos s.pos c ≤ cells = ground arith in
    let accepted : ltb (25 * 80) t.pos ≡ false = ground (arith, next, range) in
    elim (Bool-cases (ltb (next_pos s.pos c) cells)) [
      | inl stays ↦
          let inside : next_pos s.pos c < cells = ltb→lt (next_pos s.pos c) cells stays in
          let test : leb 24 (t.pos / 80) ≡ false = ground (arith, next, inside) in
          (
            record t { crt = set_cell t.crt t.pos blank },
            rw (accepted, test) refl,
            rw stays next,
            rw next inside,
            λ j l.
                cell-set_cell t.crt t.pos blank j (omega arith)
                ∙ rw (next, stays, put_char-typed s c j) refl,
          )
      | inr leaves ↦
          let last : next_pos s.pos c ≡ cells = ground arith in
          let bottom : t.pos ≡ cells = next ∙ last in
          let test : leb 24 (t.pos / 80) ≡ true = ground (arith, bottom) in
          let u = scroll t in
          let up : u.pos ≡ next_pos s.pos c - 80 = ap (λ x. x - 80) next in
          (
            record u { crt = set_cell u.crt u.pos blank },
            rw (accepted, test) refl,
            rw leaves up,
            omega (arith, bottom),
            λ j l.
                cell-set_cell u.crt u.pos blank j (omega arith)
                ∙ elim (Bool-cases (ltb j (23 * 80))) [
                  | inl above ↦
                      let e =
                        cell-scroll_up t j bottom (ltb→lt j (23 * 80) above)
                        ∙ put_char-typed s c (j + 80) in
                      ap (λ x. if u.pos == j then blank else x) e ∙ rw (up, leaves, above) refl
                  | inr below ↦
                      let e = cell-scroll_new t j bottom (ground arith) l in
                      ap (λ x. if u.pos == j then blank else x) e ∙ rw (up, leaves, below) refl
                ],
          )
    ]

abbrev pub low_bytes : List ℕ → List ℕ
low_bytes [] = []
low_bytes (c ∷ cs) = c % 2 ^ 8 ∷ low_bytes cs

-- A cell of the screen after these characters.
abbrev pub all_shown : (ℕ → ℕ) → ℕ → List ℕ → ℕ → ℕ
all_shown f pos [] j = f j
all_shown f pos (c ∷ cs) j = all_shown (shown f pos c) (shown_pos pos c) cs j

shown-same :
    (f g : ℕ → ℕ) (pos c : ℕ)
    → pos < cells
    → ((j : ℕ) → j < cells → f j ≡ g j)
    → (j : ℕ) → j < cells
    → shown f pos c j ≡ shown g pos c j
shown-same f g pos c small h j l = elim (Bool-cases (ltb j (23 * 80))) [
  | inl above ↦
      let e = h (j + 80) (omega (arith, ltb→lt j (23 * 80) above)) in
      let e' = h j l in rw above (ground arith)
  | inr below ↦ let e' = h j l in rw below (ground arith)
]

all_shown-same :
    (cs : List ℕ) (f g : ℕ → ℕ) (pos : ℕ)
    → pos < cells
    → ((j : ℕ) → j < cells → f j ≡ g j)
    → (j : ℕ) → j < cells
    → all_shown f pos cs j ≡ all_shown g pos cs j
all_shown-same [] f g pos small h j l = h j l
all_shown-same (c ∷ cs) f g pos small h j l =
    all_shown-same cs (shown f pos c) (shown g pos c) (shown_pos pos c) (ground arith)
      (shown-same f g pos c small h) j l

consputc_byte :
    (s : Screen) (b : ℕ) {t : Screen}
    → b < 2 ^ 8
    → cgaputc s b ≡ some t
    → consputc_out s b ≡ some (t, b ∷ [])
unfolding consputc_out
consputc_byte s b h e =
    let byte : (b == backspace) ≡ false = ground arith in rw (e, byte, consputc_out) refl

-- With the cursor within the 24 lines in use, `consolewrite` does not panic, sends the low bytes
-- of its characters to the serial port, leaves the cursor within these lines, and leaves on them
-- what a terminal shows: the characters at the cursor, lines ended by newlines, and at the end of
-- the last line all lines moved up by one.
pub consolewrite_lem :
    (buf : List ℕ) (s : Screen)
    → s.pos < cells
    → (s' : Screen) × (consolewrite s buf ≡ some (s', low_bytes buf))
      × (s'.pos < cells)
      × ((j : ℕ) → j < cells → cell s'.crt j ≡ all_shown (cell s.crt) s.pos (low_bytes buf) j)
unfolding consolewrite
consolewrite_lem [] s h = (s, refl, h, λ j l. refl)
consolewrite_lem (c ∷ buf) s h =
    let (t, e, p, small, f) = cgaputc_lem s (c % 2 ^ 8) h in
    let (u, e', small', g) = consolewrite_lem buf t small in
    let one = consputc_byte s (c % 2 ^ 8) (omega arith) e in
    (
      u,
      rw (one, e', consolewrite) refl,
      small',
      λ j l.
          g j l
          ∙ all_shown-same (low_bytes buf) (cell t.crt) (shown (cell s.crt) s.pos (c % 2 ^ 8)) t.pos
              small f j l
          ∙ ap (λ x. all_shown (shown (cell s.crt) s.pos (c % 2 ^ 8)) x (low_bytes buf) j) p,
    )
