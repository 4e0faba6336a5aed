-- ===== src/Console/Tests.antt =====
-- A line with a correction, typed while the indices wrap around, and the reads from it.
use assignment1_cs.Base.{ℕ, ◌<◌, ◌≡◌, Bool, false, some, List, [], ◌∷◌, refl, arith}
use assignment1_cs.Console.{
  Input, consputc, wakeup, newline, key, kill_line, consoleintr, returned, asleep, consoleread_loop,
}
use assignment1_cs.Console.Screen.{Screen, consolewrite}
use assignment1_cs.Console.Screen.Cursor.{cells, cell, low_bytes, all_shown, consolewrite_lem}
use assignment1_cs.Console.Window.{ready, line, IsInput}
use assignment1_cs.Console.Typing.{all_typed, Shows, consoleintr-Shows}
use assignment1_cs.Console.Reading.{Took, take_line, consoleread_loop-Took, enter_serves}

-- Two characters before the wrap.
abbrev before_wrap : Input
before_wrap = record { buf = λ i. 0; r = 4294967294; w = 4294967294; e = 4294967294 }

-- "ax", backspace, "b", return.
abbrev keys : List ℕ
keys = 97 ∷ 120 ∷ 8 ∷ 98 ∷ 13 ∷ []

typed_line : ready (consoleintr before_wrap keys).0 ≡ 97 ∷ 98 ∷ 10 ∷ []
unfolding consoleintr key kill_line
typed_line = refl

-- Ctrl-U takes both characters back.
killed_line : line (consoleintr before_wrap (97 ∷ 98 ∷ 21 ∷ [])).0 ≡ []
unfolding consoleintr key kill_line
killed_line = refl

read_two : (consoleread_loop (consoleintr before_wrap keys).0 false 2 2).1 ≡ 97 ∷ 98 ∷ []
unfolding consoleintr key kill_line consoleread_loop
read_two = refl

read_end : (consoleread_loop (consoleintr before_wrap (4 ∷ [])).0 false 5 5).2 ≡ returned 0
unfolding consoleintr key kill_line consoleread_loop
read_end = refl

read_sleeps : (consoleread_loop before_wrap false 5 5).2 ≡ asleep 5
unfolding consoleread_loop
read_sleeps = refl

before_wrap-IsInput : IsInput before_wrap
before_wrap-IsInput = omega arith

consoleintr-Shows_example :
    let (rd, ln) = all_typed (ready before_wrap) (line before_wrap) keys in
    Shows (consoleintr before_wrap keys).0 rd ln
consoleintr-Shows_example = consoleintr-Shows before_wrap keys before_wrap-IsInput tt

consoleread_loop-Took_example :
    let (s', cs, out) = consoleread_loop before_wrap false 5 5 in
    let (bytes, rest, end) = take_line false 5 5 (ready before_wrap) in
    Took before_wrap s' rest × (cs ≡ bytes) × (out ≡ end)
consoleread_loop-Took_example = consoleread_loop-Took before_wrap false 5 5 before_wrap-IsInput

enter_serves_example :
    let (s', out) = key before_wrap newline in
    (out ≡ consputc newline ∷ wakeup ∷ [])
    × ((killed : Bool) (target n : ℕ)
        → (k : ℕ) × ((consoleread_loop s' killed target n).2 ≡ returned k))
enter_serves_example = enter_serves before_wrap before_wrap-IsInput tt (omega arith)

-- A full screen with the cursor behind its last character.
abbrev bottom : Screen
bottom = record { crt = λ a. 7; pos = 1919 }

consolewrite_lem_example :
    (s' : Screen) × (consolewrite bottom (65 ∷ 10 ∷ []) ≡ some (s', low_bytes (65 ∷ 10 ∷ [])))
    × (s'.pos < cells)
    × ((j : ℕ)
        → j < cells
        → cell s'.crt j ≡ all_shown (cell bottom.crt) bottom.pos (low_bytes (65 ∷ 10 ∷ [])) j)
consolewrite_lem_example = consolewrite_lem (65 ∷ 10 ∷ []) bottom (omega arith)
