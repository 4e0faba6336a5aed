-- ===== src/Console/Typing.antt =====
-- What typing does to the characters that are ready and to the line that is being edited.
use assignment1_cs.Base.{
  ℕ, zero, suc, ◌+◌, ◌%◌, ◌≤◌, ◌<◌, ◌≡◌, ◌≢◌, refl, sym, subst, ap, ap₂, ◌∙◌, inl, inr, true, false,
  not, ◌&&◌, ◌||◌, Bool-cases, List, [], ◌∷◌, ◌++◌, length, if◌then◌else◌, ◌==◌, ==→ne, ltb, arith,
}
use assignment1_cs.Console.{
  Input, input_buf, ctrl_p, ctrl_u, ctrl_h, ctrl_d, newline, uint_add, uint_sub, erase, kill_line,
  line_end, insert_char, store_char, key, consoleintr,
}
use assignment1_cs.Console.Window.{
  window, ready_size, line_size, ready, line, IsInput, insert_char-IsInput, ready-insert_char,
  line-insert_char, ready-finish_line, line-finish_line, line-erase,
}

abbrev pub NoNewline : List ℕ → Type 0
NoNewline [] = Unit
NoNewline (x ∷ xs) = (x ≢ newline) × NoNewline xs

NoNewline-append : (xs ys : List ℕ) → NoNewline xs → NoNewline ys → NoNewline (xs ++ ys)
NoNewline-append [] ys h k = k
NoNewline-append (x ∷ xs) ys h k = (h.0, NoNewline-append xs ys h.1 k)

NoNewline-prefix : (xs ys : List ℕ) → NoNewline (xs ++ ys) → NoNewline xs
NoNewline-prefix [] ys h = tt
NoNewline-prefix (x ∷ xs) ys h = (h.0, NoNewline-prefix xs ys h.1)

NoNewline-last : (xs : List ℕ) (x : ℕ) → NoNewline (xs ++ x ∷ []) → x ≢ newline
NoNewline-last [] x h = h.0
NoNewline-last (y ∷ xs) x h = NoNewline-last xs x h.1

abbrev pub drop_last : List ℕ → List ℕ
drop_last [] = []
drop_last (x ∷ []) = []
drop_last (x ∷ y ∷ xs) = x ∷ drop_last (y ∷ xs)

drop_last-snoc : (xs : List ℕ) (x : ℕ) → drop_last (xs ++ x ∷ []) ≡ xs
drop_last-snoc [] x = refl
drop_last-snoc (y ∷ []) x = refl
drop_last-snoc (y ∷ z ∷ xs) x = ap (λ t. y ∷ t) (drop_last-snoc (z ∷ xs) x)

length-window : (buf : ℕ → ℕ) (i n : ℕ) → length (window buf i n) ≡ n
length-window buf i zero = refl
length-window buf i (suc n) = ap suc (length-window buf (i + 1) n)

-- A character is added to the line; a newline, the end of the input or a full buffer ends it.
abbrev pub add_typed : List ℕ → List ℕ → ℕ → List ℕ × List ℕ
add_typed rd ln c =
    if (c == newline) || ((c == ctrl_d) || (length rd + length ln + 1 == input_buf))
    then (rd ++ (ln ++ c ∷ []), [])
    else (rd, ln ++ c ∷ [])

-- The same on lists: the characters that are ready, and the line.
abbrev pub typed : List ℕ → List ℕ → ℕ → List ℕ × List ℕ
typed rd ln c =
    if c == ctrl_p
    then (rd, ln)
    else (if c == ctrl_u
        then (rd, [])
        else (if (c == ctrl_h) || (c == 127)
            then (rd, drop_last ln)
            else (if not (c == 0) && ltb (length rd + length ln) input_buf
                then add_typed rd ln (line_end c)
                else (rd, ln))))

abbrev pub all_typed : List ℕ → List ℕ → List ℕ → List ℕ × List ℕ
all_typed rd ln [] = (rd, ln)
all_typed rd ln (c ∷ cs) = let (rd', ln') = typed rd ln c in all_typed rd' ln' cs

-- The buffer is in order, and holds these characters.
pub record Shows (s : Input) (rd ln : List ℕ) : Type 0 where
  pub valid : IsInput s
  pub plain : NoNewline (line s)
  pub ready_same : ready s ≡ rd
  pub line_same : line s ≡ ln

empty_line : (s : Input) → IsInput s → (s.e == s.w) ≡ true → line s ≡ []
empty_line s v h = let n : line_size s ≡ 0 = ground arith in ap (window s.buf s.w) n

erase-Shows :
    (s : Input)
    → IsInput s
    → NoNewline (line s)
    → s.e ≢ s.w
    → Shows (erase s) (ready s) (drop_last (line s))
erase-Shows s v p h =
    let e = line-erase s v h in
    record {
      valid = omega arith;
      plain = NoNewline-prefix (line (erase s)) _ (subst NoNewline e p);
      ready_same = refl;
      line_same = sym (ap drop_last e ∙ drop_last-snoc (line (erase s)) _);
    }

kill_line-Shows :
    (fuel : ℕ) (s : Input)
    → IsInput s
    → NoNewline (line s)
    → line_size s ≤ fuel
    → Shows (kill_line fuel s).0 (ready s) []
unfolding kill_line
kill_line-Shows zero s v p h = record {
  valid = v;
  plain = p;
  ready_same = refl;
  line_same = let n : line_size s ≡ 0 = omega (arith, h) in ap (window s.buf s.w) n;
}
kill_line-Shows (suc fuel) s v p h = elim (Bool-cases (s.e == s.w)) [
  | inl done ↦
      rw done (record { valid = v; plain = p; ready_same = refl; line_same = empty_line s v done })
  | inr more ↦
      let ne : s.e ≢ s.w = ==→ne s.e s.w more in
      let e = erase-Shows s v p ne in
      let last : (s.buf (uint_sub s.e 1 % input_buf) == newline) ≡ false =
        let m = NoNewline-last (line (erase s)) _ (subst NoNewline (line-erase s v ne) p) in
        ground arith in
      rw (more, last) (kill_line-Shows fuel (erase s) e.valid e.plain (omega (arith, h, ne)))
]

pub store_char-Shows :
    (s : Input) (c : ℕ)
    → IsInput s
    → NoNewline (line s)
    → uint_sub s.e s.r < input_buf
    → let (rd, ln) = add_typed (ready s) (line s) c in Shows (store_char s c).0 rd ln
store_char-Shows s c v p room =
    let v' = insert_char-IsInput s c v room in
    let rd = ready-insert_char s c v room in
    let ln = line-insert_char s c v room in
    let full : (uint_add s.e 1 == uint_add s.r input_buf)
        ≡ (length (ready s) + length (line s) + 1 == input_buf) =
      let m = length-window s.buf s.r (ready_size s) in
      let n = length-window s.buf s.w (line_size s) in ground (arith, m, n) in
    elim (Bool-cases (
      (c == newline) || ((c == ctrl_d) || (length (ready s) + length (line s) + 1 == input_buf)))) [
        | inl ends ↦
            rw (full, ends)
              (record {
                valid = omega arith;
                plain = subst NoNewline (sym (line-finish_line (insert_char s c) v')) tt;
                ready_same = ready-finish_line (insert_char s c) v' ∙ ap₂ (λ x y. x ++ y) rd ln;
                line_same = line-finish_line (insert_char s c) v';
              })
        | inr goes_on ↦
            let n : c ≢ newline = ground arith in
            rw (full, goes_on)
              (record {
                valid = v';
                plain = subst NoNewline (sym ln) (NoNewline-append (line s) (c ∷ []) p (n, tt));
                ready_same = rd;
                line_same = ln;
              })
      ]

pub key-Shows :
    (s : Input) (c : ℕ)
    → IsInput s
    → NoNewline (line s)
    → let (rd, ln) = typed (ready s) (line s) c in Shows (key s c).0 rd ln
unfolding key
key-Shows s c v p =
    let same : Shows s (ready s) (line s) = record {
      valid = v;
      plain = p;
      ready_same = refl;
      line_same = refl;
    } in
    let size : uint_sub s.e s.r ≡ length (ready s) + length (line s) =
      let m = length-window s.buf s.r (ready_size s) in
      let n = length-window s.buf s.w (line_size s) in omega (arith, m, n) in
    elim (Bool-cases (c == ctrl_p)) [
      | inl dump ↦ rw dump same
      | inr not_p ↦ elim (Bool-cases (c == ctrl_u)) [
        | inl kill ↦ rw (not_p, kill) (kill_line-Shows input_buf s v p (omega (arith, v.bounded)))
        | inr not_u ↦ elim (Bool-cases ((c == ctrl_h) || (c == 127))) [
          | inl back ↦ elim (Bool-cases (s.e == s.w)) [
            | inl nothing ↦
                let e : line s ≡ drop_last (line s) =
                  empty_line s v nothing ∙ sym (ap drop_last (empty_line s v nothing)) in
                rw (not_p, not_u, back, nothing) (subst (Shows s (ready s)) e same)
            | inr some_char ↦
                rw (not_p, not_u, back, some_char) (erase-Shows s v p (==→ne s.e s.w some_char))
          ]
          | inr not_h ↦ elim (Bool-cases (not (c == 0) && ltb (uint_sub s.e s.r) input_buf)) [
            | inl room ↦
                let room' = subst (λ n. (not (c == 0) && ltb n input_buf) ≡ true) size room in
                rw (not_p, not_u, not_h, room, room')
                  (store_char-Shows s (line_end c) v p (ground arith))
            | inr full ↦
                let full' = subst (λ n. (not (c == 0) && ltb n input_buf) ≡ false) size full in
                rw (not_p, not_u, not_h, full, full') same
          ]
        ]
      ]
    ]

-- From a line buffer in order whose line has no newline, also while its indices wrap around,
-- `consoleintr` does to the characters that are ready and to the line what the keys mean: a
-- character is added while the 128 places last, backspace takes the last one of the line away,
-- Ctrl-U all of them, and a newline, Ctrl-D or the last place makes the line ready.
pub consoleintr-Shows :
    (s : Input) (cs : List ℕ)
    → IsInput s
    → NoNewline (line s)
    → let (rd, ln) = all_typed (ready s) (line s) cs in Shows (consoleintr s cs).0 rd ln
unfolding consoleintr
consoleintr-Shows s [] v p = record { valid = v; plain = p; ready_same = refl; line_same = refl }
consoleintr-Shows s (c ∷ cs) v p =
    let k = key-Shows s c v p in
    let rest = consoleintr-Shows (key s c).0 cs k.valid k.plain in
    let e : all_typed (ready (key s c).0) (line (key s c).0) cs
        ≡ all_typed (ready s) (line s) (c ∷ cs) =
      ap₂ (λ rd ln. all_typed rd ln cs) k.ready_same k.line_same in
    subst (λ t. Shows (consoleintr (key s c).0 cs).0 t.0 t.1) e rest
