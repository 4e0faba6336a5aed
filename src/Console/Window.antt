-- ===== src/Console/Window.antt =====
-- The characters between two indices of the line buffer, as lists.
use assignment1_cs.Base.{
  ℕ, zero, suc, ◌+◌, ◌%◌, ◌^◌, ◌≤◌, ◌<◌, ◌≡◌, ◌≢◌, refl, sym, ap, ap₂, ◌∙◌, List, [], ◌∷◌, ◌++◌,
  update, update_self, update_ne, arith,
}
use assignment1_cs.Console.{Input, input_buf, uint_sub, insert_char, erase, finish_line}

abbrev pub window : (ℕ → ℕ) → ℕ → ℕ → List ℕ
window buf i zero = []
window buf i (suc n) = buf (i % input_buf) ∷ window buf (i + 1) n

-- The characters that are ready for readers, and those of the line that is being typed.
abbrev pub ready_size : Input → ℕ
ready_size s = uint_sub s.w s.r

abbrev pub line_size : Input → ℕ
line_size s = uint_sub s.e s.w

abbrev pub ready : Input → List ℕ
ready s = window s.buf s.r (ready_size s)

abbrev pub line : Input → List ℕ
line s = window s.buf s.w (line_size s)

pub record IsInput (s : Input) : Type 0 where
  pub r_fits : s.r < 2 ^ 32
  pub w_fits : s.w < 2 ^ 32
  pub e_fits : s.e < 2 ^ 32
  pub bounded : ready_size s + line_size s ≤ input_buf

pub window-mod :
    (buf : ℕ → ℕ) (i j n : ℕ) → i % input_buf ≡ j % input_buf → window buf i n ≡ window buf j n
window-mod buf i j zero h = refl
window-mod buf i j (suc n) h = ap₂ ◌∷◌ (ap buf h) (window-mod buf (i + 1) (j + 1) n (omega arith))

pub window-append :
    (buf : ℕ → ℕ) (i m n : ℕ) → window buf i (m + n) ≡ window buf i m ++ window buf (i + m) n
window-append buf i zero n = ap₂ (window buf) (omega arith) (omega arith)
window-append buf i (suc m) n =
    let e : suc m + n ≡ suc (m + n) = omega arith in
    let k : i + 1 + m ≡ i + suc m = omega arith in
    ap (window buf i) e
    ∙ ap (λ t. buf (i % input_buf) ∷ t) (window-append buf (i + 1) m n)
    ∙ ap (λ x. buf (i % input_buf) ∷ window buf (i + 1) m ++ window buf x n) k

-- A write outside of a window leaves it alone.
pub window-update :
    (buf : ℕ → ℕ) (i n j k c : ℕ)
    → j % input_buf ≡ (i + n + k) % input_buf
    → n + k < input_buf
    → window (update buf (j % input_buf) c) i n ≡ window buf i n
window-update buf i zero j k c e h = refl
window-update buf i (suc n) j k c e h =
    ap₂ ◌∷◌ (update_ne buf (j % input_buf) (i % input_buf) c (omega arith))
      (window-update buf (i + 1) n j k c (omega arith) (omega arith))

-- A write right behind a window appends to it.
pub window-update_snoc :
    (buf : ℕ → ℕ) (i n j c : ℕ)
    → j % input_buf ≡ (i + n) % input_buf
    → n < input_buf
    → window (update buf (j % input_buf) c) i (n + 1) ≡ window buf i n ++ c ∷ []
window-update_snoc buf i n j c e h =
    window-append (update buf (j % input_buf) c) i n 1
    ∙ ap₂ (λ a b. a ++ b ∷ []) (window-update buf i n j 0 c (omega arith) (omega arith))
        (ap (update buf (j % input_buf) c) (sym e) ∙ update_self buf (j % input_buf) c)

-- Storing a character, when the buffer has room.
pub insert_char-IsInput :
    (s : Input) (c : ℕ) → IsInput s → uint_sub s.e s.r < input_buf → IsInput (insert_char s c)
insert_char-IsInput s c v h = omega arith

pub ready-insert_char :
    (s : Input) (c : ℕ)
    → IsInput s
    → uint_sub s.e s.r < input_buf
    → ready (insert_char s c) ≡ ready s
ready-insert_char s c v h =
    window-update s.buf s.r (ready_size s) s.e (line_size s) c (omega arith) (omega arith)

pub line-insert_char :
    (s : Input) (c : ℕ)
    → IsInput s
    → uint_sub s.e s.r < input_buf
    → line (insert_char s c) ≡ line s ++ c ∷ []
line-insert_char s c v h =
    let n : line_size (insert_char s c) ≡ line_size s + 1 = omega arith in
    ap (window (insert_char s c).buf s.w) n
    ∙ window-update_snoc s.buf s.w (line_size s) s.e c (omega arith) (omega arith)

-- Handing the line to the readers.
pub ready-finish_line : (s : Input) → IsInput s → ready (finish_line s) ≡ ready s ++ line s
ready-finish_line s v =
    let n : ready_size (finish_line s) ≡ ready_size s + line_size s = omega arith in
    ap (window s.buf s.r) n
    ∙ window-append s.buf s.r (ready_size s) (line_size s)
    ∙ ap (λ t. ready s ++ t) (window-mod s.buf (s.r + ready_size s) s.w (line_size s) (omega arith))

pub line-finish_line : (s : Input) → IsInput s → line (finish_line s) ≡ []
line-finish_line s v =
    let n : line_size (finish_line s) ≡ 0 = omega arith in ap (window s.buf s.e) n

-- Taking the last character back.
pub line-erase :
    (s : Input)
    → IsInput s
    → s.e ≢ s.w
    → line s ≡ line (erase s) ++ s.buf (uint_sub s.e 1 % input_buf) ∷ []
line-erase s v h =
    let n : line_size s ≡ line_size (erase s) + 1 = omega arith in
    let k : (s.w + line_size (erase s)) % input_buf ≡ uint_sub s.e 1 % input_buf = omega arith in
    ap (window s.buf s.w) n
    ∙ window-append s.buf s.w (line_size (erase s)) 1
    ∙ ap (λ x. line (erase s) ++ s.buf x ∷ []) k
