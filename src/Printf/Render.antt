-- ===== src/Printf/Render.antt =====
-- What the two printers do with a format, piece by piece.
use assignment1_cs.Base.{
  ℕ, ◌+◌, ◌%◌, ◌^◌, ◌≡◌, ◌≢◌, refl, ap, ◌∙◌, Bool, true, false, List, [], ◌∷◌, ◌++◌, ◌⊎◌, inl, inr,
  if◌then◌else◌, ◌==◌, arith,
}
use assignment1_cs.Printf.{
  upper_digits, lower_digits, printint, Pointers, Stack, string_at, convert, printf_loop, printf,
  cconvert, cprintf_loop, cprintf,
}

-- A format is a sequence of characters and conversions.
pub data Piece : Type 0 where
  plain : ℕ → Piece
  decimal hex pointer text char percent : Piece
  unknown : ℕ → Piece

abbrev pub letter : Piece → ℕ
letter (plain c) = c
letter decimal = 100
letter hex = 120
letter pointer = 112
letter text = 115
letter char = 99
letter percent = 37
letter (unknown c) = c

abbrev pub source : Piece → List ℕ
source (plain c) = c ∷ []
source p = 37 ∷ letter p ∷ []

abbrev pub format : List Piece → List ℕ
format [] = []
format (p ∷ ps) = source p ++ format ps

-- A plain character is no `%`, an unknown conversion none of the others.
abbrev pub IsPiece : Piece → Type 0
IsPiece (plain c) = c ≢ 37
IsPiece (unknown c) = (c ≢ 100) × (c ≢ 120) × (c ≢ 112) × (c ≢ 115) × (c ≢ 99) × (c ≢ 37)
IsPiece _ = Unit

abbrev pub IsFormat : List Piece → Type 0
IsFormat [] = Unit
IsFormat (p ∷ ps) = IsPiece p × IsFormat ps

-- Whether a piece takes a word from the stack, if `%c` does.
abbrev pub takes : Bool → Piece → Bool
takes knows_char decimal = true
takes knows_char hex = true
takes knows_char pointer = true
takes knows_char text = true
takes knows_char char = knows_char
takes knows_char _ = false

-- What is printed for a piece and the next word of the stack.
abbrev pub output : List ℕ → Bool → Pointers → Piece → ℕ → List ℕ
output digits knows_char strings (plain c) w = c ∷ []
output digits knows_char strings decimal w = printint digits w 10 true
output digits knows_char strings hex w = printint digits w 16 false
output digits knows_char strings pointer w = printint digits w 16 false
output digits knows_char strings text w = string_at strings w
output digits true strings char w = w % 2 ^ 8 ∷ []
output digits false strings char w = 37 ∷ 99 ∷ []
output digits knows_char strings percent w = 37 ∷ []
output digits knows_char strings (unknown c) w = 37 ∷ c ∷ []

abbrev pub render : List ℕ → Bool → Pointers → Stack → List Piece → ℕ → List ℕ
render digits knows_char strings args [] k = []
render digits knows_char strings args (p ∷ ps) k =
    output digits knows_char strings p (args k)
    ++ render digits knows_char strings args ps (if takes knows_char p then k + 1 else k)

-- The conversions, behind their `%`.
abbrev IsConversion : Piece → Type 0
IsConversion (plain c) = ⊥
IsConversion p = Unit

convert-letter :
    (strings : Pointers) (p : Piece) (w : ℕ)
    → IsPiece p
    → IsConversion p
    → convert strings (letter p) w ≡ (output upper_digits true strings p w, takes true p)
unfolding convert
convert-letter strings (plain c) w ok conv = absurd conv
convert-letter strings (unknown c) w ok conv = ground arith
convert-letter strings decimal w ok conv = refl
convert-letter strings hex w ok conv = refl
convert-letter strings pointer w ok conv = refl
convert-letter strings text w ok conv = refl
convert-letter strings char w ok conv = refl
convert-letter strings percent w ok conv = refl

source-conversion : (p : Piece) → IsConversion p → source p ≡ 37 ∷ letter p ∷ []
source-conversion (plain c) conv = absurd conv
source-conversion decimal conv = refl
source-conversion hex conv = refl
source-conversion pointer conv = refl
source-conversion text conv = refl
source-conversion char conv = refl
source-conversion percent conv = refl
source-conversion (unknown c) conv = refl

Piece-cases : (p : Piece) → ((c : ℕ) × (p ≡ plain c)) ⊎ IsConversion p
Piece-cases (plain c) = inl (c, refl)
Piece-cases decimal = inr tt
Piece-cases hex = inr tt
Piece-cases pointer = inr tt
Piece-cases text = inr tt
Piece-cases char = inr tt
Piece-cases percent = inr tt
Piece-cases (unknown c) = inr tt

module _ (strings : Pointers) (args : Stack) where
  printf_loop-plain :
      (c : ℕ) (fmt : List ℕ) (k : ℕ)
      → c ≢ 37
      → printf_loop strings args (c ∷ fmt) false k ≡ c ∷ printf_loop strings args fmt false k
  unfolding printf_loop
  printf_loop-plain c fmt k ne = let other : (c == 37) ≡ false = ground arith in rw other

  printf_loop-conversion :
      (p : Piece) (fmt : List ℕ) (k : ℕ)
      → IsPiece p
      → IsConversion p
      → printf_loop strings args (37 ∷ letter p ∷ fmt) false k
        ≡ output upper_digits true strings p (args k)
          ++ printf_loop strings args fmt false (if takes true p then k + 1 else k)
  unfolding printf_loop
  printf_loop-conversion p fmt k ok conv = rw (convert-letter strings p (args k) ok conv)

  printf_loop-nil : (k : ℕ) → printf_loop strings args [] false k ≡ []
  unfolding printf_loop
  printf_loop-nil k = refl

  printf_loop-render :
      (ps : List Piece) (k : ℕ)
      → IsFormat ps
      → printf_loop strings args (format ps) false k ≡ render upper_digits true strings args ps k
  printf_loop-render [] k ok = printf_loop-nil k
  printf_loop-render (p ∷ ps) k ok =
      let next = if takes true p then k + 1 else k in
      elim (Piece-cases p) [
        | inl (c, e) ↦ rw e (
            printf_loop-plain c (format ps) k (rw e at ok.0)
            ∙ ap (λ r. c ∷ r) (printf_loop-render ps k ok.1))
        | inr conv ↦
            ap (λ s. printf_loop strings args (s ++ format ps) false k) (source-conversion p conv)
            ∙ printf_loop-conversion p (format ps) k ok.0 conv
            ∙ ap (λ r. output upper_digits true strings p (args k) ++ r)
                (printf_loop-render ps next ok.1)
      ]

cconvert-letter :
    (strings : Pointers) (p : Piece) (w : ℕ)
    → IsPiece p
    → IsConversion p
    → cconvert strings (letter p) w ≡ (output lower_digits false strings p w, takes false p)
unfolding cconvert
cconvert-letter strings (plain c) w ok conv = absurd conv
cconvert-letter strings (unknown c) w ok conv = ground arith
cconvert-letter strings decimal w ok conv = refl
cconvert-letter strings hex w ok conv = refl
cconvert-letter strings pointer w ok conv = refl
cconvert-letter strings text w ok conv = refl
cconvert-letter strings char w ok conv = refl
cconvert-letter strings percent w ok conv = refl

module _ (strings : Pointers) (args : Stack) where
  cprintf_loop-plain :
      (c : ℕ) (fmt : List ℕ) (k : ℕ)
      → c ≢ 37
      → cprintf_loop strings args (c ∷ fmt) k ≡ c ∷ cprintf_loop strings args fmt k
  unfolding cprintf_loop
  cprintf_loop-plain c [] k ne = let other : (c == 37) ≡ false = ground arith in rw other
  cprintf_loop-plain c (d ∷ fmt) k ne = let other : (c == 37) ≡ false = ground arith in rw other

  cprintf_loop-conversion :
      (p : Piece) (fmt : List ℕ) (k : ℕ)
      → IsPiece p
      → IsConversion p
      → cprintf_loop strings args (37 ∷ letter p ∷ fmt) k
        ≡ output lower_digits false strings p (args k)
          ++ cprintf_loop strings args fmt (if takes false p then k + 1 else k)
  unfolding cprintf_loop
  cprintf_loop-conversion p fmt k ok conv = rw (cconvert-letter strings p (args k) ok conv)

  cprintf_loop-nil : (k : ℕ) → cprintf_loop strings args [] k ≡ []
  unfolding cprintf_loop
  cprintf_loop-nil k = refl

  cprintf_loop-render :
      (ps : List Piece) (k : ℕ)
      → IsFormat ps
      → cprintf_loop strings args (format ps) k ≡ render lower_digits false strings args ps k
  cprintf_loop-render [] k ok = cprintf_loop-nil k
  cprintf_loop-render (p ∷ ps) k ok =
      let next = if takes false p then k + 1 else k in
      elim (Piece-cases p) [
        | inl (c, e) ↦ rw e (
            cprintf_loop-plain c (format ps) k (rw e at ok.0)
            ∙ ap (λ r. c ∷ r) (cprintf_loop-render ps k ok.1))
        | inr conv ↦
            ap (λ s. cprintf_loop strings args (s ++ format ps) k) (source-conversion p conv)
            ∙ cprintf_loop-conversion p (format ps) k ok.0 conv
            ∙ ap (λ r. output lower_digits false strings p (args k) ++ r)
                (cprintf_loop-render ps next ok.1)
      ]

-- `printf` of a format made of plain characters and conversions prints what each piece stands for
-- in turn, with the words of the stack taken in order by the conversions that use one.
pub printf-render :
    (strings : Pointers) (args : Stack) (ps : List Piece)
    → IsFormat ps
    → printf strings (format ps) args ≡ render upper_digits true strings args ps 0
unfolding printf
printf-render strings args ps ok = printf_loop-render strings args ps 0 ok

-- `cprintf` of a format made of plain characters and conversions prints what each piece stands for
-- in turn, with the words of the stack taken in order, `%c` being unknown to it.
pub cprintf-render :
    (strings : Pointers) (args : Stack) (ps : List Piece)
    → IsFormat ps
    → cprintf strings (format ps) args ≡ render lower_digits false strings args ps 0
unfolding cprintf
cprintf-render strings args ps ok = cprintf_loop-render strings args ps 0 ok
