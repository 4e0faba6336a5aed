-- ===== src/Printf.antt =====
-- printf.c, the printing half of console.c, and `atoi` of ulib.c. Output is the list of the
-- characters that go to the file or the screen.
pub mod Digits
pub mod Decimal
pub mod Render
mod Tests
use assignment1_cs.Base.{
  ℕ, zero, suc, ◌+◌, ◌-◌, ◌*◌, ◌/◌, ◌%◌, ◌^◌, Bool, true, false, ◌&&◌, ◌||◌, List, [], ◌∷◌, ◌++◌,
  if◌then◌else◌, ◌==◌, leb, ltb, get_or,
}

-- `digits` of printf.c and of console.c.
pub upper_digits : List ℕ
upper_digits = 48 ∷ 49 ∷ 50 ∷ 51 ∷ 52 ∷ 53 ∷ 54 ∷ 55 ∷ 56 ∷ 57 ∷ 65 ∷ 66 ∷ 67 ∷ 68 ∷ 69 ∷ 70 ∷ []

pub lower_digits : List ℕ
lower_digits = 48 ∷ 49 ∷ 50 ∷ 51 ∷ 52 ∷ 53 ∷ 54 ∷ 55 ∷ 56 ∷ 57 ∷ 97 ∷ 98 ∷ 99 ∷ 100 ∷ 101 ∷ 102 ∷ []

-- The first loop of `printint`, for at most `fuel` rounds: the digits in `buf`.
pub digit_loop : ℕ → List ℕ → ℕ → ℕ → List ℕ
digit_loop zero digits base x = []
digit_loop (suc fuel) digits base x =
    let rest = digit_loop fuel digits base (x / base) in
    get_or digits (x % base) 0 ∷ (if x / base == 0 then [] else rest)

-- The last loop of `printint`: `buf` backwards, and then what is printed later.
pub print_back : List ℕ → List ℕ → List ℕ
print_back [] out = out
print_back (c ∷ buf) out = print_back buf (c ∷ out)

-- `xx` is an `int`, negative from 2 ^ 31 on. A word has at most 32 digits.
abbrev pub is_negative : ℕ → Bool
is_negative xx = leb (2 ^ 31) xx

abbrev pub magnitude : ℕ → Bool → ℕ
magnitude xx sgn = if sgn && is_negative xx then 2 ^ 32 - xx else xx

-- `buf` after the sign has been put behind the digits.
pub int_buf : List ℕ → ℕ → ℕ → Bool → List ℕ
int_buf digits xx base sgn =
    digit_loop 32 digits base (magnitude xx sgn) ++ (if sgn && is_negative xx then 45 ∷ [] else [])

pub printint : List ℕ → ℕ → ℕ → Bool → List ℕ
printint digits xx base sgn = print_back (int_buf digits xx base sgn) []

abbrev pub is_digit : ℕ → Bool
is_digit c = leb 48 c && leb c 57

-- The loop of `atoi`, on an `int` that wraps.
pub atoi_loop : ℕ → List ℕ → ℕ
atoi_loop n [] = n
atoi_loop n (c ∷ s) = if is_digit c then atoi_loop ((n * 10 + c - 48) % 2 ^ 32) s else n

pub atoi : List ℕ → ℕ
atoi s = atoi_loop 0 s

-- The strings that pointers stand for; 0 is the null pointer.
abbrev pub Pointers : Type 0
Pointers = ℕ → List ℕ

abbrev pub null_text : List ℕ
null_text = 40 ∷ 110 ∷ 117 ∷ 108 ∷ 108 ∷ 41 ∷ []

abbrev pub string_at : Pointers → ℕ → List ℕ
string_at text p = if p == 0 then null_text else text p

-- The words on the stack behind the format.
abbrev pub Stack : Type 0
Stack = ℕ → ℕ

-- The characters that `printf` prints for `%c`, and whether it took a word for them.
pub convert : Pointers → ℕ → ℕ → List ℕ × Bool
convert text c w =
    if c == 100
    then (printint upper_digits w 10 true, true)
    else (if (c == 120) || (c == 112)
        then (printint upper_digits w 16 false, true)
        else (if c == 115
            then (string_at text w, true)
            else (if c == 99
                then (w % 2 ^ 8 ∷ [], true)
                else (if c == 37 then (c ∷ [], false) else (37 ∷ c ∷ [], false)))))

-- `state` is true behind a `%`; `ap` is the index of the next word.
pub printf_loop : Pointers → Stack → List ℕ → Bool → ℕ → List ℕ
printf_loop text args [] state ap = []
printf_loop text args (c ∷ fmt) true ap =
    let (out, took) = convert text c (args ap) in
    out ++ printf_loop text args fmt false (if took then ap + 1 else ap)
printf_loop text args (c ∷ fmt) false ap =
    let escape = printf_loop text args fmt true ap in
    let plain = c ∷ printf_loop text args fmt false ap in if c == 37 then escape else plain

pub printf : Pointers → List ℕ → Stack → List ℕ
printf text fmt args = printf_loop text args fmt false 0

-- The `switch` of `cprintf`.
pub cconvert : Pointers → ℕ → ℕ → List ℕ × Bool
cconvert text c w =
    if c == 100
    then (printint lower_digits w 10 true, true)
    else (if (c == 120) || (c == 112)
        then (printint lower_digits w 16 false, true)
        else (if c == 115
            then (string_at text w, true)
            else (if c == 37 then (37 ∷ [], false) else (37 ∷ c ∷ [], false))))

-- The loop of `cprintf`.
pub cprintf_loop : Pointers → Stack → List ℕ → ℕ → List ℕ
cprintf_loop text args [] argp = []
cprintf_loop text args (c ∷ []) argp = if c == 37 then [] else c ∷ []
cprintf_loop text args (c ∷ d ∷ fmt) argp =
    let (out, took) = cconvert text d (args argp) in
    let plain = c ∷ cprintf_loop text args (d ∷ fmt) argp in
    let converted = out ++ cprintf_loop text args fmt (if took then argp + 1 else argp) in
    if c == 37 then converted else plain

pub cprintf : Pointers → List ℕ → Stack → List ℕ
cprintf text fmt args = cprintf_loop text args fmt 0
