-- ===== src/Printf/Decimal.antt =====
-- `atoi` on what `printint` prints.
use assignment1_cs.Base.{
  ℕ, zero, suc, ◌+◌, ◌-◌, ◌*◌, ◌/◌, ◌%◌, ◌^◌, ◌<◌, ◌≡◌, refl, sym, ap, ◌∙◌, Bool, true, false, ◌&&◌,
  Bool-cases, inl, inr, List, [], ◌∷◌, ◌++◌, append-nil, ==→eq, ◌==◌, get_or, arith,
}
use assignment1_cs.Printf.{
  digit_loop, print_back, is_negative, int_buf, printint, is_digit, atoi_loop, atoi,
}
use assignment1_cs.Printf.Digits.{IsDecimal, pow10}

print_back-append : (buf out tl : List ℕ) → print_back buf out ++ tl ≡ print_back buf (out ++ tl)
unfolding print_back
print_back-append [] out tl = refl
print_back-append (c ∷ buf) out tl = print_back-append buf (c ∷ out) tl

-- The text does not go on with a digit.
abbrev pub Stops : List ℕ → Type 0
Stops [] = Unit
Stops (c ∷ s) = is_digit c ≡ false

-- One more decimal digit.
atoi_digit :
    (digits : List ℕ) (x : ℕ) (tl : List ℕ)
    → IsDecimal digits
    → x < 2 ^ 31
    → atoi_loop (x / 10) (get_or digits (x % 10) 0 ∷ tl) ≡ atoi_loop x tl
unfolding atoi_loop
atoi_digit digits x tl dec small =
    let value : get_or digits (x % 10) 0 ≡ 48 + x % 10 = dec (x % 10) (omega arith) in
    let decimal : is_digit (48 + x % 10) ≡ true = ground arith in
    let total : (x / 10 * 10 + (48 + x % 10) - 48) % 2 ^ 32 ≡ x = omega (arith, small) in
    rw (value, decimal, total) refl

atoi_last :
    (digits : List ℕ) (x : ℕ) (tl : List ℕ)
    → IsDecimal digits
    → x < 2 ^ 31
    → (x / 10 == 0) ≡ true
    → atoi_loop 0 (get_or digits (x % 10) 0 ∷ tl) ≡ atoi_loop x tl
atoi_last digits x tl dec small last =
    ap (λ n. atoi_loop n (get_or digits (x % 10) 0 ∷ tl)) (sym (==→eq (x / 10) 0 last))
    ∙ atoi_digit digits x tl dec small

-- The digits come out of the buffer from the last to the first.
atoi_back :
    (fuel : ℕ) (digits : List ℕ) (x : ℕ) (tl : List ℕ)
    → IsDecimal digits
    → x < 2 ^ 31
    → x < pow10 (suc fuel)
    → atoi_loop 0 (print_back (digit_loop (suc fuel) digits 10 x) tl) ≡ atoi_loop x tl
unfolding digit_loop print_back
atoi_back zero digits x tl dec small enough =
    let last : (x / 10 == 0) ≡ true = ground arith in rw last (atoi_last digits x tl dec small last)
atoi_back (suc fuel) digits x tl dec small enough = elim (Bool-cases (x / 10 == 0)) [
  | inl last ↦ rw last (atoi_last digits x tl dec small last)
  | inr more ↦ rw more (
      atoi_back fuel digits (x / 10) (get_or digits (x % 10) 0 ∷ tl) dec (omega (arith, small))
        (omega (arith, enough))
      ∙ atoi_digit digits x tl dec small)
]

stopped : (x : ℕ) (tl : List ℕ) → Stops tl → atoi_loop x tl ≡ x
unfolding atoi_loop
stopped x [] stops = refl
stopped x (c ∷ tl) stops = rw stops

-- `atoi` of the decimal digits that `printint` prints for a number below 2 ^ 31, followed by text
-- that does not begin with a digit, is the number.
pub atoi-printint :
    (digits : List ℕ) (x : ℕ) (sgn : Bool) (tl : List ℕ)
    → IsDecimal digits
    → x < 2 ^ 31
    → Stops tl
    → atoi (printint digits x 10 sgn ++ tl) ≡ x
unfolding atoi printint int_buf
atoi-printint digits x sgn tl dec small stops =
    let plus : (sgn && is_negative x) ≡ false = ground arith in
    let whole : printint digits x 10 sgn ++ tl ≡ print_back (digit_loop 32 digits 10 x) tl =
      rw plus (
        print_back-append (digit_loop 32 digits 10 x ++ []) [] tl
        ∙ ap (λ b. print_back b tl) (append-nil (digit_loop 32 digits 10 x))) in
    ap (atoi_loop 0) whole
    ∙ atoi_back 31 digits x tl dec small (omega (arith, small))
    ∙ stopped x tl stops
