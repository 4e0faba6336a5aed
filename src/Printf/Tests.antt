-- ===== src/Printf/Tests.antt =====
-- Runs of the printers: "%d|" and "%x" of a negative and a positive word.
use assignment1_cs.Base.{◌-◌, ◌^◌, ◌≡◌, List, [], ◌∷◌, ◌++◌, refl, arith, true, false}
use assignment1_cs.Printf.{
  upper_digits, lower_digits, printint, int_buf, digit_loop, print_back, atoi,
}
use assignment1_cs.Printf.Digits.{upper_digits-IsDecimal}
use assignment1_cs.Printf.Decimal.{atoi-printint}
use assignment1_cs.Printf.Render.{Piece, plain, decimal, hex, text, percent, unknown}

minus_42 : printint upper_digits (2 ^ 32 - 42) 10 true ≡ 45 ∷ 52 ∷ 50 ∷ []
unfolding printint int_buf digit_loop print_back upper_digits
minus_42 = refl

beef : printint lower_digits 0xbeef 16 false ≡ 98 ∷ 101 ∷ 101 ∷ 102 ∷ []
unfolding printint int_buf digit_loop print_back lower_digits
beef = refl

atoi-printint_example : atoi (printint upper_digits 2047 10 true ++ 32 ∷ []) ≡ 2047
atoi-printint_example =
    atoi-printint upper_digits 2047 true (32 ∷ []) upper_digits-IsDecimal (omega arith) refl

abbrev pieces : List Piece
pieces = decimal ∷ plain 124 ∷ percent ∷ hex ∷ text ∷ unknown 113 ∷ []
