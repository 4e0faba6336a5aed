-- ===== src/Printf/Digits.antt =====
-- The digits of `printint`: what they are worth, and how many there are.
use assignment1_cs.Base.{
  ℕ, zero, suc, ◌+◌, ◌-◌, ◌*◌, ◌/◌, ◌^◌, ◌≤◌, ◌<◌, ◌≡◌, ◌⊎◌, inl, inr, refl, Bool, true, ◌&&◌,
  Bool-cases, List, [], ◌∷◌, length, length-append, ◌==◌, get_or, arith,
}
use assignment1_cs.Printf.{upper_digits, digit_loop, is_negative, magnitude, int_buf}

-- The first ten digits are the decimal ones.
abbrev pub IsDecimal : List ℕ → Type 0
IsDecimal digits = (d : ℕ) → d < 10 → get_or digits d 0 ≡ 48 + d

pub upper_digits-IsDecimal : IsDecimal upper_digits
unfolding upper_digits
upper_digits-IsDecimal zero h = refl
upper_digits-IsDecimal (suc zero) h = refl
upper_digits-IsDecimal (suc (suc zero)) h = refl
upper_digits-IsDecimal (suc (suc (suc zero))) h = refl
upper_digits-IsDecimal (suc (suc (suc (suc zero)))) h = refl
upper_digits-IsDecimal (suc (suc (suc (suc (suc zero))))) h = refl
upper_digits-IsDecimal (suc (suc (suc (suc (suc (suc zero)))))) h = refl
upper_digits-IsDecimal (suc (suc (suc (suc (suc (suc (suc zero))))))) h = refl
upper_digits-IsDecimal (suc (suc (suc (suc (suc (suc (suc (suc zero)))))))) h = refl
upper_digits-IsDecimal (suc (suc (suc (suc (suc (suc (suc (suc (suc zero))))))))) h = refl
upper_digits-IsDecimal (suc (suc (suc (suc (suc (suc (suc (suc (suc (suc d)))))))))) h =
    absurd (omega (arith, h))

abbrev pub pow10 : ℕ → ℕ
pow10 zero = 1
pow10 (suc n) = 10 * pow10 n

divided : (k base x : ℕ) → (base ≡ 10) ⊎ (base ≡ 16) → x < pow10 (suc k) → x / base < pow10 k
divided k base x (inl ten) h = rw ten (omega (arith, h))
divided k base x (inr sixteen) h = rw sixteen (omega (arith, h))

pub length-digit_loop :
    (k fuel : ℕ) (digits : List ℕ) (base x : ℕ)
    → (base ≡ 10) ⊎ (base ≡ 16)
    → x < pow10 (suc k)
    → length (digit_loop fuel digits base x) ≤ suc k
unfolding digit_loop
length-digit_loop k zero digits base x b h = omega arith
length-digit_loop zero (suc fuel) digits base x b h =
    let none_left : (x / base == 0) ≡ true = ground (arith, divided 0 base x b h) in
    rw none_left (omega arith)
length-digit_loop (suc k) (suc fuel) digits base x b h = elim (Bool-cases (x / base == 0)) [
  | inl last ↦ rw last (omega arith)
  | inr more ↦ rw more (
      omega (arith, length-digit_loop k fuel digits base (x / base) b (divided (suc k) base x b h)))
]

-- In base 10 or 16, `printint` of a 32-bit word puts at most 11 characters into its buffer of 16.
pub int_buf_fits :
    (digits : List ℕ) (xx base : ℕ) (sgn : Bool)
    → (base ≡ 10) ⊎ (base ≡ 16)
    → xx < 2 ^ 32
    → length (int_buf digits xx base sgn) ≤ 11
unfolding int_buf
int_buf_fits digits xx base sgn b h =
    let body : length (digit_loop 32 digits base (magnitude xx sgn)) ≤ 10 =
      length-digit_loop 9 32 digits base (magnitude xx sgn) b (ground (arith, h)) in
    elim (Bool-cases (sgn && is_negative xx)) [
      | inl minus ↦ rw minus (
          omega (
            arith,
            length-append (digit_loop 32 digits base (2 ^ 32 - xx)) (45 ∷ []),
            rw minus at body,
          ))
      | inr plus ↦
          rw plus (omega (arith, length-append (digit_loop 32 digits base xx) [], rw plus at body))
    ]
