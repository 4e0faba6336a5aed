-- ===== src/Fs/Bitmap/Bits.antt =====
-- A bit of a byte that is set or cleared, and the others.
use assignment1_cs.Base.{
  ℕ, zero, suc, ◌+◌, ◌-◌, ◌/◌, ◌%◌, ◌^◌, ◌≤◌, ◌≡◌, ◌≢◌, refl, ap, ◌∙◌, true, false, arith,
}
use assignment1_cs.Fs.Bitmap.{bit}

pub bit-add : (x i : ℕ) → bit x i ≡ false → bit (x + 2 ^ i) i ≡ true
unfolding bit
bit-add x zero h = ground arith
bit-add x (suc i) h =
    let e : (x + 2 ^ suc i) / 2 ≡ x / 2 + 2 ^ i = omega arith in rw e (bit-add (x / 2) i h)

pub bit-add_ne : (x i j : ℕ) → bit x i ≡ false → i ≢ j → bit (x + 2 ^ i) j ≡ bit x j
unfolding bit
bit-add_ne x zero zero h n = absurd (n refl)
bit-add_ne x zero (suc j) h n =
    let odd : x % 2 ≢ 1 = ground arith in
    let e : (x + 1) / 2 ≡ x / 2 = omega (arith, odd) in ap (λ y. bit y j) e
bit-add_ne x (suc i) zero h n = let e : (x + 2 ^ suc i) % 2 ≡ x % 2 = omega arith in rw e refl
bit-add_ne x (suc i) (suc j) h n =
    let e : (x + 2 ^ suc i) / 2 ≡ x / 2 + 2 ^ i = omega arith in
    ap (λ y. bit y j) e ∙ bit-add_ne (x / 2) i j h (λ k. n (ap suc k))

bit-le : (x i : ℕ) → bit x i ≡ true → 2 ^ i ≤ x
unfolding bit
bit-le x zero h = ground arith
bit-le x (suc i) h = omega (arith, bit-le (x / 2) i h)

pub bit-sub : (x i : ℕ) → bit x i ≡ true → bit (x - 2 ^ i) i ≡ false
unfolding bit
bit-sub x zero h = ground arith
bit-sub x (suc i) h =
    let e : (x - 2 ^ suc i) / 2 ≡ x / 2 - 2 ^ i = omega arith in rw e (bit-sub (x / 2) i h)

pub bit-sub_ne : (x i j : ℕ) → bit x i ≡ true → i ≢ j → bit (x - 2 ^ i) j ≡ bit x j
unfolding bit
bit-sub_ne x zero zero h n = absurd (n refl)
bit-sub_ne x zero (suc j) h n =
    let odd : x % 2 ≡ 1 = ground arith in
    let e : (x - 1) / 2 ≡ x / 2 = omega (arith, odd) in ap (λ y. bit y j) e
bit-sub_ne x (suc i) zero h n =
    let e : (x - 2 ^ suc i) % 2 ≡ x % 2 = omega (arith, bit-le x (suc i) h) in rw e refl
bit-sub_ne x (suc i) (suc j) h n =
    let e : (x - 2 ^ suc i) / 2 ≡ x / 2 - 2 ^ i = omega arith in
    ap (λ y. bit y j) e ∙ bit-sub_ne (x / 2) i j h (λ k. n (ap suc k))
