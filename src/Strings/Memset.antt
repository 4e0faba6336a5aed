-- ===== src/Strings/Memset.antt =====
-- `memset` by words and by bytes.
use assignment1_cs.Base.{
  ℕ, zero, suc, ◌+◌, ◌*◌, ◌/◌, ◌%◌, ◌^◌, ◌≤◌, ◌<◌, ◌≡◌, ◌⊎◌, inl, inr, refl, ◌∙◌, Bool-cases, ◌&&◌,
  ◌==◌, ltb, ltb→lt, subst, arith, update,
}
use assignment1_cs.Strings.{Memory, stosb, stosl, store_word, memset}

-- In `m'` the `n` bytes from `dst` on are `b`, and all others are as in `m`.
pub record Filled (m m' : Memory) (dst n b : ℕ) : Type 0 where
  pub inside : (a : ℕ) → dst ≤ a → a < dst + n → m' a ≡ b
  pub outside : (a : ℕ) → (a < dst) ⊎ (dst + n ≤ a) → m' a ≡ m a

stosb-Filled : (n a c : ℕ) (m : Memory) → Filled m (stosb n a c m) a n (c % 2 ^ 8)
unfolding stosb
stosb-Filled zero a c m = record {
  inside = λ x low high. absurd (omega (arith, low, high));
  outside = λ x h. refl;
}
stosb-Filled (suc n) a c m =
    let rest = stosb-Filled n (a + 1) c (update m a (c % 2 ^ 8)) in
    record {
      inside = λ x low high. elim (Bool-cases (a == x)) [
        | inl here ↦ rest.outside x (ground arith) ∙ ground arith
        | inr there ↦ rest.inside x (ground arith) (omega (arith, high))
      ];
      outside = λ x h. rest.outside x (ground arith) ∙ ground arith;
    }

abbrev pub repeated : ℕ → ℕ
repeated b = b * 2 ^ 24 + b * 2 ^ 16 + b * 2 ^ 8 + b

store_word-repeated :
    (m : Memory) (a b : ℕ) → b < 2 ^ 8 → Filled m (store_word m a (repeated b)) a 4 b
store_word-repeated m a b small =
    let d0 : repeated b % 256 ≡ b = omega arith in
    let d1 : repeated b / 256 % 256 ≡ b = omega arith in
    let d2 : repeated b / 65536 % 256 ≡ b = omega arith in
    let d3 : repeated b / 16777216 % 256 ≡ b = omega arith in
    record {
      inside = λ x low high. rw (d0, d1, d2, d3) (ground arith);
      outside = λ x h. ground arith;
    }

stosl-Filled :
    (n a b : ℕ) (m : Memory) → b < 2 ^ 8 → Filled m (stosl n a (repeated b) m) a (n * 4) b
unfolding stosl
stosl-Filled zero a b m small = record {
  inside = λ x low high. absurd (omega (arith, low, high));
  outside = λ x h. refl;
}
stosl-Filled (suc n) a b m small =
    let first = store_word-repeated m a b small in
    let rest = stosl-Filled n (a + 4) b (store_word m a (repeated b)) small in
    record {
      inside = λ x low high. elim (Bool-cases (ltb x (a + 4))) [
        | inl here ↦
            rest.outside x (inl (ltb→lt x (a + 4) here))
            ∙ first.inside x low (ltb→lt x (a + 4) here)
        | inr there ↦ rest.inside x (ground arith) (omega (arith, high))
      ];
      outside = λ x h. rest.outside x (ground arith) ∙ first.outside x (ground arith);
    }

-- After `memset` the `n` bytes from `dst` on are the low byte of `c`, and all others are as before.
pub memset-Filled : (dst c n : ℕ) (m : Memory) → Filled m (memset dst c n m) dst n (c % 2 ^ 8)
unfolding memset
memset-Filled dst c n m = elim (Bool-cases ((dst % 4 == 0) && (n % 4 == 0))) [
  | inl words ↦
      let whole : n / 4 * 4 ≡ n = ground arith in
      rw words (
        subst (λ k. Filled m (stosl (n / 4) dst (repeated (c % 2 ^ 8)) m) dst k (c % 2 ^ 8)) whole
          (stosl-Filled (n / 4) dst (c % 2 ^ 8) m (omega arith)))
  | inr bytes ↦ rw bytes (stosb-Filled n dst c m)
]
