-- ===== src/Strings/Compare.antt =====
-- `memcmp` and `strncmp` on equal bytes and equal strings.
use assignment1_cs.Base.{
  ℕ, zero, suc, ◌+◌, ◌^◌, ◌<◌, ◌≡◌, ◌⊎◌, ◌↔◌, inl, inr, refl, ap, ◌∙◌, Bool-cases, ◌==◌, arith,
  ==→eq, ==→ne,
}
use assignment1_cs.Strings.{Memory, difference, memcmp, strncmp}

-- Memory holds bytes.
abbrev pub IsBytes : Memory → Type 0
IsBytes m = (a : ℕ) → m a < 2 ^ 8

difference_zero : (a b : ℕ) → a < 2 ^ 8 → b < 2 ^ 8 → difference a b ≡ 0 → a ≡ b
difference_zero a b ha hb h = omega arith

-- The strings agree up to the first zero, and up to `n` bytes.
abbrev pub SameString : ℕ → ℕ → ℕ → Memory → Type 0
SameString p q zero m = Unit
SameString p q (suc n) m = (m p ≡ m q) × ((m p ≡ 0) ⊎ SameString (p + 1) (q + 1) n m)

-- `memcmp` of bytes gives 0 exactly where the two ranges hold the same bytes.
pub memcmp_iff :
    (v1 v2 n : ℕ) (m : Memory)
    → IsBytes m
    → (memcmp v1 v2 n m ≡ 0) ↔ ((j : ℕ) → j < n → m (v1 + j) ≡ m (v2 + j))
unfolding memcmp
memcmp_iff v1 v2 zero m bytes = ((λ e j h. absurd (omega (arith, h))), λ same. refl)
memcmp_iff v1 v2 (suc n) m bytes =
    let rest = memcmp_iff (v1 + 1) (v2 + 1) n m bytes in
    elim (Bool-cases (m v1 == m v2)) [
      | inl same ↦ rw same (
        (λ e j h. from_head (==→eq (m v1) (m v2) same) (rest.0 e) j h),
        (λ all. rest.1 (λ j h. to_tail all j h)),
      )
      | inr differ ↦ rw differ (
        (λ e.
            absurd
              (==→ne (m v1) (m v2) differ (difference_zero (m v1) (m v2) (bytes v1) (bytes v2) e))),
        (λ all. absurd (==→ne (m v1) (m v2) differ (head all))),
      )
    ]
  where
    head : ((j : ℕ) → j < suc n → m (v1 + j) ≡ m (v2 + j)) → m v1 ≡ m v2
    head all = ap m (omega arith) ∙ all 0 (omega arith) ∙ ap m (omega arith)

    to_tail :
        ((j : ℕ) → j < suc n → m (v1 + j) ≡ m (v2 + j))
        → (j : ℕ) → j < n
        → m (v1 + 1 + j) ≡ m (v2 + 1 + j)
    to_tail all j h = ap m (omega arith) ∙ all (suc j) (omega (arith, h)) ∙ ap m (omega arith)

    from_head :
        m v1 ≡ m v2
        → ((j : ℕ) → j < n → m (v1 + 1 + j) ≡ m (v2 + 1 + j))
        → (j : ℕ) → j < suc n
        → m (v1 + j) ≡ m (v2 + j)
    from_head first others zero h = ap m (omega arith) ∙ first ∙ ap m (omega arith)
    from_head first others (suc j) h =
        ap m (omega arith) ∙ others j (omega (arith, h)) ∙ ap m (omega arith)

-- On a memory of bytes, `strncmp` returns 0 exactly if the two strings agree up to their first
-- zero or up to `n` bytes, whichever comes first.
pub strncmp_iff : (p q n : ℕ) (m : Memory) → IsBytes m → (strncmp p q n m ≡ 0) ↔ SameString p q n m
unfolding strncmp
strncmp_iff p q zero m bytes = ((λ e. tt), λ same. refl)
strncmp_iff p q (suc n) m bytes =
    let rest = strncmp_iff (p + 1) (q + 1) n m bytes in
    elim (Bool-cases (m p == 0)) [
      | inl end ↦ rw end (
        (λ e. (difference_zero (m p) (m q) (bytes p) (bytes q) e, inl (==→eq (m p) 0 end))),
        (λ same. omega (arith, same.0, bytes p)),
      )
      | inr more ↦ elim (Bool-cases (m p == m q)) [
        | inl same ↦
            rw (more, same)
              (
                (λ e. (==→eq (m p) (m q) same, inr (rest.0 e))),
                (λ both. elim both.1 [
                  | inl end ↦ absurd (==→ne (m p) 0 more end)
                  | inr others ↦ rest.1 others
                ]),
              )
        | inr differ ↦
            rw (more, differ)
              (
                (λ e.
                    absurd (
                      ==→ne (m p) (m q) differ
                        (difference_zero (m p) (m q) (bytes p) (bytes q) e))),
                (λ both. absurd (==→ne (m p) (m q) differ both.0)),
              )
      ]
    ]
