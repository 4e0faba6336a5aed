-- ===== src/Strings/Pad.antt =====
-- `strncpy` and what is behind the string.
use assignment1_cs.Base.{
  ℕ, zero, suc, ◌+◌, ◌≤◌, ◌<◌, ◌≡◌, refl, sym, ap, ◌∙◌, Bool-cases, inl, inr, ◌==◌, ==→eq, arith,
  update, update_self, update_ne,
}
use assignment1_cs.Strings.{Memory, pad, strncpy}

pad_out : (n s : ℕ) (m : Memory) (a : ℕ) → a < s → pad s n m a ≡ m a
unfolding pad
pad_out zero s m a h = refl
pad_out (suc n) s m a h =
    pad_out n (s + 1) (update m s 0) a (omega (arith, h)) ∙ update_ne m s a 0 (omega (arith, h))

pad_in : (n s : ℕ) (m : Memory) (a : ℕ) → s ≤ a → a < s + n → pad s n m a ≡ 0
unfolding pad
pad_in zero s m a low high = absurd (omega (arith, low, high))
pad_in (suc n) s m a low high = elim (Bool-cases (s == a)) [
  | inl here ↦
      let e : s ≡ a = ==→eq s a here in
      pad_out n (s + 1) (update m s 0) a (omega (arith, e)) ∙ ground arith
  | inr there ↦ pad_in n (s + 1) (update m s 0) a (ground arith) (omega (arith, high))
]

strncpy_below : (n s t : ℕ) (m : Memory) (a : ℕ) → a < s → strncpy s t n m a ≡ m a
unfolding strncpy
strncpy_below zero s t m a h = refl
strncpy_below (suc n) s t m a h =
    let here : update m s (m t) a ≡ m a = update_ne m s a (m t) (omega (arith, h)) in
    elim (Bool-cases (m t == 0)) [
      | inl end ↦ rw end (pad_out n (s + 1) (update m s (m t)) a (omega (arith, h)) ∙ here)
      | inr more ↦
          rw more (strncpy_below n (s + 1) (t + 1) (update m s (m t)) a (omega (arith, h)) ∙ here)
    ]

-- `strncpy` of a string with zeros behind its end, to a destination before it, copies its bytes.
pub strncpy-Padded :
    (n s t : ℕ) (m : Memory)
    → s + n ≤ t
    → ((i j : ℕ) → i ≤ j → j < n → m (t + i) ≡ 0 → m (t + j) ≡ 0)
    → (j : ℕ) → j < n
    → strncpy s t n m (s + j) ≡ m (t + j)
unfolding strncpy
strncpy-Padded zero s t m apart padded j h = absurd (omega (arith, h))
strncpy-Padded (suc n) s t m apart padded zero h =
    let at : s + 0 ≡ s = omega arith in
    let from : t + 0 ≡ t = omega arith in
    rw (at, from)
      (elim (Bool-cases (m t == 0)) [
        | inl end ↦
            rw end (pad_out n (s + 1) (update m s (m t)) s (omega arith) ∙ update_self m s (m t))
        | inr more ↦ rw more (
            strncpy_below n (s + 1) (t + 1) (update m s (m t)) s (omega arith)
            ∙ update_self m s (m t))
      ])
strncpy-Padded (suc n) s t m apart padded (suc j) h =
    let at : s + suc j ≡ s + 1 + j = omega arith in
    let from : t + 1 + j ≡ t + suc j = omega arith in
    let source : (i : ℕ) → update m s (m t) (t + 1 + i) ≡ m (t + suc i) =
      λ i. update_ne m s (t + 1 + i) (m t) (omega (arith, apart)) ∙ ap m (omega arith) in
    elim (Bool-cases (m t == 0)) [
      | inl end ↦
          let z : m (t + suc j) ≡ 0 =
            padded 0 (suc j) (omega arith) h (ap m (omega arith) ∙ ==→eq (m t) 0 end) in
          rw (end, at)
            (pad_in n (s + 1) (update m s (m t)) (s + 1 + j) (omega arith) (omega (arith, h))
              ∙ sym z)
      | inr more ↦
          rw (more, at)
            (strncpy-Padded n (s + 1) (t + 1) (update m s (m t)) (omega (arith, apart))
                (λ i k l r z.
                  source k
                  ∙ padded (suc i) (suc k) (omega (arith, l)) (omega (arith, r))
                      (sym (source i) ∙ z))
                j (omega (arith, h))
              ∙ source j)
    ]
