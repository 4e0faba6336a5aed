-- ===== src/Strings/Copy.antt =====
-- `safestrcpy` and the end of its string.
use assignment1_cs.Base.{
  ℕ, zero, suc, ◌+◌, ◌≤◌, ◌<◌, ◌≡◌, ◌≢◌, ◌⊎◌, inl, inr, refl, sym, ap, ◌∙◌, Bool-cases, ◌==◌, ==→eq,
  ==→ne, arith, update, update_self, update_ne,
}
use assignment1_cs.Strings.{Memory, safe_loop, safestrcpy}

-- In `m'` the `k` bytes at `s` are those at `t` in `m`, none of them zero.
abbrev pub Prefix : Memory → Memory → ℕ → ℕ → ℕ → Type 0
Prefix m m' s t k = (j : ℕ) → j < k → (m' (s + j) ≡ m (t + j)) × (m (t + j) ≢ 0)

-- What `safestrcpy` leaves: a string of `k` bytes with its zero, cut off after `n` bytes.
pub record Terminated (m m' : Memory) (s t n : ℕ) : Type 0 where
  pub size : ℕ
  pub fits : size ≤ n
  pub taken : Prefix m m' s t size
  pub ends : m' (s + size) ≡ 0
  pub complete : (size ≡ n) ⊎ (m (t + size) ≡ 0)
  pub outside : (a : ℕ) → (a < s) ⊎ (s + suc n ≤ a) → m' a ≡ m a

Terminated-first :
    (m m' : Memory) (s t n : ℕ)
    → (s + suc (suc n) ≤ t) ⊎ (t + suc n ≤ s)
    → m t ≢ 0
    → Terminated (update m s (m t)) m' (s + 1) (t + 1) n
    → Terminated m m' s t (suc n)
Terminated-first m m' s t n apart more r = record {
  size = suc r.size;
  fits = omega arith;
  taken = taken;
  ends = ap m' (omega arith) ∙ r.ends;
  complete = complete r.complete;
  outside = λ a h. r.outside a (ground arith) ∙ update_ne m s a (m t) (ground arith);
}
  where
    source : (j : ℕ) → j < n → update m s (m t) (t + 1 + j) ≡ m (t + suc j)
    source j h = update_ne m s (t + 1 + j) (m t) (ground arith) ∙ ap m (omega arith)

    taken : Prefix m m' s t (suc r.size)
    taken zero h = (
      ap m' (omega arith)
          ∙ r.outside s (inl (omega arith))
          ∙ update_self m s (m t)
          ∙ ap m (omega arith),
      (λ e. more (ap m (omega arith) ∙ e)),
    )
    taken (suc j) h =
        let (same, nonzero) = r.taken j (omega (arith, h)) in
        let here = source j (omega (arith, h, r.fits)) in
        (ap m' (omega arith) ∙ same ∙ here, (λ e. nonzero (here ∙ e)))

    complete :
        (r.size ≡ n) ⊎ (update m s (m t) (t + 1 + r.size) ≡ 0)
        → (suc r.size ≡ suc n) ⊎ (m (t + suc r.size) ≡ 0)
    complete (inl full) = inl (ap suc full)
    complete (inr zero_here) = elim (Bool-cases (r.size == n)) [
      | inl full ↦ inl (ap suc (==→eq r.size n full))
      | inr short ↦
          inr (sym (source r.size (omega (arith, r.fits, ==→ne r.size n short))) ∙ zero_here)
    ]

safe_loop-Terminated :
    (n s t : ℕ) (m : Memory)
    → (s + suc n ≤ t) ⊎ (t + n ≤ s)
    → Terminated m (safe_loop s t n m) s t n
unfolding safe_loop
safe_loop-Terminated zero s t m apart = record {
  size = 0;
  fits = omega arith;
  taken = λ j h. absurd (omega (arith, h));
  ends = ground arith;
  complete = inl refl;
  outside = λ a h. ground arith;
}
safe_loop-Terminated (suc n) s t m apart = elim (Bool-cases (m t == 0)) [
  | inl end ↦ rw end (record {
    size = 0;
    fits = omega arith;
    taken = λ j h. absurd (omega (arith, h));
    ends =
        ap (update (update m s (m t)) (s + 1) 0) (omega arith)
        ∙ update_ne (update m s (m t)) (s + 1) s 0 (omega arith)
        ∙ update_self m s (m t)
        ∙ ==→eq (m t) 0 end;
    complete = inr (ap m (omega arith) ∙ ==→eq (m t) 0 end);
    outside = λ a h. ground arith;
  })
  | inr more ↦ rw more (
      Terminated-first m _ s t n apart (==→ne (m t) 0 more)
        (safe_loop-Terminated n (s + 1) (t + 1) (update m s (m t)) (ground arith)))
]

-- `safestrcpy` to a destination of `n + 1` bytes that the source does not overlap leaves a string
-- there: bytes of the source, none of them zero, up to its end or the first `n`, then a zero
-- within the destination; memory outside of the destination is as before.
pub safestrcpy-Terminated :
    (s t n : ℕ) (m : Memory)
    → (s + suc n ≤ t) ⊎ (t + n ≤ s)
    → Terminated m (safestrcpy s t (suc n) m) s t n
unfolding safestrcpy
safestrcpy-Terminated s t n m apart = safe_loop-Terminated n s t m apart
