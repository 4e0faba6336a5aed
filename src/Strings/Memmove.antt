-- ===== src/Strings/Memmove.antt =====
-- `memmove`, also where the two ranges overlap.
use assignment1_cs.Base.{
  ℕ, zero, suc, ◌+◌, ◌-◌, ◌≤◌, ◌<◌, ◌≡◌, ◌⊎◌, inl, inr, refl, sym, ap, ◌∙◌, Bool-cases, ==→eq,
  ==→ne, ◌==◌, ◌&&◌, ltb, arith, update, update_self, update_ne,
}
use assignment1_cs.Strings.{Memory, move_up, move_down, memmove}

-- In `m'` the `n` bytes from `dst` on are those from `src` on in `m`, and all others are as in `m`.
pub record Copied (m m' : Memory) (dst src n : ℕ) : Type 0 where
  pub inside : (j : ℕ) → j < n → m' (dst + j) ≡ m (src + j)
  pub outside : (a : ℕ) → (a < dst) ⊎ (dst + n ≤ a) → m' a ≡ m a

at : (m : Memory) {a b : ℕ} → a ≡ b → m a ≡ m b
at m e = ap m e

-- The first byte is copied before the others.
Copied-first :
    (m m' : Memory) (d s n : ℕ)
    → (d ≤ s) ⊎ (s + suc n ≤ d)
    → Copied (update m d (m s)) m' (d + 1) (s + 1) n
    → Copied m m' d s (suc n)
Copied-first m m' d s n apart c = record {
  inside = inside;
  outside = λ a h. c.outside a (ground arith) ∙ update_ne m d a (m s) (ground arith);
}
  where
    inside : (j : ℕ) → j < suc n → m' (d + j) ≡ m (s + j)
    inside zero h =
        at m' (omega arith)
        ∙ c.outside d (inl (omega arith))
        ∙ update_self m d (m s)
        ∙ at m (omega arith)
    inside (suc j) h =
        at m' (omega arith)
        ∙ c.inside j (omega (arith, h))
        ∙ update_ne m d (s + 1 + j) (m s) (ground arith)
        ∙ at m (omega arith)

-- The last byte is copied before the others.
Copied-last :
    (m m' : Memory) (d s n : ℕ)
    → s ≤ d
    → Copied (update m (d + n) (m (s + n))) m' d s n
    → Copied m m' d s (suc n)
Copied-last m m' d s n apart c = record {
  inside = λ j h. elim (Bool-cases (j == n)) [
    | inl last ↦
        let e : j ≡ n = ==→eq j n last in
        ap (λ k. m' (d + k)) e
        ∙ c.outside (d + n) (inr (omega arith))
        ∙ update_self m (d + n) (m (s + n))
        ∙ ap (λ k. m (s + k)) (sym e)
    | inr early ↦
        c.inside j (omega (arith, h, ==→ne j n early))
        ∙ update_ne m (d + n) (s + j) (m (s + n)) (omega (arith, h, apart, ==→ne j n early))
  ];
  outside = λ a h. c.outside a (ground arith) ∙ update_ne m (d + n) a (m (s + n)) (ground arith);
}

move_up-Copied : (n d s : ℕ) (m : Memory) → (d ≤ s) ⊎ (s + n ≤ d) → Copied m (move_up d s n m) d s n
unfolding move_up
move_up-Copied zero d s m apart = record {
  inside = λ j h. absurd (omega (arith, h));
  outside = λ a h. refl;
}
move_up-Copied (suc n) d s m apart =
    Copied-first m (move_up d s (suc n) m) d s n apart
      (move_up-Copied n (d + 1) (s + 1) (update m d (m s)) (ground arith))

move_down-Copied : (n d s : ℕ) (m : Memory) → s ≤ d → Copied m (move_down (d + n) (s + n) n m) d s n
unfolding move_down
move_down-Copied zero d s m apart = record {
  inside = λ j h. absurd (omega (arith, h));
  outside = λ a h. refl;
}
move_down-Copied (suc n) d s m apart =
    let from : d + suc n - 1 ≡ d + n = omega arith in
    let to : s + suc n - 1 ≡ s + n = omega arith in
    rw (from, to)
      (Copied-last m _ d s n apart (move_down-Copied n d s (update m (d + n) (m (s + n))) apart))

-- After `memmove` the bytes of the destination are those that the source held before, also where
-- the ranges overlap, and all other memory is as before.
pub memmove-Copied : (dst src n : ℕ) (m : Memory) → Copied m (memmove dst src n m) dst src n
unfolding memmove
memmove-Copied dst src n m = elim (Bool-cases (ltb src dst && ltb dst (src + n))) [
  | inl overlap ↦ rw overlap (move_down-Copied n dst src m (ground arith))
  | inr apart ↦ rw apart (move_up-Copied n dst src m (ground arith))
]
