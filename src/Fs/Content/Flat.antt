-- ===== src/Fs/Content/Flat.antt =====
-- A content as one run of bytes: what reads and writes do to it.
use assignment1_cs.Base.{
  ℕ, zero, suc, ◌+◌, ◌≤◌, ◌<◌, ◌≡◌, ◌⊎◌, inl, refl, ap, ap₂, ◌∙◌, List, [], ◌∷◌, ◌++◌, length,
  get_or, update, update_self, update_ne, arith,
}
use assignment1_cs.Strings.{Memory}
use assignment1_cs.Fs.Content.{bytes_at, put_bytes}

pub bytes_at-same :
    (n : ℕ) (f g : Memory) (p q : ℕ)
    → ((i : ℕ) → i < n → f (p + i) ≡ g (q + i))
    → bytes_at f p n ≡ bytes_at g q n
bytes_at-same zero f g p q h = refl
bytes_at-same (suc n) f g p q h =
    let first : f p ≡ g q = ap f (omega arith) ∙ h 0 (omega arith) ∙ ap g (omega arith) in
    let rest : (i : ℕ) → i < n → f (p + 1 + i) ≡ g (q + 1 + i) =
      λ i l. ap f (omega arith) ∙ h (suc i) (omega (arith, l)) ∙ ap g (omega arith) in
    ap₂ (λ x xs. x ∷ xs) first (bytes_at-same n f g (p + 1) (q + 1) rest)

pub bytes_at-append :
    (m n : ℕ) (f : Memory) (p : ℕ) → bytes_at f p (m + n) ≡ bytes_at f p m ++ bytes_at f (p + m) n
bytes_at-append zero n f p = ap₂ (bytes_at f) (omega arith) (omega arith)
bytes_at-append (suc m) n f p =
    let e : suc m + n ≡ suc (m + n) = omega arith in
    let q : p + 1 + m ≡ p + suc m = omega arith in
    ap (bytes_at f p) e
    ∙ ap (λ xs. f p ∷ xs) (bytes_at-append m n f (p + 1))
    ∙ ap (λ x. f p ∷ (bytes_at f (p + 1) m ++ bytes_at f x n)) q

pub put_bytes_out :
    (xs : List ℕ) (m : Memory) (a j : ℕ) → (j < a) ⊎ (a + length xs ≤ j) → put_bytes m a xs j ≡ m j
put_bytes_out [] m a j h = refl
put_bytes_out (x ∷ xs) m a j h =
    put_bytes_out xs (update m a x) (a + 1) j (ground arith) ∙ update_ne m a j x (ground arith)

pub put_bytes_in :
    (xs : List ℕ) (m : Memory) (a i : ℕ) → i < length xs → put_bytes m a xs (a + i) ≡ get_or xs i 0
put_bytes_in [] m a i h = absurd (omega (arith, h))
put_bytes_in (x ∷ xs) m a zero h =
    ap (put_bytes (update m a x) (a + 1) xs) (omega arith)
    ∙ put_bytes_out xs (update m a x) (a + 1) a (inl (omega arith))
    ∙ update_self m a x
put_bytes_in (x ∷ xs) m a (suc i) h =
    ap (put_bytes (update m a x) (a + 1) xs) (omega arith)
    ∙ put_bytes_in xs (update m a x) (a + 1) i (omega (arith, h))

pub put_bytes-append :
    (xs ys : List ℕ) (m : Memory) (a : ℕ)
    → put_bytes m a (xs ++ ys) ≡ put_bytes (put_bytes m a xs) (a + length xs) ys
put_bytes-append [] ys m a = ap (λ k. put_bytes m k ys) (omega arith)
put_bytes-append (x ∷ xs) ys m a =
    put_bytes-append xs ys (update m a x) (a + 1)
    ∙ ap (λ k. put_bytes (put_bytes (update m a x) (a + 1) xs) k ys) (omega arith)

-- Reading what was written.
pub bytes_at-put_bytes :
    (xs : List ℕ) (m : Memory) (a : ℕ) → bytes_at (put_bytes m a xs) a (length xs) ≡ xs
bytes_at-put_bytes [] m a = refl
bytes_at-put_bytes (x ∷ xs) m a =
    ap₂ (λ y ys. y ∷ ys)
      (put_bytes_out xs (update m a x) (a + 1) a (inl (omega arith)) ∙ update_self m a x)
      (bytes_at-put_bytes xs (update m a x) (a + 1))

-- A byte after a write depends on that byte before it, and on where it lies from the write.
pub put_bytes-shift :
    (xs : List ℕ) (f g : Memory) (k a i : ℕ)
    → f (k + i) ≡ g i
    → put_bytes f (k + a) xs (k + i) ≡ put_bytes g a xs i
put_bytes-shift [] f g k a i h = h
put_bytes-shift (x ∷ xs) f g k a i h =
    ap (λ q. put_bytes (update f (k + a) x) q xs (k + i)) (omega arith)
    ∙ put_bytes-shift xs (update f (k + a) x) (update g a x) k (a + 1) i (ground arith)

pub put_bytes-at :
    (xs : List ℕ) (f g : Memory) (a j : ℕ) → f j ≡ g j → put_bytes f a xs j ≡ put_bytes g a xs j
put_bytes-at [] f g a j h = h
put_bytes-at (x ∷ xs) f g a j h =
    put_bytes-at xs (update f a x) (update g a x) (a + 1) j (ground arith)
