-- ===== src/Syscall/Bounds.antt =====
-- Which arguments are accepted.
use assignment1_cs.Base.{
  ℕ, zero, suc, ◌+◌, ◌-◌, ◌^◌, ◌≤◌, ◌<◌, ◌≡◌, ◌≢◌, ◌↔◌, inl, inr, some, Bool-cases, Option-cases,
  ◌==◌, arith, ==→eq, ==→ne, subst,
}
use assignment1_cs.Syscall.{User, int_at, fetchint, scan, fetchstr, argint, argptr}

-- A process whose memory ends below the kernel's.
abbrev pub IsUser : User → Type 0
IsUser p = p.sz ≤ 2 ^ 31

-- For a process whose memory ends below 2 ^ 31, `fetchint` at an address returns a value exactly
-- if all four bytes lie in the process's memory and the value is the word there.
pub fetchint_iff :
    (p : User) (addr x : ℕ)
    → IsUser p
    → addr < 2 ^ 32
    → (fetchint p addr ≡ some x) ↔ ((addr + 4 ≤ p.sz) × (x ≡ int_at p.memory addr))
unfolding fetchint
fetchint_iff p addr x user word =
    ((λ h. ground (arith, user, word)), (λ (inside, e). ground (arith, user, word)))

-- The string of `len` bytes and a zero at `addr`.
abbrev pub IsString : (ℕ → ℕ) → ℕ → ℕ → Type 0
IsString m addr len = (m (addr + len) ≡ 0) × ((j : ℕ) → j < len → m (addr + j) ≢ 0)

module _ (m : ℕ → ℕ) (s len : ℕ) where
  IsString-shift : m s ≢ 0 → IsString m (s + 1) len → IsString m s (suc len)
  IsString-shift nonzero (at, before) = (
    subst (λ a. m a ≡ 0) (omega arith) at,
    (λ j lt. elim (Bool-cases (j == 0)) [
      | inl first ↦ subst (λ a. m a ≢ 0) (omega (arith, ==→eq j 0 first)) nonzero
      | inr later ↦
          subst (λ a. m a ≢ 0) (omega (arith, ==→ne j 0 later))
            (before (j - 1) (omega (arith, lt, ==→ne j 0 later)))
    ]),
  )

  IsString-unshift : IsString m s (suc len) → IsString m (s + 1) len
  IsString-unshift (at, before) = (
    subst (λ a. m a ≡ 0) (omega arith) at,
    (λ j lt. subst (λ a. m a ≢ 0) (omega arith) (before (suc j) (omega (arith, lt)))),
  )

scan_sound :
    (n : ℕ) (m : ℕ → ℕ) (s z : ℕ)
    → scan n m s ≡ some z
    → (len : ℕ) × (z ≡ s + len) × (len < n) × IsString m s len
unfolding scan
scan_sound zero m s z h = absurd (ground arith)
scan_sound (suc n) m s z h = elim (Bool-cases (m s == 0)) [
  | inl stop ↦ (0, ground arith, omega arith, ((ground arith), λ j lt. absurd (omega (arith, lt))))
  | inr go ↦
      let (len, e, lt, string) = scan_sound n m (s + 1) z (ground arith) in
      (suc len, omega arith, omega arith, IsString-shift m s len (==→ne (m s) 0 go) string)
]

scan_complete :
    (n : ℕ) (m : ℕ → ℕ) (s len : ℕ) → len < n → IsString m s len → scan n m s ≡ some (s + len)
unfolding scan
scan_complete zero m s len lt h = absurd (omega (arith, lt))
scan_complete (suc n) m s zero lt (at, before) =
    let here : m s ≡ 0 = subst (λ a. m a ≡ 0) (omega arith) at in ground arith
scan_complete (suc n) m s (suc len) lt h =
    let first : m s ≢ 0 = subst (λ a. m a ≢ 0) (omega arith) (h.1 0 (omega arith)) in
    let later = scan_complete n m (s + 1) len (omega (arith, lt)) (IsString-unshift m s len h) in
    ground arith

-- `fetchstr` returns a pointer and a length exactly if the pointer is the address asked for, and
-- the bytes from there to the first zero, which stands after that many bytes, lie in the process's
-- memory.
pub fetchstr_iff :
    (p : User) (addr q len : ℕ)
    → (fetchstr p addr ≡ some (q, len))
      ↔ ((q ≡ addr) × (addr + len < p.sz) × IsString p.memory addr len)
unfolding fetchstr
fetchstr_iff p addr q len = (
  (λ h. elim (Option-cases (scan (p.sz - addr) p.memory addr)) [
    | inl none_found ↦ absurd (ground arith)
    | inr (z, found) ↦
        let (l, e, lt, string) = scan_sound (p.sz - addr) p.memory addr z found in
        let same : len ≡ l = ground arith in (ground arith, omega arith, rw same string)
  ]),
  (λ (e, lt, string).
      let found = scan_complete (p.sz - addr) p.memory addr len (omega (arith, lt)) string in
      ground arith),
)

-- For a process whose memory ends below 2 ^ 31 and a size below 2 ^ 31, `argptr` returns a pointer
-- exactly if it is the argument, lies in the process's memory, and the whole block does.
pub argptr_iff :
    (p : User) (n size i : ℕ)
    → IsUser p
    → size < 2 ^ 31
    → (argptr p n size ≡ some i) ↔ ((argint p n ≡ some i) × (i < p.sz) × (i + size ≤ p.sz))
unfolding argptr
argptr_iff p n size i user positive = elim (Option-cases (argint p n)) [
  | inl missing ↦ rw missing ((λ h. ground arith), λ h. ground arith)
  | inr (k, there) ↦ rw there ((λ h. ground arith), λ h. ground arith)
]

-- `argptr` with a negative size `-k` accepts every argument in the process's memory from `k` on,
-- whatever the block.
pub argptr_negative :
    (p : User) (n k i : ℕ)
    → IsUser p
    → k ≤ i
    → i < p.sz
    → 0 < k
    → argint p n ≡ some i
    → argptr p n (2 ^ 32 - k) ≡ some i
unfolding argptr
argptr_negative p n k i user low inside positive there = rw (there, argptr) (ground arith)
