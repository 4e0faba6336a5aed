-- ===== src/Fs/Content/Transfer.antt =====
-- The loop of `readi` on the content as one run of bytes.
use assignment1_cs.Base.{
  ℕ, zero, suc, ◌+◌, ◌-◌, ◌*◌, ◌/◌, ◌%◌, ◌≤◌, ◌<◌, ◌≡◌, ◌≢◌, inl, inr, refl, ap, ap₂, sym, ◌∙◌,
  subst, false, Option, none, some, List, ◌++◌, ◌==◌, ==→eq, ==→ne, Bool-cases, Option-cases, arith,
}
use assignment1_cs.Fs.Bitmap.{bsize}
use assignment1_cs.Strings.{Memory}
use assignment1_cs.Fs.Bitmap.{Disk, Superblock}
use assignment1_cs.Fs.Content.{maxfile, bmap, bytes_at, piece, readi_loop}
use assignment1_cs.Fs.Content.Tree.{slot, data_slot, content, IsTree}
use assignment1_cs.Fs.Content.Grow.{Step, Step-refl, Step-trans, data_slot-lt}
use assignment1_cs.Fs.Content.Bmap.{Mapped, bmap_lem, missing_before}
use assignment1_cs.Fs.Content.Flat.{bytes_at-same, bytes_at-append}

-- The content as one run of bytes.
abbrev pub view : Disk → List ℕ → Memory
view d a p = content d a (p / bsize) (p % bsize)

abbrev pub max_bytes : ℕ
max_bytes = maxfile * bsize

-- The block of one of the `n` bytes from `off` on is missing.
abbrev pub Missing : Disk → List ℕ → ℕ → ℕ → Type 0
Missing d a off n = (p : ℕ) × (off ≤ p) × (p < off + n) × (slot d a (data_slot (p / bsize)) ≡ 0)

pub content-slot :
    (d : Disk) (a : List ℕ) (bn i : ℕ) {b : ℕ}
    → slot d a (data_slot bn) ≡ b
    → b ≢ 0
    → content d a bn i ≡ d b i
content-slot d a bn i {b} e n = let m : (b == 0) ≡ false = ground arith in rw (e, m) refl

pub view-Step :
    (sb : Superblock) (d : Disk) (a : List ℕ) (d' : Disk) (a' : List ℕ) (p : ℕ)
    → Step sb d a d' a'
    → p < max_bytes
    → view d' a' p ≡ view d a p
view-Step sb d a d' a' p s h = s.same (p / bsize) (omega (arith, h)) (p % bsize) (omega arith)

-- The bytes of one block, after `bmap`.
pub view-block :
    (sb : Superblock) (d : Disk) (a : List ℕ) (d' : Disk) (a' : List ℕ) (b off i : ℕ)
    → Step sb d a d' a'
    → slot d' a' (data_slot (off / bsize)) ≡ b
    → b ≢ 0
    → off / bsize < maxfile
    → off % bsize + i < bsize
    → view d a (off + i) ≡ d' b (off % bsize + i)
view-block sb d a d' a' b off i s at n h l =
    let q : (off + i) / bsize ≡ off / bsize = omega (arith, l) in
    let r : (off + i) % bsize ≡ off % bsize + i = omega (arith, l) in
    ap₂ (content d a) q r
    ∙ sym (s.same (off / bsize) h (off % bsize + i) l)
    ∙ content-slot d' a' (off / bsize) (off % bsize + i) at n

abbrev pub ReadBytes : Superblock → Disk → List ℕ → ℕ → ℕ → Option (List ℕ × List ℕ × Disk) → Type 0
ReadBytes sb d a off n none = Missing d a off n
ReadBytes sb d a off n (some (bytes, a', d')) =
    Step sb d a d' a' × (bytes ≡ bytes_at (view d a) off n)

pub readi_loop-ReadBytes :
    (fuel : ℕ) (sb : Superblock) (d : Disk) (a : List ℕ) (off n : ℕ)
    → IsTree sb d a
    → off + n ≤ max_bytes
    → n < fuel
    → ReadBytes sb d a off n (readi_loop fuel sb d a off n)
unfolding readi_loop
readi_loop-ReadBytes zero sb d a off n t fits enough = absurd (omega (arith, enough))
readi_loop-ReadBytes (suc fuel) sb d a off n t fits enough = elim (Bool-cases (n == 0)) [
  | inl done ↦
      let z : n ≡ 0 = ==→eq n 0 done in
      rw done (Step-refl sb d a t, ap (bytes_at (view d a) off) (sym z))
  | inr more ↦
      let bn = off / bsize in
      let m = piece off n in
      let positive : n ≢ 0 = ==→ne n 0 more in
      let inside : bn < maxfile = omega (arith, fits, positive) in
      let mapped = bmap_lem sb d a bn t inside in
      elim (Option-cases (bmap sb d a bn)) [
        | inl full ↦
            let (empty, _) = subst (Mapped sb d a (data_slot bn)) full mapped in
            rw (more, full) (off, omega arith, omega (arith, positive), empty)
        | inr ((b, a', d'), given) ↦
            let (s, at, ne) = subst (Mapped sb d a (data_slot bn)) given mapped in
            let rest =
              readi_loop-ReadBytes fuel sb d' a' (off + m) (n - m) s.keeps.tree
                (omega (arith, fits)) (omega (arith, enough, positive)) in
            elim (Option-cases (readi_loop fuel sb d' a' (off + m) (n - m))) [
              | inl fails ↦
                  let (c, from, to, empty) =
                    subst (ReadBytes sb d' a' (off + m) (n - m)) fails rest in
                  rw (more, given, fails)
                    (
                      c,
                      omega (arith, from),
                      omega (arith, to),
                      missing_before sb d a d' a' (data_slot (c / bsize)) s.keeps
                          (data_slot-lt (c / bsize) (omega (arith, to, fits))) empty,
                    )
              | inr ((bytes, a'', d''), reads) ↦
                  let (r, e) = subst (ReadBytes sb d' a' (off + m) (n - m)) reads rest in
                  let head : bytes_at (d' b) (off % bsize) m ≡ bytes_at (view d a) off m =
                    bytes_at-same m (d' b) (view d a) (off % bsize) off (λ i l.
                      sym (view-block sb d a d' a' b off i s at ne inside (omega (arith, l)))) in
                  let tail : bytes ≡ bytes_at (view d a) (off + m) (n - m) =
                    e
                    ∙ bytes_at-same (n - m) (view d' a') (view d a) (off + m) (off + m)
                        (λ i l. view-Step sb d a d' a' (off + m + i) s (omega (arith, l, fits))) in
                  let whole : m + (n - m) ≡ n = omega arith in
                  rw (more, given, reads)
                    (
                      Step-trans sb d a d' a' d'' a'' s r,
                      ap₂ (λ x y. x ++ y) head tail
                          ∙ sym (bytes_at-append m (n - m) (view d a) off)
                          ∙ ap (bytes_at (view d a) off) whole,
                    )
            ]
      ]
]
