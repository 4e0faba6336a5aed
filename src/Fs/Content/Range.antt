-- ===== src/Fs/Content/Range.antt =====
-- A loop of `itrunc` on a range of pointers.
use assignment1_cs.Base.{
  ℕ, zero, suc, ◌+◌, ◌≤◌, ◌<◌, ◌≡◌, ◌≢◌, inl, inr, refl, ap, sym, ◌∙◌, subst, true, false, some,
  ◌==◌, ==→eq, ==→ne, Bool-cases, Option-cases, arith,
}
use assignment1_cs.Fs.Bitmap.{Disk, Superblock, bblock, bfree}
use assignment1_cs.Fs.Bitmap.Marks.{is_used}
use assignment1_cs.Fs.Bitmap.Alloc.{Freed, bfree_lem}
use assignment1_cs.Fs.Content.{free_range}

-- The pointers from `i` to before `i + n` name blocks in use that are all different.
pub record Freeable (sb : Superblock) (d : Disk) (at : ℕ → ℕ) (i n : ℕ) : Type 0 where
  pub used : (j : ℕ) → i ≤ j → j < i + n → at j ≢ 0 → is_used sb d (at j) ≡ true
  pub distinct : (j k : ℕ) → i ≤ j → j < i + n → i ≤ k → k < i + n → j ≢ k → at j ≢ 0 → at j ≢ at k

-- In `d'` the blocks of these pointers are free; nothing else has changed but the bitmap.
pub record FreedRange (sb : Superblock) (d d' : Disk) (at : ℕ → ℕ) (i n : ℕ) : Type 0 where
  pub free : (j : ℕ) → i ≤ j → j < i + n → at j ≢ 0 → is_used sb d' (at j) ≡ false
  pub others :
      (c : ℕ)
      → ((j : ℕ) → i ≤ j → j < i + n → at j ≢ 0 → at j ≢ c)
      → is_used sb d' c ≡ is_used sb d c
  pub kept :
      (c : ℕ)
      → ((j : ℕ) → i ≤ j → j < i + n → at j ≢ 0 → bblock sb (at j) ≢ c)
      → (k : ℕ) → d' c k ≡ d c k

pub free_range-FreedRange :
    (n : ℕ) (sb : Superblock) (d : Disk) (at : ℕ → ℕ) (i : ℕ)
    → Freeable sb d at i n
    → (d' : Disk) × (free_range sb d at i n ≡ some d') × FreedRange sb d d' at i n
unfolding free_range
free_range-FreedRange zero sb d at i f = (
  d,
  refl,
  record {
    free = λ j low high. absurd (omega (arith, low, high));
    others = λ c h. refl;
    kept = λ c h k. refl;
  },
)
free_range-FreedRange (suc n) sb d at i f = elim (Bool-cases (at i == 0)) [
  | inl missing ↦
      let z : at i ≡ 0 = ==→eq (at i) 0 missing in
      let later : (j : ℕ) → i ≤ j → at j ≢ 0 → i + 1 ≤ j = λ j low n. elim (Bool-cases (i == j)) [
        | inl same ↦ absurd (n (ap at (sym (==→eq i j same)) ∙ z))
        | inr other ↦ omega (arith, low, ==→ne i j other)
      ] in
      let (d', e, r) = free_range-FreedRange n sb d at (i + 1) (record {
        used = λ j low high. f.used j (omega (arith, low)) (omega (arith, high));
        distinct = λ j k lj hj lk hk.
            f.distinct j k (omega (arith, lj)) (omega (arith, hj)) (omega (arith, lk))
              (omega (arith, hk));
      }) in
      (
        d',
        rw missing e,
        record {
          free = λ j low high n. r.free j (later j low n) (omega (arith, high)) n;
          others = λ c h. r.others c (λ j low high. h j (omega (arith, low)) (omega (arith, high)));
          kept = λ c h. r.kept c (λ j low high. h j (omega (arith, low)) (omega (arith, high)));
        },
      )
  | inr present ↦
      let m : at i ≢ 0 = ==→ne (at i) 0 present in
      let busy = f.used i (omega arith) (omega arith) m in
      elim (Option-cases (bfree sb d (at i))) [
        | inl fails ↦
            let clear : is_used sb d (at i) ≡ false =
              subst (Freed sb d (at i)) fails (bfree_lem sb d (at i)) in
            absurd (cc (clear, busy))
        | inr (d1, goes) ↦
            let (_, now, same, block) = subst (Freed sb d (at i)) goes (bfree_lem sb d (at i)) in
            let apart : (j : ℕ) → i + 1 ≤ j → j < i + 1 + n → at j ≢ 0 → at i ≢ at j =
              λ j low high n q.
                f.distinct i j (omega arith) (omega arith) (omega (arith, low))
                  (omega (arith, high)) (omega (arith, low)) m q in
            let (d', e, r) = free_range-FreedRange n sb d1 at (i + 1) (record {
              used = λ j low high n.
                  same (at j) (apart j low high n)
                  ∙ f.used j (omega (arith, low)) (omega (arith, high)) n;
              distinct = λ j k lj hj lk hk.
                  f.distinct j k (omega (arith, lj)) (omega (arith, hj)) (omega (arith, lk))
                    (omega (arith, hk));
            }) in
            (
              d',
              rw (present, goes) e,
              record {
                free = λ j low high n. elim (Bool-cases (i == j)) [
                  | inl here ↦
                      subst (λ x. is_used sb d' (at x) ≡ false) (==→eq i j here)
                        (r.others (at i) (λ k l h p q. apart k l h p (sym q)) ∙ now)
                  | inr there ↦
                      r.free j (omega (arith, low, ==→ne i j there)) (omega (arith, high)) n
                ];
                others = λ c h.
                    r.others c (λ j low high. h j (omega (arith, low)) (omega (arith, high)))
                    ∙ same c (h i (omega arith) (omega arith) m);
                kept = λ c h k.
                    r.kept c (λ j low high. h j (omega (arith, low)) (omega (arith, high))) k
                    ∙ block c (h i (omega arith) (omega arith) m) k;
              },
            )
      ]
]
