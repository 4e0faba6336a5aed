-- ===== src/Fs/Bitmap/Alloc.antt =====
-- `balloc` and `bfree`, and the marks in the bitmap.
use assignment1_cs.Base.{
  ℕ, zero, suc, ◌+◌, ◌-◌, ◌%◌, ◌≤◌, ◌<◌, ◌≡◌, ◌≢◌, ap, ap₂, sym, subst, ◌∙◌, true, false, ◌==◌, ltb,
  ltb→lt, ◌&&◌, Bool-cases, Option-cases, Option, none, some, inl, inr, ==→eq, ==→ne, update_self,
  update_ne, arith,
}
use assignment1_cs.Fs.Bitmap.{bsize}
use assignment1_cs.Strings.{Memory}
use assignment1_cs.Strings.Memset.{memset-Filled}
use assignment1_cs.Fs.Bitmap.{
  Disk, Superblock, bpb, bblock, test_bit, mark, bzero, scan, balloc_loop, balloc, bfree,
}
use assignment1_cs.Fs.Bitmap.Marks.{
  is_used, mark-is_used, mark-is_used_ne, unmark-is_used, unmark-is_used_ne,
}

-- The blocks of the bitmap are in use.
abbrev pub BitmapUsed : Superblock → Disk → Type 0
BitmapUsed sb d = (c : ℕ) → c < sb.size → is_used sb d (bblock sb c) ≡ true

-- In `d'` block `b`, which was the first free one of `d`, is in use and zeroed, and nothing else
-- has changed.
pub record Allocated (sb : Superblock) (d d' : Disk) (b : ℕ) : Type 0 where
  pub in_range : b < sb.size
  pub free : is_used sb d b ≡ false
  pub first : (c : ℕ) → c < b → is_used sb d c ≡ true
  pub marked : is_used sb d' b ≡ true
  pub others : (c : ℕ) → c < sb.size → b ≢ c → is_used sb d' c ≡ is_used sb d c
  pub zeroed : (i : ℕ) → i < bsize → d' b i ≡ 0
  pub kept : (c : ℕ) → b ≢ c → bblock sb b ≢ c → (i : ℕ) → d' c i ≡ d c i

abbrev pub Balloced : Superblock → Disk → Option (ℕ × Disk) → Type 0
Balloced sb d none = (c : ℕ) → c < sb.size → is_used sb d c ≡ true
Balloced sb d (some r) = Allocated sb d r.1 r.0

-- What `scan` finds from `bi` on.
abbrev Scanned : ℕ → Memory → ℕ → ℕ → Option ℕ → Type 0
Scanned size m b bi none = (j : ℕ) → bi ≤ j → j < bpb → b + j < size → test_bit m j ≡ true
Scanned size m b bi (some r) =
    (bi ≤ r)
    × (r < bpb)
    × (b + r < size)
    × (test_bit m r ≡ false)
    × ((j : ℕ) → bi ≤ j → j < r → test_bit m j ≡ true)

-- A bit that is set is passed over.
Scanned-step :
    (size : ℕ) (m : Memory) (b bi : ℕ) (o : Option ℕ)
    → test_bit m bi ≡ true
    → Scanned size m b (bi + 1) o
    → Scanned size m b bi o
Scanned-step size m b bi none h s = λ j low high end. elim (Bool-cases (bi == j)) [
  | inl here ↦ subst (λ k. test_bit m k ≡ true) (==→eq bi j here) h
  | inr there ↦ s j (omega (arith, low, ==→ne bi j there)) high end
]
Scanned-step size m b bi (some r) h (low, below, end, clear, passed) = (
  omega (arith, low),
  below,
  end,
  clear,
  λ j from to. elim (Bool-cases (bi == j)) [
    | inl here ↦ subst (λ k. test_bit m k ≡ true) (==→eq bi j here) h
    | inr there ↦ passed j (omega (arith, from, ==→ne bi j there)) to
  ],
)

scan-Scanned :
    (fuel size : ℕ) (m : Memory) (b bi : ℕ)
    → bpb ≤ bi + fuel
    → Scanned size m b bi (scan fuel size m b bi)
unfolding scan
scan-Scanned zero size m b bi enough = λ j low high end. absurd (omega (arith, enough, low, high))
scan-Scanned (suc fuel) size m b bi enough = elim (Bool-cases (ltb bi bpb && ltb (b + bi) size)) [
  | inr done ↦ rw done (λ j low high end. absurd (ground arith))
  | inl more ↦ elim (Bool-cases (test_bit m bi)) [
    | inr clear ↦
        rw (more, clear)
          (
            omega arith,
            ground arith,
            ground arith,
            clear,
            λ j from to. absurd (omega (arith, from, to)),
          )
    | inl busy ↦
        rw (more, busy)
          (Scanned-step size m b bi _ busy
            (scan-Scanned fuel size m b (bi + 1) (omega (arith, enough))))
  ]
]

-- Marking and zeroing the first free block allocates it.
mark-Allocated :
    (sb : Superblock) (d : Disk) (b : ℕ)
    → BitmapUsed sb d
    → b < sb.size
    → is_used sb d b ≡ false
    → ((c : ℕ) → c < b → is_used sb d c ≡ true)
    → Allocated sb d (bzero (mark d (bblock sb b) (b % bpb)) b) b
mark-Allocated sb d b used range free first =
    let m = mark d (bblock sb b) (b % bpb) in
    let not_map : (c : ℕ) → c < sb.size → b ≢ bblock sb c =
      λ c h e. cc (used c h, subst (λ k. is_used sb d k ≡ false) e free) in
    let keeps : (c : ℕ) → c < sb.size → is_used sb (bzero m b) c ≡ is_used sb m c =
      λ c h. ap (λ y. test_bit y (c % bpb)) (update_ne m b (bblock sb c) _ (not_map c h)) in
    record {
      in_range = range;
      free = free;
      first = first;
      marked = keeps b range ∙ mark-is_used sb d b free;
      others = λ c h n. keeps c h ∙ mark-is_used_ne sb d b c free n;
      zeroed = λ i h.
          ap (λ y. y i) (update_self m b _)
          ∙ (memset-Filled 0 0 bsize (m b)).inside i (omega arith) h;
      kept = λ c n k i.
          ap (λ y. y i) (update_ne m b c _ n) ∙ ap (λ y. y i) (update_ne d (bblock sb b) c _ k);
    }

-- The bits that a scan of the block of bitmap for `b` has passed are those of the blocks from `b` on.
scan-is_used :
    (sb : Superblock) (d : Disk) (b j : ℕ)
    → b % bpb ≡ 0
    → j < bpb
    → is_used sb d (b + j) ≡ test_bit (d (bblock sb b)) j
scan-is_used sb d b j aligned h =
    let q : bblock sb (b + j) ≡ bblock sb b = omega (arith, aligned, h) in
    let r : (b + j) % bpb ≡ j = omega (arith, aligned, h) in
    ap (λ k. test_bit (d k) ((b + j) % bpb)) q ∙ ap (test_bit (d (bblock sb b))) r

-- The blocks before `b`, and the `r` that a scan has passed.
scan-first :
    (sb : Superblock) (d : Disk) (b r : ℕ)
    → b % bpb ≡ 0
    → r ≤ bpb
    → ((c : ℕ) → c < b → c < sb.size → is_used sb d c ≡ true)
    → ((j : ℕ) → j < r → b + j < sb.size → test_bit (d (bblock sb b)) j ≡ true)
    → (c : ℕ) → c < b + r
    → c < sb.size
    → is_used sb d c ≡ true
scan-first sb d b r aligned small first passed c h end = elim (Bool-cases (ltb c b)) [
  | inl early ↦ first c (ltb→lt c b early) end
  | inr late ↦
      let e : b + (c - b) ≡ c = ground arith in
      let busy = passed (c - b) (omega (arith, h, e)) (omega (arith, end, e)) in
      subst (λ k. is_used sb d k ≡ true) e
        (scan-is_used sb d b (c - b) aligned (omega (arith, h, small, e)) ∙ busy)
]

loop-Balloced :
    (fuel : ℕ) (sb : Superblock) (d : Disk) (b : ℕ)
    → BitmapUsed sb d
    → b % bpb ≡ 0
    → sb.size ≤ b + fuel
    → ((c : ℕ) → c < b → c < sb.size → is_used sb d c ≡ true)
    → Balloced sb d (balloc_loop fuel sb d b)
unfolding balloc_loop
loop-Balloced zero sb d b used aligned enough first = λ c h. first c (omega (arith, enough, h)) h
loop-Balloced (suc fuel) sb d b used aligned enough first =
    let s = scan-Scanned bpb sb.size (d (bblock sb b)) b 0 (omega arith) in
    elim (Bool-cases (ltb b sb.size)) [
      | inr past ↦ rw past (λ c h. first c (ground arith) h)
      | inl more ↦ elim (Option-cases (scan bpb sb.size (d (bblock sb b)) b 0)) [
        | inl full ↦
            let busy = subst (Scanned sb.size (d (bblock sb b)) b 0) full s in
            rw (more, full)
              (loop-Balloced fuel sb d (b + bpb) used (omega (arith, aligned))
                (omega (arith, enough))
                (scan-first sb d b bpb aligned (omega arith) first
                  (λ j h end. busy j (omega arith) h end)))
        | inr (r, found) ↦
            let (low, below, end, clear, passed) =
              subst (Scanned sb.size (d (bblock sb b)) b 0) found s in
            let q : bblock sb (b + r) ≡ bblock sb b = omega (arith, aligned, below) in
            let w : (b + r) % bpb ≡ r = omega (arith, aligned, below) in
            let a =
              mark-Allocated sb d (b + r) used end (scan-is_used sb d b r aligned below ∙ clear)
                (λ c h.
                  scan-first sb d b r aligned (omega (arith, below)) first
                    (λ j k l. passed j (omega arith) k) c h (omega (arith, h, end))) in
            let same : bzero (mark d (bblock sb (b + r)) ((b + r) % bpb)) (b + r)
                ≡ bzero (mark d (bblock sb b) r) (b + r) =
              ap₂ (λ x y. bzero (mark d x y) (b + r)) q w in
            rw (more, found) (subst (λ e. Allocated sb d e (b + r)) same a)
      ]
    ]

-- While the blocks of the bitmap are in use, `balloc` panics only if every block of the disk is in
-- use; else it takes the first free block, marks it and no other block, fills it with zeros, and
-- changes no block of the disk but it and its block of the bitmap.
pub balloc_lem : (sb : Superblock) (d : Disk) → BitmapUsed sb d → Balloced sb d (balloc sb d)
unfolding balloc
balloc_lem sb d used =
    loop-Balloced sb.size sb d 0 used (omega arith) (omega arith) (λ c h. absurd (omega (arith, h)))

-- What `bfree` of block `b` gives: a panic if it is free, and else only its mark is cleared.
abbrev pub Freed : Superblock → Disk → ℕ → Option Disk → Type 0
Freed sb d b none = is_used sb d b ≡ false
Freed sb d b (some d') =
    (is_used sb d b ≡ true)
    × (is_used sb d' b ≡ false)
    × ((c : ℕ) → b ≢ c → is_used sb d' c ≡ is_used sb d c)
    × ((c : ℕ) → bblock sb b ≢ c → (i : ℕ) → d' c i ≡ d c i)

-- `bfree` panics on a free block, and else clears the mark of that block and of no other, and
-- changes no other block of the disk.
pub bfree_lem : (sb : Superblock) (d : Disk) (b : ℕ) → Freed sb d b (bfree sb d b)
unfolding bfree
bfree_lem sb d b = elim (Bool-cases (is_used sb d b)) [
  | inr free ↦ rw free free
  | inl used ↦ rw used (
    used,
    unmark-is_used sb d b used,
    (λ c n. unmark-is_used_ne sb d b c used n),
    λ c n i. ap (λ y. y i) (update_ne d (bblock sb b) c _ n),
  )
]

-- While the blocks of the bitmap are in use, `bfree` of a block that `balloc` has just returned
-- does not panic and leaves every block of the disk marked or free as it was before the `balloc`.
pub bfree-balloc :
    (sb : Superblock) (d d' : Disk) (b : ℕ)
    → BitmapUsed sb d
    → balloc sb d ≡ some (b, d')
    → (e : Disk) × (bfree sb d' b ≡ some e)
      × ((c : ℕ) → c < sb.size → is_used sb e c ≡ is_used sb d c)
bfree-balloc sb d d' b used taken =
    let a : Allocated sb d d' b = subst (Balloced sb d) taken (balloc_lem sb d used) in
    elim (Option-cases (bfree sb d' b)) [
      | inl panics ↦
          let free : is_used sb d' b ≡ false = subst (Freed sb d' b) panics (bfree_lem sb d' b) in
          cc (free, a.marked)
      | inr (e, freed) ↦
          let (was, now, rest, kept) = subst (Freed sb d' b) freed (bfree_lem sb d' b) in
          (
            e,
            freed,
            λ c h. elim (Bool-cases (b == c)) [
              | inl same ↦
                  subst (λ k. is_used sb e k ≡ is_used sb d k) (==→eq b c same) (now ∙ sym a.free)
              | inr other ↦ rest c (==→ne b c other) ∙ a.others c h (==→ne b c other)
            ],
          )
    ]
