-- ===== src/Fs/Content/Grow.antt =====
-- The tree of an inode after `balloc` has given it a block for one of its pointers.
use assignment1_cs.Base.{
  ℕ, ◌/◌, ◌%◌, ◌<◌, ◌≡◌, ◌≢◌, ◌⊎◌, inl, inr, refl, ap, sym, ◌∙◌, subst, true, false, List, length,
  if◌then◌else◌, ◌==◌, ==→eq, ==→ne, Bool-cases, arith,
}
use assignment1_cs.Fs.Bitmap.{bsize}
use assignment1_cs.Fs.Bitmap.{Disk, Superblock, bblock, bpb, test_bit}
use assignment1_cs.Fs.Bitmap.Marks.{is_used}
use assignment1_cs.Fs.Bitmap.Alloc.{Allocated}
use assignment1_cs.Fs.Content.{maxfile}
use assignment1_cs.Fs.Content.Tree.{slot, slots, data_slot, content, IsTree}

-- What a change of the content keeps: the tree, the pointers that are not 0, and every block in use
-- that is neither in the tree nor in the bitmap. New pointers name blocks that were free.
pub record Keeps (sb : Superblock) (d : Disk) (a : List ℕ) (d' : Disk) (a' : List ℕ) : Type 0 where
  pub tree : IsTree sb d' a'
  pub grown : (k : ℕ) → k < slots → slot d a k ≢ 0 → slot d' a' k ≡ slot d a k
  pub fresh :
      (k : ℕ) → k < slots → (slot d' a' k ≡ slot d a k) ⊎ (is_used sb d (slot d' a' k) ≡ false)
  pub marks : (c : ℕ) → c < sb.size → is_used sb d c ≡ true → is_used sb d' c ≡ true
  pub outside :
      (c : ℕ)
      → c < sb.size
      → is_used sb d c ≡ true
      → ((k : ℕ) → k < slots → c ≢ slot d a k)
      → ((e : ℕ) → e < sb.size → c ≢ bblock sb e)
      → (i : ℕ) → d' c i ≡ d c i

-- `bmap` keeps the content, too.
pub record Step (sb : Superblock) (d : Disk) (a : List ℕ) (d' : Disk) (a' : List ℕ) : Type 0 where
  pub keeps : Keeps sb d a d' a'
  pub same : (bn : ℕ) → bn < maxfile → (i : ℕ) → i < bsize → content d' a' bn i ≡ content d a bn i

-- Pointer `k` was 0 and is now `b`, which `balloc` has given with the disk `d1`; no other pointer
-- and no block but the indirect one has changed since.
pub record Grown (sb : Superblock) (d : Disk) (a : List ℕ) (d1 d' : Disk) (a' : List ℕ) (k b : ℕ)
    : Type 0 where
  pub alloc : Allocated sb d d1 b
  pub in_range : k < slots
  pub empty : slot d a k ≡ 0
  pub new : slot d' a' k ≡ b
  pub old : (j : ℕ) → j < slots → k ≢ j → slot d' a' j ≡ slot d a j
  pub blocks : (c : ℕ) → (slot d a 12 ≢ 0 → c ≢ slot d a 12) → (i : ℕ) → d' c i ≡ d1 c i
  pub addresses : length a' ≡ 13

pub used-ne :
    (sb : Superblock) (d : Disk) {b c : ℕ} → is_used sb d b ≡ false → is_used sb d c ≡ true → b ≢ c
used-ne sb d {b} {c} free used e = cc (subst (λ k. is_used sb d k ≡ false) e free, used)

pub data_slot-lt : (bn : ℕ) → bn < maxfile → data_slot bn < slots
data_slot-lt bn h = ground arith

pub data_slot-ne : (bn : ℕ) → data_slot bn ≢ 12
data_slot-ne bn = ground arith

module _ (sb : Superblock) (d : Disk) (a : List ℕ) (d1 d' : Disk) (a' : List ℕ) (k b : ℕ)
    (t : IsTree sb d a) (g : Grown sb d a d1 d' a' k b) where
  b_ne_zero : b ≢ 0
  b_ne_zero = used-ne sb d g.alloc.free t.boot

  b_ne_slot : (j : ℕ) → j < slots → slot d a j ≢ 0 → b ≢ slot d a j
  b_ne_slot j h n = used-ne sb d g.alloc.free (t.used j h n)

  slot-cases :
      (j : ℕ) → j < slots → ((k ≡ j) × (slot d' a' j ≡ b)) ⊎ ((k ≢ j) × (slot d' a' j ≡ slot d a j))
  slot-cases j h = elim (Bool-cases (k == j)) [
    | inl e ↦ inl (==→eq k j e, ap (slot d' a') (sym (==→eq k j e)) ∙ g.new)
    | inr n ↦ inr (==→ne k j n, g.old j h (==→ne k j n))
  ]

  now_used : (c : ℕ) → c < sb.size → is_used sb d' c ≡ is_used sb d1 c
  now_used c h =
      let e =
        g.blocks (bblock sb c) (λ n q. t.no_map 12 (omega arith) n c h (sym q)) (c % bpb / 8) in
      ap (λ x. assignment1_cs.Fs.Bitmap.bit x (c % bpb % 8)) e

  still_used : (c : ℕ) → c < sb.size → is_used sb d c ≡ true → is_used sb d' c ≡ true
  still_used c h u = now_used c h ∙ g.alloc.others c h (used-ne sb d g.alloc.free u) ∙ u

  -- A block of the disk that was in use, other than the indirect block and the bitmap.
  kept :
      (c : ℕ)
      → is_used sb d c ≡ true
      → (slot d a 12 ≢ 0 → c ≢ slot d a 12)
      → ((e : ℕ) → e < sb.size → c ≢ bblock sb e)
      → (i : ℕ) → d' c i ≡ d c i
  kept c u n m i =
      g.blocks c n i
      ∙ g.alloc.kept c (used-ne sb d g.alloc.free u) (λ e. m b g.alloc.in_range (sym e)) i

  Grown-IsTree : IsTree sb d' a'
  Grown-IsTree = record {
    addresses = g.addresses;
    bitmap = λ c h. still_used (bblock sb c) (t.map_below c h) (t.bitmap c h);
    map_below = t.map_below;
    words = t.words;
    boot = still_used 0 (omega (arith, g.alloc.in_range)) t.boot;
    below = λ j h n. elim (slot-cases j h) [
      | inl (e, new) ↦ subst (λ x. x < sb.size) (sym new) g.alloc.in_range
      | inr (e, old) ↦ subst (λ x. x < sb.size) (sym old) (t.below j h (λ z. n (old ∙ z)))
    ];
    used = λ j h n. elim (slot-cases j h) [
      | inl (e, new) ↦
          subst (λ x. is_used sb d' x ≡ true) (sym new)
            (now_used b g.alloc.in_range ∙ g.alloc.marked)
      | inr (e, old) ↦
          let m : slot d a j ≢ 0 = λ z. n (old ∙ z) in
          subst (λ x. is_used sb d' x ≡ true) (sym old)
            (still_used (slot d a j) (t.below j h m) (t.used j h m))
    ];
    no_map = λ j h n c l. elim (slot-cases j h) [
      | inl (e, new) ↦ λ q. used-ne sb d g.alloc.free (t.bitmap c l) (sym new ∙ q)
      | inr (e, old) ↦ λ q. t.no_map j h (λ z. n (old ∙ z)) c l (sym old ∙ q)
    ];
    distinct = λ i j hi hj ne n q. elim (slot-cases i hi) [
      | inl (e, new) ↦ elim (slot-cases j hj) [
        | inl (f, _) ↦ absurd (ne (sym e ∙ f))
        | inr (f, old) ↦
            let p : b ≡ slot d a j = sym new ∙ q ∙ old in
            absurd (b_ne_slot j hj (λ z. b_ne_zero (p ∙ z)) p)
      ]
      | inr (e, old) ↦
          let m : slot d a i ≢ 0 = λ z. n (old ∙ z) in
          elim (slot-cases j hj) [
            | inl (f, new) ↦ absurd (b_ne_slot i hi m (sym new ∙ sym q ∙ old))
            | inr (f, old') ↦ absurd (t.distinct i j hi hj ne m (sym old ∙ q ∙ old'))
          ]
    ];
  }

  content-same :
      (j i : ℕ)
      → j < slots
      → j ≢ 12
      → i < bsize
      → (if slot d' a' j == 0 then 0 else d' (slot d' a' j) i)
        ≡ (if slot d a j == 0 then 0 else d (slot d a j) i)
  content-same j i h ne small = elim (slot-cases j h) [
    | inl (e, new) ↦
        let was : slot d a j ≡ 0 = ap (slot d a) (sym e) ∙ g.empty in
        let z : d' b i ≡ 0 =
          g.blocks b (λ n. b_ne_slot 12 (omega arith) n) i ∙ g.alloc.zeroed i small in
        rw (new, was) (ground (arith, z))
    | inr (e, old) ↦ elim (Bool-cases (slot d a j == 0)) [
      | inl z ↦ rw (old, z) refl
      | inr n ↦
          let m : slot d a j ≢ 0 = ==→ne (slot d a j) 0 n in
          rw (old, n)
            (kept (slot d a j) (t.used j h m) (λ _. t.distinct j 12 h (omega arith) ne m)
              (t.no_map j h m) i)
    ]
  ]

  Grown-Keeps : Keeps sb d a d' a'
  Grown-Keeps = record {
    tree = Grown-IsTree;
    grown = λ j h n. elim (slot-cases j h) [
      | inl (e, new) ↦ absurd (n (ap (slot d a) (sym e) ∙ g.empty))
      | inr (e, old) ↦ old
    ];
    fresh = λ j h. elim (slot-cases j h) [
      | inl (e, new) ↦ inr (subst (λ x. is_used sb d x ≡ false) (sym new) g.alloc.free)
      | inr (e, old) ↦ inl old
    ];
    marks = still_used;
    outside = λ c h u n m i. kept c u (λ _. n 12 (omega arith)) m i;
  }

  pub Grown-Step : Step sb d a d' a'
  Grown-Step = record {
    keeps = Grown-Keeps;
    same =
        λ bn h i small. content-same (data_slot bn) i (data_slot-lt bn h) (data_slot-ne bn) small;
  }

pub Step-refl : (sb : Superblock) (d : Disk) (a : List ℕ) → IsTree sb d a → Step sb d a d a
Step-refl sb d a t = record {
  keeps = record {
    tree = t;
    grown = λ k h n. refl;
    fresh = λ k h. inl refl;
    marks = λ c h u. u;
    outside = λ c h u n m i. refl;
  };
  same = λ bn h i l. refl;
}

pub Keeps-trans :
    (sb : Superblock) (d : Disk) (a : List ℕ) (d' : Disk) (a' : List ℕ) (d'' : Disk) (a'' : List ℕ)
    → Keeps sb d a d' a'
    → Keeps sb d' a' d'' a''
    → Keeps sb d a d'' a''
Keeps-trans sb d a d' a' d'' a'' s r = record {
  tree = r.tree;
  grown = λ k h n. let e = s.grown k h n in r.grown k h (λ z. n (sym e ∙ z)) ∙ e;
  fresh = λ k h. elim (r.fresh k h) [
    | inl e ↦ elim (s.fresh k h) [
      | inl f ↦ inl (e ∙ f)
      | inr f ↦ inr (subst (λ x. is_used sb d x ≡ false) (sym e) f)
    ]
    | inr f ↦ elim (Bool-cases (is_used sb d (slot d'' a'' k))) [
      | inr free ↦ inr free
      | inl used ↦
          let n : slot d'' a'' k ≢ 0 = λ z. used-ne sb d' f s.tree.boot z in
          absurd (used-ne sb d' f (s.marks (slot d'' a'' k) (r.tree.below k h n) used) refl)
    ]
  ];
  marks = λ c h u. r.marks c h (s.marks c h u);
  outside = λ c h u n m i.
      r.outside c h (s.marks c h u)
        (λ k l. elim (s.fresh k l) [
          | inl e ↦ λ q. n k l (q ∙ e)
          | inr f ↦ λ q. used-ne sb d f u (sym q)
        ])
        m i
      ∙ s.outside c h u n m i;
}

pub Step-trans :
    (sb : Superblock) (d : Disk) (a : List ℕ) (d' : Disk) (a' : List ℕ) (d'' : Disk) (a'' : List ℕ)
    → Step sb d a d' a'
    → Step sb d' a' d'' a''
    → Step sb d a d'' a''
Step-trans sb d a d' a' d'' a'' s r = record {
  keeps = Keeps-trans sb d a d' a' d'' a'' s.keeps r.keeps;
  same = λ bn h i l. r.same bn h i l ∙ s.same bn h i l;
}
