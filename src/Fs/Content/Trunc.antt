-- ===== src/Fs/Content/Trunc.antt =====
-- fs.c: `itrunc` and the blocks of an inode.
use assignment1_cs.Base.{
  zero, suc, ◌%◌, [], ◌∷◌, length, set, update, update_ne, ℕ, ◌+◌, ◌-◌, ◌*◌, ◌≤◌, ◌<◌, ◌≡◌, ◌≢◌,
  inl, inr, refl, ap, sym, ◌∙◌, subst, true, false, some, List, get_or, ltb, ltb→lt, ◌==◌, ==→eq,
  ==→ne, Bool-cases, Option-cases, arith,
}
use assignment1_cs.Fs.Bitmap.{Disk, Superblock, bblock, bfree, bpb, test_bit}
use assignment1_cs.Fs.Bitmap.Marks.{is_used}
use assignment1_cs.Fs.Bitmap.Alloc.{Freed, bfree_lem}
use assignment1_cs.Fs.Content.{
  ndirect, nindirect, load_word, free_range, itrunc, Node, iblock, iupdate, put_bytes, dinode_place,
  dinode_bytes, clear,
}
use assignment1_cs.Fs.Content.Home.{IsHome, iupdate-size}
use assignment1_cs.Fs.Content.Tree.{
  load_word_same, slot, slot_direct, slot_none, slot_indirect, slots, IsTree,
}
use assignment1_cs.Fs.Content.Range.{Freeable, FreedRange, free_range-FreedRange}

-- In `d'` the blocks of the inode are free; nothing else has changed but the bitmap.
pub record Truncated (sb : Superblock) (d : Disk) (a : List ℕ) (d' : Disk) : Type 0 where
  pub free : (k : ℕ) → k < slots → slot d a k ≢ 0 → is_used sb d' (slot d a k) ≡ false
  pub others :
      (c : ℕ)
      → ((k : ℕ) → k < slots → slot d a k ≢ 0 → slot d a k ≢ c)
      → is_used sb d' c ≡ is_used sb d c
  pub kept : (c : ℕ) → ((e : ℕ) → e < sb.size → bblock sb e ≢ c) → (i : ℕ) → d' c i ≡ d c i

module _ (sb : Superblock) (d : Disk) (a : List ℕ) (t : IsTree sb d a) where
  -- The pointers that a loop of `itrunc` reads are slots of the tree.
  Freeable-slots :
      (d1 : Disk) (at : ℕ → ℕ) (o n : ℕ)
      → ((j : ℕ) → j < n → at j ≡ slot d a (j + o))
      → n + o ≤ slots
      → ((k : ℕ) → o ≤ k → k < slots → slot d a k ≢ 0 → is_used sb d1 (slot d a k) ≡ true)
      → Freeable sb d1 at 0 n
  Freeable-slots d1 at o n same fits used = record {
    used = λ j low high m.
        let e = same j (omega (arith, high)) in
        subst (λ x. is_used sb d1 x ≡ true) (sym e)
          (used (j + o) (omega arith) (omega (arith, high, fits)) (λ z. m (e ∙ z)));
    distinct = λ j k lj hj lk hk ne m q.
        let e = same j (omega (arith, hj)) in
        t.distinct (j + o) (k + o) (omega (arith, hj, fits)) (omega (arith, hk, fits))
          (λ p. ne (omega (arith, p))) (λ z. m (e ∙ z)) (sym e ∙ q ∙ same k (omega (arith, hk)));
  }

  abbrev direct : ℕ → ℕ
  direct i = get_or a i 0

  direct-slot : (j : ℕ) → j < ndirect → direct j ≡ slot d a (j + 0)
  direct-slot j h = ap direct (omega arith) ∙ sym (slot_direct d a (j + 0) (omega (arith, h)))

  direct-freed :
      (d1 : Disk) × (free_range sb d direct 0 ndirect ≡ some d1)
      × FreedRange sb d d1 direct 0 ndirect
  direct-freed =
      free_range-FreedRange ndirect sb d direct 0
        (Freeable-slots d direct 0 ndirect direct-slot (omega arith) (λ k l h. t.used k h))

  -- A block that no direct pointer names is as before the first loop.
  module _ (d1 : Disk) (r : FreedRange sb d d1 direct 0 ndirect) where
    direct-others :
        (c : ℕ)
        → ((k : ℕ) → k < 12 → slot d a k ≢ 0 → slot d a k ≢ c)
        → is_used sb d1 c ≡ is_used sb d c
    direct-others c h = r.others c (λ j low high m q.
        let e : direct j ≡ slot d a j = sym (slot_direct d a j (omega (arith, high))) in
        h j (omega (arith, high)) (λ z. m (e ∙ z)) (sym e ∙ q))

    direct-kept : (c : ℕ) → ((e : ℕ) → e < sb.size → bblock sb e ≢ c) → (i : ℕ) → d1 c i ≡ d c i
    direct-kept c h = r.kept c (λ j low high m.
        let e : direct j ≡ slot d a j = sym (slot_direct d a j (omega (arith, high))) in
        let n : slot d a j ≢ 0 = λ z. m (e ∙ z) in
        h (direct j) (subst (λ x. x < sb.size) (sym e) (t.below j (omega (arith, high)) n)))

    direct-free : (k : ℕ) → k < 12 → slot d a k ≢ 0 → is_used sb d1 (slot d a k) ≡ false
    direct-free k h n =
        let e : direct k ≡ slot d a k = sym (slot_direct d a k (omega (arith, h))) in
        subst (λ x. is_used sb d1 x ≡ false) e (r.free k (omega arith) h (λ z. n (sym e ∙ z)))

    without_indirect : get_or a 12 0 ≡ 0 → Truncated sb d a d1
    without_indirect z = record {
      free = λ k h n. elim (Bool-cases (ltb k 12)) [
        | inl near ↦ direct-free k (ltb→lt k 12 near) n
        | inr far ↦ absurd (
            n (elim (Bool-cases (k == 12)) [
              | inl same ↦ let e : k ≡ 12 = ==→eq k 12 same in ap (slot d a) e ∙ z
              | inr other ↦ slot_none d a k (ground arith) z
            ]))
      ];
      others = λ c h. direct-others c (λ k l. h k (omega (arith, l)));
      kept = direct-kept;
    }

    abbrev ind : ℕ
    ind = get_or a 12 0

    abbrev indirect : ℕ → ℕ
    indirect j = load_word (d1 ind) (4 * j)

    indirect-slot : ind ≢ 0 → (j : ℕ) → j < nindirect → indirect j ≡ slot d a (j + 13)
    indirect-slot n j h =
        let index : j + 13 - 13 ≡ j = omega arith in
        load_word_same (d1 ind) (d ind) j h
          (λ i l. direct-kept ind (λ e g q. t.no_map 12 (omega arith) n e g (sym q)) i)
        ∙ ap (λ x. load_word (d ind) (4 * x)) (sym index)
        ∙ sym (slot_indirect d a (j + 13) (omega arith) n)

    indirect-used :
        (k : ℕ) → 13 ≤ k → k < slots → slot d a k ≢ 0 → is_used sb d1 (slot d a k) ≡ true
    indirect-used k far h n =
        direct-others (slot d a k)
          (λ j l m. t.distinct j k (omega (arith, l)) h (omega (arith, l, far)) m)
        ∙ t.used k h n

    indirect-freed :
        ind ≢ 0
        → (d2 : Disk) × (free_range sb d1 indirect 0 nindirect ≡ some d2)
          × FreedRange sb d1 d2 indirect 0 nindirect
    indirect-freed n =
        free_range-FreedRange nindirect sb d1 indirect 0
          (Freeable-slots d1 indirect 13 nindirect (indirect-slot n) (omega arith) indirect-used)

    module _ (n : ind ≢ 0) (d2 : Disk) (s : FreedRange sb d1 d2 indirect 0 nindirect) where
      indirect-others :
          (c : ℕ)
          → ((k : ℕ) → k < slots → 12 < k → slot d a k ≢ 0 → slot d a k ≢ c)
          → is_used sb d2 c ≡ is_used sb d1 c
      indirect-others c h = s.others c (λ j low high m q.
          let e = indirect-slot n j high in
          h (j + 13) (omega (arith, high)) (omega arith) (λ z. m (e ∙ z)) (sym e ∙ q))

      indirect-kept :
          (c : ℕ) → ((e : ℕ) → e < sb.size → bblock sb e ≢ c) → (i : ℕ) → d2 c i ≡ d1 c i
      indirect-kept c h = s.kept c (λ j low high m.
          let e = indirect-slot n j high in
          let k = t.below (j + 13) (omega (arith, high)) (λ z. m (e ∙ z)) in
          h (indirect j) (subst (λ x. x < sb.size) (sym e) k))

      ind_used : is_used sb d2 ind ≡ true
      ind_used =
          indirect-others ind (λ k l far m. t.distinct k 12 l (omega arith) (omega (arith, far)) m)
          ∙ direct-others ind
              (λ k l m. t.distinct k 12 (omega (arith, l)) (omega arith) (omega (arith, l)) m)
          ∙ t.used 12 (omega arith) n

      with_indirect : (d3 : Disk) → Freed sb d2 ind (some d3) → Truncated sb d a d3
      with_indirect d3 (_, now, same, block) = record {
        free = λ k h m. elim (Bool-cases (k == 12)) [
          | inl here ↦ subst (λ x. is_used sb d3 (slot d a x) ≡ false) (sym (==→eq k 12 here)) now
          | inr there ↦
              let ne : k ≢ 12 = ==→ne k 12 there in
              same (slot d a k) (λ q. t.distinct k 12 h (omega arith) ne m (sym q))
              ∙ elim (Bool-cases (ltb k 12)) [
                | inl near ↦
                    let l = ltb→lt k 12 near in
                    indirect-others (slot d a k)
                      (λ j lj far mj. t.distinct j k lj h (omega (arith, far, l)) mj)
                    ∙ direct-free k l m
                | inr far ↦
                    let e : k - 13 + 13 ≡ k = ground arith in
                    let at : indirect (k - 13) ≡ slot d a k =
                      indirect-slot n (k - 13) (omega (arith, h, e)) ∙ ap (slot d a) e in
                    subst (λ x. is_used sb d2 x ≡ false) at
                      (s.free (k - 13) (omega arith) (omega (arith, h, e)) (λ z. m (sym at ∙ z)))
              ]
        ];
        others = λ c h.
            same c (h 12 (omega arith) n)
            ∙ indirect-others c (λ k l _ m. h k l m)
            ∙ direct-others c (λ k l m. h k (omega (arith, l)) m);
        kept = λ c h i.
            block c (h ind (t.below 12 (omega arith) n)) i
            ∙ indirect-kept c h i
            ∙ direct-kept c h i;
      }

-- After `itrunc`: all addresses are 0; the blocks of the inode are free; every other block is marked
-- as it was, and has the same bytes unless it is in the bitmap or is the inode's block, which has the
-- inode with size 0.
pub record Emptied (sb : Superblock) (ip : Node) (d : Disk) (a a' : List ℕ) (d' : Disk)
    : Type 0 where
  pub cleared : (k : ℕ) → get_or a' k 0 ≡ 0
  pub free : (k : ℕ) → k < slots → slot d a k ≢ 0 → is_used sb d' (slot d a k) ≡ false
  pub others :
      (c : ℕ)
      → c < sb.size
      → ((k : ℕ) → k < slots → slot d a k ≢ 0 → slot d a k ≢ c)
      → is_used sb d' c ≡ is_used sb d c
  pub kept :
      (c : ℕ)
      → iblock sb ip.inum ≢ c
      → ((e : ℕ) → e < sb.size → bblock sb e ≢ c)
      → (i : ℕ) → d' c i ≡ d c i
  pub size_stored : load_word (d' (iblock sb ip.inum)) (dinode_place ip + 8) ≡ 0

get_or-clear : (n : ℕ) (a : List ℕ) (k : ℕ) → k < n → get_or (clear n a) k 0 ≡ 0
get_or-clear zero a k h = absurd (omega (arith, h))
get_or-clear (suc n) [] k h = refl
get_or-clear (suc n) (x ∷ a) zero h = refl
get_or-clear (suc n) (x ∷ a) (suc k) h = get_or-clear n a k (omega (arith, h))

length-clear : (n : ℕ) (a : List ℕ) → length (clear n a) ≡ length a
length-clear zero a = refl
length-clear (suc n) [] = refl
length-clear (suc n) (x ∷ a) = omega (arith, length-clear n a)

get_or-clear_late : (n : ℕ) (a : List ℕ) (k : ℕ) → n ≤ k → get_or (clear n a) k 0 ≡ get_or a k 0
get_or-clear_late zero a k h = refl
get_or-clear_late (suc n) [] k h = refl
get_or-clear_late (suc n) (x ∷ a) zero h = absurd (omega (arith, h))
get_or-clear_late (suc n) (x ∷ a) (suc k) h = get_or-clear_late n a k (omega (arith, h))

get_or-beyond : (a : List ℕ) (k : ℕ) → length a ≤ k → get_or a k 0 ≡ 0
get_or-beyond [] k h = refl
get_or-beyond (x ∷ a) zero h = absurd (omega (arith, h))
get_or-beyond (x ∷ a) (suc k) h = get_or-beyond a k (omega (arith, h))

get_or-set_zero : (a : List ℕ) (n k : ℕ) → (n ≢ k → get_or a k 0 ≡ 0) → get_or (set a n 0) k 0 ≡ 0
get_or-set_zero [] n k h = refl
get_or-set_zero (x ∷ a) zero zero h = refl
get_or-set_zero (x ∷ a) zero (suc k) h = h (omega arith)
get_or-set_zero (x ∷ a) (suc n) zero h = h (omega arith)
get_or-set_zero (x ∷ a) (suc n) (suc k) h =
    get_or-set_zero a n k (λ e. h (λ q. e (omega (arith, q))))

-- The first 12 addresses are cleared, and those behind the 13th are not there.
clear-zero : (a : List ℕ) (k : ℕ) → length a ≡ 13 → 12 ≢ k → get_or (clear 12 a) k 0 ≡ 0
clear-zero a k l n = elim (Bool-cases (ltb k 12)) [
  | inl near ↦ get_or-clear 12 a k (ltb→lt k 12 near)
  | inr far ↦ get_or-beyond (clear 12 a) k (ground (arith, length-clear 12 a, l, n))
]

-- `iupdate` after the blocks have been freed.
itrunc_end-Emptied :
    (sb : Superblock) (ip : Node) (d : Disk) (a a' : List ℕ) (d1 : Disk)
    → IsTree sb d a
    → IsHome sb d a (iblock sb ip.inum)
    → Truncated sb d a d1
    → ((k : ℕ) → get_or a' k 0 ≡ 0)
    → Emptied sb ip d a a' (iupdate sb d1 ip a' 0)
unfolding iupdate
itrunc_end-Emptied sb ip d a a' d1 t home r zero_all =
    let b = iblock sb ip.inum in
    let m = put_bytes (d1 b) (dinode_place ip) (dinode_bytes ip a' 0) in
    let mark : (c : ℕ) → c < sb.size → is_used sb (update d1 b m) c ≡ is_used sb d1 c =
      λ c l. ap (λ y. test_bit y (c % bpb)) (update_ne d1 b (bblock sb c) m (home.no_map c l)) in
    record {
      cleared = zero_all;
      free = λ k l n. mark (slot d a k) (t.below k l n) ∙ r.free k l n;
      others = λ c l n. mark c l ∙ r.others c n;
      kept = λ c ne n i. ap (λ y. y i) (update_ne d1 b c m ne) ∙ r.kept c n i;
      size_stored = iupdate-size sb d1 ip a' 0 (omega arith);
    }

-- On an inode whose blocks are in use, outside of the bitmap and all different, and whose own
-- block is in use and none of these, `itrunc` does not panic; it sets the size and every address
-- to 0, frees every block of the inode, the indirect one too, leaves every other block marked as
-- it was, and changes no block but those of the bitmap and the inode's own, which has the size 0
-- then.
pub itrunc_lem :
    (sb : Superblock) (ip : Node) (d : Disk) (a : List ℕ)
    → IsTree sb d a
    → IsHome sb d a (iblock sb ip.inum)
    → (a' : List ℕ) × (d' : Disk) × (itrunc sb ip d a ≡ some (a', 0, d')) × Emptied sb ip d a a' d'
unfolding itrunc
itrunc_lem sb ip d a t home =
    let (d1, e, r) = direct-freed sb d a t in
    elim (Bool-cases (get_or a 12 0 == 0)) [
      | inl missing ↦
          let z : get_or a 12 0 ≡ 0 = ==→eq (get_or a 12 0) 0 missing in
          let all_zero : (k : ℕ) → get_or (clear 12 a) k 0 ≡ 0 = λ k. elim (Bool-cases (12 == k)) [
            | inl here ↦
                subst (λ x. get_or (clear 12 a) x 0 ≡ 0) (==→eq 12 k here)
                  (get_or-clear_late 12 a 12 (omega arith) ∙ z)
            | inr there ↦ clear-zero a k t.addresses (==→ne 12 k there)
          ] in
          (
            clear 12 a,
            iupdate sb d1 ip (clear 12 a) 0,
            rw (e, missing, itrunc) refl,
            itrunc_end-Emptied sb ip d a (clear 12 a) d1 t home (without_indirect sb d a t d1 r z)
                all_zero,
          )
      | inr present ↦
          let n : get_or a 12 0 ≢ 0 = ==→ne (get_or a 12 0) 0 present in
          let (d2, e', s) = indirect-freed sb d a t d1 r n in
          elim (Option-cases (bfree sb d2 (get_or a 12 0))) [
            | inl fails ↦
                let clear : is_used sb d2 (get_or a 12 0) ≡ false =
                  subst (Freed sb d2 (get_or a 12 0)) fails (bfree_lem sb d2 (get_or a 12 0)) in
                absurd (cc (clear, ind_used sb d a t d1 r n d2 s))
            | inr (d3, goes) ↦
                let freed =
                  subst (Freed sb d2 (get_or a 12 0)) goes (bfree_lem sb d2 (get_or a 12 0)) in
                let a' = set (clear 12 a) 12 0 in
                (
                  a',
                  iupdate sb d3 ip a' 0,
                  rw (e, present, e', itrunc, goes) refl,
                  itrunc_end-Emptied sb ip d a a' d3 t home
                      (with_indirect sb d a t d1 r n d2 s d3 freed)
                      (λ k. get_or-set_zero (clear 12 a) 12 k (λ q. clear-zero a k t.addresses q)),
                )
          ]
    ]
