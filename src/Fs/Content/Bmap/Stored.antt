-- ===== src/Fs/Content/Bmap/Stored.antt =====
-- The tree of an inode after `bmap` has stored a new block in it.
use assignment1_cs.Base.{
  ℕ, ◌+◌, ◌-◌, ◌*◌, ◌≤◌, ◌<◌, ◌≡◌, ◌≢◌, inl, inr, refl, ap, sym, ◌∙◌, subst, List, get_or, set,
  length-set, get_or-set_self, get_or-set_ne, ◌==◌, ==→eq, ==→ne, Bool-cases, leb, update,
  update_self, update_ne, arith,
}
use assignment1_cs.Strings.{Memory, store_word}
use assignment1_cs.Fs.Bitmap.{Disk, Superblock}
use assignment1_cs.Fs.Bitmap.Alloc.{Allocated}
use assignment1_cs.Fs.Content.{nindirect, load_word}
use assignment1_cs.Fs.Content.Tree.{
  slot, slot_direct, slot_none, slot_indirect, slots, IsTree, load_word-store_word_self,
  load_word-store_word_ne, load_word_same, load_word_zero,
}
use assignment1_cs.Fs.Content.Grow.{Grown, used-ne}

-- The block that `balloc` gives for one of the 13 addresses.
pub direct-Grown :
    (sb : Superblock) (d d1 : Disk) (a : List ℕ) (k b : ℕ)
    → IsTree sb d a
    → Allocated sb d d1 b
    → k ≤ 12
    → get_or a k 0 ≡ 0
    → Grown sb d a d1 d1 (set a k b) k b
direct-Grown sb d d1 a k b t alloc h e = record {
  alloc = alloc;
  in_range = omega (arith, h);
  empty = slot_direct d a k h ∙ e;
  new = slot_direct d1 (set a k b) k h ∙ get_or-set_self a k b 0 (omega (arith, h, t.addresses));
  old = old;
  blocks = λ c n i. refl;
  addresses = length-set a k b ∙ t.addresses;
}
  where
    b_ne_zero : b ≢ 0
    b_ne_zero = used-ne sb d alloc.free t.boot

    old : (j : ℕ) → j < slots → k ≢ j → slot d1 (set a k b) j ≡ slot d a j
    old j l n = elim (Bool-cases (leb j 12)) [
      | inl near ↦
          let small : j ≤ 12 = ground arith in
          slot_direct d1 (set a k b) j small ∙ get_or-set_ne a b 0 n ∙ sym (slot_direct d a j small)
      | inr far ↦
          let large : 12 < j = ground arith in
          elim (Bool-cases (k == 12)) [
            | inl here ↦
                let p : k ≡ 12 = ==→eq k 12 here in
                let now : get_or (set a k b) 12 0 ≡ b =
                  subst (λ x. get_or (set a k b) x 0 ≡ b) p
                    (get_or-set_self a k b 0 (omega (arith, h, t.addresses))) in
                let was : get_or a 12 0 ≡ 0 = subst (λ x. get_or a x 0 ≡ 0) p e in
                slot_indirect d1 (set a k b) j large (λ z. b_ne_zero (sym now ∙ z))
                ∙ ap (λ x. load_word (d1 x) (4 * (j - 13))) now
                ∙ load_word_zero (d1 b) (j - 13) (omega (arith, l, large)) alloc.zeroed
                ∙ sym (slot_none d a j large was)
            | inr there ↦
                let now : get_or (set a k b) 12 0 ≡ get_or a 12 0 =
                  get_or-set_ne a b 0 (==→ne k 12 there) in
                elim (Bool-cases (get_or a 12 0 == 0)) [
                  | inl none_yet ↦
                      let z : get_or a 12 0 ≡ 0 = ==→eq (get_or a 12 0) 0 none_yet in
                      slot_none d1 (set a k b) j large (now ∙ z) ∙ sym (slot_none d a j large z)
                  | inr present ↦
                      let m : get_or a 12 0 ≢ 0 = ==→ne (get_or a 12 0) 0 present in
                      slot_indirect d1 (set a k b) j large (λ z. m (sym now ∙ z))
                      ∙ ap (λ x. load_word (d1 x) (4 * (j - 13))) now
                      ∙ load_word_same (d1 (get_or a 12 0)) (d (get_or a 12 0)) (j - 13)
                          (omega (arith, l, large))
                          (λ i s.
                            alloc.kept (get_or a 12 0)
                              (used-ne sb d alloc.free (t.used 12 (omega arith) m))
                              (λ q. t.no_map 12 (omega arith) m b alloc.in_range (sym q)) i)
                      ∙ sym (slot_indirect d a j large m)
                ]
          ]
    ]

-- The block that `balloc` gives for word `i` of the indirect block.
pub indirect-Grown :
    (sb : Superblock) (d d1 : Disk) (a : List ℕ) (i b : ℕ)
    → IsTree sb d a
    → Allocated sb d d1 b
    → i < nindirect
    → get_or a 12 0 ≢ 0
    → slot d a (i + 13) ≡ 0
    → let ind = get_or a 12 0 in
      Grown sb d a d1 (update d1 ind (store_word (d1 ind) (4 * i) b)) a (i + 13) b
indirect-Grown sb d d1 a i b t alloc h m e = record {
  alloc = alloc;
  in_range = omega (arith, h);
  empty = e;
  new =
      slot_indirect d' a (i + 13) (omega arith) m
      ∙ ap (λ x. load_word x (4 * (i + 13 - 13))) (update_self d1 ind written)
      ∙ ap (λ x. load_word written (4 * x)) index
      ∙ load_word-store_word_self (d1 ind) (4 * i) b (omega (arith, alloc.in_range, t.words));
  old = old;
  blocks = λ c n j. ap (λ y. y j) (update_ne d1 ind c written (λ q. n m (sym q)));
  addresses = t.addresses;
}
  where
    ind : ℕ
    ind = get_or a 12 0

    written : Memory
    written = store_word (d1 ind) (4 * i) b

    d' : Disk
    d' = update d1 ind written

    index : i + 13 - 13 ≡ i
    index = omega arith

    old : (j : ℕ) → j < slots → i + 13 ≢ j → slot d' a j ≡ slot d a j
    old j l n = elim (Bool-cases (leb j 12)) [
      | inl near ↦
          let small : j ≤ 12 = ground arith in
          slot_direct d' a j small ∙ sym (slot_direct d a j small)
      | inr far ↦
          let large : 12 < j = ground arith in
          slot_indirect d' a j large m
          ∙ ap (λ x. load_word x (4 * (j - 13))) (update_self d1 ind written)
          ∙ load_word-store_word_ne (d1 ind) i (j - 13) b (λ q. n (omega (arith, q, large)))
          ∙ load_word_same (d1 ind) (d ind) (j - 13) (omega (arith, l, large)) (λ k s.
            alloc.kept ind (used-ne sb d alloc.free (t.used 12 (omega arith) m))
              (λ q. t.no_map 12 (omega arith) m b alloc.in_range (sym q)) k)
          ∙ sym (slot_indirect d a j large m)
    ]
