-- ===== src/Fs/Content/Store.antt =====
-- A block of the content that is written anew.
use assignment1_cs.Base.{
  ℕ, ◌-◌, ◌*◌, ◌%◌, ◌≤◌, ◌<◌, ◌≡◌, ◌≢◌, inl, inr, ap, sym, ◌∙◌, subst, true, false, List, get_or,
  if◌then◌else◌, ◌==◌, ==→eq, ==→ne, Bool-cases, leb, update, update_self, update_ne, arith,
}
use assignment1_cs.Strings.{Memory}
use assignment1_cs.Fs.Bitmap.{Disk, Superblock, bblock, bpb, test_bit}
use assignment1_cs.Fs.Bitmap.Marks.{is_used}
use assignment1_cs.Fs.Content.{maxfile, load_word}
use assignment1_cs.Fs.Content.Tree.{
  slot, slot_direct, slot_none, slot_indirect, slots, data_slot, content, IsTree,
}
use assignment1_cs.Fs.Content.Grow.{Keeps, data_slot-lt, data_slot-ne}

pub data_slot-injective : (m n : ℕ) → m ≢ n → data_slot m ≢ data_slot n
data_slot-injective m n h = ground arith

module _ (sb : Superblock) (d : Disk) (a : List ℕ) (bn : ℕ) (m : Memory) (t : IsTree sb d a)
    (h : bn < maxfile) (present : slot d a (data_slot bn) ≢ 0) where
  abbrev written : Disk
  written = update d (slot d a (data_slot bn)) m

  slot-written : (j : ℕ) → j < slots → slot written a j ≡ slot d a j
  slot-written j l = elim (Bool-cases (leb j 12)) [
    | inl near ↦
        let small : j ≤ 12 = ground arith in
        slot_direct written a j small ∙ sym (slot_direct d a j small)
    | inr far ↦
        let large : 12 < j = ground arith in
        elim (Bool-cases (get_or a 12 0 == 0)) [
          | inl missing ↦
              let z : get_or a 12 0 ≡ 0 = ==→eq (get_or a 12 0) 0 missing in
              slot_none written a j large z ∙ sym (slot_none d a j large z)
          | inr some_block ↦
              let n : get_or a 12 0 ≢ 0 = ==→ne (get_or a 12 0) 0 some_block in
              slot_indirect written a j large n
              ∙ ap (λ x. load_word x (4 * (j - 13)))
                  (update_ne d (slot d a (data_slot bn)) (get_or a 12 0) m (
                    t.distinct (data_slot bn) 12 (data_slot-lt bn h) (omega arith) (data_slot-ne bn)
                      present))
              ∙ sym (slot_indirect d a j large n)
        ]
  ]

  is_used-written : (c : ℕ) → c < sb.size → is_used sb written c ≡ is_used sb d c
  is_used-written c l =
      ap (λ y. test_bit y (c % bpb))
        (update_ne d (slot d a (data_slot bn)) (bblock sb c) m
          (t.no_map (data_slot bn) (data_slot-lt bn h) present c l))

  written-IsTree : IsTree sb written a
  written-IsTree = record {
    addresses = t.addresses;
    bitmap = λ c l. is_used-written (bblock sb c) (t.map_below c l) ∙ t.bitmap c l;
    map_below = t.map_below;
    words = t.words;
    boot =
        is_used-written 0 (omega (arith, t.below (data_slot bn) (data_slot-lt bn h) present))
        ∙ t.boot;
    below = λ k l n.
        subst (λ x. x < sb.size) (sym (slot-written k l))
          (t.below k l (λ z. n (slot-written k l ∙ z)));
    used = λ k l n.
        let was : slot d a k ≢ 0 = λ z. n (slot-written k l ∙ z) in
        subst (λ x. is_used sb written x ≡ true) (sym (slot-written k l))
          (is_used-written (slot d a k) (t.below k l was) ∙ t.used k l was);
    no_map = λ k l n c r q.
        t.no_map k l (λ z. n (slot-written k l ∙ z)) c r (sym (slot-written k l) ∙ q);
    distinct = λ j k lj lk ne n q.
        t.distinct j k lj lk ne (λ z. n (slot-written j lj ∙ z))
          (sym (slot-written j lj) ∙ q ∙ slot-written k lk);
  }

  pub written-Keeps : Keeps sb d a written a
  written-Keeps = record {
    tree = written-IsTree;
    grown = λ k l n. slot-written k l;
    fresh = λ k l. inl (slot-written k l);
    marks = λ c l u. is_used-written c l ∙ u;
    outside = λ c l u n r i.
        ap (λ y. y i)
          (update_ne d (slot d a (data_slot bn)) c m
            (λ q. n (data_slot bn) (data_slot-lt bn h) (sym q)));
  }

  pub content-written_self : (i : ℕ) → content written a bn i ≡ m i
  content-written_self i =
      let same = slot-written (data_slot bn) (data_slot-lt bn h) in
      let e : (slot d a (data_slot bn) == 0) ≡ false = ground arith in
      rw (same, e) (ap (λ y. y i) (update_self d (slot d a (data_slot bn)) m))

  pub content-written_ne :
      (n i : ℕ) → n < maxfile → bn ≢ n → content written a n i ≡ content d a n i
  content-written_ne n i l ne =
      let same = slot-written (data_slot n) (data_slot-lt n l) in
      let apart =
        t.distinct (data_slot bn) (data_slot n) (data_slot-lt bn h) (data_slot-lt n l)
          (data_slot-injective bn n ne) present in
      rw same (
        ap (λ y. if slot d a (data_slot n) == 0 then 0 else y i)
          (update_ne d (slot d a (data_slot bn)) (slot d a (data_slot n)) m apart))
