-- ===== src/Fs/Content/Home.antt =====
-- The block of the inode itself, which `iupdate` writes.
use assignment1_cs.Base.{
  ℕ, ◌+◌, ◌-◌, ◌*◌, ◌/◌, ◌%◌, ◌^◌, ◌≤◌, ◌<◌, ◌≡◌, ◌≢◌, inl, inr, ap, sym, ◌∙◌, subst, true, List,
  get_or, if◌then◌else◌, ◌==◌, ==→eq, ==→ne, Bool-cases, leb, update, update_self, update_ne, arith,
}
use assignment1_cs.Strings.{Memory}
use assignment1_cs.Fs.Bitmap.{Disk, Superblock, bblock, bpb, test_bit}
use assignment1_cs.Fs.Bitmap.Marks.{is_used}
use assignment1_cs.Fs.Content.{
  maxfile, load_word, Node, iblock, iupdate, put_bytes, dinode_place, dinode_bytes,
}
use assignment1_cs.Fs.Content.Flat.{put_bytes_in}
use assignment1_cs.Fs.Content.Tree.{
  slot, slot_direct, slot_none, slot_indirect, slots, data_slot, content, IsTree,
}
use assignment1_cs.Fs.Content.Grow.{Keeps, data_slot-lt, used-ne}

-- Block `b` is in use, and neither one of the inode's blocks nor one of the bitmap.
pub record IsHome (sb : Superblock) (d : Disk) (a : List ℕ) (b : ℕ) : Type 0 where
  pub below : b < sb.size
  pub used : is_used sb d b ≡ true
  pub apart : (k : ℕ) → k < slots → b ≢ slot d a k
  pub no_map : (c : ℕ) → c < sb.size → b ≢ bblock sb c

pub IsHome-Keeps :
    (sb : Superblock) (d : Disk) (a : List ℕ) (d' : Disk) (a' : List ℕ) (b : ℕ)
    → Keeps sb d a d' a'
    → IsHome sb d a b
    → IsHome sb d' a' b
IsHome-Keeps sb d a d' a' b k h = record {
  below = h.below;
  used = k.marks b h.below h.used;
  apart = λ j l q. elim (k.fresh j l) [
    | inl e ↦ h.apart j l (q ∙ e)
    | inr free ↦ used-ne sb d free h.used (sym q)
  ];
  no_map = h.no_map;
}

module _ (sb : Superblock) (d : Disk) (a : List ℕ) (b : ℕ) (m : Memory) (h : IsHome sb d a b) where
  slot-stored : (j : ℕ) → j < slots → slot (update d b m) a j ≡ slot d a j
  slot-stored j l = elim (Bool-cases (leb j 12)) [
    | inl near ↦
        let small : j ≤ 12 = ground arith in
        slot_direct (update d b m) a j small ∙ sym (slot_direct d a j small)
    | inr far ↦
        let large : 12 < j = ground arith in
        elim (Bool-cases (get_or a 12 0 == 0)) [
          | inl missing ↦
              let z : get_or a 12 0 ≡ 0 = ==→eq (get_or a 12 0) 0 missing in
              slot_none (update d b m) a j large z ∙ sym (slot_none d a j large z)
          | inr some_block ↦
              let n : get_or a 12 0 ≢ 0 = ==→ne (get_or a 12 0) 0 some_block in
              slot_indirect (update d b m) a j large n
              ∙ ap (λ x. load_word x (4 * (j - 13)))
                  (update_ne d b (get_or a 12 0) m (h.apart 12 (omega arith)))
              ∙ sym (slot_indirect d a j large n)
        ]
  ]

  pub is_used-stored : (c : ℕ) → c < sb.size → is_used sb (update d b m) c ≡ is_used sb d c
  is_used-stored c l = ap (λ y. test_bit y (c % bpb)) (update_ne d b (bblock sb c) m (h.no_map c l))

  pub stored-IsTree : IsTree sb d a → IsTree sb (update d b m) a
  stored-IsTree t = record {
    addresses = t.addresses;
    bitmap = λ c l. is_used-stored (bblock sb c) (t.map_below c l) ∙ t.bitmap c l;
    map_below = t.map_below;
    words = t.words;
    boot = is_used-stored 0 (omega (arith, h.below)) ∙ t.boot;
    below = λ k l n.
        subst (λ x. x < sb.size) (sym (slot-stored k l))
          (t.below k l (λ z. n (slot-stored k l ∙ z)));
    used = λ k l n.
        let was : slot d a k ≢ 0 = λ z. n (slot-stored k l ∙ z) in
        subst (λ x. is_used sb (update d b m) x ≡ true) (sym (slot-stored k l))
          (is_used-stored (slot d a k) (t.below k l was) ∙ t.used k l was);
    no_map =
        λ k l n c r q. t.no_map k l (λ z. n (slot-stored k l ∙ z)) c r (sym (slot-stored k l) ∙ q);
    distinct = λ j k lj lk ne n q.
        t.distinct j k lj lk ne (λ z. n (slot-stored j lj ∙ z))
          (sym (slot-stored j lj) ∙ q ∙ slot-stored k lk);
  }

  pub stored-IsHome : IsHome sb (update d b m) a b
  stored-IsHome = record {
    below = h.below;
    used = is_used-stored b h.below ∙ h.used;
    apart = λ k l q. h.apart k l (q ∙ slot-stored k l);
    no_map = h.no_map;
  }

  pub data_slot-stored :
      (n : ℕ) → n < maxfile → slot (update d b m) a (data_slot n) ≡ slot d a (data_slot n)
  data_slot-stored n l = slot-stored (data_slot n) (data_slot-lt n l)

  pub content-stored : (n i : ℕ) → n < maxfile → content (update d b m) a n i ≡ content d a n i
  content-stored n i l = rw (data_slot-stored n l) (
      ap (λ y. if slot d a (data_slot n) == 0 then 0 else y i)
        (update_ne d b (slot d a (data_slot n)) m (h.apart (data_slot n) (data_slot-lt n l))))

-- After `iupdate` the size in the inode on the disk is that of the inode.
pub iupdate-size :
    (sb : Superblock) (d : Disk) (ip : Node) (a : List ℕ) (size : ℕ)
    → size < 2 ^ 32
    → load_word (iupdate sb d ip a size (iblock sb ip.inum)) (dinode_place ip + 8) ≡ size
unfolding iupdate
iupdate-size sb d ip a size h =
    let b = iblock sb ip.inum in
    let xs = dinode_bytes ip a size in
    let m = put_bytes (d b) (dinode_place ip) xs in
    let b0 : m (dinode_place ip + 8) ≡ size % 2 ^ 8 =
      put_bytes_in xs (d b) (dinode_place ip) 8 (omega arith) in
    let b1 : m (dinode_place ip + 8 + 1) ≡ size / 2 ^ 8 % 2 ^ 8 =
      ap m (omega arith) ∙ put_bytes_in xs (d b) (dinode_place ip) 9 (omega arith) in
    let b2 : m (dinode_place ip + 8 + 2) ≡ size / 2 ^ 16 % 2 ^ 8 =
      ap m (omega arith) ∙ put_bytes_in xs (d b) (dinode_place ip) 10 (omega arith) in
    let b3 : m (dinode_place ip + 8 + 3) ≡ size / 2 ^ 24 % 2 ^ 8 =
      ap m (omega arith) ∙ put_bytes_in xs (d b) (dinode_place ip) 11 (omega arith) in
    let word : load_word m (dinode_place ip + 8) ≡ size = omega (arith, b0, b1, b2, b3, h) in
    ap (λ y. load_word y (dinode_place ip + 8)) (update_self d b m) ∙ word
