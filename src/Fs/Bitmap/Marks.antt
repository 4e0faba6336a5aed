-- ===== src/Fs/Bitmap/Marks.antt =====
-- Marking a block in the bitmap, and clearing the mark.
use assignment1_cs.Base.{
  ℕ, ◌/◌, ◌%◌, ◌≡◌, ◌≢◌, ap, sym, ◌∙◌, Bool, true, false, ◌==◌, Bool-cases, inl, inr, ==→eq, ==→ne,
  arith,
}
use assignment1_cs.Fs.Bitmap.{Disk, Superblock, bpb, bblock, bit, test_bit, set_byte, mark, unmark}
use assignment1_cs.Fs.Bitmap.Bits.{bit-add, bit-add_ne, bit-sub, bit-sub_ne}

-- The bitmap says that the block is in use.
abbrev pub is_used : Superblock → Disk → ℕ → Bool
is_used sb d b = test_bit (d (bblock sb b)) (b % bpb)

set_byte_self : (d : Disk) (k i v : ℕ) → set_byte d k i v k i ≡ v
set_byte_self d k i v = ground arith

set_byte_ne : (d : Disk) (k i v a j : ℕ) → (k ≡ a → i ≢ j) → set_byte d k i v a j ≡ d a j
set_byte_ne d k i v a j h = elim (Bool-cases (k == a)) [
  | inl same ↦ let e : k ≡ a = ==→eq k a same in let n : i ≢ j = h e in ground arith
  | inr other ↦ ground arith
]

-- A byte of the bitmap gets a value whose bits differ only at the bit of block `b`.
set_byte-is_used :
    (sb : Superblock) (d : Disk) (b v c : ℕ)
    → ((j : ℕ) → b % bpb % 8 ≢ j → bit v j ≡ bit (d (bblock sb b) (b % bpb / 8)) j)
    → b ≢ c
    → is_used sb (set_byte d (bblock sb b) (b % bpb / 8) v) c ≡ is_used sb d c
set_byte-is_used sb d b v c same n = elim (Bool-cases (bblock sb b == bblock sb c)) [
  | inr other ↦
      let e =
        set_byte_ne d (bblock sb b) (b % bpb / 8) v (bblock sb c) (c % bpb / 8)
          (λ k. absurd (==→ne (bblock sb b) (bblock sb c) other k)) in
      ap (λ x. bit x (c % bpb % 8)) e
  | inl block ↦ elim (Bool-cases (b % bpb / 8 == c % bpb / 8)) [
    | inr other ↦
        let e =
          set_byte_ne d (bblock sb b) (b % bpb / 8) v (bblock sb c) (c % bpb / 8)
            (λ k. ==→ne (b % bpb / 8) (c % bpb / 8) other) in
        ap (λ x. bit x (c % bpb % 8)) e
    | inl byte ↦
        let p : bblock sb b ≡ bblock sb c = ==→eq (bblock sb b) (bblock sb c) block in
        let q : b % bpb / 8 ≡ c % bpb / 8 = ==→eq (b % bpb / 8) (c % bpb / 8) byte in
        let apart : b % bpb % 8 ≢ c % bpb % 8 = λ k. n (omega (arith, p, q, k)) in
        rw (sym p, sym q)
          (ap (λ x. bit x (c % bpb % 8)) (set_byte_self d (bblock sb b) (b % bpb / 8) v)
            ∙ same (c % bpb % 8) apart)
  ]
]

pub mark-is_used :
    (sb : Superblock) (d : Disk) (b : ℕ)
    → is_used sb d b ≡ false
    → is_used sb (mark d (bblock sb b) (b % bpb)) b ≡ true
mark-is_used sb d b h =
    ap (λ x. bit x (b % bpb % 8)) (set_byte_self d (bblock sb b) (b % bpb / 8) _)
    ∙ bit-add (d (bblock sb b) (b % bpb / 8)) (b % bpb % 8) h

pub mark-is_used_ne :
    (sb : Superblock) (d : Disk) (b c : ℕ)
    → is_used sb d b ≡ false
    → b ≢ c
    → is_used sb (mark d (bblock sb b) (b % bpb)) c ≡ is_used sb d c
mark-is_used_ne sb d b c h n =
    set_byte-is_used sb d b _ c
      (λ j k. bit-add_ne (d (bblock sb b) (b % bpb / 8)) (b % bpb % 8) j h k) n

pub unmark-is_used :
    (sb : Superblock) (d : Disk) (b : ℕ)
    → is_used sb d b ≡ true
    → is_used sb (unmark d (bblock sb b) (b % bpb)) b ≡ false
unmark-is_used sb d b h =
    ap (λ x. bit x (b % bpb % 8)) (set_byte_self d (bblock sb b) (b % bpb / 8) _)
    ∙ bit-sub (d (bblock sb b) (b % bpb / 8)) (b % bpb % 8) h

pub unmark-is_used_ne :
    (sb : Superblock) (d : Disk) (b c : ℕ)
    → is_used sb d b ≡ true
    → b ≢ c
    → is_used sb (unmark d (bblock sb b) (b % bpb)) c ≡ is_used sb d c
unmark-is_used_ne sb d b c h n =
    set_byte-is_used sb d b _ c
      (λ j k. bit-sub_ne (d (bblock sb b) (b % bpb / 8)) (b % bpb % 8) j h k) n
