-- ===== src/Fs/Content/Bmap.antt =====
-- `bmap` and the content of an inode.
mod Stored
use assignment1_cs.Base.{
  ℕ, ◌+◌, ◌-◌, ◌*◌, ◌≤◌, ◌<◌, ◌≡◌, ◌≢◌, inl, inr, refl, ap, sym, ◌∙◌, subst, Bool, true, false,
  List, Option, none, some, get_or, set, length-set, get_or-set_self, get_or-set_ne, ◌==◌, ==→eq,
  ==→ne, Bool-cases, Option-cases, leb, ltb, update, update_self, update_ne, arith,
}
use assignment1_cs.Strings.{Memory, store_word}
use assignment1_cs.Fs.Bitmap.{Disk, Superblock, balloc}
use assignment1_cs.Fs.Bitmap.Marks.{is_used}
use assignment1_cs.Fs.Bitmap.Alloc.{Allocated, Balloced, balloc_lem}
use assignment1_cs.Fs.Content.{
  maxfile, ndirect, nindirect, load_word, map_direct, map_indirect, bmap,
}
use assignment1_cs.Fs.Content.Tree.{
  slot, slot_direct, slot_none, slot_indirect, slots, data_slot, IsTree, load_word-store_word_self,
  load_word-store_word_ne, load_word_same, load_word_zero,
}
use assignment1_cs.Fs.Content.Grow.{Keeps, Step, Grown, Grown-Step, Step-refl, Step-trans, used-ne}
use assignment1_cs.Fs.Content.Bmap.Stored.{direct-Grown, indirect-Grown}

-- What `bmap` gives for pointer `k`: the block that it now names, or a panic, where the pointer was
-- 0 and at most one block of the disk was free.
abbrev pub Mapped : Superblock → Disk → List ℕ → ℕ → Option (ℕ × List ℕ × Disk) → Type 0
Mapped sb d a k none =
    (slot d a k ≡ 0)
    × ((b c : ℕ)
        → b < sb.size
        → c < sb.size
        → is_used sb d b ≡ false
        → is_used sb d c ≡ false
        → b ≡ c)
Mapped sb d a k (some (b, a', d')) = Step sb d a d' a' × (slot d' a' k ≡ b) × (b ≢ 0)

-- The same for one call of `balloc`: it panics only on a full disk, and marks only the block.
abbrev BallocOnce : Superblock → Disk → List ℕ → ℕ → Option (ℕ × List ℕ × Disk) → Type 0
BallocOnce sb d a k none = (slot d a k ≡ 0) × ((c : ℕ) → c < sb.size → is_used sb d c ≡ true)
BallocOnce sb d a k (some (b, a', d')) =
    Step sb d a d' a'
    × (slot d' a' k ≡ b)
    × (b ≢ 0)
    × ((c : ℕ) → c < sb.size → is_used sb d c ≡ false → is_used sb d' c ≡ true → c ≡ b)

not_used : {u : Bool} → u ≡ false → u ≡ true → ⊥
not_used f t = cc (f, t)

only_marked :
    (sb : Superblock) (d d1 : Disk) (b c : ℕ)
    → Allocated sb d d1 b
    → c < sb.size
    → is_used sb d c ≡ false
    → is_used sb d1 c ≡ true
    → c ≡ b
only_marked sb d d1 b c alloc h free now = elim (Bool-cases (b == c)) [
  | inl same ↦ sym (==→eq b c same)
  | inr other ↦ absurd (not_used (alloc.others c h (==→ne b c other) ∙ free) now)
]

map_direct-BallocOnce :
    (sb : Superblock) (d : Disk) (a : List ℕ) (k : ℕ)
    → IsTree sb d a
    → k ≤ 12
    → BallocOnce sb d a k (map_direct sb d a k)
unfolding map_direct
map_direct-BallocOnce sb d a k t h = elim (Bool-cases (get_or a k 0 == 0)) [
  | inr present ↦ rw present (
    Step-refl sb d a t,
    slot_direct d a k h,
    ==→ne (get_or a k 0) 0 present,
    λ c l free now. absurd (not_used free now),
  )
  | inl missing ↦ elim (Option-cases (balloc sb d)) [
    | inl full ↦
        rw (missing, full)
          (
            slot_direct d a k h ∙ ==→eq (get_or a k 0) 0 missing,
            subst (Balloced sb d) full (balloc_lem sb d t.bitmap),
          )
    | inr ((b, d1), given) ↦
        let alloc : Allocated sb d d1 b = subst (Balloced sb d) given (balloc_lem sb d t.bitmap) in
        let g = direct-Grown sb d d1 a k b t alloc h (==→eq (get_or a k 0) 0 missing) in
        rw (missing, given)
          (
            Grown-Step sb d a d1 d1 (set a k b) k b t g,
            g.new,
            used-ne sb d alloc.free t.boot,
            λ c l free now. only_marked sb d d1 b c alloc l free now,
          )
  ]
]

abbrev Indirect : Superblock → Disk → List ℕ → ℕ → Option (ℕ × Disk) → Type 0
Indirect sb d a i none = (slot d a (i + 13) ≡ 0) × ((c : ℕ) → c < sb.size → is_used sb d c ≡ true)
Indirect sb d a i (some (b, d')) = Step sb d a d' a × (slot d' a (i + 13) ≡ b) × (b ≢ 0)

map_indirect-Indirect :
    (sb : Superblock) (d : Disk) (a : List ℕ) (i : ℕ)
    → IsTree sb d a
    → i < nindirect
    → get_or a 12 0 ≢ 0
    → Indirect sb d a i (map_indirect sb d (get_or a 12 0) i)
unfolding map_indirect
map_indirect-Indirect sb d a i t h m =
    let word = load_word (d (get_or a 12 0)) (4 * i) in
    let index : i + 13 - 13 ≡ i = omega arith in
    let at : slot d a (i + 13) ≡ word =
      slot_indirect d a (i + 13) (omega arith) m
      ∙ ap (λ x. load_word (d (get_or a 12 0)) (4 * x)) index in
    elim (Bool-cases (word == 0)) [
      | inr present ↦ rw present (Step-refl sb d a t, at, ==→ne word 0 present)
      | inl missing ↦ elim (Option-cases (balloc sb d)) [
        | inl full ↦
            rw (missing, full)
              (at ∙ ==→eq word 0 missing, subst (Balloced sb d) full (balloc_lem sb d t.bitmap))
        | inr ((b, d1), given) ↦
            let alloc : Allocated sb d d1 b =
              subst (Balloced sb d) given (balloc_lem sb d t.bitmap) in
            let g = indirect-Grown sb d d1 a i b t alloc h m (at ∙ ==→eq word 0 missing) in
            rw (missing, given)
              (Grown-Step sb d a d1 _ a (i + 13) b t g, g.new, used-ne sb d alloc.free t.boot)
      ]
    ]

pub missing_before :
    (sb : Superblock) (d : Disk) (a : List ℕ) (d' : Disk) (a' : List ℕ) (k : ℕ)
    → Keeps sb d a d' a'
    → k < slots
    → slot d' a' k ≡ 0
    → slot d a k ≡ 0
missing_before sb d a d' a' k s h e = elim (Bool-cases (slot d a k == 0)) [
  | inl z ↦ ==→eq (slot d a k) 0 z
  | inr n ↦ sym (s.grown k h (==→ne (slot d a k) 0 n)) ∙ e
]

-- `bmap` behind the first 12 blocks.
indirect-Mapped :
    (sb : Superblock) (d : Disk) (a : List ℕ) (bn : ℕ)
    → IsTree sb d a
    → ltb bn ndirect ≡ false
    → bn < maxfile
    → Mapped sb d a (data_slot bn) (bmap sb d a bn)
unfolding bmap
indirect-Mapped sb d a bn t far h =
    let near : ltb (bn - ndirect) nindirect ≡ true = ground arith in
    let place : bn + 1 ≡ bn - ndirect + 13 = ground arith in
    let first = map_direct-BallocOnce sb d a 12 t (omega arith) in
    elim (Option-cases (map_direct sb d a ndirect)) [
      | inl full ↦
          let (empty, all) = subst (BallocOnce sb d a 12) full first in
          rw (far, near, full)
            (
              slot_none d a (bn + 1) (ground arith) empty,
              λ b c lb lc fb fc. absurd (not_used fb (all b lb)),
            )
      | inr ((addr, a', d'), given) ↦
          let (step, at, present, marked) = subst (BallocOnce sb d a 12) given first in
          let ind : get_or a' 12 0 ≡ addr = at in
          let second =
            subst (λ x. Indirect sb d' a' (bn - ndirect) (map_indirect sb d' x (bn - ndirect))) ind
              (map_indirect-Indirect sb d' a' (bn - ndirect) step.keeps.tree (ground arith)
                (λ z. present (sym ind ∙ z))) in
          elim (Option-cases (map_indirect sb d' addr (bn - ndirect))) [
            | inl full ↦
                let (empty, all) = subst (Indirect sb d' a' (bn - ndirect)) full second in
                let before : slot d' a' (bn + 1) ≡ 0 = ap (slot d' a') place ∙ empty in
                rw (far, near, given, full)
                  (
                    missing_before sb d a d' a' (bn + 1) step.keeps (omega (arith, h)) before,
                    λ b c lb lc fb fc. marked b lb fb (all b lb) ∙ sym (marked c lc fc (all c lc)),
                  )
            | inr ((b, d''), written) ↦
                let (step', at', present') =
                  subst (Indirect sb d' a' (bn - ndirect)) written second in
                rw (far, near, given, written)
                  (
                    Step-trans sb d a d' a' d'' a' step step',
                    ap (slot d'' a') place ∙ at',
                    present',
                  )
          ]
    ]

direct-Mapped :
    (sb : Superblock) (d : Disk) (a : List ℕ) (bn : ℕ)
    → IsTree sb d a
    → ltb bn ndirect ≡ true
    → Mapped sb d a (data_slot bn) (bmap sb d a bn)
unfolding bmap
direct-Mapped sb d a bn t near =
    let first = map_direct-BallocOnce sb d a bn t (ground arith) in
    elim (Option-cases (map_direct sb d a bn)) [
      | inl full ↦
          let (empty, all) = subst (BallocOnce sb d a bn) full first in
          rw (near, full) (empty, λ b c lb lc fb fc. absurd (not_used fb (all b lb)))
      | inr ((b, a', d'), given) ↦
          let (step, at, present, marked) = subst (BallocOnce sb d a bn) given first in
          rw (near, given) (step, at, present)
    ]

-- On an inode whose blocks are in use, outside of the bitmap and all different, `bmap` of a block
-- of the content either panics, and then that block is missing and at most one block of the disk
-- is free, or returns the block that the inode now has there, which is not 0; the inode keeps that
-- form, its content with zeros for missing blocks and its other pointers stay, new pointers name
-- blocks that were free, and no block in use changes but those of the inode and of the bitmap.
pub bmap_lem :
    (sb : Superblock) (d : Disk) (a : List ℕ) (bn : ℕ)
    → IsTree sb d a
    → bn < maxfile
    → Mapped sb d a (data_slot bn) (bmap sb d a bn)
bmap_lem sb d a bn t h = elim (Bool-cases (ltb bn ndirect)) [
  | inr far ↦ indirect-Mapped sb d a bn t far h
  | inl near ↦ direct-Mapped sb d a bn t near
]
