-- ===== src/Fs/Content/Tree.antt =====
-- The tree of the blocks of an inode: the blocks that its addresses and its indirect block name.
use assignment1_cs.Base.{
  ℕ, ◌+◌, ◌-◌, ◌*◌, ◌/◌, ◌%◌, ◌^◌, ◌≤◌, ◌<◌, ◌≡◌, ◌≢◌, refl, true, false, List, get_or, length,
  if◌then◌else◌, ◌==◌, leb, ltb, arith,
}
use assignment1_cs.Fs.Bitmap.{bsize}
use assignment1_cs.Strings.{Memory, store_word}
use assignment1_cs.Fs.Bitmap.{Disk, Superblock, bblock}
use assignment1_cs.Fs.Bitmap.Marks.{is_used}
use assignment1_cs.Fs.Bitmap.Alloc.{BitmapUsed}
use assignment1_cs.Fs.Content.{ndirect, nindirect, load_word}

-- The pointers of an inode: its 13 addresses, of which the last is that of the indirect block, and
-- then the words of that block, which are 0 while there is none.
abbrev pub slot : Disk → List ℕ → ℕ → ℕ
slot d a k =
    if leb k 12
    then get_or a k 0
    else (if get_or a 12 0 == 0 then 0 else load_word (d (get_or a 12 0)) (4 * (k - 13)))

pub slot_direct : (d : Disk) (a : List ℕ) (k : ℕ) → k ≤ 12 → slot d a k ≡ get_or a k 0
slot_direct d a k h = ground arith

pub slot_none : (d : Disk) (a : List ℕ) (k : ℕ) → 12 < k → get_or a 12 0 ≡ 0 → slot d a k ≡ 0
slot_none d a k h e = rw e (ground arith)

pub slot_indirect :
    (d : Disk) (a : List ℕ) (k : ℕ)
    → 12 < k
    → get_or a 12 0 ≢ 0
    → slot d a k ≡ load_word (d (get_or a 12 0)) (4 * (k - 13))
slot_indirect d a k h n =
    let far : leb k 12 ≡ false = ground arith in
    let some_block : (get_or a 12 0 == 0) ≡ false = ground arith in rw (far, some_block) refl

abbrev pub slots : ℕ
slots = 141

-- The pointer to block `bn` of the content.
abbrev pub data_slot : ℕ → ℕ
data_slot bn = if ltb bn ndirect then bn else bn + 1

-- Byte `i` of block `bn` of the content; a block that is missing reads as zeros.
abbrev pub content : Disk → List ℕ → ℕ → ℕ → ℕ
content d a bn i = if slot d a (data_slot bn) == 0 then 0 else d (slot d a (data_slot bn)) i

-- The blocks of the inode are blocks of the disk that are in use and not in the bitmap, and no
-- block has two pointers. Block 0 is in use.
pub record IsTree (sb : Superblock) (d : Disk) (a : List ℕ) : Type 0 where
  pub addresses : length a ≡ 13
  pub bitmap : BitmapUsed sb d
  pub map_below : (c : ℕ) → c < sb.size → bblock sb c < sb.size
  pub words : sb.size ≤ 2 ^ 32
  pub boot : is_used sb d 0 ≡ true
  pub below : (k : ℕ) → k < slots → slot d a k ≢ 0 → slot d a k < sb.size
  pub used : (k : ℕ) → k < slots → slot d a k ≢ 0 → is_used sb d (slot d a k) ≡ true
  pub no_map :
      (k : ℕ) → k < slots → slot d a k ≢ 0 → (c : ℕ) → c < sb.size → slot d a k ≢ bblock sb c
  pub distinct :
      (j k : ℕ) → j < slots → k < slots → j ≢ k → slot d a j ≢ 0 → slot d a j ≢ slot d a k

pub load_word-store_word_self :
    (m : Memory) (a w : ℕ) → w < 2 ^ 32 → load_word (store_word m a w) a ≡ w
load_word-store_word_self m a w h =
    let b0 : store_word m a w a ≡ w % 256 = ground arith in
    let b1 : store_word m a w (a + 1) ≡ w / 256 % 256 = ground arith in
    let b2 : store_word m a w (a + 2) ≡ w / 65536 % 256 = ground arith in
    let b3 : store_word m a w (a + 3) ≡ w / 16777216 % 256 = ground arith in
    omega (arith, b0, b1, b2, b3, h)

pub load_word-store_word_ne :
    (m : Memory) (i j w : ℕ)
    → i ≢ j
    → load_word (store_word m (4 * i) w) (4 * j) ≡ load_word m (4 * j)
load_word-store_word_ne m i j w h =
    let n = store_word m (4 * i) w in
    let b0 : n (4 * j) ≡ m (4 * j) = ground arith in
    let b1 : n (4 * j + 1) ≡ m (4 * j + 1) = ground arith in
    let b2 : n (4 * j + 2) ≡ m (4 * j + 2) = ground arith in
    let b3 : n (4 * j + 3) ≡ m (4 * j + 3) = ground arith in omega (arith, b0, b1, b2, b3)

-- Words of blocks that agree in their bytes.
pub load_word_same :
    (m n : Memory) (j : ℕ)
    → j < nindirect
    → ((i : ℕ) → i < bsize → m i ≡ n i)
    → load_word m (4 * j) ≡ load_word n (4 * j)
load_word_same m n j h same =
    let b0 = same (4 * j) (omega (arith, h)) in
    let b1 = same (4 * j + 1) (omega (arith, h)) in
    let b2 = same (4 * j + 2) (omega (arith, h)) in
    let b3 = same (4 * j + 3) (omega (arith, h)) in omega (arith, b0, b1, b2, b3)

pub load_word_zero :
    (m : Memory) (j : ℕ) → j < nindirect → ((i : ℕ) → i < bsize → m i ≡ 0) → load_word m (4 * j) ≡ 0
load_word_zero m j h z = load_word_same m (λ i. 0) j h z
