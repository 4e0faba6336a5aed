-- ===== src/Fs/Bitmap.antt =====
-- fs.c: the bitmap of free blocks, `balloc` and `bfree`. A disk gives for a block its bytes, as the
-- buffer cache shows them; the blocks that change go to the log by `log_write` (Log). `none` is a
-- panic. The superblock is that of a disk of less than 2 ^ 32 - BPB blocks.
pub mod Bits
pub mod Marks
pub mod Alloc
mod Tests
use assignment1_cs.Base.{
  ℕ, zero, suc, ◌+◌, ◌-◌, ◌*◌, ◌/◌, ◌%◌, ◌^◌, Bool, true, false, ◌&&◌, Option, none, some,
  if◌then◌else◌, ◌==◌, ltb, update,
}
use assignment1_cs.Strings.{Memory, memset}

abbrev pub bsize : ℕ
bsize = 512

abbrev pub Disk : Type 0
Disk = ℕ → Memory

pub record Superblock : Type 0 where
  pub size : ℕ
  pub bmapstart : ℕ
  pub inodestart : ℕ

-- `BPB`, written out.
abbrev pub bpb : ℕ
bpb = 4096

-- `BBLOCK`
abbrev pub bblock : Superblock → ℕ → ℕ
bblock sb b = b / bpb + sb.bmapstart

-- Bit `i` of a byte: whether `x & (1 << i)` is not 0.
unfoldable pub bit : ℕ → ℕ → Bool
bit x zero = x % 2 == 1
bit x (suc i) = bit (x / 2) i

-- `bp->data[bi/8] & m`
abbrev pub test_bit : Memory → ℕ → Bool
test_bit bytes bi = bit (bytes (bi / 8)) (bi % 8)

abbrev pub set_byte : Disk → ℕ → ℕ → ℕ → Disk
set_byte d b i v = update d b (update (d b) i v)

-- `bp->data[bi/8] |= m`, where the bit is clear.
abbrev pub mark : Disk → ℕ → ℕ → Disk
mark d b bi = set_byte d b (bi / 8) (d b (bi / 8) + 2 ^ (bi % 8))

-- `bp->data[bi/8] &= ~m`, where the bit is set.
abbrev pub unmark : Disk → ℕ → ℕ → Disk
unmark d b bi = set_byte d b (bi / 8) (d b (bi / 8) - 2 ^ (bi % 8))

abbrev pub bzero : Disk → ℕ → Disk
bzero d b = update d b (memset 0 0 bsize (d b))

-- The inner loop of `balloc`, from `bi` on for at most `fuel` rounds: the first clear bit.
pub scan : ℕ → ℕ → Memory → ℕ → ℕ → Option ℕ
scan zero size bytes b bi = none
scan (suc fuel) size bytes b bi =
    let rest = scan fuel size bytes b (bi + 1) in
    if ltb bi bpb && ltb (b + bi) size then (if test_bit bytes bi then rest else some bi) else none

-- The outer loop, from `b` on for at most `fuel` rounds.
pub balloc_loop : ℕ → Superblock → Disk → ℕ → Option (ℕ × Disk)
balloc_loop zero sb d b = none
balloc_loop (suc fuel) sb d b =
    if ltb b sb.size
    then elim (scan bpb sb.size (d (bblock sb b)) b 0) [
      | none ↦ balloc_loop fuel sb d (b + bpb)
      | some bi ↦ some (b + bi, bzero (mark d (bblock sb b) bi) (b + bi))
    ]
    else none

-- A round passes at least one block.
pub balloc : Superblock → Disk → Option (ℕ × Disk)
balloc sb d = balloc_loop sb.size sb d 0

pub bfree : Superblock → Disk → ℕ → Option Disk
bfree sb d b =
    if test_bit (d (bblock sb b)) (b % bpb) then some (unmark d (bblock sb b) (b % bpb)) else none
