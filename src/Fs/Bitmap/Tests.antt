-- ===== src/Fs/Bitmap/Tests.antt =====
-- A disk of eight blocks of which block 1 is the bitmap: the first four blocks are in use.
use assignment1_cs.Base.{◌≡◌, true, none, some, refl, if◌then◌else◌, ◌==◌, subst, sym, arith}
use assignment1_cs.Fs.Bitmap.{
  Disk, Superblock, bblock, bit, mark, bzero, scan, balloc_loop, balloc, bfree,
}
use assignment1_cs.Fs.Bitmap.Marks.{is_used}
use assignment1_cs.Fs.Bitmap.Alloc.{BitmapUsed, Balloced, balloc_lem}

abbrev small : Superblock
small = record { size = 8; bmapstart = 1; inodestart = 2 }

abbrev four_used : Disk
four_used b i = if b == 1 then (if i == 0 then 15 else 0) else 7

four_used-BitmapUsed : BitmapUsed small four_used
unfolding bit
four_used-BitmapUsed c h =
    let e : bblock small c ≡ 1 = omega (arith, h) in
    subst (λ k. is_used small four_used k ≡ true) (sym e) refl

-- Block 4 after `balloc`.
abbrev five_used : Disk
five_used = bzero (mark four_used 1 4) 4

balloc_first : balloc small four_used ≡ some (4, five_used)
unfolding balloc balloc_loop scan bit
balloc_first = refl

bfree_free : bfree small four_used 6 ≡ none
unfolding bfree bit
bfree_free = refl

balloc_lem_example : Balloced small four_used (balloc small four_used)
balloc_lem_example = balloc_lem small four_used four_used-BitmapUsed
