-- ===== src/Fs/Content/Tests.antt =====
-- Runs on a file of five bytes.
use assignment1_cs.Base.{
  some, ℕ, ◌+◌, ◌-◌, ◌<◌, ◌≡◌, ◌⊎◌, ◌↔◌, refl, List, [], ◌∷◌, min, update, arith,
}
use assignment1_cs.Fs.Bitmap.{Disk}
use assignment1_cs.Fs.Content.{
  itrunc, iupdate, bytes_at, put_bytes, failed, have_read, wrote, readi, writei, readi_loop,
  writei_loop, bmap, map_direct,
}
use assignment1_cs.Fs.Content.Sample.{
  small, disk_with, addrs, node, addrs-IsTree, short-IsFile, two-IsHome,
}
use assignment1_cs.Fs.Content.Tree.{data_slot}
use assignment1_cs.Fs.Content.Grow.{Step}
use assignment1_cs.Fs.Content.Bmap.{Mapped, bmap_lem}
use assignment1_cs.Fs.Content.Home.{IsHome}
use assignment1_cs.Fs.Content.Transfer.{view, max_bytes}
use assignment1_cs.Fs.Content.Trunc.{Emptied, itrunc_lem}
use assignment1_cs.Fs.Content.Inode.{IsFile, readi_lem, readi-writei, writei_fails_iff}

-- A file of five bytes, each of them 7.
abbrev four_used : Disk
four_used = disk_with (λ i. 7)

five_bytes : IsFile small four_used addrs 5
five_bytes = short-IsFile (λ i. 7) 5 (omega arith)

block_two-IsHome : IsHome small four_used addrs 2
block_two-IsHome = two-IsHome (λ i. 7)

read_all : readi small four_used addrs 5 0 9 ≡ have_read (7 ∷ 7 ∷ 7 ∷ 7 ∷ 7 ∷ []) addrs four_used
unfolding readi readi_loop bmap map_direct
read_all = refl

abbrev longer : Disk
longer = iupdate small (update four_used 3 (put_bytes (four_used 3) 4 (1 ∷ 2 ∷ []))) node addrs 6

write_end : writei small node four_used addrs 5 4 (1 ∷ 2 ∷ []) ≡ wrote 2 addrs longer 6
unfolding writei writei_loop bmap map_direct iupdate
write_end = refl

write_gap : writei small node four_used addrs 5 6 (1 ∷ []) ≡ failed
unfolding writei
write_gap = refl

bmap_lem_example : Mapped small four_used addrs (data_slot 20) (bmap small four_used addrs 20)
bmap_lem_example = bmap_lem small four_used addrs 20 (addrs-IsTree (λ i. 7)) (omega arith)

readi_lem_example :
    (a' : List ℕ) × (d' : Disk) × (readi small four_used addrs 5 1 9
      ≡ have_read (bytes_at (view four_used addrs) 1 (min 9 (5 - 1))) a' d')
    × Step small four_used addrs d' a'
readi_lem_example = readi_lem small four_used addrs 5 1 9 five_bytes (omega arith) (omega arith)

readi-writei_example :
    (a'' : List ℕ) × (d'' : Disk) × (readi small longer addrs 6 4 2
      ≡ have_read (1 ∷ 2 ∷ []) a'' d'')
readi-writei_example =
    readi-writei small node four_used addrs 5 4 (1 ∷ 2 ∷ []) longer addrs 6 2 five_bytes
      block_two-IsHome (omega arith) (omega arith) write_end

writei_fails_iff_example :
    (writei small node four_used addrs 5 6 (1 ∷ []) ≡ failed) ↔ ((5 < 6) ⊎ (max_bytes < 6 + 1))
writei_fails_iff_example =
    writei_fails_iff small node four_used addrs 5 6 (1 ∷ []) (omega arith) (omega arith)

itrunc_lem_example :
    (a' : List ℕ) × (d' : Disk) × (itrunc small node four_used addrs ≡ some (a', 0, d'))
    × Emptied small node four_used addrs a' d'
itrunc_lem_example = itrunc_lem small node four_used addrs (addrs-IsTree (λ i. 7)) block_two-IsHome
