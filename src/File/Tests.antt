-- ===== src/File/Tests.antt =====
-- A file table with two files, and a write to a small file.
use assignment1_cs.Base.{
  held, drop_ref, ℕ, zero, suc, ◌<◌, ◌≡◌, ◌⊎◌, refl, sym, ap, true, false, none, some, List, [],
  ◌∷◌, get_elem?, arith, some_inj,
}
use assignment1_cs.File.{
  File, FileType, fd_pipe, fd_inode, fd_none, Ftable, Closing, begin_op, end_op, iput, fileclose,
}
use assignment1_cs.File.Refs.{FileCounted, Closes, fileclose-Counted}
use assignment1_cs.File.Chunks.{Open}
use assignment1_cs.Fs.Content.Sample.{disk_with, addrs, node}

abbrev open_file : FileType → ℕ → File
open_file type ref = record {
  type = type;
  ref = ref;
  readable = true;
  writable = false;
  pipe = 3;
  ip = 5;
  off = 0;
}

abbrev files : Ftable
files = open_file fd_pipe 2 ∷ open_file fd_none 0 ∷ open_file fd_inode 1 ∷ []

abbrev held_refs : List ℕ
held_refs = 0 ∷ 2 ∷ 0 ∷ []

files-Counted : FileCounted files held_refs
files-Counted = record { counts = counted; inside = λ i e. outside i e }
  where
    counted : (i : ℕ) (f : File) → get_elem? files i ≡ some f → f.ref ≡ held held_refs i
    counted zero f e = ap (λ g. g.ref) (sym (some_inj e))
    counted (suc zero) f e = ap (λ g. g.ref) (sym (some_inj e))
    counted (suc (suc zero)) f e = ap (λ g. g.ref) (sym (some_inj e))
    counted (suc (suc (suc i))) f e = cc e

    outside : (i : ℕ) → get_elem? files i ≡ none → held held_refs i ≡ 0
    outside zero e = cc e
    outside (suc zero) e = refl
    outside (suc (suc zero)) e = cc e
    outside (suc (suc (suc i))) e = ground arith

close_inode :
    fileclose files 2
    ≡ some (
      open_file fd_pipe 2 ∷ open_file fd_none 0 ∷ open_file fd_none 0 ∷ [],
      begin_op ∷ iput 5 ∷ end_op ∷ [],
    )
unfolding fileclose
close_inode = refl

fileclose-Counted_example :
    (u : Ftable) × (es : List Closing) × (f : File) × (fileclose files 2 ≡ some (u, es))
    × FileCounted u (drop_ref held_refs 2)
    × (get_elem? files 2 ≡ some f)
    × (((held held_refs 2 ≡ 1) × Closes f es) ⊎ ((1 < held held_refs 2) × (es ≡ [])))
fileclose-Counted_example = fileclose-Counted files held_refs files-Counted 2 (omega arith)

-- Inode 1, a file of five bytes, open at its fourth.
abbrev five_bytes : Open
five_bytes = record { off = 4; node = node; disk = disk_with (λ i. 7); addrs = addrs; size = 5 }
