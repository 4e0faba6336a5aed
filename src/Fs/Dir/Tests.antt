-- ===== src/Fs/Dir/Tests.antt =====
-- A directory of two entries in use, "a" for inode 5 and "bb" for inode 6, and a free one between.
use assignment1_cs.Base.{ℕ, ◌≡◌, some, List, [], ◌∷◌, ◌++◌, refl, get_or, replicate, arith}
use assignment1_cs.Strings.{strncmp}
use assignment1_cs.Fs.Content.Sample.{small, disk_with, addrs, node, short-IsFile, two-IsHome}
use assignment1_cs.Fs.Dir.{Dir, dirlookup, dirlink, namecmp}
use assignment1_cs.Fs.Dir.Find.{find}
use assignment1_cs.Fs.Dir.Lookup.{bytes, entries, IsDir, Reread, dirlookup-find}
use assignment1_cs.Fs.Dir.Add.{LinkOutcome, dirlink_lem, lookup}

abbrev stored : List ℕ
stored = 5 ∷ 0 ∷ 97 ∷ replicate 29 0 ++ 6 ∷ 0 ∷ 98 ∷ 98 ∷ replicate 12 0

abbrev two_entries : Dir
two_entries = record {
  disk = disk_with (λ i. get_or stored i 0);
  addrs = addrs;
  size = 48;
  node = node;
}

two_entries-IsDir : IsDir small two_entries
two_entries-IsDir = record {
  file = short-IsFile (λ i. get_or stored i 0) 48 (omega arith);
  whole = refl;
  home = two-IsHome (λ i. get_or stored i 0);
  is_dir = refl;
}

find_bb : lookup two_entries (98 ∷ 98 ∷ []) ≡ some (32, 6)
unfolding namecmp strncmp
find_bb = refl

dirlookup-find_example :
    (dp' : Dir) × (dirlookup small two_entries (98 ∷ 98 ∷ [])
      ≡ some (find (entries two_entries) (bytes two_entries) (98 ∷ 98 ∷ []) 0, dp'))
    × Reread small two_entries dp'
dirlookup-find_example = dirlookup-find small two_entries (98 ∷ 98 ∷ []) two_entries-IsDir

dirlink_lem_example :
    LinkOutcome small two_entries (99 ∷ []) 7 (dirlink small two_entries (99 ∷ []) 7)
dirlink_lem_example =
    dirlink_lem small two_entries (99 ∷ []) 7 two_entries-IsDir (omega arith) (omega arith)
      (omega arith) (omega arith)
