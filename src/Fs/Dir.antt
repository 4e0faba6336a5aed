-- ===== src/Fs/Dir.antt =====
-- fs.c: the entries of a directory. A directory is an inode of Content, with the disk, the addresses
-- and the size; its entries are 16 bytes each, an inode number and 14 bytes of a name. A name to
-- look for is the list of its characters, without the final NUL.
pub mod Names
pub mod Find
pub mod Lookup
pub mod Link
pub mod Add
mod Tests
use assignment1_cs.Base.{
  ℕ, zero, suc, ◌+◌, ◌-◌, ◌*◌, ◌/◌, ◌%◌, ◌^◌, Option, none, some, List, [], ◌∷◌, ◌++◌, drop, get_or,
  length, if◌then◌else◌, ◌==◌, ltb,
}
use assignment1_cs.Strings.{Memory, strncmp, strncpy}
use assignment1_cs.Fs.Bitmap.{Disk, Superblock}
use assignment1_cs.Fs.Path.{Name, dirsiz}
use assignment1_cs.Fs.Content.{
  bytes_at, Result, panics, failed, have_read, wrote, Node, readi, writei,
}

-- `sizeof(struct dirent)`
abbrev pub entry_size : ℕ
entry_size = 2 + dirsiz

-- The first DIRSIZ bytes of two strings, one after the other in memory, with NULs behind their ends.
abbrev pub two_names : List ℕ → List ℕ → Memory
two_names s t a = if ltb a dirsiz then get_or s a 0 else get_or t (a - dirsiz) 0

pub namecmp : List ℕ → List ℕ → ℕ
namecmp s t = strncmp 0 dirsiz dirsiz (two_names s t)

-- `de.inum`
abbrev pub inum_of : List ℕ → ℕ
inum_of bytes = get_or bytes 0 0 + get_or bytes 1 0 * 2 ^ 8

-- A directory in memory and on the disk.
pub record Dir : Type 0 where
  pub disk : Disk
  pub addrs : List ℕ
  pub size : ℕ
  pub node : Node

-- `readi(dp, (char*)&de, off, sizeof(de))`, where another result than `sizeof(de)` is a panic.
pub read_entry : Superblock → Dir → ℕ → Option (List ℕ × Dir)
read_entry sb dp off = elim (readi sb dp.disk dp.addrs dp.size off entry_size) [
  | have_read bytes addrs' d' ↦
      if length bytes == entry_size
      then some (bytes, record dp { disk = d'; addrs = addrs' })
      else none
  | panics ↦ none
  | failed ↦ none
  | wrote n addrs' d' size' ↦ none
]

-- The loop of `dirlookup` from `off` on, for at most `fuel` rounds: the offset of the entry and its
-- inode number, which `iget` is called with.
pub dirlookup_loop : ℕ → Superblock → Dir → Name → ℕ → Option (Option (ℕ × ℕ) × Dir)
dirlookup_loop zero sb dp name off = none
dirlookup_loop (suc fuel) sb dp name off =
    if ltb off dp.size
    then elim (read_entry sb dp off) [
      | none ↦ none
      | some (de, dp') ↦
          let rest = dirlookup_loop fuel sb dp' name (off + entry_size) in
          if inum_of de == 0
          then rest
          else (if namecmp name (drop 2 de) == 0 then some (some (off, inum_of de), dp') else rest)
    ]
    else some (none, dp)

-- `T_DIR`
abbrev pub t_dir : ℕ
t_dir = 1

-- A round takes an entry. `iget` of the inode number that is found belongs to Icache.
pub dirlookup : Superblock → Dir → Name → Option (Option (ℕ × ℕ) × Dir)
dirlookup sb dp name =
    if dp.node.type == t_dir then dirlookup_loop (suc (dp.size / entry_size)) sb dp name 0 else none

-- The loop of `dirlink` that looks for an empty entry.
pub find_empty : ℕ → Superblock → Dir → ℕ → Option (ℕ × Dir)
find_empty zero sb dp off = none
find_empty (suc fuel) sb dp off =
    if ltb off dp.size
    then elim (read_entry sb dp off) [
      | none ↦ none
      | some (de, dp') ↦
          let rest = find_empty fuel sb dp' (off + entry_size) in
          if inum_of de == 0 then some (off, dp') else rest
    ]
    else some (off, dp)

-- `strncpy(de.name, name, DIRSIZ)`, and `de.inum`, a `ushort`, before it.
abbrev pub stored_name : Name → List ℕ
stored_name name = bytes_at (strncpy 0 dirsiz dirsiz (two_names [] name)) 0 dirsiz

abbrev pub new_entry : Name → ℕ → List ℕ
new_entry name inum = inum % 2 ^ 8 ∷ inum / 2 ^ 8 % 2 ^ 8 ∷ stored_name name

-- `exists` is the result -1, for a name that is there, with the number of the inode whose reference
-- `dirlookup` has taken and `iput` drops.
pub data Linked : Type 0 where
  panic : Linked
  exists : ℕ → Dir → Linked
  linked : Dir → Linked

-- What `dirlink` makes of the result of `writei`.
abbrev pub link_result : Node → Result → Linked
link_result ip (wrote n addrs' d' size') =
    if n == entry_size
    then linked (record { disk = d'; addrs = addrs'; size = size'; node = ip })
    else panic
link_result ip panics = panic
link_result ip failed = panic
link_result ip (have_read bytes addrs' d') = panic

pub dirlink : Superblock → Dir → Name → ℕ → Linked
dirlink sb dp name inum = elim (dirlookup sb dp name) [
  | none ↦ panic
  | some (some (off, inum'), dp') ↦ exists inum' dp'
  | some (none, dp') ↦ elim (find_empty (suc (dp'.size / entry_size)) sb dp' 0) [
    | none ↦ panic
    | some (off, dp'') ↦
        link_result dp''.node
          (writei sb dp''.node dp''.disk dp''.addrs dp''.size off (new_entry name inum))
  ]
]
