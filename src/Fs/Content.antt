-- ===== src/Fs/Content.antt =====
-- fs.c: the contents of inodes. An inode's content is in the blocks that `addrs` names: the first
-- NDIRECT of them directly, the others through the words of an indirect block. `none` is a panic.
-- `readi` and `writei` are what they do to an inode that is not a device.
pub mod Tree
pub mod Grow
pub mod Bmap
pub mod Flat
pub mod Store
pub mod Transfer
pub mod Write
pub mod Home
pub mod Inode
pub mod Range
pub mod Trunc
pub mod Sample
mod Tests
use assignment1_cs.Base.{
  ℕ, zero, suc, ◌+◌, ◌-◌, ◌*◌, ◌/◌, ◌%◌, ◌^◌, Bool, true, false, Option, none, some, List, [], ◌∷◌,
  get_or, set, min, take, drop, length, ◌++◌, ◌||◌, ◌&&◌, if◌then◌else◌, ◌==◌, ltb, update,
}
use assignment1_cs.Fs.Bitmap.{bsize}
use assignment1_cs.Strings.{Memory, store_word}
use assignment1_cs.Fs.Bitmap.{Disk, Superblock, balloc, bfree}

abbrev pub ndirect : ℕ
ndirect = 12

abbrev pub nindirect : ℕ
nindirect = 128

abbrev pub maxfile : ℕ
maxfile = ndirect + nindirect

-- `a[i]` of a block that is read as words, with the low byte first, at the address of the word.
abbrev pub load_word : Memory → ℕ → ℕ
load_word m a = m a + m (a + 1) * 2 ^ 8 + m (a + 2) * 2 ^ 16 + m (a + 3) * 2 ^ 24

-- `ip->addrs[i]`, allocated if it is 0: the block, and the new addresses and disk.
pub map_direct : Superblock → Disk → List ℕ → ℕ → Option (ℕ × List ℕ × Disk)
map_direct sb d addrs i =
    if get_or addrs i 0 == 0
    then elim (balloc sb d) [ none ↦ none | some (b, d') ↦ some (b, set addrs i b, d') ]
    else some (get_or addrs i 0, addrs, d)

-- Word `i` of the indirect block, allocated if it is 0.
pub map_indirect : Superblock → Disk → ℕ → ℕ → Option (ℕ × Disk)
map_indirect sb d addr i =
    if load_word (d addr) (4 * i) == 0
    then elim (balloc sb d) [
      | none ↦ none
      | some (b, d') ↦ some (b, update d' addr (store_word (d' addr) (4 * i) b))
    ]
    else some (load_word (d addr) (4 * i), d)

pub bmap : Superblock → Disk → List ℕ → ℕ → Option (ℕ × List ℕ × Disk)
bmap sb d addrs bn =
    if ltb bn ndirect
    then map_direct sb d addrs bn
    else (if ltb (bn - ndirect) nindirect
        then elim (map_direct sb d addrs ndirect) [
          | none ↦ none
          | some (addr, addrs', d') ↦ elim (map_indirect sb d' addr (bn - ndirect)) [
            | none ↦ none
            | some (b, d'') ↦ some (b, addrs', d'')
          ]
        ]
        else none)

-- `memmove` from a buffer of the memory to a list, and from a list.
abbrev pub bytes_at : Memory → ℕ → ℕ → List ℕ
bytes_at m a zero = []
bytes_at m a (suc n) = m a ∷ bytes_at m (a + 1) n

abbrev pub put_bytes : Memory → ℕ → List ℕ → Memory
put_bytes m a [] = m
put_bytes m a (x ∷ xs) = put_bytes (update m a x) (a + 1) xs

-- How many of `n` bytes from `off` on are in one block.
abbrev pub piece : ℕ → ℕ → ℕ
piece off n = min n (bsize - off % bsize)

-- The loop of `readi`, for at most `fuel` rounds: the bytes, and the addresses and the disk after
-- what `bmap` has done. `off` stays within the file.
pub readi_loop : ℕ → Superblock → Disk → List ℕ → ℕ → ℕ → Option (List ℕ × List ℕ × Disk)
readi_loop zero sb d addrs off n = none
readi_loop (suc fuel) sb d addrs off n =
    if n == 0 then some ([], addrs, d) else elim (bmap sb d addrs (off / bsize)) [
      | none ↦ none
      | some (b, addrs', d') ↦
          elim (readi_loop fuel sb d' addrs' (off + piece off n) (n - piece off n)) [
            | none ↦ none
            | some (bytes, addrs'', d'') ↦
                some (bytes_at (d' b) (off % bsize) (piece off n) ++ bytes, addrs'', d'')
          ]
    ]

-- The loop of `writei`, for at most `fuel` rounds: the offset, the addresses and the disk at its
-- end. `off` stays within the largest file.
pub writei_loop : ℕ → Superblock → Disk → List ℕ → ℕ → List ℕ → Option (ℕ × List ℕ × Disk)
writei_loop zero sb d addrs off src = none
writei_loop (suc fuel) sb d addrs off src =
    let m = piece off (length src) in
    if length src == 0 then some (off, addrs, d) else elim (bmap sb d addrs (off / bsize)) [
      | none ↦ none
      | some (b, addrs', d') ↦
          writei_loop fuel sb (update d' b (put_bytes (d' b) (off % bsize) (take m src))) addrs'
            (off + m) (drop m src)
    ]

-- The fields of an inode that stay as they are here.
pub record Node : Type 0 where
  pub inum : ℕ
  pub type : ℕ
  pub major : ℕ
  pub minor : ℕ
  pub nlink : ℕ

-- `IPB`, written out, and `sizeof(struct dinode)`.
abbrev pub ipb : ℕ
ipb = 8

abbrev pub dinode_size : ℕ
dinode_size = 64

-- `IBLOCK`
abbrev pub iblock : Superblock → ℕ → ℕ
iblock sb i = i / ipb + sb.inodestart

-- The bytes of a `short` and of a `uint`, the low one first.
abbrev pub short_bytes : ℕ → List ℕ
short_bytes x = x % 2 ^ 8 ∷ x / 2 ^ 8 % 2 ^ 8 ∷ []

abbrev pub word_bytes : ℕ → List ℕ
word_bytes x = x % 2 ^ 8 ∷ x / 2 ^ 8 % 2 ^ 8 ∷ x / 2 ^ 16 % 2 ^ 8 ∷ x / 2 ^ 24 % 2 ^ 8 ∷ []

abbrev pub words_bytes : List ℕ → List ℕ
words_bytes [] = []
words_bytes (x ∷ xs) = word_bytes x ++ words_bytes xs

-- `struct dinode`, in the order of its fields.
abbrev pub dinode_bytes : Node → List ℕ → ℕ → List ℕ
dinode_bytes ip addrs size =
    short_bytes ip.type
    ++ short_bytes ip.major
    ++ short_bytes ip.minor
    ++ short_bytes ip.nlink
    ++ word_bytes size
    ++ words_bytes addrs

-- Where the inode is in its block.
abbrev pub dinode_place : Node → ℕ
dinode_place ip = ip.inum % ipb * dinode_size

pub iupdate : Superblock → Disk → Node → List ℕ → ℕ → Disk
iupdate sb d ip addrs size =
    let b = iblock sb ip.inum in
    update d b (put_bytes (d b) (dinode_place ip) (dinode_bytes ip addrs size))

-- `failed` is the result -1. The other results come with the addresses and the disk, and the size
-- of the inode.
pub data Result : Type 0 where
  panics failed : Result
  have_read : List ℕ → List ℕ → Disk → Result
  wrote : ℕ → List ℕ → Disk → ℕ → Result

-- Each round reads at least a byte.
pub readi : Superblock → Disk → List ℕ → ℕ → ℕ → ℕ → Result
readi sb d addrs size off n =
    if ltb size off || ltb ((off + n) % 2 ^ 32) off
    then failed
    else (let n' = if ltb size ((off + n) % 2 ^ 32) then size - off else n in
        elim (readi_loop (suc n') sb d addrs off n') [
          | none ↦ panics
          | some (bytes, addrs', d') ↦ have_read bytes addrs' d'
        ])

pub writei : Superblock → Node → Disk → List ℕ → ℕ → ℕ → List ℕ → Result
writei sb ip d addrs size off src =
    let n = length src in
    if ltb size off || ltb ((off + n) % 2 ^ 32) off
    then failed
    else (if ltb (maxfile * bsize) ((off + n) % 2 ^ 32)
        then failed
        else elim (writei_loop (suc n) sb d addrs off src) [
          | none ↦ panics
          | some (off', addrs', d') ↦
              if ltb 0 n && ltb size off'
              then wrote n addrs' (iupdate sb d' ip addrs' off') off'
              else wrote n addrs' d' size
        ])

-- Frees the blocks that are named by `n` pointers, from the one at `i` on; a pointer 0 names none.
pub free_range : Superblock → Disk → (ℕ → ℕ) → ℕ → ℕ → Option Disk
free_range sb d at i zero = some d
free_range sb d at i (suc n) =
    if at i == 0
    then free_range sb d at (i + 1) n
    else elim (bfree sb d (at i)) [ none ↦ none | some d' ↦ free_range sb d' at (i + 1) n ]

-- The first `n` addresses are set to 0.
abbrev pub clear : ℕ → List ℕ → List ℕ
clear zero addrs = addrs
clear (suc n) [] = []
clear (suc n) (x ∷ xs) = 0 ∷ clear n xs

-- The end of `itrunc`: the addresses, the size and the disk.
abbrev pub itrunc_end : Superblock → Node → List ℕ → Disk → List ℕ × ℕ × Disk
itrunc_end sb ip addrs d = (addrs, 0, iupdate sb d ip addrs 0)

-- An address that is 0 already is cleared, too.
pub itrunc : Superblock → Node → Disk → List ℕ → Option (List ℕ × ℕ × Disk)
itrunc sb ip d addrs = elim (free_range sb d (λ i. get_or addrs i 0) 0 ndirect) [
  | none ↦ none
  | some d' ↦
      let addr = get_or addrs ndirect 0 in
      let addrs' = clear ndirect addrs in
      if addr == 0
      then some (itrunc_end sb ip addrs' d')
      else elim (free_range sb d' (λ j. load_word (d' addr) (4 * j)) 0 nindirect) [
        | none ↦ none
        | some d'' ↦ elim (bfree sb d'' addr) [
          | none ↦ none
          | some d3 ↦ some (itrunc_end sb ip (set addrs' ndirect 0) d3)
        ]
      ]
]
