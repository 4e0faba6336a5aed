-- ===== src/File/Chunks.antt =====
-- `filewrite` to an inode that is not a device: the bytes go to `writei` in chunks, each in a log
-- transaction of its own.
pub mod Transparent
use assignment1_cs.Base.{
  ℕ, zero, suc, ◌+◌, ◌-◌, ◌*◌, ◌/◌, ◌%◌, ◌^◌, Option, none, some, List, length, take, drop, min,
  if◌then◌else◌, ◌==◌,
}
use assignment1_cs.Log.{log_size}
use assignment1_cs.Fs.Bitmap.{Disk, Superblock}
use assignment1_cs.Fs.Content.{Node, Result, panics, failed, have_read, wrote, writei}

-- `max`.
abbrev pub max_chunk : ℕ
max_chunk = (log_size - 1 - 1 - 2) / 2 * 512

-- The offset of an open file, and its inode with the disk.
pub record Open : Type 0 where
  pub off : ℕ
  pub node : Node
  pub disk : Disk
  pub addrs : List ℕ
  pub size : ℕ

-- The file afterwards and the result of `filewrite`, `none` for -1, or a panic.
pub data Written : Type 0 where
  returned : Open → Option ℕ → Written
  panicked : Written

-- `n1`.
abbrev pub chunk_size : List ℕ → ℕ
chunk_size ds = min (length ds) max_chunk

-- The file after a `writei` that has returned `r`.
abbrev pub advanced : Open → ℕ → List ℕ → Disk → ℕ → Open
advanced f r addrs' d' size' = record f {
  off = (f.off + r) % 2 ^ 32;
  disk = d';
  addrs = addrs';
  size = size';
}

-- The loop, for at most `fuel` rounds; `n` is the result if all bytes are written.
pub filewrite_loop : ℕ → Superblock → Open → List ℕ → ℕ → Written
filewrite_loop zero sb f ds n = panicked
filewrite_loop (suc fuel) sb f ds n =
    let n1 = chunk_size ds in
    if length ds == 0
    then returned f (some n)
    else elim (writei sb f.node f.disk f.addrs f.size f.off (take n1 ds)) [
      | panics ↦ panicked
      | failed ↦ returned f none
      | have_read bytes addrs' d' ↦ panicked
      | wrote r addrs' d' size' ↦
          let rest = filewrite_loop fuel sb (advanced f r addrs' d' size') (drop n1 ds) n in
          if r == n1 then rest else panicked
    ]

-- A round writes at least a byte.
pub filewrite : Superblock → Open → List ℕ → Written
filewrite sb f ds = filewrite_loop (suc (length ds)) sb f ds (length ds)
