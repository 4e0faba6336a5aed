-- ===== src/File/Chunks/Transparent.antt =====
-- What the chunks of `filewrite` come to.
use assignment1_cs.Base.{ℕ, ◌+◌, ◌≤◌, ◌<◌, ◌≡◌, none, some, List, length, max, ◌==◌, if◌then◌else◌}
use assignment1_cs.Fs.Bitmap.{Superblock}
use assignment1_cs.Fs.Content.{iblock, put_bytes, Result, panics, failed, have_read, wrote}
use assignment1_cs.Fs.Content.Transfer.{view, max_bytes, Missing}
use assignment1_cs.Fs.Content.Home.{IsHome}
use assignment1_cs.Fs.Content.Inode.{IsFile}
use assignment1_cs.File.Chunks.{Open, Written, returned, panicked, advanced, filewrite_loop}

-- An open file without a missing block, with its inode's block apart from it.
pub record IsOpen (sb : Superblock) (f : Open) : Type 0 where
  pub file : IsFile sb f.disk f.addrs f.size
  pub home : IsHome sb f.disk f.addrs (iblock sb f.node.inum)
  pub within : f.off ≤ f.size

abbrev pub shown : Open → ℕ → ℕ
shown f = view f.disk f.addrs

-- From `f` to `g` the bytes have been written at the offset, at which nothing else has changed.
pub record Stores (sb : Superblock) (f g : Open) (ds : List ℕ) : Type 0 where
  pub kept : IsOpen sb g
  pub moved : g.off ≡ f.off + length ds
  pub size : g.size ≡ max f.size (f.off + length ds)
  pub bytes : (p : ℕ) → p < max_bytes → shown g p ≡ put_bytes (shown f) f.off ds p

abbrev pub FileOutcome : Superblock → Open → List ℕ → ℕ → Written → Type 0
FileOutcome sb f ds n panicked = Missing f.disk f.addrs f.off (length ds)
FileOutcome sb f ds n (returned g none) = ⊥
FileOutcome sb f ds n (returned g (some k)) = (k ≡ n) × Stores sb f g ds

-- What the loop makes of the result of `writei`.
abbrev after : ℕ → Superblock → Open → List ℕ → ℕ → ℕ → Result → Written
after fuel sb f ys n1 n panics = panicked
after fuel sb f ys n1 n failed = returned f none
after fuel sb f ys n1 n (have_read bytes addrs' d') = panicked
after fuel sb f ys n1 n (wrote r addrs' d' size') =
    if r == n1 then filewrite_loop fuel sb (advanced f r addrs' d' size') ys n else panicked
