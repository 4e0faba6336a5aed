-- ===== src/Log.antt =====
-- log.c: the write-ahead log. A transaction collects the blocks of several system calls and is
-- committed when none is running: the blocks are copied to the log area, then the header is
-- written, then the blocks are copied home, then the header is cleared.
pub mod Device
pub mod Header
pub mod Recovery
pub mod Restart
pub mod Commit
pub mod Write
pub mod Admission
mod Tests
use assignment1_cs.Base.{
  ℕ, zero, suc, ◌+◌, ◌-◌, ◌*◌, Bool, true, false, ◌||◌, Option, none, some, List, [], ◌∷◌, length,
  take, drop, get_or, if◌then◌else◌, ◌==◌, ltb, leb, update,
}
use assignment1_cs.Log.Device.{Block, Disk, bread, bwrite}

abbrev pub max_op_blocks : ℕ
max_op_blocks = 10

abbrev pub log_size : ℕ
log_size = 30

-- `blocks` is `lh.block[0..lh.n)`. The single device is left out.
pub record Log : Type 0 where
  pub start : ℕ
  pub size : ℕ
  pub outstanding : ℕ
  pub committing : Bool
  pub blocks : List ℕ

-- The words of `xs` in front, over the words of `ys`.
abbrev pub overlay : List ℕ → List ℕ → List ℕ
overlay [] ys = ys
overlay (x ∷ xs) [] = []
overlay (x ∷ xs) (y ∷ ys) = x ∷ overlay xs ys

-- Word 0 of a header block is `n`, the words after it are `block[]`.
pub read_head : ℕ → Disk → List ℕ
read_head start d = let lh = bread d start in take (get_or lh 0 0) (drop 1 lh)

pub write_head : ℕ → Disk → List ℕ → Disk
write_head start d blocks = bwrite d start (overlay (length blocks ∷ blocks) (bread d start))

-- The loop of `install_trans` from `tail` on.
pub install_trans : ℕ → Disk → ℕ → List ℕ → Disk
install_trans start d tail [] = d
install_trans start d tail (b ∷ bs) =
    install_trans start (bwrite d b (bread d (start + tail + 1))) (tail + 1) bs

-- The loop of `write_log` from `tail` on.
pub write_log : ℕ → Disk → ℕ → List ℕ → Disk
write_log start d tail [] = d
write_log start d tail (b ∷ bs) =
    write_log start (bwrite d (start + tail + 1) (bread d b)) (tail + 1) bs

pub recover_from_log : ℕ → Disk → Disk
recover_from_log start d = write_head start (install_trans start d 0 (read_head start d)) []

-- Without a logged block nothing is written.
pub commit : Log → Disk → Log × Disk
commit l d =
    if ltb 0 (length l.blocks)
    then (
      record l { blocks = [] },
      write_head l.start
          (install_trans l.start (write_head l.start (write_log l.start d 0 l.blocks) l.blocks) 0
            l.blocks)
          [],
    )
    else (l, d)

-- The loop of `log_write`: an entry for the block is kept, or one is added at the end.
pub absorb : ℕ → List ℕ → List ℕ
absorb b [] = b ∷ []
absorb b (x ∷ xs) = if x == b then b ∷ xs else x ∷ absorb b xs

-- `none` is a panic. `x` is what the caller has put in the buffer.
pub log_write : Log → Disk → ℕ → Block → Option (Log × Disk)
log_write l d b x =
    if leb log_size (length l.blocks) || leb (l.size - 1) (length l.blocks)
    then none
    else (if ltb l.outstanding 1
        then none
        else some (
          record l { blocks = absorb b l.blocks },
          record d { dirty = update d.dirty b (some x) },
        ))

-- One round of the loop of `begin_op`; `none` means that the caller sleeps on the log.
pub begin_op : Log → Option Log
begin_op l =
    if l.committing
    then none
    else (if ltb log_size (length l.blocks + (l.outstanding + 1) * max_op_blocks)
        then none
        else some (record l { outstanding = l.outstanding + 1 }))

-- The first locked part of `end_op`, with `do_commit`. `none` is a panic, or an `end_op` with no
-- `begin_op`, at which the source's counter would become -1.
pub end_op_begin : Log → Option (Log × Bool)
end_op_begin l =
    if l.outstanding == 0 || l.committing
    then none
    else (if l.outstanding == 1
        then some (record l { outstanding = 0; committing = true }, true)
        else some (record l { outstanding = l.outstanding - 1 }, false))

-- The rest of `end_op` if it is to commit.
pub end_op_commit : Log → Disk → Log × Disk
end_op_commit l d = let (l', d') = commit l d in (record l' { committing = false }, d')
