-- ===== src/Log/Device.antt =====
-- The disk behind the buffer cache, as log.c sees it through `bread` and `bwrite` (bio.c, ide.c).
-- `dirty` holds the buffers that `log_write` has pinned; every other buffer equals its disk block.
-- Power may fail: `power` is the number of block writes that still reach the disk.
use assignment1_cs.Base.{
  ℕ, ◌-◌, ◌<◌, ◌≡◌, ◌≢◌, Option, none, some, List, if◌then◌else◌, ◌==◌, update, arith,
}

-- A block is its 32-bit words, the view that `struct logheader` gives of it.
abbrev pub Block : Type 0
Block = List ℕ

pub record Disk : Type 0 where
  pub stored : ℕ → Block
  pub dirty : ℕ → Option Block
  pub power : ℕ

abbrev pub or_disk : Option Block → Block → Block
or_disk none x = x
or_disk (some y) x = y

abbrev pub bread : Disk → ℕ → Block
bread d b = or_disk (d.dirty b) (d.stored b)

-- After the write the buffer is clean. Without power the write is lost.
abbrev pub bwrite : Disk → ℕ → Block → Disk
bwrite d b x = record {
  stored = if d.power == 0 then d.stored else update d.stored b x;
  dirty = update d.dirty b none;
  power = d.power - 1;
}

-- The machine starts again: what was in memory is gone.
abbrev pub reboot : Disk → ℕ → Disk
reboot d power = record { stored = d.stored; dirty = λ _. none; power = power }

pub stored-bwrite_self : (d : Disk) (b : ℕ) (x : Block) → 0 < d.power → (bwrite d b x).stored b ≡ x
stored-bwrite_self d b x on = ground arith

pub stored-bwrite_ne :
    (d : Disk) (b c : ℕ) (x : Block) → b ≢ c → (bwrite d b x).stored c ≡ d.stored c
stored-bwrite_ne d b c x h = ground arith

pub stored-bwrite_off :
    (d : Disk) (b : ℕ) (x : Block) → d.power ≡ 0 → (bwrite d b x).stored ≡ d.stored
stored-bwrite_off d b x off = rw off

pub bread-bwrite_ne : (d : Disk) (b c : ℕ) (x : Block) → b ≢ c → bread (bwrite d b x) c ≡ bread d c
bread-bwrite_ne d b c x h = ground arith
