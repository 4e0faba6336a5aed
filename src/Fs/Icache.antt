-- ===== src/Fs/Icache.antt =====
-- fs.c: the cache of inodes. A function is what the source does with `icache.lock` held, or what
-- stands around it; `none` is a panic. A slot's reference count is an `int` that stays below its
-- bound as long as fewer than 2 ^ 31 references are held.
pub mod Unique
pub mod Refs
mod Tests
use assignment1_cs.Base.{
  ℕ, zero, suc, ◌+◌, ◌-◌, Bool, true, false, not, ◌&&◌, ◌||◌, Option, none, some, List, [], ◌∷◌,
  get_elem?, modify, if◌then◌else◌, ◌==◌, ltb,
}

-- `struct dinode`.
pub record Dinode : Type 0 where
  pub type : ℕ
  pub major : ℕ
  pub minor : ℕ
  pub nlink : ℕ
  pub size : ℕ
  pub addrs : List ℕ

-- `struct inode`, with its two flags and its copy of the inode on the disk.
pub record Inode : Type 0 where
  pub dev : ℕ
  pub inum : ℕ
  pub ref : ℕ
  pub busy : Bool
  pub valid : Bool
  pub disk : Dinode

abbrev pub Icache : Type 0
Icache = List Inode

-- What the loop of `iget` finds: the cached inode, or the empty slot that it remembers.
pub data Search : Type 0 where
  cached : ℕ → Search
  missing : Option ℕ → Search

abbrev pub is_inode : ℕ → ℕ → Inode → Bool
is_inode dev inum ip = ltb 0 ip.ref && ((ip.dev == dev) && (ip.inum == inum))

abbrev pub remember : Option ℕ → Inode → ℕ → Option ℕ
remember (some e) ip i = some e
remember none ip i = if ip.ref == 0 then some i else none

-- The loop of `iget` from slot `i` on.
pub iget_loop : ℕ → ℕ → Icache → ℕ → Option ℕ → Search
iget_loop dev inum [] i empty = missing empty
iget_loop dev inum (ip ∷ t) i empty =
    if is_inode dev inum ip then cached i else iget_loop dev inum t (i + 1) (remember empty ip i)

pub iget : ℕ → ℕ → Icache → Option (ℕ × Icache)
iget dev inum t = elim (iget_loop dev inum t 0 none) [
  | cached i ↦ some (i, modify t i (λ ip. record ip { ref = ip.ref + 1 }))
  | missing none ↦ none
  | missing (some i) ↦ some (
    i,
    modify t i (λ ip. record ip { dev = dev; inum = inum; ref = 1; busy = false; valid = false }),
  )
]

pub idup : Icache → ℕ → Icache
idup t i = modify t i (λ ip. record ip { ref = ip.ref + 1 })

-- `ilock` up to the flag: whether the inode is locked now; else the caller sleeps.
pub ilock_begin : Icache → ℕ → Option (Bool × Icache)
ilock_begin t i = elim (get_elem? t i) [
  | none ↦ none
  | some ip ↦
      if ltb ip.ref 1
      then none
      else (if ip.busy
          then some (false, t)
          else some (true, modify t i (λ ip. record ip { busy = true })))
]

-- The rest of `ilock`, with the inode as the disk has it.
pub ilock_load : Icache → ℕ → Dinode → Option Icache
ilock_load t i dip = elim (get_elem? t i) [
  | none ↦ none
  | some ip ↦
      if ip.valid
      then some t
      else (if dip.type == 0
          then none
          else some (modify t i (λ ip. record ip { disk = dip; valid = true })))
]

-- The caller wakes the sleepers up.
pub iunlock : Icache → ℕ → Option Icache
iunlock t i = elim (get_elem? t i) [
  | none ↦ none
  | some ip ↦
      if not ip.busy || ltb ip.ref 1
      then none
      else some (modify t i (λ ip. record ip { busy = false }))
]

-- The first locked section of `iput`: whether the inode has to be truncated and freed.
pub iput_begin : Icache → ℕ → Option (Bool × Icache)
iput_begin t i = elim (get_elem? t i) [
  | none ↦ none
  | some ip ↦
      if (ip.ref == 1) && (ip.valid && (ip.disk.nlink == 0))
      then (if ip.busy then none else some (true, modify t i (λ ip. record ip { busy = true })))
      else some (false, modify t i (λ ip. record ip { ref = ip.ref - 1 }))
]

abbrev pub zeros_like : List ℕ → List ℕ
zeros_like [] = []
zeros_like (a ∷ addrs) = 0 ∷ zeros_like addrs

-- What `iput` does to the locked inode between its sections: `itrunc` and `ip->type = 0`.
pub iput_free : Icache → ℕ → Icache
iput_free t i = modify t i (λ ip. record ip {
  disk = record ip.disk { type = 0; size = 0; addrs = zeros_like ip.disk.addrs };
})

-- The last section of `iput` after that.
pub iput_end : Icache → ℕ → Icache
iput_end t i = modify t i (λ ip. record ip { busy = false; valid = false; ref = ip.ref - 1 })
