-- ===== src/Kalloc.antt =====
-- kalloc.c: the allocator of physical pages. The free pages form a linked list through their own
-- first words. A function here is what the source does with `kmem.lock` held; `none` is a panic.
pub mod FreeList
pub mod Range
mod Tests
use assignment1_cs.Base.{
  ℕ, zero, suc, ◌+◌, ◌-◌, ◌*◌, ◌/◌, ◌%◌, ◌^◌, Bool, true, false, not, ◌||◌, ◌&&◌, Option, none,
  some, if◌then◌else◌, ◌==◌, ltb, leb, update,
}

abbrev pub pgsize : ℕ
pgsize = 4096

abbrev pub kernbase : ℕ
kernbase = 0x8000_0000

abbrev pub phystop : ℕ
phystop = 0xe00_0000

-- `memory` gives the word at an address, `kernel_end` is the linker's symbol `end`.
pub record Kmem : Type 0 where
  pub memory : ℕ → ℕ
  pub freelist : ℕ
  pub kernel_end : ℕ

-- `v2p`, on 32-bit addresses.
abbrev pub v2p : ℕ → ℕ
v2p v = (v + 2 ^ 32 - kernbase) % 2 ^ 32

-- `memset(v, 1, PGSIZE)` on words that lie in one page, as those at multiples of 4 do; the model
-- reads and writes no others.
abbrev pub fill_junk : ℕ → (ℕ → ℕ) → ℕ → ℕ
fill_junk v m a = if leb v a && ltb a (v + pgsize) then 0x101_0101 else m a

pub kfree : Kmem → ℕ → Option Kmem
kfree k v =
    if not (v % pgsize == 0) || ltb v k.kernel_end || leb phystop (v2p v)
    then none
    else some (record k { memory = update (fill_junk v k.memory) v k.freelist; freelist = v })

-- The page, or 0.
pub kalloc : Kmem → ℕ × Kmem
kalloc k =
    if k.freelist == 0 then (0, k) else (k.freelist, record k { freelist = k.memory k.freelist })

abbrev pub pgroundup : ℕ → ℕ
pgroundup a = (a + pgsize - 1) % 2 ^ 32 / pgsize * pgsize

-- The loop of `freerange`, for at most `fuel` rounds; `none` is a panic or the end of the fuel.
pub freerange_loop : ℕ → ℕ → ℕ → Kmem → Option Kmem
freerange_loop zero p vend k = none
freerange_loop (suc fuel) p vend k =
    if leb ((p + pgsize) % 2 ^ 32) vend
    then elim (kfree k p) [
      | none ↦ none
      | some k' ↦ freerange_loop fuel ((p + pgsize) % 2 ^ 32) vend k'
    ]
    else some k

-- One round more than there are whole pages from the first page boundary up to `vend`.
pub freerange : ℕ → ℕ → Kmem → Option Kmem
freerange vstart vend k =
    freerange_loop (suc ((vend - pgroundup vstart) / pgsize)) (pgroundup vstart) vend k
