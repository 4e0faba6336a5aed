-- ===== src/Syscall.antt =====
-- syscall.c: the arguments of system calls, read from the memory of the process. A `uint` is a
-- number below 2 ^ 32; an `int` is given by the `uint` with the same bits.
pub mod Bounds
pub mod Dispatch
mod Tests
use assignment1_cs.Base.{
  ℕ, zero, suc, ◌+◌, ◌-◌, ◌*◌, ◌%◌, ◌^◌, Option, none, some, ◌||◌, if◌then◌else◌, ◌==◌, leb, ltb,
}

-- What the file uses of `struct proc`, and the bytes of the memory that the page table maps.
pub record User : Type 0 where
  pub sz : ℕ
  pub esp : ℕ
  pub memory : ℕ → ℕ

-- The 32-bit word at an address, its low byte first.
abbrev pub int_at : (ℕ → ℕ) → ℕ → ℕ
int_at m a = m a + 256 * m (a + 1) + 65536 * m (a + 2) + 16777216 * m (a + 3)

pub fetchint : User → ℕ → Option ℕ
fetchint p addr =
    if leb p.sz addr || ltb p.sz ((addr + 4) % 2 ^ 32) then none else some (int_at p.memory addr)

-- The loop of `fetchstr`, for the `n` bytes from `s` on: the address of the first zero.
pub scan : ℕ → (ℕ → ℕ) → ℕ → Option ℕ
scan zero m s = none
scan (suc n) m s = if m s == 0 then some s else scan n m (s + 1)

-- The pointer and the length.
pub fetchstr : User → ℕ → Option (ℕ × ℕ)
fetchstr p addr =
    if leb p.sz addr
    then none
    else elim (scan (p.sz - addr) p.memory addr) [ none ↦ none | some s ↦ some (addr, s - addr) ]

pub argint : User → ℕ → Option ℕ
argint p n = fetchint p ((p.esp + 4 + 4 * n) % 2 ^ 32)

pub argptr : User → ℕ → ℕ → Option ℕ
argptr p n size = elim (argint p n) [
  | none ↦ none
  | some i ↦ if leb p.sz i || ltb p.sz ((i + size) % 2 ^ 32) then none else some i
]

pub argstr : User → ℕ → Option (ℕ × ℕ)
argstr p n = elim (argint p n) [ none ↦ none | some addr ↦ fetchstr p addr ]
