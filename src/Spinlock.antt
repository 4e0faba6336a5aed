-- ===== src/Spinlock.antt =====
-- spinlock.c: one lock and any number of processors. `acquire` and `release` are cut where another
-- processor can see the difference: at the exchange of `locked` and at the writes of `cpu`.
pub mod Exclusion
pub mod Holding
pub mod Interrupts
mod Tests
use assignment1_cs.Base.{
  ℕ, zero, suc, ◌+◌, ◌-◌, Bool, true, false, not, ◌&&◌, Option, none, some, if◌then◌else◌, ◌==◌,
}

-- What the file uses of `struct cpu`, and the interrupt flag of the processor.
pub record Cpu : Type 0 where
  pub ncli : ℕ
  pub intena : Bool
  pub interrupts : Bool

-- `cpu` is the processor that holds the lock, by its number.
pub record Spinlock : Type 0 where
  pub locked : ℕ
  pub cpu : Option ℕ

pub initlock : Spinlock
initlock = record { locked = 0; cpu = none }

abbrev pub is_cpu : Option ℕ → ℕ → Bool
is_cpu none me = false
is_cpu (some i) me = i == me

pub holding : Spinlock → ℕ → Bool
holding lk me = not (lk.locked == 0) && is_cpu lk.cpu me

pub pushcli : Cpu → Cpu
pushcli c = record {
  ncli = c.ncli + 1;
  intena = if c.ncli == 0 then c.interrupts else c.intena;
  interrupts = false;
}

-- `none` is a panic.
pub popcli : Cpu → Option Cpu
popcli c =
    if c.interrupts
    then none
    else (if c.ncli == 0
        then none
        else some (record c { ncli = c.ncli - 1; interrupts = (c.ncli - 1 == 0) && c.intena }))

-- The old value, and the lock with the new one.
abbrev pub xchg : Spinlock → ℕ → ℕ × Spinlock
xchg lk newval = (lk.locked, record lk { locked = newval })

-- `acquire` before its loop; `none` is a panic.
pub acquire_enter : Spinlock → ℕ → Cpu → Option Cpu
acquire_enter lk me c = if holding lk me then none else some (pushcli c)

-- One round of the loop of `acquire`: whether it is the last, and the lock.
pub acquire_spin : Spinlock → Bool × Spinlock
acquire_spin lk = let (old, lk') = xchg lk 1 in (old == 0, lk')

-- `acquire` after its loop.
pub acquire_record : Spinlock → ℕ → Spinlock
acquire_record lk me = record lk { cpu = some me }

-- `release` before its exchange; `none` is a panic.
pub release_clear : Spinlock → ℕ → Option Spinlock
release_clear lk me = if holding lk me then some (record lk { cpu = none }) else none

-- The exchange of `release`.
pub release_free : Spinlock → Spinlock
release_free lk = (xchg lk 0).1
