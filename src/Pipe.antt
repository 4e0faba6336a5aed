-- ===== src/Pipe.antt =====
-- pipe.c: the bounded byte buffer between the two ends of a pipe.
-- A kernel thread runs `pipewrite` or `piperead` from the acquisition of `p->lock` up to its return
-- or to the call of `sleep`, which gives the lock up; such a section is one function here, and
-- returns the pipe, how the section ended and what it asked of the lock and of the scheduler. A
-- thread that is woken holds the lock again and runs `write_loop` or `read_section` from where it
-- stood. Counters are `uint`: they wrap at 2 ^ 32.
pub mod Window
pub mod Write
pub mod Read
pub mod System
pub mod Wakeup
mod Tests
use assignment1_cs.Base.{
  ℕ, ◌+◌, ◌%◌, ◌^◌, Bool, true, false, not, ◌&&◌, ◌||◌, List, [], ◌∷◌, if◌then◌else◌, ◌==◌, get_or,
  set, zero, suc,
}

abbrev pub pipesize : ℕ
pipesize = 512

pub record Pipe : Type 0 where
  pub ring : List ℕ
  pub nread : ℕ
  pub nwrite : ℕ
  pub readopen : Bool
  pub writeopen : Bool

-- The channels are the addresses `&p->nread` and `&p->nwrite`.
pub data Chan : Type 0 where
  nread_chan nwrite_chan : Chan

pub data Event : Type 0 where
  acquire : Event
  release : Event
  wakeup : Chan → Event
  sleep : Chan → Event
  kfree : Event

-- How a section ends: a return value, the return value -1, or asleep with the loop index `i`.
pub data Outcome : Type 0 where
  returned : ℕ → Outcome
  failed : Outcome
  asleep : ℕ → Outcome

abbrev pub uint_add : ℕ → ℕ → ℕ
uint_add a b = (a + b) % 2 ^ 32

abbrev pub full : Pipe → Bool
full p = p.nwrite == uint_add p.nread pipesize

-- `p->data[p->nwrite++ % PIPESIZE] = c`
abbrev pub put : Pipe → ℕ → Pipe
put p c = record p { ring = set p.ring (p.nwrite % pipesize) c; nwrite = uint_add p.nwrite 1 }

-- The fields that `pipealloc` sets in the page that `kalloc` returned; `page` is its content.
pub pipe_init : List ℕ → Pipe
pipe_init page = record { ring = page; nread = 0; nwrite = 0; readopen = true; writeopen = true }

pub pipeclose : Pipe → Bool → Pipe × List Event
pipeclose p writable =
    let q = if writable then record p { writeopen = false } else record p { readopen = false } in
    let woken = if writable then nread_chan else nwrite_chan in
    if not q.readopen && not q.writeopen
    then (q, acquire ∷ wakeup woken ∷ release ∷ kfree ∷ [])
    else (q, acquire ∷ wakeup woken ∷ release ∷ [])

-- The loop of `pipewrite` at index `i`; the list is `addr[i..n)`, `killed` is `proc->killed`.
pub write_loop : Pipe → Bool → List ℕ → ℕ → Pipe × Outcome × List Event
write_loop p killed [] i = (p, returned i, wakeup nread_chan ∷ release ∷ [])
write_loop p killed (c ∷ cs) i =
    let rest = write_loop (put p c) killed cs (i + 1) in
    if full p
    then (if not p.readopen || killed
        then (p, failed, release ∷ [])
        else (p, asleep i, wakeup nread_chan ∷ sleep nwrite_chan ∷ []))
    else rest

pub pipewrite : Pipe → Bool → List ℕ → Pipe × Outcome × List Event
pipewrite p killed src = let (q, out, es) = write_loop p killed src 0 in (q, out, acquire ∷ es)

-- The copy loop of `piperead` for at most `n` bytes; the list is what it stores in `addr`.
pub read_loop : Pipe → ℕ → Pipe × List ℕ
read_loop p zero = (p, [])
read_loop p (suc n) =
    let (q, cs) = read_loop (record p { nread = uint_add p.nread 1 }) n in
    if p.nread == p.nwrite then (p, []) else (q, get_or p.ring (p.nread % pipesize) 0 ∷ cs)

abbrev pub count : List ℕ → ℕ
count [] = 0
count (c ∷ cs) = suc (count cs)

-- `piperead` with the lock held: at its start, or again after a `sleep`.
pub read_section : Pipe → Bool → ℕ → Pipe × Outcome × List ℕ × List Event
read_section p killed n =
    let (q, cs) = read_loop p n in
    if (p.nread == p.nwrite) && p.writeopen
    then (if killed
        then (p, failed, [], release ∷ [])
        else (p, asleep 0, [], sleep nread_chan ∷ []))
    else (q, returned (count cs), cs, wakeup nwrite_chan ∷ release ∷ [])

pub piperead : Pipe → Bool → ℕ → Pipe × Outcome × List ℕ × List Event
piperead p killed n = let (q, out, cs, es) = read_section p killed n in (q, out, cs, acquire ∷ es)
