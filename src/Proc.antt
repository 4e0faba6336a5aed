-- ===== src/Proc.antt =====
-- proc.c: the process table. A process is named by its index in `ptable.proc`; each function here
-- is a section of the source that holds `ptable.lock`, or what stands around it. Memory for stacks
-- and page tables comes from kalloc.c and vm.c: the results of `kalloc` and `copyuvm` are arguments
-- (0 is failure). What a function asks of file.c, fs.c and log.c is returned as a list of effects.
pub mod Table
pub mod Orphans
pub mod Exit
pub mod System
pub mod Wait
pub mod Kill
mod Tests
use assignment1_cs.Base.{
  find_index, modify, ℕ, zero, suc, ◌+◌, ◌-◌, Bool, true, false, not, ◌&&◌, ◌||◌, Option, none,
  some, List, [], ◌∷◌, ◌++◌, map, get_elem?, set, length, if◌then◌else◌, ◌==◌,
}

pub data ProcState : Type 0 where
  unused embryo sleeping runnable running zombie : ProcState

abbrev pub state_eq : ProcState → ProcState → Bool
state_eq unused unused = true
state_eq embryo embryo = true
state_eq sleeping sleeping = true
state_eq runnable runnable = true
state_eq running running = true
state_eq zombie zombie = true
state_eq _ _ = false

-- The address that a process sleeps on: null, a `struct proc`, or something else.
pub data Chan : Type 0 where
  null : Chan
  of_proc : ℕ → Chan
  other : ℕ → Chan

abbrev pub chan_eq : Chan → Chan → Bool
chan_eq null null = true
chan_eq (of_proc i) (of_proc j) = i == j
chan_eq (other a) (other b) = a == b
chan_eq _ _ = false

abbrev pub parent_eq : Option ℕ → ℕ → Bool
parent_eq none j = false
parent_eq (some i) j = i == j

-- `struct proc`; the trap frame and the saved context are left out.
pub record Proc : Type 0 where
  pub sz : ℕ
  pub pgdir : ℕ
  pub kstack : ℕ
  pub state : ProcState
  pub pid : ℕ
  pub parent : Option ℕ
  pub chan : Chan
  pub killed : Bool
  pub ofile : List (Option ℕ)
  pub cwd : ℕ
  pub name : List ℕ

pub data Effect : Type 0 where
  fileclose : ℕ → Effect
  filedup : ℕ → Effect
  idup : ℕ → Effect
  iput : ℕ → Effect
  begin_op end_op : Effect
  kfree : ℕ → Effect
  freevm : ℕ → Effect

abbrev pub Table : Type 0
Table = List Proc

-- The first section of `allocproc`: it claims a slot and takes a process number.
pub allocproc_claim : Table → ℕ → Option (ℕ × Table × ℕ)
allocproc_claim t nextpid = elim (find_index (λ p. state_eq p.state unused) t) [
  | none ↦ none
  | some i ↦ some (i, modify t i (λ p. record p { state = embryo; pid = nextpid }), nextpid + 1)
]

-- The rest of `allocproc`, with the result of `kalloc`.
pub allocproc_stack : Table → ℕ → ℕ → Bool × Table
allocproc_stack t i kstack =
    if kstack == 0
    then (false, modify t i (λ p. record p { kstack = 0; state = unused }))
    else (true, modify t i (λ p. record p { kstack = kstack }))

-- `fork` of process `me` into slot `np`, if `copyuvm` fails.
pub fork_fail : Table → ℕ → Table × List Effect
fork_fail t np = elim (get_elem? t np) [
  | none ↦ (t, [])
  | some p ↦
      (modify t np (λ q. record q { pgdir = 0; kstack = 0; state = unused }), kfree p.kstack ∷ [])
]

abbrev pub dup_files : List (Option ℕ) → List Effect
dup_files [] = []
dup_files (none ∷ fs) = dup_files fs
dup_files (some f ∷ fs) = filedup f ∷ dup_files fs

-- The files that `fork` copies: an empty entry of the parent leaves the child's entry alone.
abbrev pub copy_files : List (Option ℕ) → List (Option ℕ) → List (Option ℕ)
copy_files [] gs = gs
copy_files (f ∷ fs) [] = []
copy_files (none ∷ fs) (g ∷ gs) = g ∷ copy_files fs gs
copy_files (some f ∷ fs) (g ∷ gs) = some f ∷ copy_files fs gs

abbrev pub child_of : Proc → ℕ → ℕ → Proc → Proc
child_of parent me pgdir p = record p {
  pgdir = pgdir;
  sz = parent.sz;
  parent = some me;
  ofile = copy_files parent.ofile p.ofile;
  cwd = parent.cwd;
  name = parent.name;
  state = runnable;
}

-- `fork` of process `me` into slot `np`, with the page table that `copyuvm` returned.
pub fork_ready : Table → ℕ → ℕ → ℕ → Table × List Effect
fork_ready t me np pgdir = elim (get_elem? t me) [
  | none ↦ (t, [])
  | some p ↦ (modify t np (child_of p me pgdir), dup_files p.ofile ++ idup p.cwd ∷ [])
]

pub wakeup1 : Chan → Table → Table
wakeup1 chan [] = []
wakeup1 chan (p ∷ t) =
    (if state_eq p.state sleeping && chan_eq p.chan chan then record p { state = runnable } else p)
    ∷ wakeup1 chan t

abbrev pub chan_of : Option ℕ → Chan
chan_of none = null
chan_of (some i) = of_proc i

-- The body of the loop of `exit` for slot `i`.
pub pass_child : ℕ → ℕ → ℕ → Table → Table
pass_child i me init t = elim (get_elem? t i) [
  | none ↦ t
  | some p ↦
      if parent_eq p.parent me
      then (let u = modify t i (λ q. record q { parent = some init }) in
          if state_eq p.state zombie then wakeup1 (of_proc init) u else u)
      else t
]

-- The loop of `exit` over the `n` slots from `i` on.
pub pass_children : ℕ → ℕ → ℕ → ℕ → Table → Table
pass_children zero i me init t = t
pass_children (suc n) i me init t = pass_children n (i + 1) me init (pass_child i me init t)

abbrev pub close_files : List (Option ℕ) → List Effect
close_files [] = []
close_files (none ∷ fs) = close_files fs
close_files (some f ∷ fs) = fileclose f ∷ close_files fs

abbrev pub no_files : List (Option ℕ) → List (Option ℕ)
no_files [] = []
no_files (f ∷ fs) = none ∷ no_files fs

-- What `exit` does before it takes `ptable.lock`; `none` is a panic.
pub exit_files : Table → ℕ → ℕ → Option (Table × List Effect)
exit_files t me init = if me == init then none else elim (get_elem? t me) [
  | none ↦ none
  | some p ↦ some (
    modify t me (λ q. record q { ofile = no_files q.ofile; cwd = 0 }),
    close_files p.ofile ++ begin_op ∷ iput p.cwd ∷ end_op ∷ [],
  )
]

-- What `exit` does under `ptable.lock`, up to the call of `sched`.
pub exit_locked : Table → ℕ → ℕ → Table
exit_locked t me init = elim (get_elem? t me) [
  | none ↦ t
  | some p ↦
      modify (pass_children (length t) 0 me init (wakeup1 (chan_of p.parent) t)) me
        (λ q. record q { state = zombie })
]

abbrev pub reaped : Proc → Proc
reaped p = record p {
  kstack = 0;
  state = unused;
  pid = 0;
  parent = none;
  name = set p.name 0 0;
  killed = false;
}

pub data Waited : Type 0 where
  reap : ℕ → ℕ → Waited
  no_children : Waited
  sleeps : Waited

-- One round of the loop of `wait`: the first zombie child is freed. With no child, or if the caller
-- has been killed, the result is -1; else the caller sleeps on its own `struct proc`.
pub wait_round : Table → ℕ → Bool → Table × Waited × List Effect
wait_round t me killed =
    elim (find_index (λ p. parent_eq p.parent me && state_eq p.state zombie) t) [
      | some i ↦ elim (get_elem? t i) [
        | none ↦ (t, no_children, [])
        | some p ↦ (modify t i reaped, reap i p.pid, kfree p.kstack ∷ freevm p.pgdir ∷ [])
      ]
      | none ↦ elim (find_index (λ p. parent_eq p.parent me) t) [
        | none ↦ (t, no_children, [])
        | some _ ↦ if killed then (t, no_children, []) else (t, sleeps, [])
      ]
    ]

-- `sleep` of process `me`, up to the call of `sched`.
pub sleep : Table → ℕ → Chan → Table
sleep t me chan = modify t me (λ p. record p { chan = chan; state = sleeping })

-- `sleep` after `sched` has returned.
pub awake : Table → ℕ → Table
awake t me = modify t me (λ p. record p { chan = null })

-- `yield` of process `me`, up to the call of `sched`.
pub yield : Table → ℕ → Table
yield t me = modify t me (λ p. record p { state = runnable })

-- The body of the loop of `scheduler` for slot `i`, up to the call of `swtch`.
pub schedule : Table → ℕ → Option Table
schedule t i = elim (get_elem? t i) [
  | none ↦ none
  | some p ↦
      if state_eq p.state runnable
      then some (modify t i (λ q. record q { state = running }))
      else none
]

-- The guards of `sched`: it panics unless the lock is held, once, the caller has left RUNNING, and
-- interrupts are off.
pub sched_ok : Bool → ℕ → ProcState → Bool → Bool
sched_ok holding ncli state interrupts =
    holding && (ncli == 1) && not (state_eq state running) && not interrupts

abbrev pub mark_killed : Proc → Proc
mark_killed p = record p {
  killed = true;
  state = if state_eq p.state sleeping then runnable else p.state;
}

-- `kill`, with its return value 0 as `true` and -1 as `false`.
pub kill : Table → ℕ → Table × Bool
kill t pid = elim (find_index (λ p. p.pid == pid) t) [
  | none ↦ (t, false)
  | some i ↦ (modify t i mark_killed, true)
]
