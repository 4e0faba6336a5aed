-- ===== src/Syscall/Dispatch.antt =====
-- The table of system calls of syscall.c. What a call does is an argument of `syscall`; its result
-- is the `uint` that goes to %eax.
pub mod Numbers
use assignment1_cs.Base.{
  ℕ, suc, ◌-◌, ◌^◌, ◌&&◌, Option, none, some, List, [], ◌∷◌, length, get_or, if◌then◌else◌, ltb,
}

-- The functions of the table.
pub data Sys : Type 0 where
  sys_fork sys_exit sys_wait sys_pipe sys_read sys_kill sys_exec sys_fstat sys_chdir sys_dup
        sys_getpid sys_sbrk sys_sleep sys_uptime sys_open sys_write sys_mknod sys_unlink sys_link
        sys_mkdir sys_close sys_enable_sched_trace sys_uprog_shut :
      Sys

-- `syscalls`; entry 0 is null.
pub syscalls : List (Option Sys)
syscalls =
    none
    ∷ some sys_fork
    ∷ some sys_exit
    ∷ some sys_wait
    ∷ some sys_pipe
    ∷ some sys_read
    ∷ some sys_kill
    ∷ some sys_exec
    ∷ some sys_fstat
    ∷ some sys_chdir
    ∷ some sys_dup
    ∷ some sys_getpid
    ∷ some sys_sbrk
    ∷ some sys_sleep
    ∷ some sys_uptime
    ∷ some sys_open
    ∷ some sys_write
    ∷ some sys_mknod
    ∷ some sys_unlink
    ∷ some sys_link
    ∷ some sys_mkdir
    ∷ some sys_close
    ∷ some sys_enable_sched_trace
    ∷ some sys_uprog_shut
    ∷ []

-- The numbers of syscall.h.
pub number : Sys → ℕ
number sys_fork = 1
number sys_exit = 2
number sys_wait = 3
number sys_pipe = 4
number sys_read = 5
number sys_kill = 6
number sys_exec = 7
number sys_fstat = 8
number sys_chdir = 9
number sys_dup = 10
number sys_getpid = 11
number sys_sbrk = 12
number sys_sleep = 13
number sys_uptime = 14
number sys_open = 15
number sys_write = 16
number sys_mknod = 17
number sys_unlink = 18
number sys_link = 19
number sys_mkdir = 20
number sys_close = 21
number sys_enable_sched_trace = 22
number sys_uprog_shut = 23

-- `num` is an `int`: from 2 ^ 31 on it is negative.
pub syscall : (Sys → ℕ) → ℕ → ℕ
syscall handler eax =
    if ltb 0 eax && (ltb eax (2 ^ 31) && ltb eax (length syscalls))
    then elim (get_or syscalls eax none) [ none ↦ 2 ^ 32 - 1 | some c ↦ handler c ]
    else 2 ^ 32 - 1
