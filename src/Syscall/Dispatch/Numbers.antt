-- ===== src/Syscall/Dispatch/Numbers.antt =====
-- The table and the numbers of system calls.
use assignment1_cs.Base.{
  ℕ, zero, suc, ◌+◌, ◌-◌, ◌^◌, ◌&&◌, ◌≡◌, ◌≢◌, ◌<◌, ◌⊎◌, inl, inr, refl, ap, Option, none, some,
  List, [], ◌∷◌, length, get_or, arith, some_inj, Bool-cases, Option-cases, ltb, true,
}
use assignment1_cs.Syscall.Dispatch.{
  Sys, syscalls, number, syscall, sys_fork, sys_exit, sys_wait, sys_pipe, sys_read, sys_kill,
  sys_exec, sys_fstat, sys_chdir, sys_dup, sys_getpid, sys_sbrk, sys_sleep, sys_uptime, sys_open,
  sys_write, sys_mknod, sys_unlink, sys_link, sys_mkdir, sys_close, sys_enable_sched_trace,
  sys_uprog_shut,
}

get_or-number : (c : Sys) → get_or syscalls (number c) none ≡ some c
unfolding syscalls number
get_or-number sys_fork = refl
get_or-number sys_exit = refl
get_or-number sys_wait = refl
get_or-number sys_pipe = refl
get_or-number sys_read = refl
get_or-number sys_kill = refl
get_or-number sys_exec = refl
get_or-number sys_fstat = refl
get_or-number sys_chdir = refl
get_or-number sys_dup = refl
get_or-number sys_getpid = refl
get_or-number sys_sbrk = refl
get_or-number sys_sleep = refl
get_or-number sys_uptime = refl
get_or-number sys_open = refl
get_or-number sys_write = refl
get_or-number sys_mknod = refl
get_or-number sys_unlink = refl
get_or-number sys_link = refl
get_or-number sys_mkdir = refl
get_or-number sys_close = refl
get_or-number sys_enable_sched_trace = refl
get_or-number sys_uprog_shut = refl

number-InTable : (c : Sys) → (0 < number c) × (number c < length syscalls)
unfolding syscalls number
number-InTable sys_fork = (omega arith, omega arith)
number-InTable sys_exit = (omega arith, omega arith)
number-InTable sys_wait = (omega arith, omega arith)
number-InTable sys_pipe = (omega arith, omega arith)
number-InTable sys_read = (omega arith, omega arith)
number-InTable sys_kill = (omega arith, omega arith)
number-InTable sys_exec = (omega arith, omega arith)
number-InTable sys_fstat = (omega arith, omega arith)
number-InTable sys_chdir = (omega arith, omega arith)
number-InTable sys_dup = (omega arith, omega arith)
number-InTable sys_getpid = (omega arith, omega arith)
number-InTable sys_sbrk = (omega arith, omega arith)
number-InTable sys_sleep = (omega arith, omega arith)
number-InTable sys_uptime = (omega arith, omega arith)
number-InTable sys_open = (omega arith, omega arith)
number-InTable sys_write = (omega arith, omega arith)
number-InTable sys_mknod = (omega arith, omega arith)
number-InTable sys_unlink = (omega arith, omega arith)
number-InTable sys_link = (omega arith, omega arith)
number-InTable sys_mkdir = (omega arith, omega arith)
number-InTable sys_close = (omega arith, omega arith)
number-InTable sys_enable_sched_trace = (omega arith, omega arith)
number-InTable sys_uprog_shut = (omega arith, omega arith)

length-syscalls : length syscalls < 2 ^ 31
unfolding syscalls
length-syscalls = omega arith

-- Every entry of the list stands at its number, if the list starts at index `k`.
abbrev Numbered : ℕ → List (Option Sys) → Type 0
Numbered k [] = Unit
Numbered k (none ∷ l) = Numbered (suc k) l
Numbered k (some c ∷ l) = (k ≡ number c) × Numbered (suc k) l

syscalls-Numbered : Numbered 0 syscalls
unfolding syscalls number
syscalls-Numbered = (
  refl,
  (
    refl,
    (
      refl,
      (
        refl,
        (
          refl,
          (
            refl,
            (
              refl,
              (
                refl,
                (
                  refl,
                  (
                    refl,
                    (
                      refl,
                      (
                        refl,
                        (
                          refl,
                          (
                            refl,
                            (
                              refl,
                              (refl, (refl, (refl, (refl, (refl, (refl, (refl, (refl, tt)))))))),
                            ),
                          ),
                        ),
                      ),
                    ),
                  ),
                ),
              ),
            ),
          ),
        ),
      ),
    ),
  ),
)

get_or-Numbered :
    (k j : ℕ) (l : List (Option Sys)) {c : Sys}
    → Numbered k l
    → get_or l j none ≡ some c
    → k + j ≡ number c
get_or-Numbered k j [] n e = cc e
get_or-Numbered k zero (none ∷ l) n e = cc e
get_or-Numbered k zero (some d ∷ l) n e =
    let same : d ≡ _ = some_inj e in omega (arith, n.0, ap number same)
get_or-Numbered k (suc j) (none ∷ l) n e = omega (arith, get_or-Numbered (suc k) j l n e)
get_or-Numbered k (suc j) (some d ∷ l) n e = omega (arith, get_or-Numbered (suc k) j l n.1 e)

in_table :
    (c : Sys) (eax : ℕ)
    → eax ≡ number c
    → (get_or syscalls eax none ≡ some c)
      × ((ltb 0 eax && (ltb eax (2 ^ 31) && ltb eax (length syscalls))) ≡ true)
in_table c eax e =
    let (positive, below) = number-InTable c in
    let small : length syscalls < 2 ^ 31 = length-syscalls in (rw e (get_or-number c), ground arith)

-- `syscall` calls the function whose number in syscall.h is in %eax, and returns -1 if no function
-- has that number.
pub syscall_lem :
    (handler : Sys → ℕ) (eax : ℕ)
    → ((c : Sys) × (eax ≡ number c) × (syscall handler eax ≡ handler c))
      ⊎ (((c : Sys) → eax ≢ number c) × (syscall handler eax ≡ 2 ^ 32 - 1))
unfolding syscall
syscall_lem handler eax =
    elim (Bool-cases (ltb 0 eax && (ltb eax (2 ^ 31) && ltb eax (length syscalls)))) [
      | inr out ↦ inr ((λ c e. cc (out, (in_table c eax e).1)), rw out)
      | inl inside ↦ elim (Option-cases (get_or syscalls eax none)) [
        | inl f ↦ inr ((λ c e. cc (f, (in_table c eax e).0)), rw (inside, f, syscall))
        | inr (c, f) ↦
            let at : eax ≡ number c =
              omega (arith, get_or-Numbered 0 eax syscalls syscalls-Numbered f) in
            inl (c, at, rw (inside, f, syscall))
      ]
    ]
