-- ===== src/Proc/Kill.antt =====
-- `kill`, and what it does to a slot that no process is in.
use assignment1_cs.Base.{
  find_index, modify, find_index-some, find_index-none, find_index-modify, get_elem?-modify_self,
  get_elem?-modify_ne, ℕ, ◌+◌, ◌≡◌, ◌≢◌, refl, sym, ap, ◌∙◌, ◌⊎◌, inl, inr, true, false,
  Option-cases, some, get_elem?, ◌==◌, ==→eq, arith,
}
use assignment1_cs.Proc.{
  Proc, ProcState, unused, sleeping, runnable, Table, state_eq, mark_killed, kill, allocproc_claim,
  allocproc_stack, fork_ready, child_of,
}

not_sleeping : (p : Proc) → (mark_killed p).state ≢ sleeping
not_sleeping p h = ground arith

-- `kill` fails and changes nothing when no slot has the process number, and else marks one slot
-- with that number as killed, which then does not sleep, and leaves the other slots alone.
pub kill_lem :
    (t : Table) (pid : ℕ)
    → let (u, found) = kill t pid in
      ((found ≡ false) × (u ≡ t) × ((j : ℕ) (p : Proc) → get_elem? t j ≡ some p → p.pid ≢ pid))
      ⊎ ((found ≡ true)
          × ((i : ℕ) × (p : Proc) × (q : Proc) × (get_elem? t i ≡ some p)
              × (p.pid ≡ pid)
              × (get_elem? u i ≡ some q)
              × (q.killed ≡ true)
              × (q.state ≢ sleeping)
              × ((j : ℕ) → i ≢ j → get_elem? u j ≡ get_elem? t j)))
unfolding kill
kill_lem t pid = elim (Option-cases (find_index (λ p. p.pid == pid) t)) [
  | inl f ↦
      rw (f, kill)
        (inl (
          refl,
          refl,
          λ j p e same.
              let miss : (p.pid == pid) ≡ false = find_index-none (λ p. p.pid == pid) t j f e in
              ground arith,
        ))
  | inr (i, f) ↦
      let (p, there, hit) = find_index-some (λ p. p.pid == pid) t f in
      rw (f, kill)
        (inr (
          refl,
          (
            i,
            p,
            mark_killed p,
            there,
            ==→eq p.pid pid hit,
            get_elem?-modify_self t i mark_killed there,
            refl,
            not_sleeping p,
            (λ j ne. get_elem?-modify_ne t i j mark_killed ne),
          ),
        ))
]

-- The first step of a fork leaves `killed` as it finds it in the slot, and so does the last.
claim_keeps :
    (t : Table) (i nextpid : ℕ) {p : Proc}
    → find_index (λ p. state_eq p.state unused) t ≡ some i
    → get_elem? t i ≡ some p
    → (v : Table) × (q : Proc) × (allocproc_claim t nextpid ≡ some (i, v, nextpid + 1))
      × (get_elem? v i ≡ some q)
      × (q.killed ≡ p.killed)
      × ((j : ℕ) → i ≢ j → get_elem? v j ≡ get_elem? t j)
unfolding allocproc_claim
claim_keeps t i nextpid {p} f there = (
  modify t i (λ q. record q { state = ProcState.embryo; pid = nextpid }),
  record p { state = ProcState.embryo; pid = nextpid },
  rw (f, allocproc_claim),
  get_elem?-modify_self t i _ there,
  refl,
  (λ j ne. get_elem?-modify_ne t i j _ ne),
)

stacked :
    (v : Table) (i kstack : ℕ)
    → kstack ≢ 0
    → (allocproc_stack v i kstack).1 ≡ modify v i (λ p. record p { kstack = kstack })
unfolding allocproc_stack
stacked v i kstack got = ground arith

ready_child :
    (w : Table) (me i pgdir : ℕ) {parent q : Proc}
    → get_elem? w me ≡ some parent
    → get_elem? w i ≡ some q
    → get_elem? (fork_ready w me i pgdir).0 i ≡ some (child_of parent me pgdir q)
unfolding fork_ready
ready_child w me i pgdir {parent} there here =
    rw (there, fork_ready) (get_elem?-modify_self w i (child_of parent me pgdir) here)

fork_keeps :
    (v : Table) (i me kstack pgdir : ℕ) {q parent : Proc}
    → get_elem? v i ≡ some q
    → get_elem? v me ≡ some parent
    → me ≢ i
    → kstack ≢ 0
    → (r : Proc) × (get_elem? (fork_ready (allocproc_stack v i kstack).1 me i pgdir).0 i ≡ some r)
      × (r.killed ≡ q.killed)
      × (r.state ≡ runnable)
fork_keeps v i me kstack pgdir {q} {parent} here there ne got =
    let w = modify v i (λ p. record p { kstack = kstack }) in
    let me_there : get_elem? w me ≡ some parent =
      get_elem?-modify_ne v i me _ (λ e. ne (sym e)) ∙ there in
    (
      child_of parent me pgdir (record q { kstack = kstack }),
      ap (λ x. get_elem? (fork_ready x me i pgdir).0 i) (stacked v i kstack got)
          ∙ ready_child w me i pgdir me_there (get_elem?-modify_self v i _ here),
      refl,
      refl,
    )

same_vacancy : (p : Proc) → state_eq (mark_killed p).state unused ≡ state_eq p.state unused
same_vacancy p = ground arith

-- If the first slot with process number 0 is also the first unused slot, `kill(0)` succeeds, and
-- the child that another process then forks into that slot, with a kernel stack, is runnable and
-- already marked as killed.
pub kill_zero_dooms_fork :
    (t : Table) (i me nextpid kstack pgdir : ℕ) {parent : Proc}
    → find_index (λ p. p.pid == 0) t ≡ some i
    → find_index (λ p. state_eq p.state unused) t ≡ some i
    → get_elem? t me ≡ some parent
    → me ≢ i
    → kstack ≢ 0
    → let (u, found) = kill t 0 in
      (found ≡ true)
      × ((v : Table) × (r : Proc) × (allocproc_claim u nextpid ≡ some (i, v, nextpid + 1))
          × (get_elem? (fork_ready (allocproc_stack v i kstack).1 me i pgdir).0 i ≡ some r)
          × (r.killed ≡ true)
          × (r.state ≡ runnable))
unfolding kill
kill_zero_dooms_fork t i me nextpid kstack pgdir {parent} f g there ne got =
    let (p, here, _) = find_index-some (λ p. p.pid == 0) t f in
    let u = modify t i mark_killed in
    let vacant : find_index (λ p. state_eq p.state unused) u ≡ some i =
      find_index-modify (λ p. state_eq p.state unused) t i mark_killed (λ p _. same_vacancy p)
      ∙ g in
    let (v, q, claimed, q_here, q_killed, others) =
      claim_keeps u i nextpid vacant (get_elem?-modify_self t i mark_killed here) in
    let (r, r_here, r_killed, r_state) =
      fork_keeps v i me kstack pgdir q_here
        (others me (λ e. ne (sym e))
          ∙ get_elem?-modify_ne t i me mark_killed (λ e. ne (sym e))
          ∙ there)
        ne got in
    rw (f, kill) (refl, (v, r, claimed, r_here, r_killed ∙ q_killed, r_state))
