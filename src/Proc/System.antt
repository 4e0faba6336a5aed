-- ===== src/Proc/System.antt =====
-- The process table under any interleaving of its operations on any number of processors.
use assignment1_cs.Base.{
  find_index, modify, get_elem?-modify_ne, modify_inversion, find_index-some, ℕ, ◌≡◌, ◌≢◌, refl,
  sym, ap, ◌∙◌, inl, inr, Bool, true, false, Bool-cases, Option-cases, some, List, get_elem?, ◌==◌,
  arith, some_inj, ◌&&◌,
}
use assignment1_cs.Proc.{
  Proc, ProcState, unused, embryo, sleeping, runnable, running, zombie, Chan, null, Table, Effect,
  wakeup1, state_eq, parent_eq, exit_locked, exit_files, reaped, wait_round, child_of, mark_killed,
  kill, schedule, yield, sleep, awake, allocproc_claim, allocproc_stack, fork_fail, fork_ready,
  no_files,
}
use assignment1_cs.Proc.Orphans.{
  lives, started, Alive, NoOrphans, Kept, modify-Kept, NoOrphans-kept, wakeup1-AllKept,
}
use assignment1_cs.Proc.Exit.{exit_locked-NoOrphans}

-- The process in a slot is in the given state.
abbrev pub In : ProcState → Table → ℕ → Type 0
In s t i = (p : Proc) × (get_elem? t i ≡ some p) × (p.state ≡ s)

-- `me` is a process that runs on some processor. A slot under construction is only touched by its
-- creator, and by `kill`. `exit` passes its panic test before it takes the lock.
pub data Step (init : ℕ) (t : Table) : Table → Type 0 where
  claim :
      {i next : ℕ} {u : Table} (nextpid : ℕ)
      → allocproc_claim t nextpid ≡ some (i, u, next)
      → Step init t u
  stack : (i kstack : ℕ) → In embryo t i → Step init t (allocproc_stack t i kstack).1
  fail : (np : ℕ) → In embryo t np → Step init t (fork_fail t np).0
  ready :
      (me np pgdir : ℕ)
      → In running t me
      → In embryo t np
      → Step init t (fork_ready t me np pgdir).0
  leave :
      {u : Table} {es : List Effect} (me : ℕ)
      → In running t me
      → exit_files t me init ≡ some (u, es)
      → Step init t u
  exit : (me : ℕ) → In running t me → me ≢ init → Step init t (exit_locked t me init)
  wait : (me : ℕ) (killed : Bool) → In running t me → Step init t (wait_round t me killed).0
  rest : (me : ℕ) (chan : Chan) → In running t me → Step init t (sleep t me chan)
  wake : (me : ℕ) → In running t me → Step init t (awake t me)
  give_up : (me : ℕ) → In running t me → Step init t (yield t me)
  run : {u : Table} (i : ℕ) → schedule t i ≡ some u → Step init t u
  wakeup : (chan : Chan) → Step init t (wakeup1 chan t)
  slay : (pid : ℕ) → Step init t (kill t pid).0

pub data Reach (init : ℕ) (t : Table) : Table → Type 0 where
  here : Reach init t t
  next : {u v : Table} → Reach init t u → Step init u v → Reach init t v

pub state_eq→eq : (s u : ProcState) → state_eq s u ≡ true → s ≡ u
state_eq→eq unused u h = ground arith
state_eq→eq embryo u h = ground arith
state_eq→eq sleeping u h = ground arith
state_eq→eq runnable u h = ground arith
state_eq→eq running u h = ground arith
state_eq→eq zombie u h = ground arith

pub and_right : (a b : Bool) → (a && b) ≡ true → b ≡ true
and_right a b h = ground arith

module _ {init : ℕ} (t : Table) (h : NoOrphans init t) where
  -- Changing a process of a known state.
  modify_known :
      (s : ProcState) (i : ℕ) (f : Proc → Proc)
      → In s t i
      → ((p : Proc) → p.state ≡ s → Kept p (f p))
      → NoOrphans init (modify t i f)
  modify_known s i f (p, there, is) k =
      modify-Kept t i f (λ q e. k q (ap (λ x. x.state) (some_inj (sym e ∙ there)) ∙ is)) h

  -- A process that is nobody's parent may change, if it then has a living parent of its own.
  modify-dead :
      (i : ℕ) (f : Proc → Proc) (p : Proc)
      → get_elem? t i ≡ some p
      → lives p.state ≡ false
      → (started (f p).state ≡ true → (k : ℕ) × ((f p).parent ≡ some k) × Alive t k)
      → NoOrphans init (modify t i f)
  modify-dead i f p there dead new = record {
    init_lives = still init h.init_lives;
    parents = λ j q e s. elim (modify_inversion t i j f e) [
      | inl (same, (p', e', z)) ↦
          let p'-is : p' ≡ p = some_inj (sym e' ∙ ap (get_elem? t) (sym same) ∙ there) in
          let q-is : q ≡ f p = z ∙ ap f p'-is in
          let (k, g, a) = new (ap (λ x. started x.state) (sym q-is) ∙ s) in
          inr (k, ap (λ x. x.parent) q-is ∙ g, still k a)
      | inr (diff, e') ↦ elim (h.parents j q e' s) [
        | inl at_init ↦ inl at_init
        | inr (k, g, a) ↦ inr (k, g, still k a)
      ]
    ];
  }
    where
      apart : (k : ℕ) → Alive t k → i ≢ k
      apart k a same =
          let who-is : p ≡ a.who = some_inj (sym there ∙ ap (get_elem? t) same ∙ a.there) in
          let clash : false ≡ true = sym dead ∙ ap (λ x. lives x.state) who-is ∙ a.living in
          cc clash

      still : (k : ℕ) → Alive t k → Alive (modify t i f) k
      still k a = record {
        who = a.who;
        there = get_elem?-modify_ne t i k f (apart k a) ∙ a.there;
        living = a.living;
      }

  claim-NoOrphans :
      {i next : ℕ} {u : Table} (nextpid : ℕ)
      → allocproc_claim t nextpid ≡ some (i, u, next)
      → NoOrphans init u
  unfolding allocproc_claim
  claim-NoOrphans {i} {next} {u} nextpid e =
      elim (Option-cases (find_index (λ p. state_eq p.state unused) t)) [
        | inl f ↦ absurd (ground arith)
        | inr (j, f) ↦
            let (p, there, free) = find_index-some (λ p. state_eq p.state unused) t f in
            let u-is : u ≡ modify t j (λ q. record q { state = embryo; pid = nextpid }) =
              ground arith in
            rw u-is (
              modify_known unused j (λ q. record q { state = embryo; pid = nextpid })
                (p, there, state_eq→eq p.state unused free) (λ q is. ground arith))
      ]

  stack-NoOrphans : (i kstack : ℕ) → In embryo t i → NoOrphans init (allocproc_stack t i kstack).1
  unfolding allocproc_stack
  stack-NoOrphans i kstack at = elim (Bool-cases (kstack == 0)) [
    | inl none_left ↦ rw none_left (
        modify_known embryo i (λ p. record p { kstack = 0; state = unused }) at
          (λ q is. ground arith))
    | inr got ↦
        rw got (modify_known embryo i (λ p. record p { kstack = kstack }) at (λ q is. ground arith))
  ]

  fail-NoOrphans : (np : ℕ) → In embryo t np → NoOrphans init (fork_fail t np).0
  unfolding fork_fail
  fail-NoOrphans np (p, there, is) =
      rw (there, fork_fail)
        (modify_known embryo np (λ q. record q { pgdir = 0; kstack = 0; state = unused })
          (p, there, is) (λ q is'. ground arith))

  ready-NoOrphans :
      (me np pgdir : ℕ)
      → In running t me
      → In embryo t np
      → NoOrphans init (fork_ready t me np pgdir).0
  unfolding fork_ready
  ready-NoOrphans me np pgdir (p, there, is) (q, there', is') =
      rw (there, fork_ready)
        (modify-dead np (child_of p me pgdir) q there' (ap lives is')
          (λ _. (me, refl, record { who = p; there = there; living = ap lives is })))

  leave-NoOrphans :
      {u : Table} {es : List Effect} (me : ℕ)
      → In running t me
      → exit_files t me init ≡ some (u, es)
      → NoOrphans init u
  unfolding exit_files
  leave-NoOrphans {u} {es} me (p, there, is) e =
      let u-is : u ≡ modify t me (λ q. record q { ofile = no_files q.ofile; cwd = 0 }) =
        ground arith in
      rw u-is (
        modify_known running me (λ q. record q { ofile = no_files q.ofile; cwd = 0 }) (p, there, is)
          (λ q is'. ground arith))

  run-NoOrphans : {u : Table} (i : ℕ) → schedule t i ≡ some u → NoOrphans init u
  unfolding schedule
  run-NoOrphans {u} i e = elim (Option-cases (get_elem? t i)) [
    | inl f ↦ absurd (ground arith)
    | inr (p, f) ↦ elim (Bool-cases (state_eq p.state runnable)) [
      | inl is ↦
          let u-is : u ≡ modify t i (λ q. record q { state = running }) = ground arith in
          rw u-is (
            modify_known runnable i (λ q. record q { state = running })
              (p, f, state_eq→eq p.state runnable is) (λ q is'. ground arith))
      | inr not_it ↦ absurd (ground arith)
    ]
  ]

  slay-NoOrphans : (pid : ℕ) → NoOrphans init (kill t pid).0
  unfolding kill
  slay-NoOrphans pid = elim (Option-cases (find_index (λ p. p.pid == pid) t)) [
    | inl f ↦ rw (f, kill) h
    | inr (i, f) ↦ rw (f, kill) (modify-Kept t i mark_killed (λ p e. ground arith) h)
  ]

  wait-NoOrphans : (me : ℕ) (killed : Bool) → NoOrphans init (wait_round t me killed).0
  unfolding wait_round
  wait-NoOrphans me killed =
      elim (Option-cases (find_index (λ p. parent_eq p.parent me && state_eq p.state zombie) t)) [
        | inr (i, f) ↦
            let (p, there, both) =
              find_index-some (λ p. parent_eq p.parent me && state_eq p.state zombie) t f in
            let is : p.state ≡ zombie =
              state_eq→eq p.state zombie (and_right (parent_eq p.parent me) _ both) in
            rw (f, there, wait_round) (modify-dead i reaped p there (ap lives is) (λ s. cc))
        | inl f ↦ elim (Option-cases (find_index (λ p. parent_eq p.parent me) t)) [
          | inl g ↦ rw (f, g, wait_round) h
          | inr (i, g) ↦ elim (Bool-cases killed) [
            | inl k ↦ rw (f, g, k, wait_round) h
            | inr k ↦ rw (f, g, k, wait_round) h
          ]
        ]
      ]

-- What every operation of the process table, by any process on any processor, keeps.
Step-NoOrphans : {init : ℕ} {t u : Table} → Step init t u → NoOrphans init t → NoOrphans init u
unfolding sleep awake yield
Step-NoOrphans {t = t} (claim nextpid e) h = claim-NoOrphans t h nextpid e
Step-NoOrphans {t = t} (stack i kstack at) h = stack-NoOrphans t h i kstack at
Step-NoOrphans {t = t} (fail np at) h = fail-NoOrphans t h np at
Step-NoOrphans {t = t} (ready me np pgdir at at') h = ready-NoOrphans t h me np pgdir at at'
Step-NoOrphans {t = t} (leave me at e) h = leave-NoOrphans t h me at e
Step-NoOrphans {init} {t} (exit me (p, there, is) ne) h =
    exit_locked-NoOrphans me init t there is ne h
Step-NoOrphans {t = t} (wait me killed at) h = wait-NoOrphans t h me killed
Step-NoOrphans {t = t} (rest me chan at) h =
    modify_known t h running me (λ p. record p { chan = chan; state = sleeping }) at
      (λ q is. ground arith)
Step-NoOrphans {t = t} (wake me at) h =
    modify_known t h running me (λ p. record p { chan = null }) at (λ q is. ground arith)
Step-NoOrphans {t = t} (give_up me at) h =
    modify_known t h running me (λ p. record p { state = runnable }) at (λ q is. ground arith)
Step-NoOrphans {t = t} (run i e) h = run-NoOrphans t h i e
Step-NoOrphans {t = t} (wakeup chan) h = NoOrphans-kept (wakeup1-AllKept chan t) h
Step-NoOrphans {t = t} (slay pid) h = slay-NoOrphans t h pid

-- From any table in which init is alive and every other started process has a living parent, every
-- table that the operations of all processes reach in any order is such a table again.
pub Reach-NoOrphans :
    {init : ℕ} {t u : Table} → NoOrphans init t → Reach init t u → NoOrphans init u
Reach-NoOrphans h here = h
Reach-NoOrphans h (next r st) = Step-NoOrphans st (Reach-NoOrphans h r)
