-- ===== src/Proc/Tests.antt =====
-- Tests of the model of proc.c.
use assignment1_cs.Base.{
  ℕ, ◌≡◌, ◌⊎◌, refl, inl, inr, true, false, Option, none, some, [], ◌∷◌, get_elem?, zero, suc,
  arith, some_inj, sym, ap, ◌∙◌,
}
use assignment1_cs.Proc.{
  Proc, ProcState, unused, sleeping, runnable, running, zombie, Chan, null, of_proc, other, Table,
  kill, wait_round, reap, exit_locked, pass_children, pass_child, wakeup1, allocproc_claim,
  allocproc_stack, fork_ready,
}
use assignment1_cs.Proc.Orphans.{Alive, NoOrphans, started}
use assignment1_cs.Proc.System.{exit, here, next, Reach-NoOrphans}
use assignment1_cs.Proc.Kill.{kill_zero_dooms_fork}

abbrev proc : ProcState → ℕ → Option ℕ → Chan → Proc
proc s pid parent chan = record {
  sz = 4096;
  pgdir = 7;
  kstack = 9;
  state = s;
  pid = pid;
  parent = parent;
  chan = chan;
  killed = false;
  ofile = none ∷ some 3 ∷ [];
  cwd = 1;
  name = 105 ∷ 0 ∷ [];
}

-- init sleeps in `wait`; its child runs, with a zombie and a sleeper for children.
abbrev family : Table
family =
    proc sleeping 1 none (of_proc 0)
    ∷ proc running 2 (some 0) null
    ∷ proc zombie 3 (some 1) null
    ∷ proc sleeping 4 (some 1) (other 5)
    ∷ proc unused 0 none null
    ∷ []

abbrev after_exit : Table
after_exit =
    proc runnable 1 none (of_proc 0)
    ∷ proc zombie 2 (some 0) null
    ∷ proc zombie 3 (some 0) null
    ∷ proc sleeping 4 (some 0) (other 5)
    ∷ proc unused 0 none null
    ∷ []

exit_family : exit_locked family 1 0 ≡ after_exit
unfolding exit_locked pass_children pass_child wakeup1
exit_family = refl

wait_family : (wait_round after_exit 0 false).1 ≡ reap 1 2
unfolding wait_round
wait_family = refl

init-Alive : Alive family 0
init-Alive = record { who = proc sleeping 1 none (of_proc 0); there = refl; living = refl }

child-Alive : Alive family 1
child-Alive = record { who = proc running 2 (some 0) null; there = refl; living = refl }

family_parents :
    (j : ℕ) (p : Proc)
    → get_elem? family j ≡ some p
    → started p.state ≡ true
    → (j ≡ 0) ⊎ ((k : ℕ) × (p.parent ≡ some k) × Alive family k)
family_parents zero p e s = inl refl
family_parents (suc zero) p e s = inr (0, ap (λ x. x.parent) (sym (some_inj e)), init-Alive)
family_parents (suc (suc zero)) p e s = inr (1, ap (λ x. x.parent) (sym (some_inj e)), child-Alive)
family_parents (suc (suc (suc zero))) p e s =
    inr (1, ap (λ x. x.parent) (sym (some_inj e)), child-Alive)
family_parents (suc (suc (suc (suc zero)))) p e s =
    let clash : false ≡ true = ap (λ x. started x.state) (some_inj e) ∙ s in cc clash
family_parents (suc (suc (suc (suc (suc j))))) p e s = cc e

Reach-NoOrphans_example : NoOrphans 0 (exit_locked family 1 0)
Reach-NoOrphans_example =
    Reach-NoOrphans (record { init_lives = init-Alive; parents = family_parents })
      (next here (exit 1 (proc running 2 (some 0) null, refl, refl) (omega arith)))

kill_zero_dooms_fork_example :
    let (u, found) = kill family 0 in
    (found ≡ true)
    × ((v : Table) × (r : Proc) × (allocproc_claim u 5 ≡ some (4, v, 6))
        × (get_elem? (fork_ready (allocproc_stack v 4 11).1 1 4 12).0 4 ≡ some r)
        × (r.killed ≡ true)
        × (r.state ≡ runnable))
kill_zero_dooms_fork_example =
    kill_zero_dooms_fork family 4 1 5 11 12 refl refl refl (omega arith) (omega arith)
