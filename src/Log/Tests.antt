-- ===== src/Log/Tests.antt =====
-- Tests of the model of log.c.
use assignment1_cs.Base.{
  ℕ, zero, suc, ◌≡◌, ◌≢◌, ◌⊎◌, refl, false, none, some, [], ◌∷◌, replicate, get_elem?, update,
  arith,
}
use assignment1_cs.Log.{Log, log_write, begin_op, absorb, commit}
use assignment1_cs.Log.Device.{Block, Disk, bread}
use assignment1_cs.Log.Header.{decode}
use assignment1_cs.Log.Recovery.{Home, Clean, Clean-Recovers}
use assignment1_cs.Log.Restart.{restart, restarts, recovery_converges}
use assignment1_cs.Log.Commit.{IsReady, crash_safe, commit_durable}
use assignment1_cs.Log.Write.{log_write-IsReady}
use assignment1_cs.Log.Admission.{
  Running, begin, Reach, start, later, IsFresh, log_write_fits, HasRoom, Reach-HasRoom,
}

abbrev zeros : Block
zeros = replicate 128 0

abbrev ones : Block
ones = replicate 128 1

-- Block 40 is changed in the cache and listed in the log.
abbrev one_block : Log
one_block = record { start = 2; size = 31; outstanding = 1; committing = false; blocks = 40 ∷ [] }

abbrev pinned_40 : ℕ → Disk
pinned_40 power = record {
  stored = λ _. zeros;
  dirty = update (λ _. none) 40 (some ones);
  power = power;
}

listed_40 : (i b : ℕ) → get_elem? (40 ∷ []) i ≡ some b → Home 2 31 b
listed_40 zero b e = ground arith
listed_40 (suc i) b e = cc

one_block-IsReady : (power : ℕ) → IsReady one_block (pinned_40 power)
unfolding decode
one_block-IsReady power = record {
  header = refl;
  sized = refl;
  room = omega arith;
  fits = omega arith;
  home = listed_40;
  clean = λ b inside. ground arith;
  pinned = λ b h new. ground (arith, new 0);
}

-- Power for two writes: the log block and the header. Then a recovery with power for none, and one
-- with power for 31.
crash_safe_example :
    let D = (restart 2 31 (restarts 2 31 (commit one_block (pinned_40 2)).1 (0 ∷ [])) 31).stored in
    Clean 2 31 D (λ _. zeros) ⊎ Clean 2 31 D (bread (pinned_40 2))
crash_safe_example =
    crash_safe one_block (pinned_40 2) (0 ∷ []) 31 (one_block-IsReady 2) (omega arith)

commit_durable_example :
    Clean 2 31 (commit one_block (pinned_40 4)).1.stored (bread (pinned_40 4))
    × ((commit one_block (pinned_40 4)).0 ≡ record one_block { blocks = [] })
commit_durable_example = commit_durable one_block (pinned_40 4) (one_block-IsReady 4) (omega arith)

abbrev blank : Disk
blank = record { stored = λ _. zeros; dirty = λ _. none; power = 0 }

recovery_converges_example :
    Clean 2 31 (restart 2 31 (restarts 2 31 blank (1 ∷ [])) 31).stored (λ _. zeros)
unfolding decode
recovery_converges_example =
    recovery_converges 2 31 blank (1 ∷ []) 31
      (Clean-Recovers 2 31 (λ _. zeros) (λ _. zeros) (omega arith)
        (record { header = refl; sized = refl; homes = λ b h. refl }))
      (omega arith)

log_write-IsReady_example :
    let l = record one_block { blocks = 40 ∷ 41 ∷ [] } in
    let d = record (pinned_40 9) {
      dirty = update (update (λ _. none) 40 (some ones)) 41 (some ones);
    } in
    IsReady l d
    × (d.stored ≡ (pinned_40 9).stored)
    × (bread d 41 ≡ ones)
    × ((c : ℕ) → 41 ≢ c → bread d c ≡ bread (pinned_40 9) c)
unfolding log_write absorb
log_write-IsReady_example =
    log_write-IsReady one_block (pinned_40 9) 41 ones (one_block-IsReady 9) (omega arith) refl

abbrev idle : Log
idle = record { start = 2; size = 31; outstanding = 0; committing = false; blocks = [] }

abbrev began : Running
began = record { log = record idle { outstanding = 1 }; disk = blank; budgets = 10 ∷ [] }

began_reached : Reach idle blank began
unfolding begin_op
began_reached = later start (begin refl)

idle-IsFresh : IsFresh idle
idle-IsFresh = record { outstanding = refl; committing = refl; blocks = refl }

log_write_fits_example : (s : Log × Disk) × (log_write began.log blank 40 ones ≡ some s)
log_write_fits_example = log_write_fits 0 9 40 ones idle-IsFresh (omega arith) began_reached refl

Reach-HasRoom_example : HasRoom began
Reach-HasRoom_example = Reach-HasRoom idle-IsFresh began_reached

-- Two calls run with ten blocks each: a third has to wait for the eleventh.
third_waits : begin_op (record idle { outstanding = 2; blocks = 1 ∷ [] }) ≡ none
unfolding begin_op
third_waits = refl
