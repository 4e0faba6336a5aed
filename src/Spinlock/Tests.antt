-- ===== src/Spinlock/Tests.antt =====
-- Two processors at one lock.
use assignment1_cs.Base.{ℕ, ◌≡◌, ◌↔◌, refl, true, false, some, none, update, arith}
use assignment1_cs.Spinlock.{Cpu, initlock, holding, acquire_enter, acquire_spin, acquire_record}
use assignment1_cs.Spinlock.Exclusion.{
  Phase, outside, spinning, taken, held, owns, enter, spin, note, Reach, start, next,
  mutual_exclusion,
}
use assignment1_cs.Spinlock.Holding.{holding_iff}

abbrev cpu : Cpu
cpu = record { ncli = 0; intena = false; interrupts = true }

abbrev phases : ℕ → Phase
phases = update (update (update (λ i. outside) 1 spinning) 1 taken) 1 held

taken_lock : Reach (record { locked = 1; cpu = some 1 }) phases
unfolding initlock acquire_enter holding acquire_spin acquire_record
taken_lock = next (next (next start (enter cpu 1 refl refl)) (spin 1 refl)) (note 1 refl)

mutual_exclusion_example : owns (phases 0) ≡ false
mutual_exclusion_example = mutual_exclusion 1 0 taken_lock (λ e. absurd (ground arith)) refl

holding_iff_example : (holding (record { locked = 1; cpu = some 1 }) 1 ≡ true) ↔ (phases 1 ≡ held)
holding_iff_example = holding_iff 1 taken_lock

second_acquire : acquire_enter (record { locked = 1; cpu = some 1 }) 1 cpu ≡ none
unfolding acquire_enter holding
second_acquire = refl
