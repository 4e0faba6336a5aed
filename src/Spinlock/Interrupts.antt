-- ===== src/Spinlock/Interrupts.antt =====
-- `pushcli` and `popcli`, and the interrupt flag.
use assignment1_cs.Base.{ℕ, zero, suc, ◌≡◌, refl, false, Option, none, some, arith, ◌<◌}
use assignment1_cs.Spinlock.{Cpu, pushcli, popcli}

abbrev pub pushes : ℕ → Cpu → Cpu
pushes zero c = c
pushes (suc n) c = pushes n (pushcli c)

abbrev pub pops : ℕ → Cpu → Option Cpu
pops zero c = some c
pops (suc n) c = elim (pops n c) [ none ↦ none | some c' ↦ popcli c' ]

-- Interrupts are off, and stay off until the outermost `popcli`.
pub record Off (c : Cpu) : Type 0 where
  pub nested : 0 < c.ncli
  pub quiet : c.interrupts ≡ false

pushcli-Off : (c : Cpu) → Off (pushcli c)
unfolding pushcli
pushcli-Off c = record { nested = omega arith; quiet = refl }

pushes-Off : (n : ℕ) (c : Cpu) → Off c → Off (pushes n c)
pushes-Off zero c o = o
pushes-Off (suc n) c o = pushes-Off n (pushcli c) (pushcli-Off c)

popcli-pushcli : (c : Cpu) → Off c → popcli (pushcli c) ≡ some c
unfolding pushcli popcli
popcli-pushcli c o = ground (arith, o.nested, o.quiet)

nested_pairs : (n : ℕ) (c : Cpu) → Off c → pops n (pushes n c) ≡ some c
nested_pairs zero c o = refl
nested_pairs (suc n) c o =
    rw (nested_pairs n (pushcli c) (pushcli-Off c), pops) (popcli-pushcli c o)

outermost :
    (c : Cpu)
    → c.ncli ≡ 0
    → (c' : Cpu) × (popcli (pushcli c) ≡ some c') × (c'.ncli ≡ 0) × (c'.interrupts ≡ c.interrupts)
unfolding pushcli popcli
outermost c h = (
  record { ncli = 0; intena = c.interrupts; interrupts = c.interrupts },
  ground (arith, h),
  refl,
  refl,
)

-- On a processor outside of any `pushcli`, interrupts are off after one or more calls of
-- `pushcli`, and as many calls of `popcli` do not panic and leave the interrupt flag as it was and
-- the depth at 0.
pub pops-pushes :
    (n : ℕ) (c : Cpu)
    → c.ncli ≡ 0
    → ((pushes (suc n) c).interrupts ≡ false)
      × ((c' : Cpu) × (pops (suc n) (pushes (suc n) c) ≡ some c')
          × (c'.ncli ≡ 0)
          × (c'.interrupts ≡ c.interrupts))
pops-pushes n c h =
    let (c', back, zero_again, restored) = outermost c h in
    (
      (pushes-Off n (pushcli c) (pushcli-Off c)).quiet,
      (c', rw (nested_pairs n (pushcli c) (pushcli-Off c), pops) back, zero_again, restored),
    )
