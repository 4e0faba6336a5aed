-- ===== src/Log/Restart.antt =====
-- Recovery, and how often the power fails meanwhile.
use assignment1_cs.Base.{
  ℕ, zero, suc, ◌≤◌, ◌<◌, ◌≡◌, refl, sym, ap, subst, ◌∙◌, ◌⊎◌, inl, inr, List, [], ◌∷◌, length,
  get_elem?, arith,
}
use assignment1_cs.Log.{write_head, install_trans, recover_from_log}
use assignment1_cs.Log.Device.{Block, Disk, reboot, stored-bwrite_off}
use assignment1_cs.Log.Header.{read_head_lem, write_head_lem}
use assignment1_cs.Log.Recovery.{
  Recovers, Clean, Clean-Recovers, Suffix, Installing, install_trans-Installing,
  power-install_trans, install_trans-done, head_cleared,
}

pub zero_or_pos : (n : ℕ) → (n ≡ 0) ⊎ (0 < n)
zero_or_pos zero = inl refl
zero_or_pos (suc n) = inr (omega arith)

module _ (start size : ℕ) where
  -- The rest of a commit or a recovery once the header is on the disk: install, clear the header.
  abbrev pub finish : Disk → List ℕ → Disk
  finish d blocks = write_head start (install_trans start d 0 blocks) []

  every : (blocks : List ℕ) → Suffix start size blocks 0 blocks
  every blocks i b e = ap (get_elem? blocks) (omega arith) ∙ e

  module _ (T : ℕ → Block) (blocks : List ℕ) (d : Disk) (h : Installing start size T blocks d) where
    pub finish-Clean : length blocks < d.power → Clean start size (finish d blocks).stored T
    finish-Clean on =
        head_cleared start size T blocks (install_trans start d 0 blocks)
          (install_trans-Installing start size T blocks d 0 blocks h (every blocks))
          (omega (arith, power-install_trans start size T blocks d 0 blocks))
          (install_trans-done start size T blocks d 0 blocks h (every blocks) (omega arith))

    -- Wherever the power fails, recovery still leads to `T`.
    pub finish-Recovers : (bs : List ℕ) × Recovers start size (finish d blocks).stored T bs
    finish-Recovers = elim (zero_or_pos (install_trans start d 0 blocks).power) [
      | inl off ↦ (
        blocks,
        subst (λ D. Recovers start size D T blocks)
            (sym (
              ap (λ e. e.stored) (write_head_lem start (install_trans start d 0 blocks) [])
              ∙ stored-bwrite_off (install_trans start d 0 blocks) start _ off))
            (install_trans-Installing start size T blocks d 0 blocks h (every blocks)).recovers,
      )
      | inr on ↦ (
        [],
        Clean-Recovers start size _ T (omega (arith, h.recovers.room))
            (finish-Clean (omega (arith, power-install_trans start size T blocks d 0 blocks))),
      )
    ]

  -- Recovery after a restart, with power for `p` block writes.
  abbrev pub restart : Disk → ℕ → Disk
  restart d p = recover_from_log start (reboot d p)

  abbrev pub restarts : Disk → List ℕ → Disk
  restarts d [] = d
  restarts d (p ∷ ps) = restarts (restart d p) ps

  rebooted :
      {T : ℕ → Block} {blocks : List ℕ} (d : Disk) (p : ℕ)
      → Recovers start size d.stored T blocks
      → Installing start size T blocks (reboot d p)
  rebooted d p r = record { clean = λ b _. refl; recovers = r }

  restart_lem :
      {T : ℕ → Block} {blocks : List ℕ} (d : Disk) (p : ℕ)
      → Recovers start size d.stored T blocks
      → restart d p ≡ finish (reboot d p) blocks
  unfolding recover_from_log
  restart_lem d p r = ap (finish (reboot d p)) (read_head_lem start (reboot d p) ∙ r.header)

  restarts-Recovers :
      (d : Disk) (ps : List ℕ) {T : ℕ → Block} {blocks : List ℕ}
      → Recovers start size d.stored T blocks
      → (bs : List ℕ) × Recovers start size (restarts d ps).stored T bs
  restarts-Recovers d [] {blocks = blocks} r = (blocks, r)
  restarts-Recovers d (p ∷ ps) {T = T} {blocks = blocks} r =
      let f = finish-Recovers T blocks (reboot d p) (rebooted d p r) in
      restarts-Recovers (restart d p) ps
        (subst (λ e. Recovers start size e.stored T f.0) (sym (restart_lem d p r)) f.1)

  -- From any disk whose header promises the contents `T`, recovery that is cut short any number of
  -- times and then has power for `size` writes ends with an empty log and every home block as `T`
  -- gives it.
  pub recovery_converges :
      {T : ℕ → Block} {blocks : List ℕ} (d : Disk) (ps : List ℕ) (p : ℕ)
      → Recovers start size d.stored T blocks
      → size ≤ p
      → Clean start size (restart (restarts d ps) p).stored T
  recovery_converges {T = T} d ps p r on =
      let (bs, q) = restarts-Recovers d ps r in
      subst (λ e. Clean start size e.stored T) (sym (restart_lem (restarts d ps) p q))
        (finish-Clean T bs (reboot (restarts d ps) p) (rebooted (restarts d ps) p q)
          (omega (arith, q.room)))
