-- ===== src/Log/Commit.antt =====
-- `commit` when the power fails, and the recoveries after it.
use assignment1_cs.Base.{
  ℕ, zero, suc, ◌+◌, ◌-◌, ◌*◌, ◌≤◌, ◌<◌, ◌≡◌, ◌≢◌, refl, sym, ap, ap₂, ◌∙◌, ◌⊎◌, inl, inr, none,
  some, List, [], ◌∷◌, length, get_elem?, get_elem?-lt, update_ne, arith,
}
use assignment1_cs.Log.{Log, write_head, install_trans, write_log, commit}
use assignment1_cs.Log.Device.{
  Disk, bread, bwrite, or_disk, stored-bwrite_self, stored-bwrite_ne, stored-bwrite_off,
  bread-bwrite_ne,
}
use assignment1_cs.Log.Header.{
  decode, encode, block_words, decode-encode, length-encode, write_head_lem,
}
use assignment1_cs.Log.Recovery.{
  Home, Recovers, Clean, Clean-Recovers, LogClean, Installing, power-install_trans,
}
use assignment1_cs.Log.Restart.{
  finish, finish-Clean, finish-Recovers, restart, restarts, recovery_converges, zero_or_pos,
}

nil_of_length {ℓ} : {A : Type ℓ} (xs : List A) → length xs ≡ 0 → xs ≡ []
nil_of_length [] e = refl
nil_of_length (x ∷ xs) e = absurd (omega arith)

module _ (start : ℕ) where
  -- The log blocks from `tail` on are all that `write_log` touches.
  write_log-frame :
      (d : Disk) (tail : ℕ) (bs : List ℕ) (c : ℕ)
      → (c ≤ start + tail) ⊎ (start + tail + length bs < c)
      → ((write_log start d tail bs).stored c ≡ d.stored c)
        × ((write_log start d tail bs).dirty c ≡ d.dirty c)
  unfolding write_log
  write_log-frame d tail [] c out = (refl, refl)
  write_log-frame d tail (b ∷ bs) c out =
      let d' = bwrite d (start + tail + 1) (bread d b) in
      let (same, pinned) = write_log-frame d' (tail + 1) bs c (omega arith) in
      (
        same ∙ stored-bwrite_ne d (start + tail + 1) c (bread d b) (omega arith),
        pinned ∙ update_ne d.dirty (start + tail + 1) c none (omega arith),
      )

  write_log-bread :
      (d : Disk) (tail : ℕ) (bs : List ℕ) (c : ℕ)
      → (c ≤ start + tail) ⊎ (start + tail + length bs < c)
      → bread (write_log start d tail bs) c ≡ bread d c
  write_log-bread d tail bs c out =
      let (same, pinned) = write_log-frame d tail bs c out in ap₂ or_disk pinned same

  power-write_log :
      (d : Disk) (tail : ℕ) (bs : List ℕ) → (write_log start d tail bs).power ≡ d.power - length bs
  unfolding write_log
  power-write_log d tail [] = omega arith
  power-write_log d tail (b ∷ bs) =
      omega (arith, power-write_log (bwrite d (start + tail + 1) (bread d b)) (tail + 1) bs)

  -- With power for all of it, each log block holds what the cache has for its home block.
  write_log-done :
      (d : Disk) (tail : ℕ) (bs : List ℕ) (i b : ℕ)
      → ((j c : ℕ) → get_elem? bs j ≡ some c → (c ≤ start + tail) ⊎ (start + tail + length bs < c))
      → length bs ≤ d.power
      → get_elem? bs i ≡ some b
      → (write_log start d tail bs).stored (start + tail + i + 1) ≡ bread d b
  unfolding write_log
  write_log-done d tail [] i b home on e = cc
  write_log-done d tail (c ∷ bs) zero b home on e =
      let d' = bwrite d (start + tail + 1) (bread d c) in
      ap (write_log start d' (tail + 1) bs).stored (omega arith)
      ∙ (write_log-frame d' (tail + 1) bs (start + tail + 1) (omega arith)).0
      ∙ stored-bwrite_self d (start + tail + 1) (bread d c) (omega arith)
      ∙ ap (bread d) (cc)
  write_log-done d tail (c ∷ bs) (suc i) b home on e =
      let d' = bwrite d (start + tail + 1) (bread d c) in
      ap (write_log start d' (tail + 1) bs).stored (omega arith)
      ∙ write_log-done d' (tail + 1) bs i b (λ j x q. omega (arith, home (suc j) x q)) (omega arith)
          e
      ∙ bread-bwrite_ne d (start + tail + 1) b (bread d c) (omega (arith, home (suc i) b e))

  write_log-unpinned :
      (d : Disk) (tail : ℕ) (bs : List ℕ) (c : ℕ)
      → d.dirty c ≡ none
      → (write_log start d tail bs).dirty c ≡ none
  unfolding write_log
  write_log-unpinned d tail [] c e = e
  write_log-unpinned d tail (b ∷ bs) c e =
      write_log-unpinned (bwrite d (start + tail + 1) (bread d b)) (tail + 1) bs c (ground arith)

  off-install_trans :
      (d : Disk) (tail : ℕ) (bs : List ℕ)
      → d.power ≡ 0
      → (install_trans start d tail bs).stored ≡ d.stored
  unfolding install_trans
  off-install_trans d tail [] off = refl
  off-install_trans d tail (b ∷ bs) off =
      let d' = bwrite d b (bread d (start + tail + 1)) in
      off-install_trans d' (tail + 1) bs (omega arith)
      ∙ stored-bwrite_off d b (bread d (start + tail + 1)) off

-- What log.c keeps between transactions, and adds to until the next commit: an empty header on the
-- disk, room in the log, and no pinned buffer but those of the listed home blocks.
pub record IsReady (l : Log) (d : Disk) : Type 0 where
  pub header : decode (d.stored l.start) ≡ []
  pub sized : length (d.stored l.start) ≡ block_words
  pub room : length l.blocks < l.size
  pub fits : length l.blocks < block_words
  pub home : (i b : ℕ) → get_elem? l.blocks i ≡ some b → Home l.start l.size b
  pub clean : LogClean l.start l.size d
  pub pinned :
      (b : ℕ) → Home l.start l.size b → ((i : ℕ) → get_elem? l.blocks i ≢ some b) → d.dirty b ≡ none

module _ (l : Log) (d : Disk) (r : IsReady l d) where
  abbrev logged : Disk
  logged = write_log l.start d 0 l.blocks

  abbrev headed : Disk
  headed = write_head l.start logged l.blocks

  outside :
      (b : ℕ) → Home l.start l.size b → (b ≤ l.start + 0) ⊎ (l.start + 0 + length l.blocks < b)
  outside b h = omega (arith, r.room)

  logged-Clean : Clean l.start l.size logged.stored d.stored
  logged-Clean =
      let start_same = (write_log-frame l.start d 0 l.blocks l.start (omega arith)).0 in
      record {
        header = rw start_same r.header;
        sized = rw start_same r.sized;
        homes = λ b h. (write_log-frame l.start d 0 l.blocks b (outside b h)).0;
      }

  logged-clean : (b : ℕ) → (Home l.start l.size b → ⊥) → logged.dirty b ≡ none
  logged-clean b inside = write_log-unpinned l.start d 0 l.blocks b (r.clean b inside)

  headed-header : 0 < logged.power → headed.stored l.start ≡ encode l.blocks (logged.stored l.start)
  headed-header on =
      ap (λ e. e.stored l.start) (write_head_lem l.start logged l.blocks)
      ∙ stored-bwrite_self logged l.start _ on
      ∙ ap (λ o. encode l.blocks (or_disk o (logged.stored l.start)))
          (logged-clean l.start (λ h. omega (arith, h, r.room)))

  headed-else : (b : ℕ) → l.start ≢ b → headed.stored b ≡ logged.stored b
  headed-else b other =
      ap (λ e. e.stored b) (write_head_lem l.start logged l.blocks)
      ∙ stored-bwrite_ne logged l.start b _ other

  headed-Installing : 0 < logged.power → Installing l.start l.size (bread d) l.blocks headed
  headed-Installing on =
      let sized = logged-Clean.sized in
      record {
        clean = λ b inside. rw write_head_lem (ground (arith, logged-clean b inside));
        recovers = record {
          header = rw (headed-header on) (decode-encode l.blocks _ sized r.fits);
          sized = rw (headed-header on, length-encode) sized;
          room = r.room;
          home = r.home;
          logged = λ i b e.
              headed-else (l.start + i + 1) (omega arith)
              ∙ ap logged.stored (omega arith)
              ∙ write_log-done l.start d 0 l.blocks i b (λ j c q. outside c (r.home j c q))
                  (omega (arith, power-write_log l.start d 0 l.blocks)) e;
          rest = λ b h new.
              headed-else b (omega (arith, h, r.room))
              ∙ logged-Clean.homes b h
              ∙ sym (ap (λ o. or_disk o (d.stored b)) (r.pinned b h new));
        };
      }

  committed : 0 < length l.blocks → (commit l d).1 ≡ finish l.start l.size headed l.blocks
  unfolding commit
  committed some_logged = ground arith

  emptied : 0 < length l.blocks → (commit l d).0 ≡ record l { blocks = [] }
  unfolding commit
  emptied some_logged = ground arith

  power-headed : headed.power ≡ logged.power - 1
  power-headed = rw write_head_lem

  -- Power fails while the log blocks are written: the header is still empty.
  commit_early : 0 < length l.blocks → logged.power ≡ 0 → (commit l d).1.stored ≡ logged.stored
  commit_early some_logged off =
      let installed = install_trans l.start headed 0 l.blocks in
      let off' : headed.power ≡ 0 = rw write_head_lem (omega arith) in
      ap (λ e. e.stored) (committed some_logged ∙ write_head_lem l.start installed [])
      ∙ stored-bwrite_off installed l.start _
          (omega (arith, power-install_trans l.start l.size (bread d) l.blocks headed 0 l.blocks))
      ∙ off-install_trans l.start headed 0 l.blocks off'
      ∙ ap (λ e. e.stored) (write_head_lem l.start logged l.blocks)
      ∙ stored-bwrite_off logged l.start _ off

  idle-commit : length l.blocks ≡ 0 → commit l d ≡ (l, d)
  unfolding commit
  idle-commit none_logged = ground arith

  idle-Clean : length l.blocks ≡ 0 → Clean l.start l.size d.stored (bread d)
  idle-Clean none_logged = record {
    header = r.header;
    sized = r.sized;
    homes = λ b h. sym (
        ap (λ o. or_disk o (d.stored b))
          (r.pinned b h (λ i e. omega (arith, get_elem?-lt l.blocks i e))));
  }

  -- After a power failure at any point of `commit`, or at none, recovery leads the home blocks to
  -- what the disk held before it, or to what the buffer cache held: all of them to the same.
  pub commit_atomic :
      ((bs : List ℕ) × Recovers l.start l.size (commit l d).1.stored d.stored bs)
      ⊎ ((bs : List ℕ) × Recovers l.start l.size (commit l d).1.stored (bread d) bs)
  commit_atomic = elim (zero_or_pos (length l.blocks)) [
    | inl none_logged ↦ inr (
      [],
      rw (idle-commit none_logged)
          (Clean-Recovers l.start l.size _ _ (omega (arith, r.room)) (idle-Clean none_logged)),
    )
    | inr some_logged ↦ elim (zero_or_pos logged.power) [
      | inl off ↦ inl (
        [],
        rw (commit_early some_logged off)
            (Clean-Recovers l.start l.size _ _ (omega (arith, r.room)) logged-Clean),
      )
      | inr on ↦ inr (
          rw (committed some_logged)
            (finish-Recovers l.start l.size (bread d) l.blocks headed (headed-Installing on)))
    ]
  ]

  -- A commit with power for all of its writes brings every home block of the cache to the disk and
  -- leaves the log empty, on the disk and in memory.
  pub commit_durable :
      2 * length l.blocks + 2 ≤ d.power
      → Clean l.start l.size (commit l d).1.stored (bread d)
        × ((commit l d).0 ≡ record l { blocks = [] })
  commit_durable on = elim (zero_or_pos (length l.blocks)) [
    | inl none_logged ↦ rw (idle-commit none_logged) (
      idle-Clean none_logged,
      ap (λ bs. record l { blocks = bs }) (nil_of_length l.blocks none_logged),
    )
    | inr some_logged ↦ (
      rw (committed some_logged) (
          finish-Clean l.start l.size (bread d) l.blocks headed
            (headed-Installing (omega (arith, power-write_log l.start d 0 l.blocks)))
            (omega (arith, power-headed, power-write_log l.start d 0 l.blocks))),
      emptied some_logged,
    )
  ]

-- If the power fails at any point of `commit`, and then in any number of recoveries, the first
-- recovery that has power for `size` block writes leaves an empty log, and the home blocks are all
-- as on the disk before the commit or all as the cache held them.
pub crash_safe :
    (l : Log) (d : Disk) (ps : List ℕ) (p : ℕ)
    → IsReady l d
    → l.size ≤ p
    → let D = (restart l.start l.size (restarts l.start l.size (commit l d).1 ps) p).stored in
      Clean l.start l.size D d.stored ⊎ Clean l.start l.size D (bread d)
crash_safe l d ps p r on = elim (commit_atomic l d r) [
  | inl (bs, q) ↦ inl (recovery_converges l.start l.size (commit l d).1 ps p q on)
  | inr (bs, q) ↦ inr (recovery_converges l.start l.size (commit l d).1 ps p q on)
]
