-- ===== src/Log/Recovery.antt =====
-- What recovery makes of a disk, also when power fails while it runs.
use assignment1_cs.Base.{
  ℕ, zero, suc, ◌+◌, ◌-◌, ◌≤◌, ◌<◌, ◌≡◌, ◌≢◌, refl, ap, ◌∙◌, ◌⊎◌, inl, inr, none, some, List, [],
  ◌∷◌, length, get_elem?, get_elem?-lt, ◌==◌, Bool-cases, update, update_ne, arith,
}
use assignment1_cs.Log.{write_head, install_trans}
use assignment1_cs.Log.Device.{
  Block, Disk, bread, bwrite, or_disk, stored-bwrite_self, stored-bwrite_ne,
}
use assignment1_cs.Log.Header.{
  decode, encode, block_words, decode-encode, length-encode, write_head_lem,
}

-- Whether a header names a block.
pub named_or_not :
    (b : ℕ) (bs : List ℕ)
    → ((i : ℕ) × (get_elem? bs i ≡ some b)) ⊎ ((i : ℕ) → get_elem? bs i ≢ some b)
named_or_not b [] = inr (λ i e. cc)
named_or_not b (x ∷ xs) = elim (Bool-cases (x == b)) [
  | inl same ↦ inl (0, ap some (ground arith))
  | inr other ↦ elim (named_or_not b xs) [
    | inl (i, e) ↦ inl (suc i, e)
    | inr new ↦ inr (fresh (λ e. ground arith) new)
  ]
]
  where
    fresh :
        (x ≡ b → ⊥) → ((i : ℕ) → get_elem? xs i ≢ some b) → (i : ℕ) → get_elem? (x ∷ xs) i ≢ some b
    fresh h new zero e = h (cc)
    fresh h new (suc i) e = new i e

module _ (start size : ℕ) where
  -- Outside the header and the log blocks.
  abbrev pub Home : ℕ → Type 0
  Home b = (b < start) ⊎ (start + size ≤ b)

  -- The header names `blocks`, and recovery will bring every home block to the contents that `T`
  -- gives: the named ones from the log, while the others are there already.
  pub record Recovers (D T : ℕ → Block) (blocks : List ℕ) : Type 0 where
    pub header : decode (D start) ≡ blocks
    pub sized : length (D start) ≡ block_words
    pub room : length blocks < size
    pub home : (i b : ℕ) → get_elem? blocks i ≡ some b → Home b
    pub logged : (i b : ℕ) → get_elem? blocks i ≡ some b → D (start + i + 1) ≡ T b
    pub rest : (b : ℕ) → Home b → ((i : ℕ) → get_elem? blocks i ≢ some b) → D b ≡ T b

  -- An empty header, and every home block as `T` gives it.
  pub record Clean (D T : ℕ → Block) : Type 0 where
    pub header : decode (D start) ≡ []
    pub sized : length (D start) ≡ block_words
    pub homes : (b : ℕ) → Home b → D b ≡ T b

  pub Clean-Recovers : (D T : ℕ → Block) → 0 < size → Clean D T → Recovers D T []
  Clean-Recovers D T h c = record {
    header = c.header;
    sized = c.sized;
    room = h;
    home = λ i b e. cc;
    logged = λ i b e. cc;
    rest = λ b hb _. c.homes b hb;
  }

  -- One copy of a log block to its home.
  copy_home :
      (D T : ℕ → Block) (blocks : List ℕ) (i b : ℕ)
      → Recovers D T blocks
      → get_elem? blocks i ≡ some b
      → Recovers (update D b (D (start + i + 1))) T blocks
  copy_home D T blocks i b r e =
      let same : update D b (D (start + i + 1)) start ≡ D start =
        update_ne D b start (D (start + i + 1)) (omega (arith, r.home i b e, r.room)) in
      record {
        header = rw same r.header;
        sized = rw same r.sized;
        room = r.room;
        home = r.home;
        logged = λ j c q.
            update_ne D b (start + j + 1) (D (start + i + 1))
              (omega (arith, r.home i b e, r.room, get_elem?-lt blocks j q))
            ∙ r.logged j c q;
        rest = λ c hc new.
            update_ne D b c (D (start + i + 1)) (λ q. new i (e ∙ ap some q)) ∙ r.rest c hc new;
      }

  -- The buffers of the log are clean.
  abbrev pub LogClean : Disk → Type 0
  LogClean d = (b : ℕ) → ((b < start) ⊎ (start + size ≤ b) → ⊥) → d.dirty b ≡ none

  bwrite-LogClean : (d : Disk) (b : ℕ) (x : Block) → LogClean d → LogClean (bwrite d b x)
  bwrite-LogClean d b x h c inside = ground (arith, h c inside)

  -- The same for the write that may be lost.
  install_step :
      (d : Disk) (T : ℕ → Block) (blocks : List ℕ) (i b : ℕ)
      → LogClean d
      → Recovers d.stored T blocks
      → get_elem? blocks i ≡ some b
      → Recovers (bwrite d b (bread d (start + i + 1))).stored T blocks
  install_step d T blocks i b clean r e =
      let unpinned : d.dirty (start + i + 1) ≡ none =
        clean (start + i + 1) (λ h. omega (arith, get_elem?-lt blocks i e, r.room)) in
      elim (Bool-cases (d.power == 0)) [
        | inl off ↦ rw off r
        | inr on ↦ rw (on, unpinned) (copy_home d.stored T blocks i b r e)
      ]

  -- The entries of the header that a loop of log.c still has before it.
  abbrev pub Suffix : List ℕ → ℕ → List ℕ → Type 0
  Suffix blocks tail bs = (i b : ℕ) → get_elem? bs i ≡ some b → get_elem? blocks (tail + i) ≡ some b

  pub Suffix-tail :
      (blocks : List ℕ) (tail b : ℕ) (bs : List ℕ)
      → Suffix blocks tail (b ∷ bs)
      → Suffix blocks (tail + 1) bs
  Suffix-tail blocks tail b bs s i c e = ap (get_elem? blocks) (omega arith) ∙ s (suc i) c e

  pub Suffix-head :
      (blocks : List ℕ) (tail b : ℕ) (bs : List ℕ)
      → Suffix blocks tail (b ∷ bs)
      → get_elem? blocks tail ≡ some b
  Suffix-head blocks tail b bs s = ap (get_elem? blocks) (omega arith) ∙ s 0 b refl

  module _ (T : ℕ → Block) (blocks : List ℕ) where
    -- What holds all through `install_trans`.
    pub record Installing (d : Disk) : Type 0 where
      pub clean : LogClean d
      pub recovers : Recovers d.stored T blocks

    Installing-step :
        (d : Disk) (tail b : ℕ)
        → Installing d
        → get_elem? blocks tail ≡ some b
        → Installing (bwrite d b (bread d (start + tail + 1)))
    Installing-step d tail b h e = record {
      clean = bwrite-LogClean d b (bread d (start + tail + 1)) h.clean;
      recovers = install_step d T blocks tail b h.clean h.recovers e;
    }

    pub install_trans-Installing :
        (d : Disk) (tail : ℕ) (bs : List ℕ)
        → Installing d
        → Suffix blocks tail bs
        → Installing (install_trans start d tail bs)
    unfolding install_trans
    install_trans-Installing d tail [] h s = h
    install_trans-Installing d tail (b ∷ bs) h s =
        install_trans-Installing (bwrite d b (bread d (start + tail + 1))) (tail + 1) bs
          (Installing-step d tail b h (Suffix-head blocks tail b bs s))
          (Suffix-tail blocks tail b bs s)

    pub power-install_trans :
        (d : Disk) (tail : ℕ) (bs : List ℕ)
        → (install_trans start d tail bs).power ≡ d.power - length bs
    unfolding install_trans
    power-install_trans d tail [] = omega arith
    power-install_trans d tail (b ∷ bs) =
        omega (arith, power-install_trans (bwrite d b (bread d (start + tail + 1))) (tail + 1) bs)

    copied :
        (d : Disk) (tail b : ℕ)
        → Installing d
        → get_elem? blocks tail ≡ some b
        → bread d (start + tail + 1) ≡ T b
    copied d tail b h e =
        ap (λ o. or_disk o (d.stored (start + tail + 1)))
          (h.clean (start + tail + 1)
            (λ out. omega (arith, get_elem?-lt blocks tail e, h.recovers.room)))
        ∙ h.recovers.logged tail b e

    -- A home block that is up to date stays so.
    install_trans-keeps :
        (d : Disk) (tail : ℕ) (bs : List ℕ) (c : ℕ)
        → Installing d
        → Suffix blocks tail bs
        → d.stored c ≡ T c
        → (install_trans start d tail bs).stored c ≡ T c
    unfolding install_trans
    install_trans-keeps d tail [] c h s e = e
    install_trans-keeps d tail (b ∷ bs) c h s e =
        install_trans-keeps (bwrite d b (bread d (start + tail + 1))) (tail + 1) bs c
          (Installing-step d tail b h (Suffix-head blocks tail b bs s))
          (Suffix-tail blocks tail b bs s)
          (kept d b c (bread d (start + tail + 1)) e
            (copied d tail b h (Suffix-head blocks tail b bs s)))
      where
        kept :
            (d : Disk) (b c : ℕ) (x : Block)
            → d.stored c ≡ T c
            → x ≡ T b
            → (bwrite d b x).stored c ≡ T c
        kept d b c x e f = ground (arith, λ (q : b ≡ c). ap T q)

    written :
        (d : Disk) (b c : ℕ) (x : Block)
        → 0 < d.power
        → b ≡ c
        → x ≡ T b
        → (bwrite d b x).stored c ≡ T c
    written d b c x on q e = ground (arith, ap T q)

    -- With power for all of its writes the loop brings every named block home.
    pub install_trans-done :
        (d : Disk) (tail : ℕ) (bs : List ℕ)
        → Installing d
        → Suffix blocks tail bs
        → length bs ≤ d.power
        → (i b : ℕ) → get_elem? bs i ≡ some b
        → (install_trans start d tail bs).stored b ≡ T b
    unfolding install_trans
    install_trans-done d tail [] h s on i b e = cc
    install_trans-done d tail (b ∷ bs) h s on (suc i) c e =
        install_trans-done (bwrite d b (bread d (start + tail + 1))) (tail + 1) bs
          (Installing-step d tail b h (Suffix-head blocks tail b bs s))
          (Suffix-tail blocks tail b bs s) (omega arith) i c e
    install_trans-done d tail (b ∷ bs) h s on zero c e =
        install_trans-keeps (bwrite d b (bread d (start + tail + 1))) (tail + 1) bs c
          (Installing-step d tail b h (Suffix-head blocks tail b bs s))
          (Suffix-tail blocks tail b bs s)
          (written d b c (bread d (start + tail + 1)) (omega arith) (cc)
            (copied d tail b h (Suffix-head blocks tail b bs s)))

    -- Clearing the header of an installed log leaves a clean disk.
    pub head_cleared :
        (d : Disk)
        → Installing d
        → 0 < d.power
        → ((i b : ℕ) → get_elem? blocks i ≡ some b → d.stored b ≡ T b)
        → Clean (write_head start d []).stored T
    head_cleared d h on all =
        let r = h.recovers in
        let unpinned : d.dirty start ≡ none = h.clean start (λ out. omega (arith, r.room)) in
        let header : (write_head start d []).stored start ≡ encode [] (d.stored start) =
          rw write_head_lem (
            stored-bwrite_self d start (encode [] (bread d start)) on
            ∙ ap (λ o. encode [] (or_disk o (d.stored start))) unpinned) in
        record {
          header = rw (header, decode-encode [] (d.stored start) r.sized (omega arith));
          sized = rw (header, length-encode) r.sized;
          homes = λ b hb. rw write_head_lem (
              stored-bwrite_ne d start b (encode [] (bread d start)) (omega (arith, hb, r.room))
              ∙ elim (named_or_not b blocks) [
                | inl (i, e) ↦ all i b e
                | inr new ↦ r.rest b hb new
              ]);
        }
