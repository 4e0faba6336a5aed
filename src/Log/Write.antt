-- ===== src/Log/Write.antt =====
-- `log_write` and the state that `commit` takes.
use assignment1_cs.Base.{
  ℕ, zero, suc, ◌+◌, ◌<◌, ◌≡◌, ◌≢◌, refl, ap, ◌∙◌, ◌⊎◌, inl, inr, some, List, [], ◌∷◌, length,
  get_elem?, Bool-cases, update, update_ne, arith, ◌==◌,
}
use assignment1_cs.Log.{Log, absorb, log_write, log_size}
use assignment1_cs.Log.Device.{Block, Disk, bread}
use assignment1_cs.Log.Recovery.{Home}
use assignment1_cs.Log.Commit.{IsReady}
use assignment1_cs.Log.Admission.{length-absorb}

get_elem?-absorb :
    (b : ℕ) (bs : List ℕ) (i c : ℕ)
    → get_elem? (absorb b bs) i ≡ some c
    → (c ≡ b) ⊎ (get_elem? bs i ≡ some c)
unfolding absorb
get_elem?-absorb b [] zero c e = inl (cc)
get_elem?-absorb b [] (suc i) c e = cc
get_elem?-absorb b (x ∷ xs) zero c e = ground arith
get_elem?-absorb b (x ∷ xs) (suc i) c e = ground (arith, get_elem?-absorb b xs i c)

absorb-has : (b : ℕ) (bs : List ℕ) → (i : ℕ) × (get_elem? (absorb b bs) i ≡ some b)
unfolding absorb
absorb-has b [] = (0, refl)
absorb-has b (x ∷ xs) = elim (Bool-cases (x == b)) [
  | inl same ↦ (0, rw same)
  | inr other ↦ let (i, e) = absorb-has b xs in (suc i, rw other e)
]

absorb-keeps :
    (b : ℕ) (bs : List ℕ) (i c : ℕ) → get_elem? bs i ≡ some c → get_elem? (absorb b bs) i ≡ some c
unfolding absorb
absorb-keeps b [] i c e = cc
absorb-keeps b (x ∷ xs) zero c e = ground arith
absorb-keeps b (x ∷ xs) (suc i) c e = ground (arith, absorb-keeps b xs i c)

log_write-inversion :
    (l : Log) (d : Disk) (b : ℕ) (x : Block) {l' : Log} {d' : Disk}
    → log_write l d b x ≡ some (l', d')
    → (l' ≡ record l { blocks = absorb b l.blocks })
      × (d' ≡ record d { dirty = update d.dirty b (some x) })
      × (length l.blocks < log_size)
      × (length l.blocks + 1 < l.size)
      × (0 < l.outstanding)
unfolding log_write
log_write-inversion l d b x e = ground arith

-- A `log_write` of a home block that does not panic keeps the log ready to commit, leaves the disk
-- alone, and changes what `bread` finds at that block only.
pub log_write-IsReady :
    (l : Log) (d : Disk) (b : ℕ) (x : Block) {l' : Log} {d' : Disk}
    → IsReady l d
    → Home l.start l.size b
    → log_write l d b x ≡ some (l', d')
    → IsReady l' d'
      × (d'.stored ≡ d.stored)
      × (bread d' b ≡ x)
      × ((c : ℕ) → b ≢ c → bread d' c ≡ bread d c)
log_write-IsReady l d b x {l'} {d'} r hb e =
    let w = log_write-inversion l d b x e in
    rw (w.0, w.1)
      (
        record {
          header = r.header;
          sized = r.sized;
          room = omega (arith, length-absorb b l.blocks, w);
          fits = omega (arith, length-absorb b l.blocks, w);
          home = λ i c q. elim (get_elem?-absorb b l.blocks i c q) [
            | inl same ↦ rw same hb
            | inr old ↦ r.home i c old
          ];
          clean = λ c inside.
              update_ne d.dirty b c (some x) (λ q. inside (rw (← q) hb)) ∙ r.clean c inside;
          pinned = λ c hc new.
              update_ne d.dirty b c (some x)
                (λ q. new (absorb-has b l.blocks).0 ((absorb-has b l.blocks).1 ∙ ap some q))
              ∙ r.pinned c hc (λ i q. new i (absorb-keeps b l.blocks i c q));
        },
        refl,
        ground arith,
        λ c other. ground arith,
      )
