-- ===== src/Fs/Icache/Tests.antt =====
-- A cache of two slots: inode 5 with one reference, and a free slot that held inode 5 earlier.
use assignment1_cs.Base.{
  ℕ, zero, suc, ◌≡◌, ◌<◌, refl, sym, ap, ◌∙◌, true, false, none, some, [], ◌∷◌, get_elem?, arith,
  some_inj, held,
}
use assignment1_cs.Fs.Icache.{Inode, Icache, Dinode, iget, iget_loop, iput_begin}
use assignment1_cs.Fs.Icache.Refs.{IsCache, here, next, get, Reach-IsCache}

abbrev dinode : Dinode
dinode = record { type = 2; major = 0; minor = 0; nlink = 0; size = 0; addrs = 7 ∷ 0 ∷ [] }

abbrev slot : ℕ → Inode
slot ref = record { dev = 1; inum = 5; ref = ref; busy = false; valid = true; disk = dinode }

abbrev two_slots : Icache
two_slots = slot 0 ∷ slot 1 ∷ []

two_slots-IsCache : IsCache two_slots (1 ∷ [])
two_slots-IsCache = record {
  unique = λ i j a b ea eb ra rb same. alone i a ea ra ∙ sym (alone j b eb rb);
  counted = record { counts = counted; inside = outside };
}
  where
    alone : (i : ℕ) (a : Inode) → get_elem? two_slots i ≡ some a → 0 < a.ref → i ≡ 1
    alone zero a e r = absurd (omega (arith, r, ap (λ z. z.ref) (some_inj e)))
    alone (suc zero) a e r = refl
    alone (suc (suc i)) a e r = cc e

    counted : (i : ℕ) (a : Inode) → get_elem? two_slots i ≡ some a → a.ref ≡ held (1 ∷ []) i
    counted zero a e = ap (λ z. z.ref) (sym (some_inj e))
    counted (suc zero) a e = ap (λ z. z.ref) (sym (some_inj e))
    counted (suc (suc i)) a e = cc e

    outside : (i : ℕ) → get_elem? two_slots i ≡ none → held (1 ∷ []) i ≡ 0
    outside zero e = refl
    outside (suc zero) e = cc e
    outside (suc (suc i)) e = ground arith

-- The cached inode is found in slot 1, not in the free slot before it.
get_cached : iget 1 5 two_slots ≡ some (1, slot 0 ∷ slot 2 ∷ [])
unfolding iget iget_loop
get_cached = refl

free_last : iput_begin two_slots 1 ≡ some (true, slot 0 ∷ record (slot 1) { busy = true } ∷ [])
unfolding iput_begin
free_last = refl

Reach-IsCache_example : IsCache (slot 0 ∷ slot 2 ∷ []) (1 ∷ 1 ∷ [])
Reach-IsCache_example = Reach-IsCache two_slots-IsCache (next here (get 1 5 get_cached))
