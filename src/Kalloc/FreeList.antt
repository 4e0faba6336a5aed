-- ===== src/Kalloc/FreeList.antt =====
-- The free list as a list of pages, under `kfree` and `kalloc`.
use assignment1_cs.Base.{
  ℕ, ◌+◌, ◌%◌, ◌≤◌, ◌<◌, ◌≡◌, ◌≢◌, ◌⊎◌, inr, refl, sym, ap, some, List, [], ◌∷◌, update,
  update_self, arith, ◌==◌, false,
}
use assignment1_cs.Kalloc.{Kmem, pgsize, phystop, v2p, fill_junk, kfree, kalloc}

-- A page that `kfree` takes.
pub record IsPage (kernel_end v : ℕ) : Type 0 where
  pub aligned : v % pgsize ≡ 0
  pub above : kernel_end ≤ v
  pub below : v2p v < phystop

-- The list that starts at `p` in memory holds these pages.
abbrev pub Chain : ℕ → (ℕ → ℕ) → ℕ → List ℕ → Type 0
Chain e m p [] = p ≡ 0
Chain e m p (x ∷ xs) = (p ≡ x) × IsPage e x × Chain e m (m x) xs

abbrev pub Absent : ℕ → List ℕ → Type 0
Absent v [] = Unit
Absent v (x ∷ xs) = (v ≢ x) × Absent v xs

abbrev pub Distinct : List ℕ → Type 0
Distinct [] = Unit
Distinct (x ∷ xs) = Absent x xs × Distinct xs

-- The allocator with these free pages.
pub record Holds (k : Kmem) (pages : List ℕ) : Type 0 where
  pub chain : Chain k.kernel_end k.memory k.freelist pages
  pub distinct : Distinct pages
  pub not_null : 0 < k.kernel_end

junk_elsewhere :
    (m : ℕ → ℕ) (v x next : ℕ)
    → v % pgsize ≡ 0
    → x % pgsize ≡ 0
    → v ≢ x
    → update (fill_junk v m) v next x ≡ m x
junk_elsewhere m v x next hv hx ne = ground arith

Chain-push :
    (e : ℕ) (m : ℕ → ℕ) (v next p : ℕ) (pages : List ℕ)
    → v % pgsize ≡ 0
    → Absent v pages
    → Chain e m p pages
    → Chain e (update (fill_junk v m) v next) p pages
Chain-push e m v next p [] hv a c = c
Chain-push e m v next p (x ∷ xs) hv a c = (
  c.0,
  c.1,
  Chain-push e m v next (update (fill_junk v m) v next x) xs hv a.1
      (rw (junk_elsewhere m v x next hv c.1.aligned a.0) c.2),
)

-- On an allocator whose free list holds the distinct pages `pages`, `kfree` of a page outside of
-- it does not panic, the list then holds that page and `pages`, and memory outside of the page is
-- as before.
pub kfree-Holds :
    (k : Kmem) (v : ℕ) (pages : List ℕ)
    → Holds k pages
    → IsPage k.kernel_end v
    → Absent v pages
    → (k' : Kmem) × (kfree k v ≡ some k')
      × Holds k' (v ∷ pages)
      × (k'.kernel_end ≡ k.kernel_end)
      × ((a : ℕ) → (a < v) ⊎ (v + pgsize ≤ a) → k'.memory a ≡ k.memory a)
unfolding kfree
kfree-Holds k v pages h i a = (
  record k { memory = update (fill_junk v k.memory) v k.freelist; freelist = v },
  ground arith,
  record {
    chain = (
      refl,
      i,
      rw update_self
          (Chain-push k.kernel_end k.memory v k.freelist k.freelist pages i.aligned a h.chain),
    );
    distinct = (a, h.distinct);
    not_null = h.not_null;
  },
  refl,
  λ b out. ground arith,
)

-- `kalloc` returns 0 and changes nothing on an empty free list; else it returns the first page,
-- which is in the list no more, and leaves the rest in it and the memory as it was.
pub kalloc-Holds :
    (k : Kmem) (pages : List ℕ)
    → Holds k pages
    → let (p, k') = kalloc k in
      ((pages ≡ []) × (p ≡ 0) × (k' ≡ k))
      ⊎ ((rest : List ℕ) × (pages ≡ p ∷ rest)
          × IsPage k.kernel_end p
          × Absent p rest
          × Holds k' rest
          × (k'.memory ≡ k.memory))
unfolding kalloc
kalloc-Holds k [] h = ground (arith, h.chain)
kalloc-Holds k (x ∷ xs) h =
    let (starts, page, rest) = h.chain in
    let nonzero : (k.freelist == 0) ≡ false = ground (arith, page.above, h.not_null) in
    rw (nonzero, kalloc)
      (inr (
        xs,
        ap (λ p. p ∷ xs) (sym starts),
        rw starts page,
        rw starts h.distinct.0,
        record { chain = rw starts rest; distinct = h.distinct.1; not_null = h.not_null },
        refl,
      ))
