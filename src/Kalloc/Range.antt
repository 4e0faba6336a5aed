-- ===== src/Kalloc/Range.antt =====
-- `freerange` and the pages of its range.
use assignment1_cs.Base.{
  ℕ, zero, suc, ◌+◌, ◌-◌, ◌/◌, ◌%◌, ◌^◌, ◌≤◌, ◌<◌, ◌≡◌, refl, ◌∙◌, some, List, [], ◌∷◌, leb, arith,
  true, false,
}
use assignment1_cs.Kalloc.{
  Kmem, pgsize, phystop, kernbase, pgroundup, kfree, freerange_loop, freerange,
}
use assignment1_cs.Kalloc.FreeList.{IsPage, Absent, Holds, kfree-Holds}

-- The pages that the loop pushes from `p` on, `n` of them.
abbrev pub pushed : ℕ → ℕ → List ℕ → List ℕ
pushed p zero pages = pages
pushed p (suc n) pages = pushed (p + pgsize) n (p ∷ pages)

-- All of the pages lie below `p`.
abbrev pub Below : ℕ → List ℕ → Type 0
Below p [] = Unit
Below p (x ∷ xs) = (x < p) × Below p xs

Below-Absent : (p : ℕ) (pages : List ℕ) → Below p pages → Absent p pages
Below-Absent p [] b = tt
Below-Absent p (x ∷ xs) b = ((λ h. omega arith), Below-Absent p xs b.1)

Below-mono : (p q : ℕ) (pages : List ℕ) → p ≤ q → Below p pages → Below q pages
Below-mono p q [] h b = tt
Below-mono p q (x ∷ xs) h b = (omega arith, Below-mono p q xs h b.1)

-- A range of kernel addresses that starts behind the kernel.
pub record IsRange (k : Kmem) (p vend : ℕ) : Type 0 where
  pub kernel : kernbase ≤ k.kernel_end
  pub behind : k.kernel_end ≤ p
  pub physical : vend ≤ kernbase + phystop
  pub start : p ≤ kernbase + phystop + pgsize

freerange_loop-step :
    (n q p vend : ℕ) (k k' : Kmem)
    → (p + pgsize) % 2 ^ 32 ≡ q
    → leb q vend ≡ true
    → kfree k p ≡ some k'
    → freerange_loop (suc n) p vend k ≡ freerange_loop n q vend k'
unfolding freerange_loop
freerange_loop-step n q p vend k k' flat goes freed =
    rw (flat, goes, freed, freerange_loop, flat) refl

freerange_loop-Holds :
    (n : ℕ) (k : Kmem) (p vend : ℕ) (pages : List ℕ)
    → Holds k pages
    → IsRange k p vend
    → p % pgsize ≡ 0
    → Below p pages
    → n ≡ (vend - p) / pgsize
    → (k' : Kmem) × (freerange_loop (suc n) p vend k ≡ some k')
      × Holds k' (pushed p n pages)
      × (k'.kernel_end ≡ k.kernel_end)
unfolding freerange_loop
freerange_loop-Holds zero k p vend pages h r a b e =
    let flat : (p + pgsize) % 2 ^ 32 ≡ p + pgsize = omega (arith, r.start) in
    let stops : leb (p + pgsize) vend ≡ false = ground arith in (k, rw (flat, stops) refl, h, refl)
freerange_loop-Holds (suc n) k p vend pages h r a b e =
    let flat : (p + pgsize) % 2 ^ 32 ≡ p + pgsize = omega (arith, r.start) in
    let goes : leb (p + pgsize) vend ≡ true = ground arith in
    let page : IsPage k.kernel_end p = record {
      aligned = a;
      above = r.behind;
      below = omega (arith, r.kernel, r.behind, r.physical);
    } in
    let (k1, freed, h1, same, _) = kfree-Holds k p pages h page (Below-Absent p pages b) in
    let (k2, done, h2, same2) =
      freerange_loop-Holds n k1 (p + pgsize) vend (p ∷ pages) h1
        (record {
          kernel = rw same r.kernel;
          behind = rw same (omega (arith, r.behind));
          physical = r.physical;
          start = omega (arith, r.physical, e);
        })
        (omega arith) (omega arith, Below-mono p (p + pgsize) pages (omega arith) b)
        (omega arith) in
    (
      k2,
      freerange_loop-step (suc n) (p + pgsize) p vend k k1 flat goes freed ∙ done,
      h2,
      same2 ∙ same,
    )

-- On an empty free list, `freerange` of a range that starts behind the kernel and within physical
-- memory, and ends there, ends without a panic, and the free list holds every whole page from the
-- first page boundary on, the last page first.
pub freerange_lem :
    (k : Kmem) (vstart vend : ℕ)
    → Holds k []
    → kernbase ≤ k.kernel_end
    → k.kernel_end ≤ vstart
    → vstart ≤ kernbase + phystop
    → vend ≤ kernbase + phystop
    → (k' : Kmem) × (freerange vstart vend k ≡ some k')
      × Holds k' (pushed (pgroundup vstart) ((vend - pgroundup vstart) / pgsize) [])
      × (k'.kernel_end ≡ k.kernel_end)
unfolding freerange
freerange_lem k vstart vend h kernel behind inside physical =
    freerange_loop-Holds ((vend - pgroundup vstart) / pgsize) k (pgroundup vstart) vend [] h
      (record {
        kernel = kernel;
        behind = omega (arith, behind, inside);
        physical = physical;
        start = omega (arith, inside);
      })
      (omega arith) tt refl
