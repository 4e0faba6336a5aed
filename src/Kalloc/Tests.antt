-- ===== src/Kalloc/Tests.antt =====
-- The allocator on a small machine: the kernel ends at 0x80004000, two free pages.
use assignment1_cs.Base.{ℕ, ◌+◌, ◌-◌, ◌*◌, ◌/◌, ◌≡◌, ◌⊎◌, some, List, [], ◌∷◌, refl, arith, ◌<◌}
use assignment1_cs.Kalloc.{Kmem, kernbase, pgsize, kalloc, freerange, pgroundup}
use assignment1_cs.Kalloc.FreeList.{IsPage, Absent, Holds, kalloc-Holds}
use assignment1_cs.Kalloc.Range.{pushed, freerange_lem}

abbrev page : ℕ → ℕ
page n = kernbase + 0x4000 + n * 4096

abbrev no_pages : Kmem
no_pages = record { memory = λ a. 0; freelist = 0; kernel_end = kernbase + 0x4000 }

no_pages-Holds : Holds no_pages []
no_pages-Holds = record { chain = refl; distinct = tt; not_null = omega arith }

abbrev one_page : Kmem
one_page = record { memory = λ a. 0; freelist = page 0; kernel_end = kernbase + 0x4000 }

page-IsPage : (n : ℕ) → n < 16 → IsPage (kernbase + 0x4000) (page n)
page-IsPage n h = record { aligned = omega arith; above = omega arith; below = omega arith }

one_page-Holds : Holds one_page (page 0 ∷ [])
one_page-Holds = record {
  chain = (refl, page-IsPage 0 (omega arith), refl);
  distinct = (tt, tt);
  not_null = omega arith;
}

kalloc-Holds_example :
    let (p, k') = kalloc one_page in
    ((page 0 ∷ [] ≡ []) × (p ≡ 0) × (k' ≡ one_page))
    ⊎ ((rest : List ℕ) × (page 0 ∷ [] ≡ p ∷ rest)
        × IsPage (kernbase + 0x4000) p
        × Absent p rest
        × Holds k' rest
        × (k'.memory ≡ one_page.memory))
kalloc-Holds_example = kalloc-Holds one_page (page 0 ∷ []) one_page-Holds

freerange_lem_example :
    (k' : Kmem) × (freerange (page 0 + 5) (page 3) no_pages ≡ some k')
    × Holds k' (pushed (pgroundup (page 0 + 5)) ((page 3 - pgroundup (page 0 + 5)) / pgsize) [])
    × (k'.kernel_end ≡ kernbase + 0x4000)
freerange_lem_example =
    freerange_lem no_pages (page 0 + 5) (page 3) no_pages-Holds (omega arith) (omega arith)
      (omega arith) (omega arith)

pushed_example :
    pushed (pgroundup (page 0 + 5)) ((page 3 - pgroundup (page 0 + 5)) / pgsize) []
    ≡ page 2 ∷ page 1 ∷ []
pushed_example = refl
