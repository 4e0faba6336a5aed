-- ===== src/Pipe/Window.antt =====
-- The bytes that a pipe holds, oldest first, as a list; what makes its counters consistent.
use assignment1_cs.Base.{
  ℕ, zero, suc, ◌+◌, ◌-◌, ◌%◌, ◌^◌, ◌≤◌, ◌<◌, ◌≡◌, refl, ap, ap₂, ◌∙◌, List, [], ◌∷◌, ◌++◌, length,
  get_or, set, get_or-set_ne, get_or-set_self, arith,
}
use assignment1_cs.Pipe.{Pipe, pipesize, pipe_init}

-- The `n` bytes that the counter values from `r` on stand for.
abbrev pub window : List ℕ → ℕ → ℕ → List ℕ
window ring r zero = []
window ring r (suc n) = get_or ring (r % pipesize) 0 ∷ window ring (r + 1) n

-- How far `nwrite` is ahead of `nread`, round the wrap of the counters.
abbrev pub used : Pipe → ℕ
used p = (p.nwrite + 2 ^ 32 - p.nread) % 2 ^ 32

abbrev pub contents : Pipe → List ℕ
contents p = window p.ring p.nread (used p)

pub record IsValid (p : Pipe) : Type 0 where
  pub sized : length p.ring ≡ pipesize
  pub nread_fits : p.nread < 2 ^ 32
  pub nwrite_fits : p.nwrite < 2 ^ 32
  pub bounded : used p ≤ pipesize

pub window-mod :
    (ring : List ℕ) (r r' n : ℕ) → r % pipesize ≡ r' % pipesize → window ring r n ≡ window ring r' n
window-mod ring r r' zero h = refl
window-mod ring r r' (suc n) h =
    ap₂ ◌∷◌ (ap (λ k. get_or ring k 0) h) (window-mod ring (r + 1) (r' + 1) n (omega arith))

window-snoc :
    (ring : List ℕ) (r n : ℕ)
    → window ring r (suc n) ≡ window ring r n ++ get_or ring ((r + n) % pipesize) 0 ∷ []
window-snoc ring r zero = ap (λ k. get_or ring (k % pipesize) 0 ∷ []) (omega arith)
window-snoc ring r (suc n) =
    ap (λ t. get_or ring (r % pipesize) 0 ∷ t)
      (window-snoc ring (r + 1) n
        ∙ ap (λ k. window ring (r + 1) n ++ get_or ring (k % pipesize) 0 ∷ []) (omega arith))

-- A write at an index that the window does not cover leaves it alone.
window-set_out :
    (ring : List ℕ) (i c r n k : ℕ)
    → i ≡ (r + n + k) % pipesize
    → n + k < pipesize
    → window (set ring i c) r n ≡ window ring r n
window-set_out ring i c r zero k e h = refl
window-set_out ring i c r (suc n) k e h =
    ap₂ ◌∷◌ (get_or-set_ne ring c 0 (omega arith))
      (window-set_out ring i c (r + 1) n k (omega arith) (omega arith))

-- Storing at the first free index appends.
pub window-set :
    (ring : List ℕ) (i c r n : ℕ)
    → length ring ≡ pipesize
    → i ≡ (r + n) % pipesize
    → n < pipesize
    → window (set ring i c) r (suc n) ≡ window ring r n ++ c ∷ []
window-set ring i c r n len e h =
    window-snoc (set ring i c) r n
    ∙ ap₂ (λ a b. a ++ b ∷ []) (window-set_out ring i c r n 0 (omega arith) (omega arith))
        (ap (λ j. get_or (set ring i c) j 0) (omega arith)
          ∙ get_or-set_self ring i c 0 (omega arith))

-- What `pipealloc` builds is valid and empty.
pub pipe_init-IsValid :
    (page : List ℕ)
    → length page ≡ pipesize
    → IsValid (pipe_init page) × (contents (pipe_init page) ≡ [])
unfolding pipe_init
pipe_init-IsValid page h = (omega arith, refl)
