-- ===== src/Pipe/Read.antt =====
-- `piperead`: which bytes a section takes out, and how it ends.
use assignment1_cs.Base.{
  ℕ, zero, suc, ◌+◌, ◌%◌, ◌≡◌, refl, ap, ◌∙◌, inl, inr, List, [], ◌∷◌, take, drop, take-nil, get_or,
  arith, Bool, Bool-cases, true, false, ltb, if◌then◌else◌, ◌==◌,
}
use assignment1_cs.Pipe.{
  Pipe, pipesize, uint_add, Outcome, returned, failed, asleep, read_loop, read_section, count,
}
use assignment1_cs.Pipe.Window.{IsValid, used, contents, window, window-mod}

abbrev advance : Pipe → Pipe
advance p = record p { nread = uint_add p.nread 1 }

empty_iff : (p : Pipe) → IsValid p → (p.nread == p.nwrite) ≡ true → used p ≡ 0
empty_iff p v h = ground arith

not_empty : (p : Pipe) → IsValid p → (p.nread == p.nwrite) ≡ false → used p ≡ suc (used (advance p))
not_empty p v h = ground arith

advance-IsValid : (p : Pipe) → IsValid p → (p.nread == p.nwrite) ≡ false → IsValid (advance p)
advance-IsValid p v h = omega (arith, not_empty p v h)

contents-advance :
    (p : Pipe)
    → IsValid p
    → (p.nread == p.nwrite) ≡ false
    → contents p ≡ get_or p.ring (p.nread % pipesize) 0 ∷ contents (advance p)
contents-advance p v h =
    ap (window p.ring p.nread) (not_empty p v h)
    ∙ ap (λ t. get_or p.ring (p.nread % pipesize) 0 ∷ t)
        (window-mod p.ring (p.nread + 1) (uint_add p.nread 1) (used (advance p)) (omega arith))

-- The pipe after the copy loop, and the bytes that it copied.
pub record Taken (p : Pipe) (n : ℕ) (q : Pipe) (cs : List ℕ) : Type 0 where
  pub valid : IsValid q
  pub bytes : cs ≡ take n (contents p)
  pub rest : contents q ≡ drop n (contents p)
  pub readopen_same : q.readopen ≡ p.readopen
  pub writeopen_same : q.writeopen ≡ p.writeopen

contents-empty : (p : Pipe) → used p ≡ 0 → contents p ≡ []
contents-empty p h = rw h

drop-nil : (n : ℕ) → drop {A = ℕ} n [] ≡ []
drop-nil zero = refl
drop-nil (suc n) = refl

pub read_loop-Taken : (p : Pipe) (n : ℕ) → IsValid p → let (q, cs) = read_loop p n in Taken p n q cs
unfolding read_loop
read_loop-Taken p zero v = record {
  valid = v;
  bytes = refl;
  rest = refl;
  readopen_same = refl;
  writeopen_same = refl;
}
read_loop-Taken p (suc n) v = elim (Bool-cases (p.nread == p.nwrite)) [
  | inl h ↦
      let none : contents p ≡ [] = contents-empty p (empty_iff p v h) in
      simp h (record {
        valid = v;
        bytes = rw none;
        rest = rw none;
        readopen_same = refl;
        writeopen_same = refl;
      })
  | inr h ↦
      let t : Taken (advance p) n (read_loop (advance p) n).0 (read_loop (advance p) n).1 =
        read_loop-Taken (advance p) n (advance-IsValid p v h) in
      simp h (record {
        valid = t.valid;
        bytes =
            rw (contents-advance p v h)
              (ap (λ u. get_or p.ring (p.nread % pipesize) 0 ∷ u) t.bytes);
        rest = rw (contents-advance p v h) t.rest;
        readopen_same = t.readopen_same;
        writeopen_same = t.writeopen_same;
      })
]

-- How a section that is to read `n` bytes ends: asleep or refused only at an empty pipe that has a
-- writer, and with as many bytes as there are otherwise.
abbrev pub read_outcome : Pipe → Bool → ℕ → Outcome
read_outcome p killed n =
    if ltb 0 (used p)
    then returned (count (take n (contents p)))
    else (if p.writeopen then (if killed then failed else asleep 0) else returned 0)

-- A section that waits or is refused takes nothing.
nothing-Taken : (p : Pipe) (n : ℕ) → IsValid p → used p ≡ 0 → Taken p n p []
nothing-Taken p n v h =
    let none : contents p ≡ [] = contents-empty p h in
    record {
      valid = v;
      bytes = rw (none, take-nil);
      rest = rw (none, drop-nil);
      readopen_same = refl;
      writeopen_same = refl;
    }

count_of_empty : (n : ℕ) (l cs : List ℕ) → l ≡ [] → cs ≡ take n l → count cs ≡ 0
count_of_empty n l cs e h = rw (h, e, take-nil)

abbrev Section : Pipe → Bool → ℕ → Type 0
Section p killed n =
    let (q, out, cs, es) = read_section p killed n in
    record { taken : Taken p n q cs; outcome : out ≡ read_outcome p killed n }

empty_ends :
    (p : Pipe) (killed : Bool) (n : ℕ)
    → IsValid p
    → (p.nread == p.nwrite) ≡ true
    → Section p killed n
unfolding read_section
empty_ends p killed n v h =
    let none : used p ≡ 0 = empty_iff p v h in
    let idle : Taken p n p [] = nothing-Taken p n v none in
    let t = read_loop-Taken p n v in
    elim (Bool-cases p.writeopen) [
      | inl w ↦ elim (Bool-cases killed) [
        | inl k ↦ simp (h, w, k) (record { taken = idle; outcome = ground arith })
        | inr k ↦ simp (h, w, k) (record { taken = idle; outcome = ground arith })
      ]
      | inr w ↦
          simp (h, w)
            (record {
              taken = t;
              outcome = ground (
                arith,
                count_of_empty n (contents p) (read_loop p n).1 (contents-empty p none) t.bytes,
              );
            })
    ]

filled_ends :
    (p : Pipe) (killed : Bool) (n : ℕ)
    → IsValid p
    → (p.nread == p.nwrite) ≡ false
    → Section p killed n
unfolding read_section
filled_ends p killed n v h =
    let t = read_loop-Taken p n v in
    simp h (record { taken = t; outcome = ground (arith, not_empty p v h, ap count t.bytes) })

-- A section of `piperead` on a valid pipe takes out the oldest bytes in order, leaves the others,
-- the validity and the two ends as they were, and ends asleep or with -1 only at an empty pipe
-- with an open write end; `killed` decides between the two.
pub read_section_lem :
    (p : Pipe) (killed : Bool) (n : ℕ)
    → IsValid p
    → let (q, out, cs, es) = read_section p killed n in
      record { taken : Taken p n q cs; outcome : out ≡ read_outcome p killed n }
read_section_lem p killed n v = elim (Bool-cases (p.nread == p.nwrite)) [
  | inl h ↦ empty_ends p killed n v h
  | inr h ↦ filled_ends p killed n v h
]
