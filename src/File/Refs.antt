-- ===== src/File/Refs.antt =====
-- The reference counts of the file table under its operations.
use assignment1_cs.Base.{
  ==→eq, ==→ne, Counted, Counted-modify, held, held-slot, drop_ref, drop_ref-cons, held-cons_self,
  held-cons_ne, held-drop_ref_self, held-drop_ref_ne, find_index, find_index-some, find_index-none,
  modify, ℕ, ◌+◌, ◌-◌, ◌≡◌, ◌<◌, refl, sym, subst, ◌∙◌, ◌⊎◌, inl, inr, Bool-cases, Option-cases,
  true, false, Option, none, some, List, [], ◌∷◌, get_elem?, arith, ltb,
}
use assignment1_cs.File.{
  File, Ftable, Closing, is_free, filealloc, filedup, fileclose, closing, FileType, fd_none,
  fd_pipe, fd_inode, pipeclose, begin_op, end_op, iput,
}

-- The counts of the files are right.
abbrev pub FileCounted : Ftable → List ℕ → Type 0
FileCounted t refs = Counted (λ (f : File). f.ref) t refs

-- What closing a file must ask for, by its type.
abbrev pub Closes : File → List Closing → Type 0
Closes f es =
    ((f.type ≡ fd_pipe) × (es ≡ pipeclose f.pipe f.writable ∷ []))
    ⊎ ((f.type ≡ fd_inode) × (es ≡ begin_op ∷ iput f.ip ∷ end_op ∷ []))
    ⊎ ((f.type ≡ fd_none) × (es ≡ []))

FileType-cases : (k : FileType) → (k ≡ fd_pipe) ⊎ (k ≡ fd_inode) ⊎ (k ≡ fd_none)
FileType-cases fd_pipe = inl refl
FileType-cases fd_inode = inr (inl refl)
FileType-cases fd_none = inr (inr refl)

closing-Closes : (f : File) → Closes f (closing f)
closing-Closes f = elim (FileType-cases f.type) [
  | inl e ↦ inl (e, rw e refl)
  | inr (inl e) ↦ inr (inl (e, rw e refl))
  | inr (inr e) ↦ inr (inr (e, rw e refl))
]

module _ (t : Ftable) (refs : List ℕ) (c : FileCounted t refs) where
  -- With right reference counts, `filealloc` returns a file to which no reference is held, and the
  -- counts are right with the new reference; or it returns null and changes nothing, and every
  -- file of the table is held.
  pub filealloc-Counted :
      let (out, u) = filealloc t in
      ((out ≡ none) × (u ≡ t) × ((i : ℕ) (f : File) → get_elem? t i ≡ some f → 0 < held refs i))
      ⊎ ((i : ℕ) × (out ≡ some i) × (held refs i ≡ 0) × FileCounted u (i ∷ refs))
  unfolding filealloc
  filealloc-Counted = elim (Option-cases (find_index is_free t)) [
    | inl z ↦
        rw (z, filealloc)
          (inl (
            refl,
            refl,
            λ i f at.
                omega (arith, ==→ne f.ref 0 (find_index-none is_free t i z at), c.counts i f at),
          ))
    | inr (i, z) ↦
        let (f, at, free) = find_index-some is_free t z in
        let fresh : held refs i ≡ 0 = sym (c.counts i f at) ∙ ==→eq f.ref 0 free in
        rw (z, filealloc)
          (inr (
            i,
            refl,
            fresh,
            Counted-modify (λ (f : File). f.ref) t refs (i ∷ refs) i (λ g. record g { ref = 1 }) c
                at (omega (arith, held-cons_self refs i, fresh)) (λ j ne. held-cons_ne refs i j ne),
          ))
  ]

  held-file :
      (i : ℕ) → 0 < held refs i → (f : File) × (get_elem? t i ≡ some f) × (f.ref ≡ held refs i)
  held-file i h = held-slot (λ (f : File). f.ref) t refs i c h

  -- With right reference counts, `filedup` of a held file does not panic, and the counts are right
  -- with the new reference.
  pub filedup-Counted :
      (i : ℕ) → 0 < held refs i → (u : Ftable) × (filedup t i ≡ some u) × FileCounted u (i ∷ refs)
  unfolding filedup
  filedup-Counted i h =
      let (f, at, count) = held-file i h in
      let live : ltb f.ref 1 ≡ false = ground (arith, h, count) in
      (
        modify t i (λ g. record g { ref = g.ref + 1 }),
        rw (at, live, filedup) refl,
        Counted-modify (λ (f : File). f.ref) t refs (i ∷ refs) i (λ g. record g { ref = g.ref + 1 })
            c at (omega (arith, held-cons_self refs i, count)) (λ j ne. held-cons_ne refs i j ne),
      )

  -- With right reference counts, `fileclose` of a held file does not panic, the counts are right
  -- after it for one reference less, and exactly at the last reference it asks for the close of
  -- what is behind the file: for a pipe, of that end of it to which the file may write or not; for
  -- an inode, of its reference, in a transaction of its own.
  pub fileclose-Counted :
      (i : ℕ)
      → 0 < held refs i
      → (u : Ftable) × (es : List Closing) × (f : File) × (fileclose t i ≡ some (u, es))
        × FileCounted u (drop_ref refs i)
        × (get_elem? t i ≡ some f)
        × (((held refs i ≡ 1) × Closes f es) ⊎ ((1 < held refs i) × (es ≡ [])))
  unfolding fileclose
  fileclose-Counted i h =
      let (f, at, count) = held-file i h in
      let live : ltb f.ref 1 ≡ false = ground (arith, h, count) in
      elim (Bool-cases (ltb 0 (f.ref - 1))) [
        | inl more ↦ (
          modify t i (λ g. record g { ref = g.ref - 1 }),
          [],
          f,
          rw (at, live, more, fileclose) refl,
          Counted-modify (λ (f : File). f.ref) t refs (drop_ref refs i) i
              (λ g. record g { ref = g.ref - 1 }) c at
              (omega (arith, held-drop_ref_self refs i, count))
              (λ j ne. held-drop_ref_ne refs i j ne),
          at,
          inr (ground (arith, count), refl),
        )
        | inr last ↦
            let one : f.ref ≡ 1 = ground arith in
            (
              modify t i (λ g. record g { ref = 0; type = fd_none }),
              closing f,
              f,
              rw (at, live, last, fileclose) refl,
              Counted-modify (λ (f : File). f.ref) t refs (drop_ref refs i) i
                  (λ g. record g { ref = 0; type = fd_none }) c at
                  (omega (arith, held-drop_ref_self refs i, count, one))
                  (λ j ne. held-drop_ref_ne refs i j ne),
              at,
              inl (omega (arith, count, one), closing-Closes f),
            )
      ]

  -- A file to which no reference is held cannot be closed.
  pub fileclose_unheld : (i : ℕ) → held refs i ≡ 0 → fileclose t i ≡ none
  unfolding fileclose
  fileclose_unheld i h = elim (Option-cases (get_elem? t i)) [
    | inl z ↦ rw (z, fileclose) refl
    | inr (f, z) ↦
        let dead : ltb f.ref 1 ≡ true = ground (arith, c.counts i f z) in
        rw (z, dead, fileclose) refl
  ]

-- The table after the references in the list have been closed, and all that this asks for.
pub close_all : List ℕ → Ftable → Option (Ftable × List (List Closing))
close_all [] t = some (t, [])
close_all (i ∷ is) t = elim (fileclose t i) [
  | none ↦ none
  | some (u, es) ↦ elim (close_all is u) [ none ↦ none | some (v, ess) ↦ some (v, es ∷ ess) ]
]

-- With right reference counts, closing the held references one after the other never panics, and
-- leaves every file of the table free.
pub close_all_lem :
    (refs : List ℕ) (t : Ftable)
    → FileCounted t refs
    → (u : Ftable) × (ess : List (List Closing)) × (close_all refs t ≡ some (u, ess))
      × ((i : ℕ) (f : File) → get_elem? u i ≡ some f → f.ref ≡ 0)
unfolding close_all
close_all_lem [] t c = (t, [], refl, λ i f at. c.counts i f at)
close_all_lem (i ∷ is) t c =
    let first : 0 < held (i ∷ is) i = omega (arith, held-cons_self is i) in
    let (u, es, f, closed, c', _, _) = fileclose-Counted t (i ∷ is) c i first in
    let (v, ess, rest, free) = close_all_lem is u (subst (FileCounted u) (drop_ref-cons i is) c') in
    (v, es ∷ ess, rw (closed, rest, close_all) refl, free)
