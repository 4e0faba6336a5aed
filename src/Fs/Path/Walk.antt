-- ===== src/Fs/Path/Walk.antt =====
-- `namex`, and following the parts of a path.
use assignment1_cs.Base.{
  ℕ, zero, suc, ◌+◌, ◌<◌, ◌≡◌, ◌≢◌, ◌⊎◌, inl, inr, refl, sym, ap, ◌∙◌, subst, Bool, true, false,
  ◌&&◌, Bool-cases, Option-cases, Option, none, some, List, [], ◌∷◌, take, length, if◌then◌else◌,
  ◌==◌, arith, some_inj,
}
use assignment1_cs.Fs.Path.{
  dirsiz, slash, Name, skip_slashes, element, skip_from, skipelem, Touch, get, lock, unlock, put,
  is_empty, namex_loop, start, namex,
}
use assignment1_cs.Fs.Path.Split.{
  elements, Skipped, Trimmed, split-element, close, skipelem_lem, length-skip_slashes,
  skip_slashes-Trimmed,
}

-- How often inode `i` is taken and given back.
abbrev pub gets : List Touch → ℕ → ℕ
gets [] i = 0
gets (get j ∷ t) i = (if j == i then 1 else 0) + gets t i
gets (lock j ∷ t) i = gets t i
gets (unlock j ∷ t) i = gets t i
gets (put j ∷ t) i = gets t i

abbrev pub puts : List Touch → ℕ → ℕ
puts [] i = 0
puts (get j ∷ t) i = puts t i
puts (lock j ∷ t) i = puts t i
puts (unlock j ∷ t) i = puts t i
puts (put j ∷ t) i = (if j == i then 1 else 0) + puts t i

abbrev pub owned : Option ℕ → ℕ → ℕ
owned none i = 0
owned (some j) i = if j == i then 1 else 0

-- At most one inode is locked at a time, no inode is put under a lock, and at the end none is locked.
abbrev pub LocksPair : Option ℕ → List Touch → Type 0
LocksPair none [] = Unit
LocksPair (some i) [] = ⊥
LocksPair l (get j ∷ t) = LocksPair l t
LocksPair none (lock j ∷ t) = LocksPair (some j) t
LocksPair (some i) (lock j ∷ t) = ⊥
LocksPair none (unlock j ∷ t) = ⊥
LocksPair (some i) (unlock j ∷ t) = (i ≡ j) × LocksPair none t
LocksPair none (put j ∷ t) = LocksPair none t
LocksPair (some i) (put j ∷ t) = ⊥

length-element : (path : List ℕ) → length (element path).0 + length (element path).1 ≡ length path
unfolding element
length-element [] = omega arith
length-element (c ∷ path) = elim (Bool-cases (c == slash)) [
  | inl s ↦ rw s (omega arith)
  | inr s ↦ rw s (omega (arith, length-element path))
]

length-skip_from :
    (path : List ℕ) {rest : List ℕ} {name : Name}
    → Trimmed path
    → skip_from path ≡ some (rest, name)
    → length rest < length path
unfolding skip_from element
length-skip_from [] trimmed e = cc e
length-skip_from (c ∷ path) {rest} {name} trimmed e =
    let made : skip_from (c ∷ path)
        ≡ some (skip_slashes (element path).1, take dirsiz (c ∷ (element path).0)) =
      rw trimmed refl in
    let same : rest ≡ skip_slashes (element path).1 = ap (λ z. z.0) (some_inj (sym e ∙ made)) in
    omega (arith, length-element path, length-skip_slashes (element path).1, ap length same)

length-skipelem :
    (path : List ℕ) {rest : List ℕ} {name : Name}
    → skipelem path ≡ some (rest, name)
    → length rest < length path
unfolding skipelem
length-skipelem path e = omega (
  arith,
  length-skip_from (skip_slashes path) (skip_slashes-Trimmed path) e,
  length-skip_slashes path,
)

close-nonempty : (c : ℕ) (e : Name) (es : List Name) → close (c ∷ e) es ≢ []
close-nonempty c e es h = cc h

Trimmed-empty : (path : List ℕ) → Trimmed path → elements path ≡ [] → is_empty path ≡ true
Trimmed-empty [] t e = refl
Trimmed-empty (c ∷ path) t e =
    let whole : elements (c ∷ path) ≡ close (c ∷ (element path).0) (elements (element path).1) =
      rw t (split-element (c ∷ []) path) in
    absurd (close-nonempty c (element path).0 (elements (element path).1) (sym whole ∙ e))

Trimmed-nonempty :
    (path : List ℕ) {e : Name} {es : List Name} → elements path ≡ e ∷ es → is_empty path ≡ false
Trimmed-nonempty [] e = cc e
Trimmed-nonempty (c ∷ path) e = refl

List-cases {ℓ} : {A : Type ℓ} (xs : List A) → (xs ≡ []) ⊎ ((y : A) × (ys : List A) × (xs ≡ y ∷ ys))
List-cases [] = inl refl
List-cases (x ∷ xs) = inr (x, xs, refl)

module _ (is_dir : ℕ → Bool) (dirlookup : ℕ → Name → Option ℕ) where
  -- Following the parts of a path from an inode; only the first 14 characters of a part count.
  abbrev pub follow : List Name → ℕ → Option ℕ
  follow [] ip = some ip
  follow (e ∷ es) ip =
      if is_dir ip
      then elim (dirlookup ip (take dirsiz e)) [ none ↦ none | some next ↦ follow es next ]
      else none

  -- The same up to the directory of the last part.
  abbrev pub follow_parent : List Name → ℕ → Option ℕ
  follow_parent [] ip = none
  follow_parent (e ∷ []) ip = if is_dir ip then some ip else none
  follow_parent (e ∷ e' ∷ es) ip =
      if is_dir ip
      then elim (dirlookup ip (take dirsiz e)) [
        | none ↦ none
        | some next ↦ follow_parent (e' ∷ es) next
      ]
      else none

  abbrev pub Walked : Bool → List Name → ℕ → Option ℕ × List Touch → Type 0
  Walked nameiparent es ip (out, touched) =
      (out ≡ (if nameiparent then follow_parent es ip else follow es ip))
      × ((i : ℕ) → owned (some ip) i + gets touched i ≡ puts touched i + owned out i)
      × LocksPair none touched

  -- What is known behind a call of `skipelem` that finds a part.
  module _ (fuel : ℕ) (path rest : List ℕ) (ip : ℕ) (e : Name) where
    module _ (found : skipelem path ≡ some (rest, take dirsiz e)) where
      not_dir :
          (p : Bool) (es : List Name)
          → is_dir ip ≡ false
          → (if p then follow_parent (e ∷ es) ip else follow (e ∷ es) ip) ≡ none
          → Walked p (e ∷ es) ip (namex_loop is_dir dirlookup (suc fuel) path p ip)
      unfolding namex_loop
      not_dir p es file spec =
          let code : namex_loop is_dir dirlookup (suc fuel) path p ip
              ≡ (none, lock ip ∷ unlock ip ∷ put ip ∷ []) =
            rw (found, file, namex_loop) refl in
          subst (Walked p (e ∷ es) ip) (sym code) (sym spec, (λ i. omega arith), (refl, tt))

      enters :
          (p : Bool) (es : List Name) (next : ℕ)
          → is_dir ip ≡ true
          → (p && is_empty rest) ≡ false
          → dirlookup ip (take dirsiz e) ≡ some next
          → (if p then follow_parent (e ∷ es) ip else follow (e ∷ es) ip)
            ≡ (if p then follow_parent es next else follow es next)
          → Walked p es next (namex_loop is_dir dirlookup fuel rest p next)
          → Walked p (e ∷ es) ip (namex_loop is_dir dirlookup (suc fuel) path p ip)
      unfolding namex_loop
      enters p es next yes_dir goes_on entry spec (same, even, pairs) =
          let (out, touched) = namex_loop is_dir dirlookup fuel rest p next in
          let code : namex_loop is_dir dirlookup (suc fuel) path p ip
              ≡ (out, lock ip ∷ get next ∷ unlock ip ∷ put ip ∷ touched) =
            rw (found, yes_dir, goes_on, entry, namex_loop) refl in
          subst (Walked p (e ∷ es) ip) (sym code)
            (same ∙ sym spec, (λ i. omega (arith, even i)), (refl, pairs))

      no_entry :
          (p : Bool) (es : List Name)
          → is_dir ip ≡ true
          → (p && is_empty rest) ≡ false
          → dirlookup ip (take dirsiz e) ≡ none
          → (if p then follow_parent (e ∷ es) ip else follow (e ∷ es) ip) ≡ none
          → Walked p (e ∷ es) ip (namex_loop is_dir dirlookup (suc fuel) path p ip)
      unfolding namex_loop
      no_entry p es yes_dir goes_on entry spec =
          let code : namex_loop is_dir dirlookup (suc fuel) path p ip
              ≡ (none, lock ip ∷ unlock ip ∷ put ip ∷ []) =
            rw (found, yes_dir, goes_on, entry, namex_loop) refl in
          subst (Walked p (e ∷ es) ip) (sym code) (sym spec, (λ i. omega arith), (refl, tt))

      stops_early :
          is_dir ip ≡ true
          → is_empty rest ≡ true
          → Walked true (e ∷ []) ip (namex_loop is_dir dirlookup (suc fuel) path true ip)
      unfolding namex_loop
      stops_early yes_dir last =
          rw (found, yes_dir, last, namex_loop) (refl, (λ i. omega arith), (refl, tt))

      step-Walked :
          (p : Bool) (es : List Name)
          → elements rest ≡ es
          → Trimmed rest
          → ((next : ℕ) → Walked p es next (namex_loop is_dir dirlookup fuel rest p next))
          → Walked p (e ∷ es) ip (namex_loop is_dir dirlookup (suc fuel) path p ip)
      step-Walked true [] later trimmed ih = elim (Bool-cases (is_dir ip)) [
        | inl d ↦ stops_early d (Trimmed-empty rest trimmed later)
        | inr d ↦ not_dir true [] d (rw d)
      ]
      step-Walked true (e' ∷ es) later trimmed ih = elim (Bool-cases (is_dir ip)) [
        | inl d ↦ elim (Option-cases (dirlookup ip (take dirsiz e))) [
          | inl f ↦ no_entry true (e' ∷ es) d (Trimmed-nonempty rest later) f (rw (d, f))
          | inr (next, f) ↦
              enters true (e' ∷ es) next d (Trimmed-nonempty rest later) f (rw (d, f)) (ih next)
        ]
        | inr d ↦ not_dir true (e' ∷ es) d (rw d)
      ]
      step-Walked false es later trimmed ih = elim (Bool-cases (is_dir ip)) [
        | inl d ↦ elim (Option-cases (dirlookup ip (take dirsiz e))) [
          | inl f ↦ no_entry false es d refl f (rw (d, f))
          | inr (next, f) ↦ enters false es next d refl f (rw (d, f)) (ih next)
        ]
        | inr d ↦ not_dir false es d (rw d)
      ]

  at_end-Walked :
      (fuel : ℕ) (path : List ℕ) (p : Bool) (ip : ℕ)
      → skipelem path ≡ none
      → Walked p [] ip (namex_loop is_dir dirlookup (suc fuel) path p ip)
  unfolding namex_loop
  at_end-Walked fuel path true ip over = rw (over, namex_loop) (refl, (λ i. omega arith), tt)
  at_end-Walked fuel path false ip over = rw (over, namex_loop) (refl, (λ i. omega arith), tt)

  namex_loop-Walked :
      (fuel : ℕ) (path : List ℕ) (p : Bool) (ip : ℕ)
      → length path < fuel
      → Walked p (elements path) ip (namex_loop is_dir dirlookup fuel path p ip)
  namex_loop-Walked zero path p ip h = absurd (omega (arith, h))
  namex_loop-Walked (suc fuel) path p ip h =
      let known = λ (es : List Name) (e : elements path ≡ es).
        subst (λ es. Skipped es (skipelem path)) e (skipelem_lem path) in
      elim (List-cases (elements path)) [
        | inl over ↦
            subst (λ es. Walked p es ip (namex_loop is_dir dirlookup (suc fuel) path p ip))
              (sym over) (at_end-Walked fuel path p ip (known [] over))
        | inr (e, es, more) ↦
            let (rest, found, later, trimmed) = known (e ∷ es) more in
            let shorter : length rest < fuel = omega (arith, h, length-skipelem path found) in
            subst (λ es. Walked p es ip (namex_loop is_dir dirlookup (suc fuel) path p ip))
              (sym more)
              (step-Walked fuel path rest ip e found p es later trimmed (λ next.
                subst (λ es. Walked p es next (namex_loop is_dir dirlookup fuel rest p next)) later
                  (namex_loop-Walked fuel rest p next shorter)))
      ]

  -- `namex` finds the inode to which the parts of the path lead one directory after the other, or
  -- the directory of the last part, or nothing when a part is missing or stands in a file; it
  -- gives back every reference that it took but the one it returns, never holds two locks, and
  -- ends without a lock.
  pub namex_lem :
      (path : List ℕ) (nameiparent : Bool) (root cwd : ℕ)
      → let ip = start path root cwd in
        let (out, touched) = namex is_dir dirlookup path nameiparent root cwd in
        (out
          ≡ (if nameiparent then follow_parent (elements path) ip else follow (elements path) ip))
        × ((i : ℕ) → gets touched i ≡ puts touched i + owned out i)
        × LocksPair none touched
  unfolding namex
  namex_lem path p root cwd =
      let ip = start path root cwd in
      let (same, even, pairs) = namex_loop-Walked (suc (length path)) path p ip (omega arith) in
      (same, even, pairs)
