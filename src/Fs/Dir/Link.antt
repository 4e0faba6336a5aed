-- ===== src/Fs/Dir/Link.antt =====
-- A new entry in the place of the first free one: what the search of the entries finds then.
use assignment1_cs.Base.{
  ℕ, zero, suc, ◌+◌, ◌-◌, ◌*◌, ◌/◌, ◌%◌, ◌^◌, ◌≤◌, ◌<◌, ◌≡◌, ◌≢◌, ◌⊎◌, inl, inr, refl, sym, ap, ap₂,
  ◌∙◌, Bool-cases, true, false, Option, none, some, [], get_or, length, if◌then◌else◌, ◌==◌, ltb,
  ltb→lt, arith,
}
use assignment1_cs.Strings.{Memory, strncpy}
use assignment1_cs.Fs.Path.{Name, dirsiz}
use assignment1_cs.Fs.Content.{bytes_at, put_bytes}
use assignment1_cs.Fs.Content.Flat.{bytes_at-same, put_bytes_in, put_bytes_out}
use assignment1_cs.Fs.Dir.{namecmp, entry_size, two_names, stored_name, new_entry}
use assignment1_cs.Fs.Dir.Names.{IsName, SameName, char-bytes_at, namecmp-stored_name}
use assignment1_cs.Fs.Dir.Find.{
  inum_at, name_at, entry_for, or_else, find, find-same, find-append, find-SameName,
}

length-bytes_at : (v : Memory) (off n : ℕ) → length (bytes_at v off n) ≡ n
length-bytes_at v off zero = refl
length-bytes_at v off (suc n) = ap suc (length-bytes_at v (off + 1) n)

pub length-new_entry : (s : Name) (inum : ℕ) → length (new_entry s inum) ≡ entry_size
length-new_entry s inum =
    ap (λ n. suc (suc n)) (length-bytes_at (strncpy 0 dirsiz dirsiz (two_names [] s)) 0 dirsiz)

or_else-none : (x : Option (ℕ × ℕ)) → or_else x none ≡ x
or_else-none none = refl
or_else-none (some x) = refl

or_else_left : (x y : Option (ℕ × ℕ)) → or_else x y ≡ none → x ≡ none
or_else_left none y h = refl
or_else_left (some x) y h = h

-- `n` entries in `v`, of which the first free one, or the end, is number `k` at `e`; `w` is `v` with
-- the new entry there.
module _ (n k : ℕ) (v w : Memory) (s : Name) (inum : ℕ) (named : IsName s) (positive : 0 < inum)
    (short : inum < 2 ^ 16) (below : k ≤ n) (free : k < n → inum_at v (k * entry_size) ≡ 0)
    (written : (p : ℕ)
      → p < suc n * entry_size
      → w p ≡ put_bytes v (k * entry_size) (new_entry s inum) p) where
  abbrev e : ℕ
  e = k * entry_size

  -- How many entries are behind it.
  abbrev after : ℕ
  after = n - k - 1

  at_entry : (i : ℕ) → i < entry_size → w (e + i) ≡ get_or (new_entry s inum) i 0
  at_entry i h =
      written (e + i) (omega (arith, h, below))
      ∙ put_bytes_in (new_entry s inum) v e i (omega (arith, h, length-new_entry s inum))

  elsewhere : (p : ℕ) → (p < e) ⊎ (e + entry_size ≤ p) → p < suc n * entry_size → w p ≡ v p
  elsewhere p out h =
      written p h ∙ put_bytes_out (new_entry s inum) v e p (ground (arith, length-new_entry s inum))

  find-first : (t : Name) → find k w t 0 ≡ find k v t 0
  find-first t =
      find-same k w v t 0
        (λ p low high. elsewhere p (inl (omega (arith, high))) (omega (arith, high, below)))

  find-after : (t : Name) → find after w t (e + entry_size) ≡ find after v t (e + entry_size)
  find-after t =
      find-same after w v t (e + entry_size)
        (λ p low high. elsewhere p (inr low) (omega (arith, high, below)))

  inum_at-entry : inum_at w e ≡ inum
  inum_at-entry =
      let zeroth : e + 0 ≡ e = omega arith in
      let lo : w e ≡ inum % 2 ^ 8 = ap w (sym zeroth) ∙ at_entry 0 (omega arith) in
      let hi : w (e + 1) ≡ inum / 2 ^ 8 % 2 ^ 8 = at_entry 1 (omega arith) in
      omega (arith, lo, hi, short)

  name_at-entry : name_at w e ≡ stored_name s
  name_at-entry =
      let m = strncpy 0 dirsiz dirsiz (two_names [] s) in
      bytes_at-same dirsiz w m (e + 2) 0 (λ i l.
        let place : e + 2 + i ≡ e + suc (suc i) = omega arith in
        ap w place ∙ at_entry (suc (suc i)) (omega (arith, l)) ∙ char-bytes_at m dirsiz 0 i l)

  entry_for-entry :
      (t : Name)
      → entry_for w t e ≡ (if namecmp t (stored_name s) == 0 then some (e, inum) else none)
  entry_for-entry t =
      let used : (inum == 0) ≡ false = ground arith in
      ap₂ (λ x y. if x == 0 then none else if namecmp t y == 0 then some (e, x) else none)
        inum_at-entry name_at-entry
      ∙ rw used refl

  -- The search before, without the free entry.
  find-before : (t : Name) → find n v t 0 ≡ or_else (find k v t 0) (find after v t (e + entry_size))
  find-before t = elim (Bool-cases (ltb k n)) [
    | inl inside ↦
        let l = ltb→lt k n inside in
        let count : n ≡ k + suc after = omega (arith, l) in
        let hole : entry_for v t e ≡ none = let z = free l in rw z refl in
        ap (λ x. find x v t 0) count
        ∙ find-append k (suc after) v t 0
        ∙ ap (λ x. or_else (find k v t 0) (find (suc after) v t x)) (omega arith)
        ∙ ap (λ x. or_else (find k v t 0) (or_else x (find after v t (e + entry_size)))) hole
    | inr end ↦
        let last : k ≡ n = ground arith in
        let nothing : after ≡ 0 = omega (arith, last) in
        rw nothing (ap (λ x. find x v t 0) (sym last) ∙ sym (or_else-none (find k v t 0)))
  ]

  find-now :
      (t : Name)
      → find (k + suc after) w t 0
        ≡ or_else (find k v t 0) (
            or_else
              (if namecmp t (stored_name s) == 0 then some (e, inum) else none)
              (find after v t (e + entry_size)))
  find-now t =
      find-append k (suc after) w t 0
      ∙ ap (λ x. or_else (find k w t 0) (find (suc after) w t x)) (omega arith)
      ∙ ap₂ (λ x y. or_else x (or_else y (find after w t (e + entry_size)))) (find-first t)
          (entry_for-entry t)
      ∙ ap
          (λ x.
            or_else (find k v t 0)
              (or_else (if namecmp t (stored_name s) == 0 then some (e, inum) else none) x))
          (find-after t)

  pub find-new :
      (t : Name)
      → IsName t
      → SameName t s
      → find n v s 0 ≡ none
      → find (k + suc after) w t 0 ≡ some (e, inum)
  find-new t h same absent =
      let first : find k v t 0 ≡ none =
        find-SameName k v t s 0 same
        ∙ or_else_left (find k v s 0) _ (sym (find-before s) ∙ absent) in
      let found : (namecmp t (stored_name s) == 0) ≡ true =
        let z = (namecmp-stored_name t s h named).1 same in ground arith in
      find-now t ∙ rw (first, found) refl

  pub find-old :
      (t : Name) → IsName t → (SameName t s → ⊥) → find (k + suc after) w t 0 ≡ find n v t 0
  find-old t h other =
      let not_found : (namecmp t (stored_name s) == 0) ≡ false =
        let z : namecmp t (stored_name s) ≢ 0 =
          λ q. other ((namecmp-stored_name t s h named).0 q) in
        ground arith in
      find-now t ∙ rw not_found (sym (find-before t))
