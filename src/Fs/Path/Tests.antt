-- ===== src/Fs/Path/Tests.antt =====
-- Paths as the comment of `skipelem` gives them, and a walk through two directories.
use assignment1_cs.Base.{
  ℕ, ◌+◌, ◌≡◌, ◌==◌, Bool, true, false, Option, none, some, List, [], ◌∷◌, refl, if◌then◌else◌,
}
use assignment1_cs.Fs.Path.{
  skipelem, skip_from, skip_slashes, element, Name, get, lock, unlock, put, namex, namex_loop,
  start,
}
use assignment1_cs.Fs.Path.Split.{elements}
use assignment1_cs.Fs.Path.Walk.{gets, puts, owned, LocksPair, follow, follow_parent, namex_lem}

-- "///a//bb"
abbrev a_bb : List ℕ
a_bb = 47 ∷ 47 ∷ 47 ∷ 97 ∷ 47 ∷ 47 ∷ 98 ∷ 98 ∷ []

skip_a : skipelem a_bb ≡ some (98 ∷ 98 ∷ [], 97 ∷ [])
unfolding skipelem skip_from skip_slashes element
skip_a = refl

skip_only_slashes : skipelem (47 ∷ 47 ∷ []) ≡ none
unfolding skipelem skip_from skip_slashes element
skip_only_slashes = refl

-- The root 1 has the entry "a", directory 4, which has every name of two letters.
abbrev dirs : ℕ → Bool
dirs i = if i == 1 then true else i == 4

abbrev entries : ℕ → Name → Option ℕ
entries i (c ∷ []) = if i == 1 then (if c == 97 then some 4 else none) else none
entries i (c ∷ d ∷ []) = if i == 4 then some 9 else none
entries i _ = none

walk_a_bb :
    namex dirs entries a_bb false 1 6
    ≡ (some 9, get 1 ∷ lock 1 ∷ get 4 ∷ unlock 1 ∷ put 1 ∷ lock 4 ∷ get 9 ∷ unlock 4 ∷ put 4 ∷ [])
unfolding namex namex_loop skipelem skip_from skip_slashes element
walk_a_bb = refl

namex_lem_example :
    let ip = start a_bb 1 6 in
    let (out, touched) = namex dirs entries a_bb true 1 6 in
    (out ≡ (
      if true
      then follow_parent dirs entries (elements a_bb) ip
      else follow dirs entries (elements a_bb) ip))
    × ((i : ℕ) → gets touched i ≡ puts touched i + owned out i)
    × LocksPair none touched
namex_lem_example = namex_lem dirs entries a_bb true 1 6
