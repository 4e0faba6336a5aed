-- ===== src/Fs/Path.antt =====
-- fs.c: path names. A C string is the list of its characters, without the final NUL. An inode is
-- named by a number; its lock, its references and its directory entries belong to other
-- layers. The name that `nameiparent` copies out, the one of the last `skipelem`, is not part of the
-- result of `namex`.
pub mod Split
pub mod Walk
mod Tests
use assignment1_cs.Base.{
  ℕ, zero, suc, Bool, true, false, ◌&&◌, Option, none, some, List, [], ◌∷◌, ◌++◌, take,
  if◌then◌else◌, ◌==◌, length,
}

abbrev pub dirsiz : ℕ
dirsiz = 14

abbrev pub slash : ℕ
slash = 47

abbrev pub Name : Type 0
Name = List ℕ

-- `while(*path == '/') path++`
pub skip_slashes : List ℕ → List ℕ
skip_slashes [] = []
skip_slashes (c ∷ path) = if c == slash then skip_slashes path else c ∷ path

-- The loop to the end of the element: the element and the path behind it.
pub element : List ℕ → Name × List ℕ
element [] = ([], [])
element (c ∷ path) =
    let (e, rest) = element path in if c == slash then ([], c ∷ path) else (c ∷ e, rest)

-- `skipelem` behind the leading slashes.
pub skip_from : List ℕ → Option (List ℕ × Name)
skip_from [] = none
skip_from (c ∷ path) = let (e, rest) = element (c ∷ path) in some (skip_slashes rest, take dirsiz e)

-- The path behind the element, and the name, or `none` for the null pointer.
pub skipelem : List ℕ → Option (List ℕ × Name)
skipelem path = skip_from (skip_slashes path)

-- What `namex` does to inodes: `get` is a new reference, by `iget`, `idup` or `dirlookup`.
pub data Touch : Type 0 where
  get lock unlock put : ℕ → Touch

abbrev pub is_empty : List ℕ → Bool
is_empty [] = true
is_empty (c ∷ path) = false

-- Where `namex` starts.
abbrev pub start : List ℕ → ℕ → ℕ → ℕ
start [] root cwd = cwd
start (c ∷ path) root cwd = if c == slash then root else cwd

-- `is_dir` tells the type of an inode, `dirlookup` its entries.
module _ (is_dir : ℕ → Bool) (dirlookup : ℕ → Name → Option ℕ) where
  -- The loop of `namex` and what follows it, for at most `fuel` rounds: the inode, and what was
  -- done to inodes on the way.
  pub namex_loop : ℕ → List ℕ → Bool → ℕ → Option ℕ × List Touch
  namex_loop zero path nameiparent ip = (none, [])
  namex_loop (suc fuel) path nameiparent ip = elim (skipelem path) [
    | none ↦ if nameiparent then (none, put ip ∷ []) else (some ip, [])
    | some (rest, name) ↦
        if is_dir ip
        then (if nameiparent && is_empty rest
            then (some ip, lock ip ∷ unlock ip ∷ [])
            else elim (dirlookup ip name) [
              | none ↦ (none, lock ip ∷ unlock ip ∷ put ip ∷ [])
              | some next ↦
                  let (out, touched) = namex_loop fuel rest nameiparent next in
                  (out, lock ip ∷ get next ∷ unlock ip ∷ put ip ∷ touched)
            ])
        else (none, lock ip ∷ unlock ip ∷ put ip ∷ [])
  ]

  -- Every round takes at least a character.
  pub namex : List ℕ → Bool → ℕ → ℕ → Option ℕ × List Touch
  namex path nameiparent root cwd =
      let ip = start path root cwd in
      let (out, touched) = namex_loop (suc (length path)) path nameiparent ip in
      (out, get ip ∷ touched)
