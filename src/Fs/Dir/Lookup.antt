-- ===== src/Fs/Dir/Lookup.antt =====
-- The loops of `dirlookup` and `dirlink`, and the directory as one run of bytes.
use assignment1_cs.Base.{
  subst, ℕ, zero, suc, ◌+◌, ◌-◌, ◌*◌, ◌/◌, ◌%◌, ◌≤◌, ◌<◌, ◌≡◌, inl, inr, refl, sym, ap, ◌∙◌, min,
  Bool-cases, true, false, some, List, drop, length, if◌then◌else◌, ◌==◌, ltb, arith,
}
use assignment1_cs.Strings.{Memory}
use assignment1_cs.Fs.Bitmap.{Superblock}
use assignment1_cs.Fs.Path.{Name, dirsiz}
use assignment1_cs.Fs.Content.{bytes_at, have_read, readi}
use assignment1_cs.Fs.Content.Tree.{data_slot}
use assignment1_cs.Fs.Content.Grow.{Step, Step-refl, Step-trans, data_slot-lt}
use assignment1_cs.Fs.Content.Transfer.{view, view-Step}
use assignment1_cs.Fs.Content.{iblock}
use assignment1_cs.Fs.Content.Home.{IsHome, IsHome-Keeps}
use assignment1_cs.Fs.Content.Inode.{IsFile, readi_lem}
use assignment1_cs.Fs.Dir.{
  t_dir, Dir, namecmp, inum_of, entry_size, read_entry, dirlookup_loop, dirlookup, find_empty,
}
use assignment1_cs.Fs.Dir.Find.{inum_at, name_at, find, find-same, empty, empty-same, Agree}

-- The content of the directory, and how many entries it has.
abbrev pub bytes : Dir → Memory
bytes dp = view dp.disk dp.addrs

abbrev pub entries : Dir → ℕ
entries dp = dp.size / entry_size

-- A directory is a file of whole entries.
pub record IsDir (sb : Superblock) (dp : Dir) : Type 0 where
  pub file : IsFile sb dp.disk dp.addrs dp.size
  pub whole : dp.size % entry_size ≡ 0
  pub home : IsHome sb dp.disk dp.addrs (iblock sb dp.node.inum)
  pub is_dir : (dp.node.type == t_dir) ≡ true

-- The directory after reads from it: the same fields, and the same content.
pub record Reread (sb : Superblock) (dp dp' : Dir) : Type 0 where
  pub step : Step sb dp.disk dp.addrs dp'.disk dp'.addrs
  pub size_same : dp'.size ≡ dp.size
  pub node_same : dp'.node ≡ dp.node

pub Reread-IsDir : (sb : Superblock) (dp dp' : Dir) → IsDir sb dp → Reread sb dp dp' → IsDir sb dp'
Reread-IsDir sb dp dp' v r = record {
  file = record {
    tree = r.step.keeps.tree;
    fits = omega (arith, r.size_same, v.file.fits);
    whole = λ p h z.
        let l : p < dp.size = omega (arith, h, r.size_same) in
        let was = v.file.whole p l in
        let range = data_slot-lt (p / 512) (omega (arith, l, v.file.fits)) in
        was (sym (r.step.keeps.grown (data_slot (p / 512)) range was) ∙ z);
  };
  whole = omega (arith, r.size_same, v.whole);
  home =
      subst (λ x. IsHome sb dp'.disk dp'.addrs (iblock sb x.inum)) (sym r.node_same)
        (IsHome-Keeps sb dp.disk dp.addrs dp'.disk dp'.addrs (iblock sb dp.node.inum) r.step.keeps
          v.home);
  is_dir = subst (λ x. (x.type == t_dir) ≡ true) (sym r.node_same) v.is_dir;
}

Reread-refl : (sb : Superblock) (dp : Dir) → IsDir sb dp → Reread sb dp dp
Reread-refl sb dp v = record {
  step = Step-refl sb dp.disk dp.addrs v.file.tree;
  size_same = refl;
  node_same = refl;
}

Reread-trans :
    (sb : Superblock) (dp dp' dp'' : Dir)
    → Reread sb dp dp'
    → Reread sb dp' dp''
    → Reread sb dp dp''
Reread-trans sb dp dp' dp'' r s = record {
  step = Step-trans sb dp.disk dp.addrs dp'.disk dp'.addrs dp''.disk dp''.addrs r.step s.step;
  size_same = s.size_same ∙ r.size_same;
  node_same = s.node_same ∙ r.node_same;
}

pub Reread-Agree :
    (sb : Superblock) (dp dp' : Dir) (off n : ℕ)
    → IsDir sb dp
    → Reread sb dp dp'
    → off + n * entry_size ≤ dp.size
    → Agree (bytes dp') (bytes dp) off n
Reread-Agree sb dp dp' off n v r h p low high =
    view-Step sb dp.disk dp.addrs dp'.disk dp'.addrs p r.step (omega (arith, high, h, v.file.fits))

length-bytes_at : (v : Memory) (off n : ℕ) → length (bytes_at v off n) ≡ n
length-bytes_at v off zero = refl
length-bytes_at v off (suc n) = ap suc (length-bytes_at v (off + 1) n)

read_entry_lem :
    (sb : Superblock) (dp : Dir) (off : ℕ)
    → IsDir sb dp
    → off + entry_size ≤ dp.size
    → (dp' : Dir) × (read_entry sb dp off ≡ some (bytes_at (bytes dp) off entry_size, dp'))
      × Reread sb dp dp'
unfolding read_entry
read_entry_lem sb dp off v h =
    let (a', d', e, s) =
      readi_lem sb dp.disk dp.addrs dp.size off entry_size v.file (omega (arith, h))
        (omega (arith, h, v.file.fits)) in
    let count : min entry_size (dp.size - off) ≡ entry_size = omega (arith, h) in
    let e' : readi sb dp.disk dp.addrs dp.size off entry_size
        ≡ have_read (bytes_at (bytes dp) off entry_size) a' d' =
      e ∙ ap (λ n. have_read (bytes_at (bytes dp) off n) a' d') count in
    (
      record dp { disk = d'; addrs = a' },
      rw (e', read_entry) refl,
      record { step = s; node_same = refl; size_same = refl },
    )

entry-name : (v : Memory) (off : ℕ) → drop 2 (bytes_at v off entry_size) ≡ name_at v off
entry-name v off = let e : off + 1 + 1 ≡ off + 2 = omega arith in ap (λ x. bytes_at v x dirsiz) e

-- A round of the loop.
loop-round :
    (fuel : ℕ) (sb : Superblock) (dp dp' : Dir) (s : Name) (off : ℕ) (de : List ℕ)
    → ltb off dp.size ≡ true
    → read_entry sb dp off ≡ some (de, dp')
    → dirlookup_loop (suc fuel) sb dp s off ≡ (
        if inum_of de == 0
        then dirlookup_loop fuel sb dp' s (off + entry_size)
        else if namecmp s (drop 2 de) == 0
        then some (some (off, inum_of de), dp')
        else dirlookup_loop fuel sb dp' s (off + entry_size))
unfolding dirlookup_loop
loop-round fuel sb dp dp' s off de more e = rw (more, e) refl

loop-find :
    (fuel n : ℕ) (sb : Superblock) (dp : Dir) (s : Name) (off : ℕ)
    → IsDir sb dp
    → dp.size ≡ off + n * entry_size
    → n < fuel
    → (dp' : Dir) × (dirlookup_loop fuel sb dp s off ≡ some (find n (bytes dp) s off, dp'))
      × Reread sb dp dp'
unfolding dirlookup_loop
loop-find zero n sb dp s off v size enough = absurd (omega (arith, enough))
loop-find (suc fuel) zero sb dp s off v size enough =
    let done : ltb off dp.size ≡ false = ground (arith, size) in
    (dp, rw done refl, Reread-refl sb dp v)
loop-find (suc fuel) (suc n) sb dp s off v size enough =
    let more : ltb off dp.size ≡ true = ground (arith, size) in
    let (dp1, e, r) = read_entry_lem sb dp off v (omega (arith, size)) in
    let v1 = Reread-IsDir sb dp dp1 v r in
    let (dp2, e', r') =
      loop-find fuel n sb dp1 s (off + entry_size) v1 (omega (arith, size, r.size_same))
        (omega (arith, enough)) in
    let same =
      find-same n (bytes dp1) (bytes dp) s (off + entry_size)
        (Reread-Agree sb dp dp1 (off + entry_size) n v r (omega (arith, size))) in
    let rest : dirlookup_loop fuel sb dp1 s (off + entry_size)
        ≡ some (find n (bytes dp) s (off + entry_size), dp2) =
      e' ∙ ap (λ x. some (x, dp2)) same in
    let name = ap (λ x. namecmp s x == 0) (entry-name (bytes dp) off) in
    let round = loop-round fuel sb dp dp1 s off (bytes_at (bytes dp) off entry_size) more e in
    elim (Bool-cases (inum_at (bytes dp) off == 0)) [
      | inl free ↦ (dp2, round ∙ rw free rest, Reread-trans sb dp dp1 dp2 r r')
      | inr used ↦ elim (Bool-cases (namecmp s (name_at (bytes dp) off) == 0)) [
        | inl found ↦ (dp1, round ∙ rw (used, name ∙ found, found) refl, r)
        | inr other ↦
            (dp2, round ∙ rw (used, name ∙ other, other) rest, Reread-trans sb dp dp1 dp2 r r')
      ]
    ]

-- On a directory of whole entries without a missing block, with its own block apart from its
-- content and the bitmap, `dirlookup` does not panic and finds the first entry in use whose name
-- compares equal, with its offset and inode number, or nothing; the directory has the same size
-- and content afterwards.
pub dirlookup-find :
    (sb : Superblock) (dp : Dir) (s : Name)
    → IsDir sb dp
    → (dp' : Dir) × (dirlookup sb dp s ≡ some (find (entries dp) (bytes dp) s 0, dp'))
      × Reread sb dp dp'
unfolding dirlookup
dirlookup-find sb dp s v = rw v.is_dir (
    loop-find (suc (dp.size / entry_size)) (entries dp) sb dp s 0 v (omega (arith, v.whole))
      (omega arith))

empty-round :
    (fuel : ℕ) (sb : Superblock) (dp dp' : Dir) (off : ℕ) (de : List ℕ)
    → ltb off dp.size ≡ true
    → read_entry sb dp off ≡ some (de, dp')
    → find_empty (suc fuel) sb dp off
      ≡ (if inum_of de == 0 then some (off, dp') else find_empty fuel sb dp' (off + entry_size))
unfolding find_empty
empty-round fuel sb dp dp' off de more e = rw (more, e) refl

find_empty-loop :
    (fuel n : ℕ) (sb : Superblock) (dp : Dir) (off : ℕ)
    → IsDir sb dp
    → dp.size ≡ off + n * entry_size
    → n < fuel
    → (dp' : Dir) × (find_empty fuel sb dp off ≡ some (empty n (bytes dp) off, dp'))
      × Reread sb dp dp'
unfolding find_empty
find_empty-loop zero n sb dp off v size enough = absurd (omega (arith, enough))
find_empty-loop (suc fuel) zero sb dp off v size enough =
    let done : ltb off dp.size ≡ false = ground (arith, size) in
    (dp, rw done refl, Reread-refl sb dp v)
find_empty-loop (suc fuel) (suc n) sb dp off v size enough =
    let more : ltb off dp.size ≡ true = ground (arith, size) in
    let (dp1, e, r) = read_entry_lem sb dp off v (omega (arith, size)) in
    let v1 = Reread-IsDir sb dp dp1 v r in
    let (dp2, e', r') =
      find_empty-loop fuel n sb dp1 (off + entry_size) v1 (omega (arith, size, r.size_same))
        (omega (arith, enough)) in
    let same =
      empty-same n (bytes dp1) (bytes dp) (off + entry_size)
        (Reread-Agree sb dp dp1 (off + entry_size) n v r (omega (arith, size))) in
    let rest : find_empty fuel sb dp1 (off + entry_size)
        ≡ some (empty n (bytes dp) (off + entry_size), dp2) =
      e' ∙ ap (λ x. some (x, dp2)) same in
    let round = empty-round fuel sb dp dp1 off (bytes_at (bytes dp) off entry_size) more e in
    elim (Bool-cases (inum_at (bytes dp) off == 0)) [
      | inl free ↦ (dp1, round ∙ rw free refl, r)
      | inr used ↦ (dp2, round ∙ rw used rest, Reread-trans sb dp dp1 dp2 r r')
    ]

pub find_empty_lem :
    (sb : Superblock) (dp : Dir)
    → IsDir sb dp
    → (dp' : Dir) × (find_empty (suc (dp.size / entry_size)) sb dp 0
        ≡ some (empty (entries dp) (bytes dp) 0, dp'))
      × Reread sb dp dp'
find_empty_lem sb dp v =
    find_empty-loop (suc (dp.size / entry_size)) (entries dp) sb dp 0 v (omega (arith, v.whole))
      (omega arith)
