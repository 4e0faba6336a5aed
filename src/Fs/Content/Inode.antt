-- ===== src/Fs/Content/Inode.antt =====
-- `readi` and `writei` as reads and writes of one run of bytes.
use assignment1_cs.Base.{
  ℕ, suc, ◌+◌, ◌-◌, ◌*◌, ◌/◌, ◌%◌, ◌^◌, ◌≤◌, ◌<◌, ◌≡◌, ◌≢◌, ◌⊎◌, ◌↔◌, inl, inr, refl, ap, sym, ◌∙◌,
  subst, false, List, length, min, max, if◌then◌else◌, Bool-cases, Option-cases, some, update, ltb,
  ltb→lt, ◌||◌, ◌&&◌, arith,
}
use assignment1_cs.Fs.Bitmap.{bsize}
use assignment1_cs.Fs.Bitmap.{Disk, Superblock}
use assignment1_cs.Strings.{Memory}
use assignment1_cs.Fs.Content.{
  load_word, Node, iblock, iupdate, dinode_place, dinode_bytes, maxfile, bytes_at, put_bytes,
  readi_loop, writei_loop, Result, panics, failed, have_read, wrote, readi, writei,
}
use assignment1_cs.Fs.Content.Tree.{slot, data_slot, IsTree}
use assignment1_cs.Fs.Content.Grow.{Step, data_slot-lt}
use assignment1_cs.Fs.Content.Home.{
  IsHome, IsHome-Keeps, stored-IsHome, stored-IsTree, data_slot-stored, content-stored,
  iupdate-size,
}
use assignment1_cs.Fs.Content.Bmap.{missing_before}
use assignment1_cs.Fs.Content.Flat.{bytes_at-same, bytes_at-put_bytes}
use assignment1_cs.Fs.Content.Transfer.{view, max_bytes, Missing, ReadBytes, readi_loop-ReadBytes}
use assignment1_cs.Fs.Content.Write.{Writes, WritesBytes, writei_loop-WritesBytes}

-- A content without a missing block.
pub record IsFile (sb : Superblock) (d : Disk) (a : List ℕ) (size : ℕ) : Type 0 where
  pub tree : IsTree sb d a
  pub fits : size ≤ max_bytes
  pub whole : (p : ℕ) → p < size → slot d a (data_slot (p / bsize)) ≢ 0

-- On an inode of which no block is missing, `readi` of `n` bytes at an offset within the size,
-- with an end that does not wrap around, does not panic and returns the bytes of the content from
-- there on, `n` of them or those up to the size, and leaves the content as it was.
pub readi_lem :
    (sb : Superblock) (d : Disk) (a : List ℕ) (size off n : ℕ)
    → IsFile sb d a size
    → off ≤ size
    → off + n < 2 ^ 32
    → (a' : List ℕ) × (d' : Disk) × (readi sb d a size off n
        ≡ have_read (bytes_at (view d a) off (min n (size - off))) a' d')
      × Step sb d a d' a'
unfolding readi
readi_lem sb d a size off n f h small =
    let accepted : (ltb size off || ltb ((off + n) % 2 ^ 32) off) ≡ false = ground arith in
    let count : (if ltb size ((off + n) % 2 ^ 32) then size - off else n) ≡ min n (size - off) =
      ground arith in
    let k = min n (size - off) in
    let reads =
      readi_loop-ReadBytes (suc k) sb d a off k f.tree (omega (arith, h, f.fits)) (omega arith) in
    elim (Option-cases (readi_loop (suc k) sb d a off k)) [
      | inl fails ↦
          let (p, from, to, empty) = subst (ReadBytes sb d a off k) fails reads in
          absurd (f.whole p (omega (arith, from, to, h)) empty)
      | inr ((bytes, a', d'), goes) ↦
          let (s, e) = subst (ReadBytes sb d a off k) goes reads in
          (a', d', rw (accepted, count, goes) (ap (λ x. have_read x a' d') e), s)
    ]

-- The size after `n` bytes at `off`.
abbrev pub new_size : ℕ → ℕ → ℕ → ℕ
new_size size off n = max size (off + n)

writei-wrote :
    (sb : Superblock) (ip : Node) (d : Disk) (a : List ℕ) (size off : ℕ) (src : List ℕ) (off' : ℕ)
    (a' : List ℕ) (d' : Disk)
    → (ltb size off || ltb ((off + length src) % 2 ^ 32) off) ≡ false
    → ltb (maxfile * bsize) ((off + length src) % 2 ^ 32) ≡ false
    → writei_loop (suc (length src)) sb d a off src ≡ some (off', a', d')
    → writei sb ip d a size off src ≡ (
        if ltb 0 (length src) && ltb size off'
        then wrote (length src) a' (iupdate sb d' ip a' off') off'
        else wrote (length src) a' d' size)
unfolding writei
writei-wrote sb ip d a size off src off' a' d' accepted fits goes = rw (accepted, fits, goes) refl

-- If the size has grown, the inode is written to its block after the bytes, and has its size there.
abbrev pub Recorded : Superblock → Node → Disk → List ℕ → ℕ → ℕ → Disk → Type 0
Recorded sb ip d1 a' size end d' =
    let b = iblock sb ip.inum in
    ((size < end) × (d' ≡ iupdate sb d1 ip a' end) × (load_word (d' b) (dinode_place ip + 8) ≡ end))
    ⊎ ((end ≤ size) × (d' ≡ d1))

-- A block that is missing after a write was missing before.
pub Recorded-missing :
    (sb : Superblock) (ip : Node) (d : Disk) (a : List ℕ) (size off : ℕ) (src : List ℕ) (d1 : Disk)
    (a' : List ℕ) (d' : Disk) (end bn : ℕ)
    → IsHome sb d a (iblock sb ip.inum)
    → Writes sb d a d1 a' off src
    → Recorded sb ip d1 a' size end d'
    → bn < 140
    → slot d' a' (data_slot bn) ≡ 0
    → slot d a (data_slot bn) ≡ 0
unfolding iupdate
Recorded-missing sb ip d a size off src d1 a' d' end bn home w r h z =
    missing_before sb d a d1 a' (data_slot bn) w.keeps (data_slot-lt bn h) (elim r [
      | inl (_, e, _) ↦
          let b = iblock sb ip.inum in
          let m = put_bytes (d1 b) (dinode_place ip) (dinode_bytes ip a' end) in
          sym (data_slot-stored sb d1 a' b m (IsHome-Keeps sb d a d1 a' b w.keeps home) bn h)
          ∙ sym (ap (λ x. slot x a' (data_slot bn)) e)
          ∙ z
      | inr (_, e) ↦ sym (ap (λ x. slot x a' (data_slot bn)) e) ∙ z
    ])

abbrev pub WriteOutcome : Superblock → Node → Disk → List ℕ → ℕ → ℕ → List ℕ → Result → Type 0
WriteOutcome sb ip d a size off src panics = Missing d a off (length src)
WriteOutcome sb ip d a size off src failed = ⊥
WriteOutcome sb ip d a size off src (have_read bytes a' d') = ⊥
WriteOutcome sb ip d a size off src (wrote n a' d' size') =
    (n ≡ length src)
    × (size' ≡ new_size size off (length src))
    × IsFile sb d' a' size'
    × IsHome sb d' a' (iblock sb ip.inum)
    × ((p : ℕ) → p < max_bytes → view d' a' p ≡ put_bytes (view d a) off src p)
    × ((d1 : Disk) × Writes sb d a d1 a' off src × Recorded sb ip d1 a' size (off + length src) d')

stored-IsFile :
    (sb : Superblock) (d : Disk) (a : List ℕ) (size b : ℕ) (m : Memory)
    → IsHome sb d a b
    → IsFile sb d a size
    → IsFile sb (update d b m) a size
stored-IsFile sb d a size b m h f = record {
  tree = stored-IsTree sb d a b m h f.tree;
  fits = f.fits;
  whole = λ p l z.
      f.whole p l (sym (data_slot-stored sb d a b m h (p / bsize) (omega (arith, l, f.fits))) ∙ z);
}

-- The part behind the loop.
module _ (sb : Superblock) (ip : Node) (d : Disk) (a : List ℕ) (size off : ℕ) (src : List ℕ)
    (f : IsFile sb d a size) (home : IsHome sb d a (iblock sb ip.inum)) (h : off ≤ size)
    (small : off + length src ≤ max_bytes) (d1 : Disk) (a' : List ℕ)
    (w : Writes sb d a d1 a' off src) where
  grown-IsFile : IsFile sb d1 a' (new_size size off (length src))
  grown-IsFile = record {
    tree = w.keeps.tree;
    fits = omega (arith, f.fits, small);
    whole = λ p l. elim (Bool-cases (ltb p size)) [
      | inl early ↦
          let was = f.whole p (ltb→lt p size early) in
          let range = data_slot-lt (p / bsize) (omega (arith, f.fits, ltb→lt p size early)) in
          λ z. was (sym (w.keeps.grown (data_slot (p / bsize)) range was) ∙ z)
      | inr late ↦ w.present p (ground arith) (ground arith)
    ];
  }

  grown-IsHome : IsHome sb d1 a' (iblock sb ip.inum)
  grown-IsHome = IsHome-Keeps sb d a d1 a' (iblock sb ip.inum) w.keeps home

  unchanged-WriteOutcome :
      off + length src ≤ size → WriteOutcome sb ip d a size off src (wrote (length src) a' d1 size)
  unchanged-WriteOutcome inside =
      let same : new_size size off (length src) ≡ size = omega (arith, inside) in
      (
        refl,
        sym same,
        subst (IsFile sb d1 a') same grown-IsFile,
        grown-IsHome,
        w.bytes,
        (d1, w, inr (inside, refl)),
      )

  updated-WriteOutcome :
      (end : ℕ)
      → end ≡ off + length src
      → size < end
      → WriteOutcome sb ip d a size off src (wrote (length src) a' (iupdate sb d1 ip a' end) end)
  unfolding iupdate
  updated-WriteOutcome end e grows =
      let b = iblock sb ip.inum in
      let m = put_bytes (d1 b) (dinode_place ip) (dinode_bytes ip a' end) in
      let same : new_size size off (length src) ≡ end = omega (arith, grows, e) in
      let stored =
        subst (λ x. Recorded sb ip d1 a' size x (iupdate sb d1 ip a' end)) e
          (inl (grows, refl, iupdate-size sb d1 ip a' end (omega (arith, e, small)))) in
      (
        refl,
        sym same,
        stored-IsFile sb d1 a' end b m grown-IsHome (subst (IsFile sb d1 a') same grown-IsFile),
        stored-IsHome sb d1 a' b m grown-IsHome,
        λ p l.
            content-stored sb d1 a' b m grown-IsHome (p / bsize) (p % bsize) (omega (arith, l))
            ∙ w.bytes p l,
        (d1, w, stored),
      )

pub writei_lem :
    (sb : Superblock) (ip : Node) (d : Disk) (a : List ℕ) (size off : ℕ) (src : List ℕ)
    → IsFile sb d a size
    → IsHome sb d a (iblock sb ip.inum)
    → off ≤ size
    → off + length src ≤ max_bytes
    → WriteOutcome sb ip d a size off src (writei sb ip d a size off src)
unfolding writei
writei_lem sb ip d a size off src f home h small =
    let n = length src in
    let accepted : (ltb size off || ltb ((off + n) % 2 ^ 32) off) ≡ false = ground arith in
    let not_too_large : ltb (maxfile * bsize) ((off + n) % 2 ^ 32) ≡ false = ground arith in
    let writes = writei_loop-WritesBytes (suc n) sb d a off src f.tree small (omega arith) in
    elim (Option-cases (writei_loop (suc n) sb d a off src)) [
      | inl fails ↦
          rw (accepted, not_too_large, fails) (subst (WritesBytes sb d a off src) fails writes)
      | inr ((off', a', d1), goes) ↦
          let (e, w) = subst (WritesBytes sb d a off src) goes writes in
          let code = writei-wrote sb ip d a size off src off' a' d1 accepted not_too_large goes in
          subst (WriteOutcome sb ip d a size off src) (sym code)
            (elim (Bool-cases (ltb 0 n && ltb size off')) [
              | inl grows ↦ rw grows (
                  updated-WriteOutcome sb ip d a size off src f home h small d1 a' w off' e
                    (ground arith))
              | inr stays ↦ rw stays (
                  unchanged-WriteOutcome sb ip d a size off src f home h small d1 a' w
                    (ground (arith, e, h)))
            ])
    ]

-- If `writei` on an inode of which no block is missing, with its own block apart from its content
-- and the bitmap, at an offset within the size and up to at most the largest file, returns a
-- number, then `readi` of that number of bytes at that offset returns the bytes written.
pub readi-writei :
    (sb : Superblock) (ip : Node) (d : Disk) (a : List ℕ) (size off : ℕ) (src : List ℕ) (d' : Disk)
    (a' : List ℕ) (size' n : ℕ)
    → IsFile sb d a size
    → IsHome sb d a (iblock sb ip.inum)
    → off ≤ size
    → off + length src ≤ max_bytes
    → writei sb ip d a size off src ≡ wrote n a' d' size'
    → (a'' : List ℕ) × (d'' : Disk) × (readi sb d' a' size' off n ≡ have_read src a'' d'')
readi-writei sb ip d a size off src d' a' size' n f home h small written =
    let (count, end, file, _, written_bytes, _) =
      subst (WriteOutcome sb ip d a size off src) written
        (writei_lem sb ip d a size off src f home h small) in
    let (a'', d'', reads, _) =
      readi_lem sb d' a' size' off n file (omega (arith, end, h)) (omega (arith, count, small)) in
    let all : min n (size' - off) ≡ length src = omega (arith, count, end) in
    let bytes : bytes_at (view d' a') off (length src) ≡ src =
      bytes_at-same (length src) (view d' a') (put_bytes (view d a) off src) off off
        (λ i l. written_bytes (off + i) (omega (arith, l, small)))
      ∙ bytes_at-put_bytes src (view d a) off in
    (a'', d'', reads ∙ ap (λ x. have_read x a'' d'') (ap (bytes_at (view d' a') off) all ∙ bytes))

-- For a 32-bit offset and fewer than 2 ^ 32 bytes, `writei` returns -1 exactly if the offset is
-- behind the size or the end is behind the largest file.
pub writei_fails_iff :
    (sb : Superblock) (ip : Node) (d : Disk) (a : List ℕ) (size off : ℕ) (src : List ℕ)
    → off < 2 ^ 32
    → length src < 2 ^ 32
    → (writei sb ip d a size off src ≡ failed) ↔ ((size < off) ⊎ (max_bytes < off + length src))
unfolding writei
writei_fails_iff sb ip d a size off src small short =
    let n = length src in
    elim (Bool-cases (ltb size off || ltb ((off + n) % 2 ^ 32) off)) [
      | inl refused ↦ rw refused ((λ _. ground arith), λ _. refl)
      | inr accepted ↦ elim (Bool-cases (ltb (maxfile * bsize) ((off + n) % 2 ^ 32))) [
        | inl large ↦ rw (accepted, large) ((λ _. ground arith), λ _. refl)
        | inr fits ↦
            let not_far : ((size < off) ⊎ (max_bytes < off + n)) → ⊥ = ground arith in
            elim (Option-cases (writei_loop (suc n) sb d a off src)) [
              | inl fails ↦
                  rw (accepted, fits, fails) ((λ e. absurd (cc e)), λ k. absurd (not_far k))
              | inr ((off', a', d'), goes) ↦
                  let code = writei-wrote sb ip d a size off src off' a' d' accepted fits goes in
                  elim (Bool-cases (ltb 0 n && ltb size off')) [
                    | inl grows ↦ rw (code, grows) ((λ e. absurd (cc e)), λ k. absurd (not_far k))
                    | inr stays ↦ rw (code, stays) ((λ e. absurd (cc e)), λ k. absurd (not_far k))
                  ]
            ]
      ]
    ]
