-- ===== src/Fs/Content/Write.antt =====
-- The loop of `writei` on the content as one run of bytes.
use assignment1_cs.Base.{
  ℕ, zero, suc, ◌+◌, ◌-◌, ◌*◌, ◌/◌, ◌%◌, ◌≤◌, ◌<◌, ◌≡◌, ◌≢◌, inl, inr, refl, ap, ap₂, sym, ◌∙◌,
  subst, false, Option, none, some, List, [], ◌∷◌, ◌++◌, length, take, drop, take-append-drop,
  length-take, length-drop, length-append, ltb, ltb→lt, ◌==◌, ==→eq, ==→ne, Bool-cases,
  Option-cases, update, arith,
}
use assignment1_cs.Fs.Bitmap.{bsize}
use assignment1_cs.Fs.Bitmap.{Disk, Superblock}
use assignment1_cs.Fs.Content.{maxfile, bmap, put_bytes, piece, writei_loop}
use assignment1_cs.Fs.Content.Tree.{slot, data_slot, content, IsTree}
use assignment1_cs.Fs.Content.Grow.{Keeps, Step, Step-refl, Keeps-trans, data_slot-lt}
use assignment1_cs.Fs.Content.Bmap.{Mapped, bmap_lem, missing_before}
use assignment1_cs.Fs.Content.Flat.{put_bytes_out, put_bytes-append, put_bytes-shift, put_bytes-at}
use assignment1_cs.Fs.Content.Store.{written-Keeps, content-written_self, content-written_ne}
use assignment1_cs.Fs.Content.Transfer.{view, max_bytes, Missing, content-slot, view-Step}

-- The change from one content to the other writes these bytes at `off`, and nothing else; their
-- blocks are there now.
pub record Writes (sb : Superblock) (d : Disk) (a : List ℕ) (d' : Disk) (a' : List ℕ) (off : ℕ)
    (src : List ℕ) : Type 0 where
  pub keeps : Keeps sb d a d' a'
  pub bytes : (p : ℕ) → p < max_bytes → view d' a' p ≡ put_bytes (view d a) off src p
  pub present : (p : ℕ) → off ≤ p → p < off + length src → slot d' a' (data_slot (p / bsize)) ≢ 0

-- One round: `bmap`, and bytes into the block.
block-Writes :
    (sb : Superblock) (d : Disk) (a : List ℕ) (d' : Disk) (a' : List ℕ) (b off : ℕ) (xs : List ℕ)
    → Step sb d a d' a'
    → slot d' a' (data_slot (off / bsize)) ≡ b
    → b ≢ 0
    → off / bsize < maxfile
    → off % bsize + length xs ≤ bsize
    → Writes sb d a (update d' b (put_bytes (d' b) (off % bsize) xs)) a' off xs
block-Writes sb d a d' a' b off xs s at ne inside fits =
    let bn = off / bsize in
    let full : slot d' a' (data_slot bn) ≢ 0 = λ z. ne (sym at ∙ z) in
    let m = put_bytes (d' b) (off % bsize) xs in
    let k =
      subst (λ x. Keeps sb d' a' (update d' x m) a') at
        (written-Keeps sb d' a' bn m s.keeps.tree inside full) in
    let self : (i : ℕ) → content (update d' b m) a' bn i ≡ m i =
      subst (λ x. (i : ℕ) → content (update d' x m) a' bn i ≡ m i) at
        (content-written_self sb d' a' bn m s.keeps.tree inside full) in
    let others : (n i : ℕ)
        → n < maxfile
        → bn ≢ n
        → content (update d' b m) a' n i ≡ content d' a' n i =
      subst
        (λ x. (n i : ℕ) → n < maxfile → bn ≢ n → content (update d' x m) a' n i ≡ content d' a' n i)
        at (content-written_ne sb d' a' bn m s.keeps.tree inside full) in
    record {
      keeps = Keeps-trans sb d a d' a' (update d' b m) a' s.keeps k;
      bytes = λ p h. elim (Bool-cases (bn == p / bsize)) [
        | inl here ↦
            let e : bn ≡ p / bsize = ==→eq bn (p / bsize) here in
            let o : bn * bsize + off % bsize ≡ off = omega arith in
            let r : bn * bsize + p % bsize ≡ p = omega (arith, e) in
            let before : view d a (bn * bsize + p % bsize) ≡ d' b (p % bsize) =
              ap (view d a) r
              ∙ sym (view-Step sb d a d' a' p s h)
              ∙ ap (λ x. content d' a' x (p % bsize)) (sym e)
              ∙ content-slot d' a' bn (p % bsize) at ne in
            ap (λ x. content (update d' b m) a' x (p % bsize)) (sym e)
            ∙ self (p % bsize)
            ∙ sym
                (put_bytes-shift xs (view d a) (d' b) (bn * bsize) (off % bsize) (p % bsize) before)
            ∙ ap₂ (λ x y. put_bytes (view d a) x xs y) o r
        | inr there ↦
            let n : bn ≢ p / bsize = ==→ne bn (p / bsize) there in
            others (p / bsize) (p % bsize) (omega (arith, h)) n
            ∙ view-Step sb d a d' a' p s h
            ∙ sym (put_bytes_out xs (view d a) off p (ground arith))
      ];
      present = λ p from to z.
          let e : p / bsize ≡ bn = omega (arith, from, to, fits) in
          let was : slot d' a' (data_slot (p / bsize)) ≢ 0 =
            subst (λ x. slot d' a' (data_slot x) ≢ 0) (sym e) full in
          let range = data_slot-lt (p / bsize) (omega (arith, e, inside)) in
          was (sym (k.grown (data_slot (p / bsize)) range was) ∙ z);
    }

Writes-trans :
    (sb : Superblock) (d : Disk) (a : List ℕ) (d' : Disk) (a' : List ℕ) (d'' : Disk) (a'' : List ℕ)
    (off : ℕ) (xs ys : List ℕ)
    → off + length xs + length ys ≤ max_bytes
    → Writes sb d a d' a' off xs
    → Writes sb d' a' d'' a'' (off + length xs) ys
    → Writes sb d a d'' a'' off (xs ++ ys)
Writes-trans sb d a d' a' d'' a'' off xs ys fits v w = record {
  keeps = Keeps-trans sb d a d' a' d'' a'' v.keeps w.keeps;
  bytes = λ p h.
      w.bytes p h
      ∙ put_bytes-at ys (view d' a') (put_bytes (view d a) off xs) (off + length xs) p (v.bytes p h)
      ∙ ap (λ f. f p) (sym (put_bytes-append xs ys (view d a) off));
  present = λ p from to.
      let end : p < off + length xs + length ys = omega (arith, to, length-append xs ys) in
      elim (Bool-cases (ltb p (off + length xs))) [
        | inl early ↦
            let was = v.present p from (ltb→lt p (off + length xs) early) in
            let range = data_slot-lt (p / bsize) (omega (arith, end, fits)) in
            λ z. was (sym (w.keeps.grown (data_slot (p / bsize)) range was) ∙ z)
        | inr late ↦ w.present p (ground arith) end
      ];
}

abbrev pub WritesBytes :
    Superblock → Disk → List ℕ → ℕ → List ℕ → Option (ℕ × List ℕ × Disk) → Type 0
WritesBytes sb d a off src none = Missing d a off (length src)
WritesBytes sb d a off src (some (off', a', d')) =
    (off' ≡ off + length src) × Writes sb d a d' a' off src

pub writei_loop-WritesBytes :
    (fuel : ℕ) (sb : Superblock) (d : Disk) (a : List ℕ) (off : ℕ) (src : List ℕ)
    → IsTree sb d a
    → off + length src ≤ max_bytes
    → length src < fuel
    → WritesBytes sb d a off src (writei_loop fuel sb d a off src)
unfolding writei_loop
writei_loop-WritesBytes zero sb d a off src t fits enough = absurd (omega (arith, enough))
writei_loop-WritesBytes (suc fuel) sb d a off [] t fits enough = (
  omega arith,
  record {
    keeps = (Step-refl sb d a t).keeps;
    bytes = λ p h. refl;
    present = λ c from to. absurd (omega (arith, from, to));
  },
)
writei_loop-WritesBytes (suc fuel) sb d a off (x ∷ rest) t fits enough =
    let src = x ∷ rest in
    let bn = off / bsize in
    let m = piece off (length src) in
    let xs = take m src in
    let ys = drop m src in
    let more : (length src == 0) ≡ false = ground arith in
    let size : length xs ≡ m = omega (arith, length-take m src) in
    let left : length ys ≡ length src - m = length-drop m src in
    let inside : bn < maxfile = omega (arith, fits) in
    let mapped = bmap_lem sb d a bn t inside in
    elim (Option-cases (bmap sb d a bn)) [
      | inl full ↦
          let (empty, _) = subst (Mapped sb d a (data_slot bn)) full mapped in
          rw (more, full) (off, omega arith, omega arith, empty)
      | inr ((b, a', d'), given) ↦
          let (s, at, ne) = subst (Mapped sb d a (data_slot bn)) given mapped in
          let d1 = update d' b (put_bytes (d' b) (off % bsize) xs) in
          let v : Writes sb d a d1 a' off xs =
            block-Writes sb d a d' a' b off xs s at ne inside (omega (arith, size)) in
          let ih =
            writei_loop-WritesBytes fuel sb d1 a' (off + m) ys v.keeps.tree
              (omega (arith, fits, left)) (omega (arith, enough, left)) in
          elim (Option-cases (writei_loop fuel sb d1 a' (off + m) ys)) [
            | inl fails ↦
                let (c, from, to, empty) = subst (WritesBytes sb d1 a' (off + m) ys) fails ih in
                rw (more, given, fails)
                  (
                    c,
                    omega (arith, from),
                    omega (arith, to, left),
                    missing_before sb d a d1 a' (data_slot (c / bsize)) v.keeps
                        (data_slot-lt (c / bsize) (omega (arith, to, left, fits))) empty,
                  )
            | inr ((off', a'', d''), goes) ↦
                let (e, w) = subst (WritesBytes sb d1 a' (off + m) ys) goes ih in
                let w' : Writes sb d1 a' d'' a'' (off + length xs) ys =
                  subst (λ k. Writes sb d1 a' d'' a'' (off + k) ys) (sym size) w in
                rw (more, given, goes)
                  (
                    e ∙ omega (arith, left),
                    subst (Writes sb d a d'' a'' off) (take-append-drop m src) (
                        Writes-trans sb d a d1 a' d'' a'' off xs ys
                          (omega (arith, fits, size, left)) v w'),
                  )
          ]
    ]
