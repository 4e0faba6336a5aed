-- ===== src/Fs/Dir/Add.antt =====
-- `dirlink`, and look-ups after it.
use assignment1_cs.Base.{
  ℕ, suc, ◌+◌, ◌-◌, ◌*◌, ◌/◌, ◌^◌, ◌≤◌, ◌<◌, ◌≡◌, inl, inr, refl, sym, ap, ◌∙◌, subst, max,
  Option-cases, true, Option, none, some, ◌==◌, arith,
}
use assignment1_cs.Fs.Bitmap.{Superblock}
use assignment1_cs.Fs.Path.{Name}
use assignment1_cs.Fs.Content.{put_bytes, Result, panics, failed, have_read, wrote, writei}
use assignment1_cs.Fs.Content.Flat.{put_bytes-at}
use assignment1_cs.Fs.Content.Tree.{data_slot}
use assignment1_cs.Fs.Content.Bmap.{missing_before}
use assignment1_cs.Fs.Content.Grow.{data_slot-lt}
use assignment1_cs.Fs.Content.Transfer.{view, max_bytes, Missing, view-Step}
use assignment1_cs.Fs.Content.Inode.{WriteOutcome, writei_lem}
use assignment1_cs.Fs.Dir.{
  Dir, entry_size, new_entry, dirlookup, find_empty, dirlink, Linked, link_result, panic, exists,
  linked,
}
use assignment1_cs.Fs.Dir.Names.{IsName, SameName}
use assignment1_cs.Fs.Dir.Find.{inum_at, find, empty, empty-same, empty-place}
use assignment1_cs.Fs.Dir.Lookup.{
  bytes, entries, IsDir, Reread, Reread-IsDir, Reread-Agree, dirlookup-find, find_empty_lem,
}
use assignment1_cs.Fs.Dir.Link.{length-new_entry, find-new, find-old}

-- Where `dirlink` puts the entry.
abbrev pub place : Dir → ℕ
place dp = empty (entries dp) (bytes dp) 0

abbrev pub lookup : Dir → Name → Option (ℕ × ℕ)
lookup dp s = find (entries dp) (bytes dp) s 0

-- What `dirlink` of a name does: it panics only if the place has no block yet; it finds the name, or
-- adds it and nothing else.
abbrev pub LinkOutcome : Superblock → Dir → Name → ℕ → Linked → Type 0
LinkOutcome sb dp s inum panic = Missing dp.disk dp.addrs (place dp) entry_size
LinkOutcome sb dp s inum (exists inum' dp') =
    Reread sb dp dp' × ((off : ℕ) × (lookup dp s ≡ some (off, inum')))
LinkOutcome sb dp s inum (linked dp') =
    IsDir sb dp'
    × (lookup dp s ≡ none)
    × ((t : Name) → IsName t → SameName t s → lookup dp' t ≡ some (place dp, inum))
    × ((t : Name) → IsName t → (SameName t s → ⊥) → lookup dp' t ≡ lookup dp t)

-- The part behind the look-up.
module _ (sb : Superblock) (dp dp1 dp2 : Dir) (s : Name) (inum : ℕ) (v : IsDir sb dp)
    (r : Reread sb dp dp1) (q : Reread sb dp1 dp2) (named : IsName s) (positive : 0 < inum)
    (short : inum < 2 ^ 16) (room : dp.size + entry_size ≤ max_bytes) where
  same_bytes : (p : ℕ) → p < max_bytes → bytes dp2 p ≡ bytes dp p
  same_bytes p h =
      view-Step sb dp1.disk dp1.addrs dp2.disk dp2.addrs p q.step h
      ∙ view-Step sb dp.disk dp.addrs dp1.disk dp1.addrs p r.step h

  Missing-then :
      (off n : ℕ)
      → off + n ≤ max_bytes
      → Missing dp2.disk dp2.addrs off n
      → Missing dp.disk dp.addrs off n
  Missing-then off n fits (p, low, high, z) =
      let range = data_slot-lt (p / 512) (omega (arith, high, fits)) in
      (
        p,
        low,
        high,
        missing_before sb dp.disk dp.addrs dp1.disk dp1.addrs (data_slot (p / 512)) r.step.keeps
            range
            (missing_before sb dp1.disk dp1.addrs dp2.disk dp2.addrs (data_slot (p / 512))
              q.step.keeps range z),
      )

  in_range : place dp + entry_size ≤ max_bytes
  in_range =
      let (k, below, e, _) = empty-place (entries dp) (bytes dp) 0 in
      omega (arith, e, below, room, v.whole)

  written-LinkOutcome :
      (out : Result)
      → lookup dp s ≡ none
      → WriteOutcome sb dp2.node dp2.disk dp2.addrs dp2.size (place dp) (new_entry s inum) out
      → LinkOutcome sb dp s inum (link_result dp2.node out)
  written-LinkOutcome panics absent m = Missing-then (place dp) entry_size in_range m
  written-LinkOutcome failed absent m = absurd m
  written-LinkOutcome (have_read b a d) absent m = absurd m
  written-LinkOutcome (wrote n a d size) absent (count, end, file, home, there, _) =
      let (k, below, e, free) = empty-place (entries dp) (bytes dp) 0 in
      let whole : (n == entry_size) ≡ true = ground (arith, count) in
      let at : place dp ≡ k * entry_size = omega (arith, e) in
      let size_now : size ≡ max dp.size (place dp + entry_size) =
        omega (arith, end, q.size_same, r.size_same) in
      let parts : size / entry_size ≡ k + suc (entries dp - k - 1) =
        omega (arith, size_now, at, v.whole, below) in
      let written : (p : ℕ)
          → p < suc (entries dp) * entry_size
          → view d a p ≡ put_bytes (bytes dp) (k * entry_size) (new_entry s inum) p =
        λ p h.
          let l : p < max_bytes = omega (arith, h, room, v.whole) in
          there p l
          ∙ put_bytes-at (new_entry s inum) (bytes dp2) (bytes dp) (place dp) p (same_bytes p l)
          ∙ ap (λ x. put_bytes (bytes dp) x (new_entry s inum) p) at in
      let hole : k < entries dp → inum_at (bytes dp) (k * entry_size) ≡ 0 =
        λ l. ap (inum_at (bytes dp)) (sym at) ∙ free l in
      rw whole (
        record {
          file = file;
          whole = omega (arith, size_now, at, v.whole);
          home = home;
          is_dir = (Reread-IsDir sb dp1 dp2 (Reread-IsDir sb dp dp1 v r) q).is_dir;
        },
        absent,
        λ t h same.
            ap (λ x. find x (view d a) t 0) parts
            ∙ find-new (entries dp) k (bytes dp) (view d a) s inum named positive short below hole
                written t h same absent
            ∙ ap (λ x. some (x, inum)) (sym at),
        λ t h other.
            ap (λ x. find x (view d a) t 0) parts
            ∙ find-old (entries dp) k (bytes dp) (view d a) s inum named positive short below hole
                written t h other,
      )

dirlink-steps :
    (sb : Superblock) (dp dp1 dp2 : Dir) (s : Name) (inum off : ℕ)
    → dirlookup sb dp s ≡ some (none, dp1)
    → find_empty (suc (dp1.size / entry_size)) sb dp1 0 ≡ some (off, dp2)
    → dirlink sb dp s inum
      ≡ link_result dp2.node (writei sb dp2.node dp2.disk dp2.addrs dp2.size off (new_entry s inum))
unfolding dirlink
dirlink-steps sb dp dp1 dp2 s inum off e f = rw (e, f, dirlink) refl

dirlink-exists :
    (sb : Superblock) (dp dp1 : Dir) (s : Name) (inum off inum' : ℕ)
    → dirlookup sb dp s ≡ some (some (off, inum'), dp1)
    → dirlink sb dp s inum ≡ exists inum' dp1
unfolding dirlink
dirlink-exists sb dp dp1 s inum off inum' e = rw (e, dirlink) refl

-- On a directory of whole entries without a missing block, with its own block apart from its
-- content and the bitmap, that has room for one more, for a name of bytes other than zero and a
-- 16-bit inode number other than 0, `dirlink` panics only if the place of the new entry has no
-- block yet; it returns -1 only for a name that is found, and drops the reference to the inode
-- that was found; else the name was not found before, and afterwards a look-up of it, or of any
-- name with the same first 14 characters, finds the number, and a look-up of any other name finds
-- what it found before.
pub dirlink_lem :
    (sb : Superblock) (dp : Dir) (s : Name) (inum : ℕ)
    → IsDir sb dp
    → IsName s
    → 0 < inum
    → inum < 2 ^ 16
    → dp.size + entry_size ≤ max_bytes
    → LinkOutcome sb dp s inum (dirlink sb dp s inum)
dirlink_lem sb dp s inum v named positive short room =
    let (dp1, e, r) = dirlookup-find sb dp s v in
    elim (Option-cases (lookup dp s)) [
      | inr ((off, inum'), f) ↦
          let e' : dirlookup sb dp s ≡ some (some (off, inum'), dp1) =
            e ∙ ap (λ x. some (x, dp1)) f in
          subst (LinkOutcome sb dp s inum) (sym (dirlink-exists sb dp dp1 s inum off inum' e'))
            (r, (off, f))
      | inl absent ↦
          let e' : dirlookup sb dp s ≡ some (none, dp1) = e ∙ ap (λ x. some (x, dp1)) absent in
          let v1 = Reread-IsDir sb dp dp1 v r in
          let (dp2, f, q) = find_empty_lem sb dp1 v1 in
          let v2 = Reread-IsDir sb dp1 dp2 v1 q in
          let same : empty (entries dp1) (bytes dp1) 0 ≡ place dp =
            ap (λ n. empty n (bytes dp1) 0) (ap (λ n. n / entry_size) r.size_same)
            ∙ empty-same (entries dp) (bytes dp1) (bytes dp) 0
                (Reread-Agree sb dp dp1 0 (entries dp) v r (omega arith)) in
          let code =
            dirlink-steps sb dp dp1 dp2 s inum (place dp) e' (f ∙ ap (λ x. some (x, dp2)) same) in
          let (k, below, at, _) = empty-place (entries dp) (bytes dp) 0 in
          let wrote_there =
            writei_lem sb dp2.node dp2.disk dp2.addrs dp2.size (place dp) (new_entry s inum) v2.file
              v2.home (omega (arith, at, below, q.size_same, r.size_same, v.whole))
              (omega (arith, at, below, room, v.whole, length-new_entry s inum)) in
          subst (LinkOutcome sb dp s inum) (sym code) (
            written-LinkOutcome sb dp dp1 dp2 s inum v r q named positive short room
              (writei sb dp2.node dp2.disk dp2.addrs dp2.size (place dp) (new_entry s inum)) absent
              wrote_there)
    ]
