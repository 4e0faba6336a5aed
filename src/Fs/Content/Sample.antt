-- ===== src/Fs/Content/Sample.antt =====
-- A small disk with one file, for tests: block 1 is the bitmap, block 3 the file's only block.
use assignment1_cs.Base.{
  ℕ, zero, suc, ◌/◌, ◌<◌, ◌≤◌, ◌≡◌, ◌≢◌, inl, inr, refl, ap, sym, ◌∙◌, subst, true, Bool-cases,
  List, ◌∷◌, replicate, get_or, leb, if◌then◌else◌, ◌==◌, arith,
}
use assignment1_cs.Strings.{Memory}
use assignment1_cs.Fs.Bitmap.{Disk, Superblock, bblock, bit}
use assignment1_cs.Fs.Bitmap.Marks.{is_used}
use assignment1_cs.Fs.Bitmap.Alloc.{BitmapUsed}
use assignment1_cs.Fs.Content.Tree.{slot, slot_direct, slot_none, data_slot, IsTree}
use assignment1_cs.Fs.Content.{Node}
use assignment1_cs.Fs.Content.Home.{IsHome}
use assignment1_cs.Fs.Content.Inode.{IsFile}

abbrev pub small : Superblock
small = record { size = 8; bmapstart = 1; inodestart = 2 }

-- A directory that is inode 1, in block 2.
abbrev pub node : Node
node = record { inum = 1; type = 1; major = 0; minor = 0; nlink = 1 }

-- Blocks 0 to 3 are in use; block 3 holds `m`.
abbrev pub disk_with : Memory → Disk
disk_with m b i = if b == 1 then (if i == 0 then 15 else 0) else if b == 3 then m i else 7

abbrev pub zeros : ℕ → List ℕ
zeros n = replicate n 0

abbrev pub addrs : List ℕ
addrs = 3 ∷ zeros 12

get_or-zeros : (n i : ℕ) → get_or (zeros n) i 0 ≡ 0
get_or-zeros zero i = refl
get_or-zeros (suc n) zero = refl
get_or-zeros (suc n) (suc i) = get_or-zeros n i

module _ (m : Memory) where
  -- Only the first pointer is not 0.
  only_first : (k : ℕ) → slot (disk_with m) addrs k ≢ 0 → k ≡ 0
  only_first zero n = refl
  only_first (suc k) n = absurd (
      n (elim (Bool-cases (leb (suc k) 12)) [
        | inl near ↦ slot_direct (disk_with m) addrs (suc k) (ground arith) ∙ get_or-zeros 12 k
        | inr far ↦ slot_none (disk_with m) addrs (suc k) (ground arith) refl
      ]))

  bitmap_used : BitmapUsed small (disk_with m)
  unfolding bit
  bitmap_used c h =
      let e : bblock small c ≡ 1 = omega (arith, h) in
      subst (λ k. is_used small (disk_with m) k ≡ true) (sym e) refl

  at_first : (k : ℕ) → slot (disk_with m) addrs k ≢ 0 → slot (disk_with m) addrs k ≡ 3
  at_first k n = ap (slot (disk_with m) addrs) (only_first k n)

  three_used : is_used small (disk_with m) 3 ≡ true
  unfolding bit
  three_used = refl

  boot_used : is_used small (disk_with m) 0 ≡ true
  unfolding bit
  boot_used = refl

  pub addrs-IsTree : IsTree small (disk_with m) addrs
  addrs-IsTree = record {
    addresses = refl;
    bitmap = bitmap_used;
    map_below = λ c h. omega (arith, h);
    words = omega arith;
    boot = boot_used;
    below = λ k h n. subst (λ x. x < 8) (sym (at_first k n)) (omega arith);
    used =
        λ k h n. subst (λ x. is_used small (disk_with m) x ≡ true) (sym (at_first k n)) three_used;
    no_map = λ k h n c l q. omega (arith, sym (at_first k n) ∙ q, l);
    distinct = λ j k lj lk ne n q. ne (only_first j n ∙ sym (only_first k (λ z. n (q ∙ z))));
  }

  pub two-IsHome : IsHome small (disk_with m) addrs 2
  unfolding bit
  two-IsHome = record {
    below = omega arith;
    used = refl;
    apart = λ k l q.
        let n : slot (disk_with m) addrs k ≢ 0 = λ z. omega (arith, q ∙ z) in
        omega (arith, q ∙ at_first k n);
    no_map = λ c l q. omega (arith, q, l);
  }

  pub short-IsFile : (n : ℕ) → n ≤ 512 → IsFile small (disk_with m) addrs n
  short-IsFile n h = record {
    tree = addrs-IsTree;
    fits = omega (arith, h);
    whole = λ p l z.
        let e : p / 512 ≡ 0 = omega (arith, l, h) in
        let three : slot (disk_with m) addrs (data_slot 0) ≡ 0 =
          subst (λ x. slot (disk_with m) addrs (data_slot x) ≡ 0) e z in
        omega (arith, three);
  }
