-- ===== src/Strings/Tests.antt =====
-- Runs on a memory that holds "cat", zero, "car" and zero from address 16 on.
use assignment1_cs.Base.{
  ℕ, zero, suc, ◌<◌, ◌≡◌, List, [], ◌∷◌, refl, get_or, ◌-◌, arith, leb, if◌then◌else◌,
}
use assignment1_cs.Strings.{
  Memory, memset, memmove, strncmp, strncpy, stosl, move_down, pad, strlen_loop,
}
use assignment1_cs.Strings.Memmove.{Copied, memmove-Copied}
use assignment1_cs.Strings.Compare.{IsBytes}

abbrev words : Memory
words = λ a. if leb 16 a then get_or (99 ∷ 97 ∷ 116 ∷ 0 ∷ 99 ∷ 97 ∷ 114 ∷ 0 ∷ []) (a - 16) 0 else 0

abbrev SmallBytes : List ℕ → Type 0
SmallBytes [] = Unit
SmallBytes (b ∷ bs) = (b < 256) × SmallBytes bs

get_or-SmallBytes : (bs : List ℕ) (i : ℕ) → SmallBytes bs → get_or bs i 0 < 256
get_or-SmallBytes [] i small = omega arith
get_or-SmallBytes (b ∷ bs) zero small = small.0
get_or-SmallBytes (b ∷ bs) (suc i) small = get_or-SmallBytes bs i small.1

words-IsBytes : IsBytes words
words-IsBytes a =
    let below =
      get_or-SmallBytes (99 ∷ 97 ∷ 116 ∷ 0 ∷ 99 ∷ 97 ∷ 114 ∷ 0 ∷ []) (a - 16) (omega arith) in
    ground arith

overlap : memmove 17 16 3 words 19 ≡ 116
unfolding memmove move_down
overlap = refl

fill_words : memset 16 257 4 words 18 ≡ 1
unfolding memset stosl
fill_words = refl

compare_words : strncmp 16 20 3 words ≡ 2
unfolding strncmp
compare_words = refl

copy_words : strncpy 40 16 6 words 45 ≡ 0
unfolding strncpy pad
copy_words = refl

length_words : strlen_loop 8 16 0 words ≡ 3
unfolding strlen_loop
length_words = refl

memmove-Copied_example : Copied words (memmove 17 16 3 words) 17 16 3
memmove-Copied_example = memmove-Copied 17 16 3 words
