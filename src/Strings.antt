-- ===== src/Strings.antt =====
-- string.c: the kernel's operations on bytes in memory. Memory is a function from addresses to
-- bytes; an `int` result is given by the 32-bit word with the same bits.
pub mod Memmove
pub mod Memset
pub mod Compare
pub mod Copy
pub mod Pad
mod Tests
use assignment1_cs.Base.{
  ℕ, zero, suc, ◌+◌, ◌-◌, ◌*◌, ◌/◌, ◌%◌, ◌^◌, Bool, true, false, not, ◌&&◌, ◌||◌, if◌then◌else◌,
  ◌==◌, leb, ltb, update,
}

abbrev pub Memory : Type 0
Memory = ℕ → ℕ

-- `stosb` of x86.h: `cnt` bytes from `addr` on.
pub stosb : ℕ → ℕ → ℕ → Memory → Memory
stosb zero addr c m = m
stosb (suc cnt) addr c m = stosb cnt (addr + 1) c (update m addr (c % 2 ^ 8))

-- The word is stored with its low byte first.
abbrev pub store_word : Memory → ℕ → ℕ → Memory
store_word m a w =
    update
      (update (update (update m a (w % 256)) (a + 1) (w / 256 % 256)) (a + 2) (w / 65536 % 256))
      (a + 3) (w / 16777216 % 256)

-- `stosl` of x86.h: `cnt` words from `addr` on.
pub stosl : ℕ → ℕ → ℕ → Memory → Memory
stosl zero addr w m = m
stosl (suc cnt) addr w m = stosl cnt (addr + 4) w (store_word m addr w)

-- The four bytes of `(c<<24)|(c<<16)|(c<<8)|c` are disjoint: the word is their sum.
pub memset : ℕ → ℕ → ℕ → Memory → Memory
memset dst c n m =
    if (dst % 4 == 0) && (n % 4 == 0)
    then (let b = c % 2 ^ 8 in stosl (n / 4) dst (b * 2 ^ 24 + b * 2 ^ 16 + b * 2 ^ 8 + b) m)
    else stosb n dst c m

-- The difference of two bytes as an `int`.
abbrev pub difference : ℕ → ℕ → ℕ
difference a b = (a + 2 ^ 32 - b) % 2 ^ 32

pub memcmp : ℕ → ℕ → ℕ → Memory → ℕ
memcmp v1 v2 zero m = 0
memcmp v1 v2 (suc n) m =
    if not (m v1 == m v2) then difference (m v1) (m v2) else memcmp (v1 + 1) (v2 + 1) n m

-- `while(n-- > 0) *--d = *--s`, from the ends of the two ranges.
pub move_down : ℕ → ℕ → ℕ → Memory → Memory
move_down d s zero m = m
move_down d s (suc n) m = move_down (d - 1) (s - 1) n (update m (d - 1) (m (s - 1)))

-- `while(n-- > 0) *d++ = *s++`
pub move_up : ℕ → ℕ → ℕ → Memory → Memory
move_up d s zero m = m
move_up d s (suc n) m = move_up (d + 1) (s + 1) n (update m d (m s))

pub memmove : ℕ → ℕ → ℕ → Memory → Memory
memmove dst src n m =
    if ltb src dst && ltb dst (src + n)
    then move_down (dst + n) (src + n) n m
    else move_up dst src n m

-- The loop of `strncmp` and what follows it.
unfoldable pub strncmp : ℕ → ℕ → ℕ → Memory → ℕ
strncmp p q zero m = 0
strncmp p q (suc n) m =
    if not (m p == 0) && (m p == m q) then strncmp (p + 1) (q + 1) n m else difference (m p) (m q)

-- The second loop of `strncpy`.
pub pad : ℕ → ℕ → Memory → Memory
pad s zero m = m
pad s (suc n) m = pad (s + 1) n (update m s 0)

-- The first loop of `strncpy`, and then the second.
pub strncpy : ℕ → ℕ → ℕ → Memory → Memory
strncpy s t zero m = m
strncpy s t (suc n) m =
    let rest = strncpy (s + 1) (t + 1) n (update m s (m t)) in
    if m t == 0 then pad (s + 1) n (update m s (m t)) else rest

-- The loop of `safestrcpy` with `n` for the count that is left, and the final zero.
pub safe_loop : ℕ → ℕ → ℕ → Memory → Memory
safe_loop s t zero m = update m s 0
safe_loop s t (suc n) m =
    let rest = safe_loop (s + 1) (t + 1) n (update m s (m t)) in
    if m t == 0 then update (update m s (m t)) (s + 1) 0 else rest

-- `n` is the size of the destination; a negative one is 0 here.
pub safestrcpy : ℕ → ℕ → ℕ → Memory → Memory
safestrcpy s t zero m = m
safestrcpy s t (suc n) m = safe_loop s t n m

-- The loop of `strlen`, for at most `fuel` rounds, with the count.
pub strlen_loop : ℕ → ℕ → ℕ → Memory → ℕ
strlen_loop zero s n m = n
strlen_loop (suc fuel) s n m =
    let rest = strlen_loop fuel s (n + 1) m in if m (s + n) == 0 then n else rest
