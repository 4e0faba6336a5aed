-- ===== src/Pipe/Wakeup.antt =====
-- Who sleeps on a pipe, and whether somebody will wake them.
use assignment1_cs.Base.{
  ℕ, ◌+◌, ◌-◌, ◌<◌, ◌≤◌, ◌≡◌, refl, ap, ◌∙◌, ◌⊎◌, List, ◌++◌, take, arith, Bool, true, false, zero,
  suc, min, drop, length-append, length-take, length-drop, length,
}
use assignment1_cs.Pipe.{
  Pipe, pipesize, pipe_init, pipeclose, write_loop, read_loop, read_section, Outcome, returned,
  failed, asleep, Event,
}
use assignment1_cs.Pipe.Window.{IsValid, used, contents, window}
use assignment1_cs.Pipe.Write.{Stored, write_loop-Stored, write_events}
use assignment1_cs.Pipe.Read.{read_loop-Taken}
use assignment1_cs.Pipe.System.{
  World, react_all, after_write, after_read, after_close, Step, write, read, close_write,
  close_read, kill_writer, kill_reader, Reach, here, next, Reach-InOrder,
}

-- A call that is not cut short by `proc->killed` after it has stored something.
abbrev pub Patient : Pipe → Bool → List ℕ → Type 0
Patient p killed src = (killed ≡ false) ⊎ (used p ≡ pipesize) ⊎ (length src ≤ pipesize - used p)

-- A reader sleeps only at an empty pipe that can still be written, a writer only at a full one that
-- can still be read.
pub record NoLostWakeup (w : World) : Type 0 where
  pub readers_wait : 0 < w.sleepers.readers → (used w.pipe ≡ 0) × (w.pipe.writeopen ≡ true)
  pub writers_wait : 0 < w.sleepers.writers → (used w.pipe ≡ pipesize) × (w.pipe.readopen ≡ true)
  pub reader_holds : 0 < w.sleepers.readers → w.pipe.readopen ≡ true
  pub writer_holds : 0 < w.sleepers.writers → w.pipe.writeopen ≡ true

length-window : (ring : List ℕ) (r n : ℕ) → length (window ring r n) ≡ n
length-window ring r zero = refl
length-window ring r (suc n) = ap suc (length-window ring (r + 1) n)

length-contents : (p : Pipe) → length (contents p) ≡ used p
length-contents p = length-window p.ring p.nread (used p)

used_of_stored :
    (p q : Pipe) (src : List ℕ)
    → contents q ≡ contents p ++ take (pipesize - used p) src
    → used q ≡ used p + min (pipesize - used p) (length src)
used_of_stored p q src e = omega (
  arith,
  length-contents p,
  length-contents q,
  ap length e,
  length-append (contents p) (take (pipesize - used p) src),
  length-take (pipesize - used p) src,
)

used_of_taken : (p q : Pipe) (n : ℕ) → contents q ≡ drop n (contents p) → used q ≡ used p - n
used_of_taken p q n e =
    omega (arith, length-contents p, length-contents q, ap length e, length-drop n (contents p))

module _ (w : World) (v : IsValid w.pipe) (h : NoLostWakeup w) where
  write-NoLostWakeup :
      (killed : Bool) (src : List ℕ) (i : ℕ) {q : Pipe} {out : Outcome} {es : List Event}
      (sent got : List ℕ)
      → w.pipe.writeopen ≡ true
      → Patient w.pipe killed src
      → Stored w.pipe killed src i q out es
      → NoLostWakeup
          (record { pipe = q; sleepers = react_all es w.sleepers; sent = sent; got = got })
  write-NoLostWakeup killed src i {q} {out = returned k} sent got open_w calm s = rw s.events (
      ground (
        arith,
        h.readers_wait,
        h.writers_wait,
        h.reader_holds,
        h.writer_holds,
        used_of_stored w.pipe q src s.bytes,
      ))
  write-NoLostWakeup killed src i {q} {out = failed} sent got open_w calm s = rw s.events (
      ground (
        arith,
        h.readers_wait,
        h.writers_wait,
        h.reader_holds,
        h.writer_holds,
        used_of_stored w.pipe q src s.bytes,
      ))
  write-NoLostWakeup killed src i {q} {out = asleep k} sent got open_w calm s = rw s.events (
      ground (
        arith,
        h.readers_wait,
        h.writers_wait,
        h.reader_holds,
        h.writer_holds,
        used_of_stored w.pipe q src s.bytes,
      ))

  read-NoLostWakeup :
      (killed : Bool) (n : ℕ) → w.pipe.readopen ≡ true → NoLostWakeup (after_read w killed n)
  unfolding read_section
  read-NoLostWakeup killed n open_r =
      let t = read_loop-Taken w.pipe n v in
      ground (
        arith,
        h.readers_wait,
        h.writers_wait,
        h.writer_holds,
        t.readopen_same,
        t.writeopen_same,
        used_of_taken w.pipe (read_loop w.pipe n).0 n t.rest,
      )

  close-NoLostWakeup :
      (writable : Bool)
      → (writable ≡ true → w.sleepers.writers ≡ 0)
      → (writable ≡ false → w.sleepers.readers ≡ 0)
      → NoLostWakeup (after_close w writable)
  unfolding pipeclose
  close-NoLostWakeup true nw nr =
      ground (arith, h.readers_wait, h.writers_wait, h.reader_holds, h.writer_holds)
  close-NoLostWakeup false nw nr =
      ground (arith, h.readers_wait, h.writers_wait, h.reader_holds, h.writer_holds)

Step-NoLostWakeup :
    {w w' : World} → Step Patient w w' → IsValid w.pipe → NoLostWakeup w → NoLostWakeup w'
Step-NoLostWakeup {w} (write killed src i open_w calm) v h =
    let s = write_loop-Stored w.pipe killed src i v in
    write-NoLostWakeup w v h killed src i (after_write w killed src i).sent w.got open_w calm s
Step-NoLostWakeup {w} (read killed n open_r) v h = read-NoLostWakeup w v h killed n open_r
Step-NoLostWakeup {w} (close_write idle) v h = close-NoLostWakeup w v h true (λ _. idle) (λ e. cc)
Step-NoLostWakeup {w} (close_read idle) v h = close-NoLostWakeup w v h false (λ e. cc) (λ _. idle)
Step-NoLostWakeup {w} kill_writer v h = ground (arith, h.readers_wait, h.writers_wait)
Step-NoLostWakeup {w} kill_reader v h = ground (arith, h.readers_wait, h.writers_wait)

-- In every state that calls reach which are not cut short by `proc->killed` after storing
-- something, a reader sleeps only at an empty pipe whose write end is open and a writer only at a
-- full pipe whose read end is open; each holds its own end open.
pub Reach-NoLostWakeup :
    {page : List ℕ} {w : World} → length page ≡ pipesize → Reach Patient page w → NoLostWakeup w
unfolding pipe_init
Reach-NoLostWakeup len here = ground arith
Reach-NoLostWakeup len (next r st) =
    Step-NoLostWakeup st (Reach-InOrder len r).valid (Reach-NoLostWakeup len r)

-- A killed writer with more bytes than PIPESIZE at a valid empty pipe leaves the pipe full and
-- wakes no reader: as many readers sleep as before.
pub killed_writer_leaves_readers :
    (w : World) (src : List ℕ)
    → IsValid w.pipe
    → used w.pipe ≡ 0
    → pipesize < length src
    → let w' = after_write w true src 0 in
      (used w'.pipe ≡ pipesize) × (w'.sleepers.readers ≡ w.sleepers.readers)
killed_writer_leaves_readers w src v e long =
    let s = write_loop-Stored w.pipe true src 0 v in
    let cut : (write_loop w.pipe true src 0).1 ≡ failed = ground (arith, s.outcome) in
    (
      omega (arith, used_of_stored w.pipe (write_loop w.pipe true src 0).0 src s.bytes),
      ap (λ es. (react_all es w.sleepers).readers) (s.events ∙ ap write_events cut),
    )
