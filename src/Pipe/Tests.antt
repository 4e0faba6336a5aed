-- ===== src/Pipe/Tests.antt =====
-- Tests of the model of pipe.c.
use assignment1_cs.Base.{ℕ, ◌≡◌, refl, inl, Bool, true, false, List, [], ◌∷◌, replicate, arith}
use assignment1_cs.Pipe.{
  Pipe, asleep, acquire, release, wakeup, kfree, nwrite_chan, pipe_init, pipewrite, piperead,
  pipeclose, write_loop, read_section, read_loop,
}
use assignment1_cs.Pipe.Window.{IsValid, used}
use assignment1_cs.Pipe.Write.{write_loop-Stored}
use assignment1_cs.Pipe.System.{
  World, start, after_write, after_read, write, read, Reach, here, next, InOrder, Reach-InOrder,
}
use assignment1_cs.Pipe.Wakeup.{NoLostWakeup, Reach-NoLostWakeup, killed_writer_leaves_readers}

abbrev page : List ℕ
page = replicate 512 0

-- Two bytes, stored across the wrap of both the counters and the buffer.
abbrev wrapped : Pipe
wrapped = record {
  ring = replicate 512 9;
  nread = 0xffff_ffff;
  nwrite = 1;
  readopen = true;
  writeopen = true;
}

wrapped-IsValid : IsValid wrapped
wrapped-IsValid = omega arith

abbrev three : List ℕ
three = 1 ∷ 2 ∷ 3 ∷ []

read_after_write : (piperead (pipewrite wrapped false three).0 false 4).2 ≡ 9 ∷ 9 ∷ 1 ∷ 2 ∷ []
unfolding pipewrite write_loop piperead read_section read_loop
read_after_write = refl

full_pipe_sleeps : (pipewrite (pipe_init page) false (replicate 513 5)).1 ≡ asleep 512
unfolding pipewrite write_loop pipe_init
full_pipe_sleeps = refl

last_close :
    (pipeclose (pipeclose wrapped true).0 false).1
    ≡ acquire ∷ wakeup nwrite_chan ∷ release ∷ kfree ∷ []
unfolding pipeclose
last_close = refl

abbrev wrote : World
wrote = after_write (start page) false three 0

open_after_write : (after_read wrote false 2).pipe.readopen ≡ true
unfolding write_loop read_section read_loop pipe_init
open_after_write = refl

abbrev Any : Pipe → Bool → List ℕ → Type 0
Any p killed src = Unit {0}

run :
    {ok : Pipe → Bool → List ℕ → Type 0}
    → ok (pipe_init page) false three
    → Reach ok page (after_read wrote false 2)
unfolding pipe_init
run h = next (next here (write false three 0 refl h)) (read false 2 reading)
  where
    reading : wrote.pipe.readopen ≡ true
    reading = (write_loop-Stored (pipe_init page) false three 0 (omega arith)).readopen_same

Reach-InOrder_example : InOrder (after_read wrote false 2)
Reach-InOrder_example = Reach-InOrder {ok = Any} refl (run tt)

Reach-NoLostWakeup_example : NoLostWakeup (after_read wrote false 2)
Reach-NoLostWakeup_example = Reach-NoLostWakeup refl (run (inl refl))

killed_writer_leaves_readers_example :
    let w = record (start page) { sleepers = record { readers = 1; writers = 0 } } in
    let w' = after_write w true (replicate 513 7) 0 in
    (used w'.pipe ≡ 512) × (w'.sleepers.readers ≡ 1)
unfolding pipe_init
killed_writer_leaves_readers_example =
    killed_writer_leaves_readers
      (record (start page) { sleepers = record { readers = 1; writers = 0 } }) (replicate 513 7)
      (omega arith) refl (omega arith)
