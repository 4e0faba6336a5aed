-- ===== src/Pipe/System.antt =====
-- Any number of readers and writers on one pipe, a locked section at a time, in any order.
use assignment1_cs.Base.{
  ℕ, ◌+◌, ◌-◌, ◌≡◌, List, [], ◌∷◌, ◌++◌, take, take-append-drop, append_assoc, arith, Bool, true,
  false, length,
}
use assignment1_cs.Pipe.{
  Pipe, pipesize, pipe_init, pipeclose, write_loop, read_section, Event, acquire, release, wakeup,
  sleep, kfree, nread_chan, nwrite_chan,
}
use assignment1_cs.Pipe.Window.{IsValid, used, contents, pipe_init-IsValid}
use assignment1_cs.Pipe.Write.{write_loop-Stored}
use assignment1_cs.Pipe.Read.{read_section_lem}

-- The threads asleep on each channel of the pipe.
pub record Sleepers : Type 0 where
  pub readers : ℕ
  pub writers : ℕ

abbrev pub react : Event → Sleepers → Sleepers
react (wakeup nread_chan) z = record z { readers = 0 }
react (wakeup nwrite_chan) z = record z { writers = 0 }
react (sleep nread_chan) z = record z { readers = z.readers + 1 }
react (sleep nwrite_chan) z = record z { writers = z.writers + 1 }
react acquire z = z
react release z = z
react kfree z = z

abbrev pub react_all : List Event → Sleepers → Sleepers
react_all [] z = z
react_all (e ∷ es) z = react_all es (react e z)

-- The pipe with its sleepers; `sent` and `got` record the bytes that sections stored and took out.
pub record World : Type 0 where
  pub pipe : Pipe
  pub sleepers : Sleepers
  pub sent : List ℕ
  pub got : List ℕ

abbrev pub start : List ℕ → World
start page = record {
  pipe = pipe_init page;
  sleepers = record { readers = 0; writers = 0 };
  sent = [];
  got = [];
}

abbrev pub after_write : World → Bool → List ℕ → ℕ → World
after_write w killed src i =
    let (q, out, es) = write_loop w.pipe killed src i in
    record {
      pipe = q;
      sleepers = react_all es w.sleepers;
      sent = w.sent ++ take (pipesize - used w.pipe) src;
      got = w.got;
    }

abbrev pub after_read : World → Bool → ℕ → World
after_read w killed n =
    let (q, out, cs, es) = read_section w.pipe killed n in
    record { pipe = q; sleepers = react_all es w.sleepers; sent = w.sent; got = w.got ++ cs }

abbrev pub after_close : World → Bool → World
after_close w writable =
    let (q, es) = pipeclose w.pipe writable in
    record w { pipe = q; sleepers = react_all es w.sleepers }

-- A thread in `pipewrite` or `piperead` holds its end open, also asleep: `fileclose` calls
-- `pipeclose` only with the last reference. `kill` makes one sleeper runnable. `ok` restricts the
-- calls of `write_loop`.
pub data Step (ok : Pipe → Bool → List ℕ → Type 0) (w : World) : World → Type 0 where
  write :
      (killed : Bool) (src : List ℕ) (i : ℕ)
      → w.pipe.writeopen ≡ true
      → ok w.pipe killed src
      → Step ok w (after_write w killed src i)
  read : (killed : Bool) (n : ℕ) → w.pipe.readopen ≡ true → Step ok w (after_read w killed n)
  close_write : w.sleepers.writers ≡ 0 → Step ok w (after_close w true)
  close_read : w.sleepers.readers ≡ 0 → Step ok w (after_close w false)
  kill_writer : Step ok w (record w {
    sleepers = record { readers = w.sleepers.readers; writers = w.sleepers.writers - 1 };
  })
  kill_reader : Step ok w (record w {
    sleepers = record { readers = w.sleepers.readers - 1; writers = w.sleepers.writers };
  })

pub data Reach (ok : Pipe → Bool → List ℕ → Type 0) (page : List ℕ) : World → Type 0 where
  here : Reach ok page (start page)
  next : {w w' : World} → Reach ok page w → Step ok w w' → Reach ok page w'

pub record InOrder (w : World) : Type 0 where
  pub valid : IsValid w.pipe
  pub fifo : w.got ++ contents w.pipe ≡ w.sent

pipeclose-keeps :
    (p : Pipe) (writable : Bool)
    → IsValid p
    → IsValid (pipeclose p writable).0 × (contents (pipeclose p writable).0 ≡ contents p)
unfolding pipeclose
pipeclose-keeps p true v = ground arith
pipeclose-keeps p false v = ground arith

close-InOrder : (w : World) (writable : Bool) → InOrder w → InOrder (after_close w writable)
close-InOrder w writable h =
    let k = pipeclose-keeps w.pipe writable h.valid in record { valid = k.0; fifo = rw k.1 h.fifo }

module _ {ok : Pipe → Bool → List ℕ → Type 0} where
  Step-InOrder : {w w' : World} → Step ok w w' → InOrder w → InOrder w'
  Step-InOrder {w} (write killed src i _ _) h =
      let s = write_loop-Stored w.pipe killed src i h.valid in
      record { valid = s.valid; fifo = rw (s.bytes, ← h.fifo, append_assoc) }
  Step-InOrder {w} (read killed n _) h =
      let s = (read_section_lem w.pipe killed n h.valid).taken in
      record { valid = s.valid; fifo = rw (s.rest, s.bytes, append_assoc, take-append-drop) h.fifo }
  Step-InOrder {w} (close_write _) h = close-InOrder w true h
  Step-InOrder {w} (close_read _) h = close-InOrder w false h
  Step-InOrder kill_writer h = record { valid = h.valid; fifo = h.fifo }
  Step-InOrder kill_reader h = record { valid = h.valid; fifo = h.fifo }

-- Whatever the readers and writers of a pipe do, the bytes read so far followed by the bytes in
-- the pipe are the bytes stored so far, in order, and the counters stay consistent across their
-- wrap.
pub Reach-InOrder :
    {ok : Pipe → Bool → List ℕ → Type 0} {page : List ℕ} {w : World}
    → length page ≡ pipesize
    → Reach ok page w
    → InOrder w
Reach-InOrder {page = page} len here = record {
  valid = (pipe_init-IsValid page len).0;
  fifo = (pipe_init-IsValid page len).1;
}
Reach-InOrder len (next r st) = Step-InOrder st (Reach-InOrder len r)
