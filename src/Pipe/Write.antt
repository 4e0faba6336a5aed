-- ===== src/Pipe/Write.antt =====
-- `pipewrite`: how many bytes a section stores, which, and how it ends.
use assignment1_cs.Base.{
  ℕ, suc, ◌+◌, ◌-◌, ◌%◌, ◌<◌, ◌≡◌, refl, ap, ◌∙◌, inl, inr, List, [], ◌∷◌, ◌++◌, length, length-set,
  take, take-nil, arith, Bool, Bool-cases, true, false, not, ◌||◌, append-nil, append_assoc,
  if◌then◌else◌, leb,
}
use assignment1_cs.Pipe.{
  Pipe, pipesize, full, put, Outcome, returned, failed, asleep, write_loop, Event, release, wakeup,
  sleep, nread_chan, nwrite_chan,
}
use assignment1_cs.Pipe.Window.{IsValid, used, contents, window, window-set}

lt_of_not_full : (p : Pipe) → IsValid p → full p ≡ false → used p < pipesize
lt_of_not_full p v h = ground arith

used_of_full : (p : Pipe) → IsValid p → full p ≡ true → used p ≡ pipesize
used_of_full p v h = ground arith

used-put : (p : Pipe) (c : ℕ) → IsValid p → used p < pipesize → used (put p c) ≡ suc (used p)
used-put p c v h = omega arith

pub put-IsValid : (p : Pipe) (c : ℕ) → IsValid p → used p < pipesize → IsValid (put p c)
put-IsValid p c v h = omega (arith, length-set p.ring (p.nwrite % pipesize) c, used-put p c v h)

pub contents-put :
    (p : Pipe) (c : ℕ) → IsValid p → used p < pipesize → contents (put p c) ≡ contents p ++ c ∷ []
contents-put p c v h =
    ap (window (put p c).ring p.nread) (used-put p c v h)
    ∙ window-set p.ring (p.nwrite % pipesize) c p.nread (used p) v.sized (omega arith) h

free-put :
    (p : Pipe) (c : ℕ)
    → IsValid p
    → used p < pipesize
    → pipesize - used p ≡ suc (pipesize - used (put p c))
free-put p c v h = omega (arith, used-put p c v h)

-- What a section that finds `space` free bytes comes to.
abbrev pub write_outcome : ℕ → Bool → List ℕ → ℕ → Outcome
write_outcome space broken src i =
    if leb (length src) space
    then returned (i + length src)
    else (if broken then failed else asleep (i + space))

abbrev pub write_events : Outcome → List Event
write_events (returned _) = wakeup nread_chan ∷ release ∷ []
write_events failed = release ∷ []
write_events (asleep _) = wakeup nread_chan ∷ sleep nwrite_chan ∷ []

-- The pipe after a section, by its parts.
pub record Stored (p : Pipe) (killed : Bool) (src : List ℕ) (i : ℕ) (q : Pipe) (out : Outcome)
    (es : List Event) : Type 0 where
  pub valid : IsValid q
  pub bytes : contents q ≡ contents p ++ take (pipesize - used p) src
  pub outcome : out ≡ write_outcome (pipesize - used p) (not p.readopen || killed) src i
  pub events : es ≡ write_events out
  pub readopen_same : q.readopen ≡ p.readopen
  pub writeopen_same : q.writeopen ≡ p.writeopen

full_section :
    (p : Pipe) (killed : Bool) (c : ℕ) (cs : List ℕ) (i : ℕ)
    → IsValid p
    → full p ≡ true
    → let (q, out, es) = write_loop p killed (c ∷ cs) i in Stored p killed (c ∷ cs) i q out es
unfolding write_loop
full_section p killed c cs i v h =
    let none_free : pipesize - used p ≡ 0 = omega (arith, used_of_full p v h) in
    elim (Bool-cases (not p.readopen || killed)) [
      | inl broken ↦
          rw (h, broken)
            (record {
              valid = v;
              bytes = rw (none_free, append-nil);
              outcome = rw (none_free, broken) (ground arith);
              events = refl;
              readopen_same = refl;
              writeopen_same = refl;
            })
      | inr intact ↦
          rw (h, intact)
            (record {
              valid = v;
              bytes = rw (none_free, append-nil);
              outcome = rw (none_free, intact) (ground arith);
              events = refl;
              readopen_same = refl;
              writeopen_same = refl;
            })
    ]

-- The rest of the loop after one byte more.
next_byte :
    (p : Pipe) (killed : Bool) (c : ℕ) (cs : List ℕ) (i : ℕ) {q : Pipe} {out : Outcome}
    {es : List Event}
    → IsValid p
    → used p < pipesize
    → Stored (put p c) killed cs (i + 1) q out es
    → Stored p killed (c ∷ cs) i q out es
next_byte p killed c cs i v h s = record {
  valid = s.valid;
  bytes = s.bytes ∙ rw (contents-put p c v h, append_assoc, free-put p c v h);
  outcome = s.outcome ∙ ground (arith, used-put p c v h);
  events = s.events;
  readopen_same = s.readopen_same;
  writeopen_same = s.writeopen_same;
}

-- A section of `pipewrite` on a valid pipe appends as many of its bytes as fit, leaves the pipe
-- valid with its ends as they were, and ends by the return value, by -1 or asleep as the room, the
-- read end and `killed` decide, with the lock and wakeup events of that ending.
pub write_loop-Stored :
    (p : Pipe) (killed : Bool) (src : List ℕ) (i : ℕ)
    → IsValid p
    → let (q, out, es) = write_loop p killed src i in Stored p killed src i q out es
unfolding write_loop
write_loop-Stored p killed [] i v = record {
  valid = v;
  bytes = rw (take-nil ℕ (pipesize - used p), append-nil);
  outcome = ground arith;
  events = refl;
  readopen_same = refl;
  writeopen_same = refl;
}
write_loop-Stored p killed (c ∷ cs) i v = elim (Bool-cases (full p)) [
  | inl h ↦ full_section p killed c cs i v h
  | inr h ↦
      let space : used p < pipesize = lt_of_not_full p v h in
      rw h (
        next_byte p killed c cs i v space
          (write_loop-Stored (put p c) killed cs (i + 1) (put-IsValid p c v space)))
]
