-- ===== src/Log/Admission.antt =====
-- `begin_op`, `log_write` and `end_op` together: whether the log can run out of room.
use assignment1_cs.Base.{
  ℕ, zero, suc, ◌+◌, ◌*◌, ◌≤◌, ◌<◌, ◌≡◌, refl, sym, ap, ◌∙◌, Bool, true, false, some, List, [], ◌∷◌,
  length, get_elem?, get_elem?-lt, set, update, arith,
}
use assignment1_cs.Log.{
  Log, absorb, log_write, begin_op, end_op_begin, end_op_commit, commit, log_size, max_op_blocks,
}
use assignment1_cs.Log.Device.{Block, Disk}

pub length-absorb : (b : ℕ) (bs : List ℕ) → length (absorb b bs) ≤ length bs + 1
unfolding absorb
length-absorb b [] = omega arith
length-absorb b (x ∷ xs) = ground (arith, length-absorb b xs)

-- The system calls that are running, each with the number of `log_write`s that it may still make.
pub record Running : Type 0 where
  pub log : Log
  pub disk : Disk
  pub budgets : List ℕ

abbrev pub total : List ℕ → ℕ
total [] = 0
total (k ∷ ks) = k + total ks

abbrev pub remove : List ℕ → ℕ → List ℕ
remove [] i = []
remove (k ∷ ks) zero = ks
remove (k ∷ ks) (suc i) = k ∷ remove ks i

-- One step of one system call. Each makes at most `max_op_blocks` calls of `log_write`.
pub data Step (s : Running) : Running → Type 0 where
  begin :
      {l : Log}
      → begin_op s.log ≡ some l
      → Step s (record { log = l; disk = s.disk; budgets = max_op_blocks ∷ s.budgets })
  write :
      {l : Log} {d : Disk} (i k b : ℕ) (x : Block)
      → get_elem? s.budgets i ≡ some (suc k)
      → log_write s.log s.disk b x ≡ some (l, d)
      → Step s (record { log = l; disk = d; budgets = set s.budgets i k })
  end :
      {l : Log} {last : Bool} (i k : ℕ)
      → get_elem? s.budgets i ≡ some k
      → end_op_begin s.log ≡ some (l, last)
      → Step s (record { log = l; disk = s.disk; budgets = remove s.budgets i })
  finish :
      s.log.committing ≡ true
      → Step s (record {
        log = (end_op_commit s.log s.disk).0;
        disk = (end_op_commit s.log s.disk).1;
        budgets = s.budgets;
      })

-- Every system call is within its share.
abbrev pub Capped : List ℕ → Type 0
Capped [] = Unit
Capped (k ∷ ks) = (k ≤ max_op_blocks) × Capped ks

-- The blocks in the log and all that may still come fit the log.
pub record HasRoom (s : Running) : Type 0 where
  pub counted : s.log.outstanding ≡ length s.budgets
  pub room : length s.log.blocks + total s.budgets ≤ log_size
  pub capped : Capped s.budgets
  pub quiet : s.log.committing ≡ true → length s.budgets ≡ 0

total-le : (ks : List ℕ) → Capped ks → total ks ≤ length ks * max_op_blocks
total-le [] c = omega arith
total-le (k ∷ ks) c = omega (arith, total-le ks c.1)

total-set :
    (ks : List ℕ) (i k : ℕ)
    → get_elem? ks i ≡ some (suc k)
    → (total (set ks i k) + 1 ≡ total ks) × (length (set ks i k) ≡ length ks)
total-set [] i k e = cc
total-set (j ∷ ks) zero k e = ground arith
total-set (j ∷ ks) (suc i) k e = omega (arith, total-set ks i k e)

Capped-set :
    (ks : List ℕ) (i k : ℕ) → get_elem? ks i ≡ some (suc k) → Capped ks → Capped (set ks i k)
Capped-set [] i k e c = c
Capped-set (j ∷ ks) zero k e c = (ground arith, c.1)
Capped-set (j ∷ ks) (suc i) k e c = (c.0, Capped-set ks i k e c.1)

total-remove :
    (ks : List ℕ) (i k : ℕ)
    → get_elem? ks i ≡ some k
    → (total (remove ks i) ≤ total ks) × (length (remove ks i) + 1 ≡ length ks)
total-remove [] i k e = cc
total-remove (j ∷ ks) zero k e = omega arith
total-remove (j ∷ ks) (suc i) k e = omega (arith, total-remove ks i k e)

Capped-remove : (ks : List ℕ) (i : ℕ) → Capped ks → Capped (remove ks i)
Capped-remove [] i c = c
Capped-remove (j ∷ ks) zero c = c.1
Capped-remove (j ∷ ks) (suc i) c = (c.0, Capped-remove ks i c.1)

-- `begin_op` admits a call only while a whole share is free for each running one.
begin_op_lem :
    (l : Log) {l' : Log}
    → begin_op l ≡ some l'
    → (l' ≡ record l { outstanding = l.outstanding + 1 })
      × (l.committing ≡ false)
      × (length l.blocks + (l.outstanding + 1) * max_op_blocks ≤ log_size)
unfolding begin_op
begin_op_lem l e = ground arith

log_write_lem :
    (l : Log) (d : Disk) (b : ℕ) (x : Block) {l' : Log} {d' : Disk}
    → log_write l d b x ≡ some (l', d')
    → l' ≡ record l { blocks = absorb b l.blocks }
unfolding log_write
log_write_lem l d b x e = ground arith

end_op_begin_lem :
    (l : Log) {l' : Log} {last : Bool}
    → end_op_begin l ≡ some (l', last)
    → (l'.outstanding + 1 ≡ l.outstanding)
      × (l'.blocks ≡ l.blocks)
      × (l'.committing ≡ true → l.outstanding ≡ 1)
unfolding end_op_begin
end_op_begin_lem l e = ground arith

end_op_commit_lem :
    (l : Log) (d : Disk)
    → (length (end_op_commit l d).0.blocks ≡ 0)
      × ((end_op_commit l d).0.outstanding ≡ l.outstanding)
      × ((end_op_commit l d).0.committing ≡ false)
unfolding end_op_commit commit
end_op_commit_lem l d = ground arith

Step-HasRoom : {s t : Running} → Step s t → HasRoom s → HasRoom t
Step-HasRoom {s} (begin {l} e) h = ground (arith, begin_op_lem s.log e, total-le s.budgets h.capped)
Step-HasRoom {s} (write {l} {d} i k b x q e) h =
    let w = log_write_lem s.log s.disk b x e in
    let t = total-set s.budgets i k q in
    record {
      counted = ap (λ m. m.outstanding) w ∙ omega (arith, h.counted, t);
      room = omega (arith, ap (λ m. length m.blocks) w, length-absorb b s.log.blocks, t, h.room);
      capped = Capped-set s.budgets i k q h.capped;
      quiet = λ c. t.1 ∙ h.quiet (sym (ap (λ m. m.committing) w) ∙ c);
    }
Step-HasRoom {s} (end {l} {last} i k q e) h =
    let w = end_op_begin_lem s.log e in
    let t = total-remove s.budgets i k q in
    record {
      counted = omega (arith, w, t, h.counted);
      room = omega (arith, ap length w.1, t, h.room);
      capped = Capped-remove s.budgets i h.capped;
      quiet = λ c. omega (arith, w.2 c, h.counted, t);
    }
Step-HasRoom {s} (finish c) h =
    let f = end_op_commit_lem s.log s.disk in
    record {
      counted = f.1 ∙ h.counted;
      room = omega (arith, f, h.room);
      capped = h.capped;
      quiet = λ _. h.quiet c;
    }

pub data Reach (l : Log) (d : Disk) : Running → Type 0 where
  start : Reach l d (record { log = l; disk = d; budgets = [] })
  later : {s t : Running} → Reach l d s → Step s t → Reach l d t

-- After `initlog`: nothing logged, nobody running.
pub record IsFresh (l : Log) : Type 0 where
  pub outstanding : l.outstanding ≡ 0
  pub committing : l.committing ≡ false
  pub blocks : l.blocks ≡ []

pub Reach-HasRoom : {l : Log} {d : Disk} {s : Running} → IsFresh l → Reach l d s → HasRoom s
Reach-HasRoom f start = record {
  counted = f.outstanding;
  room = omega (arith, ap length f.blocks);
  capped = tt;
  quiet = λ _. refl;
}
Reach-HasRoom f (later r st) = Step-HasRoom st (Reach-HasRoom f r)

size-end_op_begin :
    (l : Log) {l' : Log} {last : Bool} → end_op_begin l ≡ some (l', last) → l'.size ≡ l.size
unfolding end_op_begin
size-end_op_begin l e = ground arith

size-end_op_commit : (l : Log) (d : Disk) → (end_op_commit l d).0.size ≡ l.size
unfolding end_op_commit commit
size-end_op_commit l d = ground arith

size-Step : {s t : Running} → Step s t → t.log.size ≡ s.log.size
size-Step {s} (begin e) = ap (λ m. m.size) (begin_op_lem s.log e).0
size-Step {s} (write i k b x q e) = ap (λ m. m.size) (log_write_lem s.log s.disk b x e)
size-Step {s} (end i k q e) = size-end_op_begin s.log e
size-Step {s} (finish c) = size-end_op_commit s.log s.disk

size-Reach : {l : Log} {d : Disk} {s : Running} → Reach l d s → s.log.size ≡ l.size
size-Reach start = refl
size-Reach (later r st) = size-Step st ∙ size-Reach r

log_write_succeeds :
    (l : Log) (d : Disk) (b : ℕ) (x : Block)
    → length l.blocks < log_size
    → length l.blocks + 1 < l.size
    → 0 < l.outstanding
    → (s' : Log × Disk) × (log_write l d b x ≡ some s')
unfolding log_write
log_write_succeeds l d b x few small active = (
  (record l { blocks = absorb b l.blocks }, record d { dirty = update d.dirty b (some x) }),
  ground arith,
)

-- With a log area of more than LOGSIZE blocks, no `log_write` of a system call that keeps to
-- MAXOPBLOCKS calls of it panics in any state that interleaved system calls reach.
pub log_write_fits :
    {l : Log} {d : Disk} {s : Running} (i k b : ℕ) (x : Block)
    → IsFresh l
    → log_size < l.size
    → Reach l d s
    → get_elem? s.budgets i ≡ some (suc k)
    → (s' : Log × Disk) × (log_write s.log s.disk b x ≡ some s')
log_write_fits {s = s} i k b x f big r e =
    let h = Reach-HasRoom f r in
    let t = total-set s.budgets i k e in
    log_write_succeeds s.log s.disk b x (omega (arith, h.room, t))
      (omega (arith, h.room, t, size-Reach r))
      (omega (arith, h.counted, get_elem?-lt s.budgets i e))
