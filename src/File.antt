-- ===== src/File.antt =====
-- file.c: the table of open files with their reference counts, and what their close asks of pipes and
-- inodes. A function on the table is what the source does with `ftable.lock`
-- held; `none` is a panic. A reference count is an `int` that stays below its bound as long as
-- fewer than 2 ^ 31 references are held.
pub mod Refs
pub mod Chunks
mod Tests
use assignment1_cs.Base.{
  find_index, modify, ℕ, zero, suc, ◌+◌, ◌-◌, ◌*◌, ◌/◌, Bool, true, false, Option, none, some, List,
  [], ◌∷◌, length, get_elem?, if◌then◌else◌, ◌==◌, ltb,
}

pub data FileType : Type 0 where
  fd_none fd_pipe fd_inode : FileType

-- `struct file`; a pipe and an inode are named by numbers.
pub record File : Type 0 where
  pub type : FileType
  pub ref : ℕ
  pub readable : Bool
  pub writable : Bool
  pub pipe : ℕ
  pub ip : ℕ
  pub off : ℕ

-- What `fileclose` asks of pipe.c, log.c and fs.c.
pub data Closing : Type 0 where
  pipeclose : ℕ → Bool → Closing
  begin_op end_op : Closing
  iput : ℕ → Closing

abbrev pub Ftable : Type 0
Ftable = List File

abbrev pub is_free : File → Bool
is_free f = f.ref == 0

-- The file, or `none` for the null pointer.
pub filealloc : Ftable → Option ℕ × Ftable
filealloc t = elim (find_index is_free t) [
  | none ↦ (none, t)
  | some i ↦ (some i, modify t i (λ f. record f { ref = 1 }))
]

pub filedup : Ftable → ℕ → Option Ftable
filedup t i = elim (get_elem? t i) [
  | none ↦ none
  | some f ↦ if ltb f.ref 1 then none else some (modify t i (λ g. record g { ref = g.ref + 1 }))
]

abbrev pub closing : File → List Closing
closing f = elim f.type [
  | fd_none ↦ []
  | fd_pipe ↦ pipeclose f.pipe f.writable ∷ []
  | fd_inode ↦ begin_op ∷ iput f.ip ∷ end_op ∷ []
]

pub fileclose : Ftable → ℕ → Option (Ftable × List Closing)
fileclose t i = elim (get_elem? t i) [
  | none ↦ none
  | some f ↦
      if ltb f.ref 1
      then none
      else (if ltb 0 (f.ref - 1)
          then some (modify t i (λ g. record g { ref = g.ref - 1 }), [])
          else some (modify t i (λ g. record g { ref = 0; type = fd_none }), closing f))
]
