-- ===== src/Lib.antt =====
-- A model of the xv6 teaching kernel of this repository, and of the user programs that come with
-- it. Each file of C code that is modelled has a module here, which says how its state and its
-- functions correspond to the code; the modules below it hold the proofs and the tests.
--
-- Log models log.c: the write-ahead log over an abstract disk (Log.Device) whose power can fail
-- after any number of block writes. Pipe models pipe.c: the ring buffer, the sections of code that
-- hold its lock, and any interleaving of them. Proc models the process table of proc.c: one
-- function for each section that holds `ptable.lock`, and any interleaving of them on any number of
-- processors. Kalloc models kalloc.c: the free list through the memory of the pages. Grep models
-- the matcher of grep.c and the language of its patterns. Syscall models syscall.c: the checks of
-- the arguments and the table of the functions (Syscall.Dispatch). File models file.c: the
-- reference counts of open files and the chunks in which `filewrite` passes bytes to `writei` of
-- Fs.Content (File.Chunks), with the constants of log.c. Console models console.c: the line buffer behind the keyboard and
-- the reads from it, and the screen (Console.Screen). Spinlock models spinlock.c: one lock under
-- any interleaving of processors, and the nesting of `pushcli`. Strings models string.c on a memory
-- of bytes. Printf models the printers of printf.c and console.c, and `atoi` of ulib.c. Fs models
-- fs.c: the bitmap of blocks (Fs.Bitmap), the contents of inodes (Fs.Content), the entries of
-- directories (Fs.Dir), the cache of inodes (Fs.Icache) and path names (Fs.Path); its disk is what
-- the buffer cache shows, and its changes reach the disk through Log. Base holds what the models
-- share: lists, tables of slots, reference counts.
--
-- A section of code that holds a lock is one step, and what it asks of other files is an argument
-- (the result of `kalloc`, of `copyuvm`) or is returned as a list of effects. The processes of Proc
-- sleep and exit through the same table; the effects of its `exit` on open files are calls of
-- file.c, whose last close of a pipe is `pipeclose`, and calls of log.c around `iput`.
--
-- Machine words are natural numbers with their wrap-around written out where the code relies on it.
-- Recursion is structural throughout: a loop is a recursion on what it still has to process. The
-- exceptions run on fuel, which is proved to be enough: the loops of `freerange` (one round more
-- than there are whole pages), `filewrite`, `readi` and `writei` (one more than there are bytes),
-- `balloc` (one round for each block, one for each bit of a block), `namex` (one more than there
-- are characters), the parser of Sh (one more than there are characters) and `printint` (32 rounds for a 32-bit word).
--
-- Not modelled: device drivers and boot code (registers and assembly), page tables, the
-- allocation of inodes on the disk, what the shell does with a parsed command, xvsh.c and the test programs.
pub mod Base
pub mod Console
pub mod File
pub mod Fs
pub mod Grep
pub mod Kalloc
pub mod Log
pub mod Pipe
pub mod Printf
pub mod Proc
pub mod Spinlock
pub mod Sh
pub mod Strings
pub mod Syscall
