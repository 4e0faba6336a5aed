-- ===== src/Fs.antt =====
-- fs.c: the file system below the system calls, by its layers: the block bitmap (Bitmap), the
-- contents of inodes (Content), the entries of directories (Dir), the cache of inodes (Icache) and
-- names (Path).
pub mod Bitmap
pub mod Content
pub mod Dir
pub mod Icache
pub mod Path
