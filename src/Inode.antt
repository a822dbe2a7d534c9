-- ===== src/Inode.antt =====
-- src/filesys/inode.c: files as multi-level indexes of sectors. `none` is a panic.
pub mod Field
pub mod Index
pub mod Data
pub mod Open
