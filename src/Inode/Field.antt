-- ===== src/Inode/Field.antt =====
-- The words of `struct inode_disk` of src/filesys/inode.c; `direct[i]` is word `i`.
use kernel_dev.Prelude.{ℕ}

abbrev pub indirect : ℕ
indirect = 123

abbrev pub indirect_two : ℕ
indirect_two = 124

abbrev pub length : ℕ
length = 125

abbrev pub is_dir : ℕ
is_dir = 126

abbrev pub magic : ℕ
magic = 127

abbrev pub inode_magic : ℕ
inode_magic = 0x494e4f44
