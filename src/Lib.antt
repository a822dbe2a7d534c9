-- ===== src/Lib.antt =====
-- A model of the file system of the Pintos kernel in this repository, from the block device up to
-- paths, with its swap space and interrupt queue, and of its page allocator, scheduler and semaphores, with
-- proofs that its parts do what the layers above rely on.
--
-- The parts, bottom up:
-- - Prelude: lists and bits over native numbers, and `Outcome`, what a kernel call does: it returns,
--   sleeps, or fails an assertion.
-- - Bitmap (src/lib/kernel/bitmap.c): elements of 32 bits, `size_t` of 32 bits. `none` is a panic.
--   View sees the single-bit operations as updates of a set of bits, Ranges the loops over a range,
--   Scan the search for a group of bits.
-- - BlockDevice (src/devices/block.c): the sectors of a device, the bounds check and the counters.
--   The driver is a function from sectors to contents.
-- - Cache (src/filesys/cache.c): the 64 blocks of the buffer cache, the eviction semaphore and the
--   clock. The contents of a block are of any type. The operations on a block that a thread holds run
--   under the lock of the block, and are one step each. `cache_get_block` takes several locks and may
--   sleep between them: Threads has its parts and the steps of all threads, in any interleaving;
--   `request`, `cache_get_block` and `cache_flush` are calls during which no other thread runs, and
--   Balance/Whole relates `request` to the parts. Balance is
--   about the shares of readers and writers and the count of the semaphore over all sequences of
--   steps of all threads, Coherence about blocks and the device, Session about what one thread does from
--   `cache_get_block` to `cache_put_block` on a sector that nobody uses, a load or a store of it.
-- - Sector and FileSystem: that view of the disk, a sector as 512 bytes with its 32-bit words, and the
--   state that the file system's modules share.
-- - FreeMap (src/filesys/free-map.c): allocating and releasing sectors. Writing the map to its file
--   passes through the inodes, which allocate sectors: the writer is an argument, and MapFile gives
--   it, with the creation, opening and closing of the map's file. Its children are about allocating, releasing
--   and growing with the map kept on disk.
-- - Inode (src/filesys/inode.c): Field are the words of the inode on disk, Index the multi-level index
--   (`MLI_translate`), Data reading and writing, Open the table of open inodes, creating, closing and
--   removing.
-- - File (src/filesys/file.c): open files with a position, over the inodes.
-- - Directory (src/filesys/directory.c): directories over the inodes, with the locks that the current
--   thread holds; creating, opening, look-up, adding, removing and reading. Entries and Names are about
--   the entries in the file of a directory, Adding, Calls and Finding about additions and look-ups.
--   Refused is about what follows a refused name. Removal is `dir_remove`.
-- - Filesys (src/filesys/filesys.c): paths, for one thread with its current directory, and Calls, the
--   calls on them. Tokens is about `strtok_r`, Walk about the loop of `filesys_path_to_dir`, which gets
--   as many rounds as the rest of the path has characters, and one.
-- - Thread (src/threads/thread.c): the scheduler with `thread_mlfqs` false. The running thread is the
--   field `current`; interrupts are off in each operation, so that each is one step that ends in the
--   thread that was switched to. Next is about the choice of the next thread, Queues about the ready
--   lists, Switch about `schedule`, Operations and Wakeups about the calls that use it, Priority about
--   who runs.
-- - Semaphore (src/threads/synch.c): semaphores over the scheduler; each test of the loop of `sema_down`
--   is a step. Choice is about the waiter that is woken, Sound about the invariant, Wakes and Runs
--   about the steps, Elements about all states that the kernel reaches from `thread_start`.
-- - Palloc (src/threads/palloc.c): the page allocator over two bitmaps. Pools is about how the pools lie
--   in memory, Marks, Pages and Release about what the calls mark, Lifetimes about pages in use.
-- - Swap (src/vm/swap.c): slots for pages on the swap device. Transfer are its loops, Slots the round
--   trip of a page.
-- - InterruptQueue (src/devices/intq.c): the circular buffer of the serial port and the keyboard, cut
--   into parts where another thread can run, and Order, its view as a list.
-- - Tests: concrete runs, and the theorems at inputs that meet their hypotheses.
--
-- Bounds. The clock loop of `evict` has 64 rounds, one for each block: a loop that sees no idle block
-- in them waits for another thread. The loops of `inode_read_at` and `inode_write_at` move at least
-- one byte in each round, so that as many rounds as bytes are enough; the results on them give the
-- number of bytes moved. Block numbers of a file stay below 123 + 128 + 128 * 128, beyond which
-- `MLI_translate` leaves its index block. Sizes and offsets are not negative and do not overflow.
--
-- Not modelled: the allocation of kernel memory (it succeeds, or its result is an argument), the
-- lists of the kernel as pointers (an open inode is named by its sector), the locks of inodes but for
-- directories, priority donation and the multi-level feedback scheduler, the stock locks and condition
-- variables, frames and page tables, user processes and drivers.
pub mod Prelude
pub mod Bitmap
pub mod BlockDevice
pub mod Cache
pub mod Sector
pub mod FileSystem
pub mod FreeMap
pub mod Inode
pub mod File
pub mod MapFile
pub mod Thread
pub mod Semaphore
pub mod Directory
pub mod Filesys
pub mod Palloc
pub mod Swap
pub mod InterruptQueue
mod Tests
