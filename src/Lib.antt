-- ===== src/Lib.antt =====
-- A model of the kernel in c15_sys_interaction/, the last and most complete version of this small
-- 32-bit x86 operating system; the other directories hold its earlier stages. One processor runs
-- kernel threads and user processes. What has to be atomic runs with interrupts off; what may wait
-- is protected by locks, which block the caller and let the scheduler run another task.
--
-- The parts, by paths from c15_sys_interaction/, and the files that model them:
--   Bitmap: lib/kernel/bitmap.c, the bytes of memory from the bitmap's pointer on as a function, so
--     that a read behind the bitmap is a read of it.
--   LinkedList: lib/kernel/list.c, elements as addresses in a memory of `prev` and `next` fields.
--   Interrupt: intr_enable, intr_disable, intr_set_status and intr_get_status of kernel/interrupt.c.
--   Thread: thread/thread.c and the timer's handler in device/timer.c. Tasks are PCB addresses, and
--     the two queues of tasks are sequences, which LinkedList shows the lists to be.
--   Sync: thread/sync.c, and in Sync/System the tasks that use one lock, interleaved in any order
--     that the scheduler, the timer and other wakeups allow.
--   IoQueue: device/ioqueue.c, the ring between the keyboard and its readers, on Thread and Sync.
--   Keyboard: device/keyboard.c, the handler that reads scan codes into the ring.
--   Memory: the pools, virtual addresses and page tables of kernel/memory.c, on Bitmap. The entries of
--     page tables are stored by the address of the table, so that directory entries that name one
--     table, as boot/loader.S makes 0 and 768, share its entries.
--   Heap: the arenas of sys_malloc and sys_free in kernel/memory.c, on Memory.
--   CString: lib/string.c, over the bytes of memory by address.
--   Stdio: itoa and vsprintf of lib/stdio.c, with what they write as a list.
--   Inode: fs/inode.c, the place, the bytes and the list of open inodes.
--   FileTable: the slots of open files and the allocation of inodes and sectors in fs/file.c.
--   Volume: the mounted partition with its super block and bitmaps, the blocks that fs/file.c and
--     fs/dir.c allocate and give back, and inode_release of fs/inode.c.
--   Dir: fs/dir.c, entries looked up, put in and, in Dir/Delete, deleted and read.
--   FileData: file_read of fs/file.c, on an open file and its inode, and file_write, the blocks in
--     FileData/Gathering and the data in FileData/Writing.
--   FileOps: file_create, file_open and file_close of fs/file.c, on Volume, Dir and FileTable.
--   PathName: path_parse and path_depth_cnt of fs/fs.c, against the names between the slashes. A name
--     that does not fit the 16 bytes of its callers' buffers is where the model stops.
--   Fs: search_file of fs/fs.c; sys_open in Fs/Open, the calls on descriptors in Fs/Descriptors,
--     sys_unlink and sys_mkdir in Fs/Tree, sys_getcwd, sys_chdir and sys_stat in Fs/Cwd, and the calls on open
--     directories in Fs/Streams.
--   Prelude: the names, tests, lists and bit operations that the others share.
--
-- Conventions. A function of the source keeps its name; its state is passed in and returned. ASSERT
-- and PANIC stop the kernel, which is the result `panic`; a NULL or -1 is `none`. Numbers are
-- natural numbers with their wrap-around written out, `u32 n` for `n % 2 ^ 32`. A function that
-- blocks its caller is modelled up to the switch to another task, and what it does when the task
-- runs again is a function of its own, or the next round of its loop. Loops that walk a list in
-- memory, and those that the 0 at the end of a string ends, take fuel, and their theorems say that
-- the length of the list or string is enough; `itoa` takes fuel for the bits of its number. The
-- loops along a path take the length of the path and 1, or 2 for path_depth_cnt, since a round takes
-- a name; those of file_read and file_write take the number of bytes, since a round moves one or
-- more; sys_getcwd climbs 257 levels, more than a path of 512 characters has; the count of indirect
-- blocks in delete_dir_entry takes 141 rounds, and whether it ends does not depend on more. Every
-- other loop is recursion on the count that the source counts down. An inode that is open is found
-- by its number in the list of open inodes, which is what a pointer to it stands for, and a function
-- with a pointer to it takes it out and puts it back where the code calls on.
--
-- Not modelled: code that only moves bytes through ports (the disk, the interrupt controller, the
-- timer chip, the screen), the assembly files, the descriptor tables, the calls of kernel/memory.c
-- that take a pool's lock around the functions of Memory, partition_format, mount_partition and
-- filesys_init of fs/fs.c and open_root_dir of fs/dir.c, which set a disk up at the start, what
-- printk prints, processes and system calls in userprog/, and the earlier stages. The file system
-- does not stand on Heap: whether sys_malloc gives it memory is an argument where the code tests it,
-- and assumed elsewhere.
pub mod Prelude
pub mod Bitmap
pub mod Interrupt
pub mod LinkedList
pub mod Thread
pub mod Sync
pub mod IoQueue
pub mod Keyboard
pub mod Memory
pub mod Heap
pub mod CString
pub mod Inode
pub mod FileTable
pub mod PathName
pub mod Volume
pub mod Dir
pub mod FileData
pub mod FileOps
pub mod Fs
pub mod Stdio
