-- ===== src/Lib.antt =====
-- A model of parts of the kanaos kernel, with theorems about them.
--
-- The kernel is a small i386 system in C: it runs threads and processes, hands out pages and heap
-- blocks, caches disk blocks, reads a MINIX file system, and talks to the keyboard, the console, the
-- clock and IDE disks. Files are named here by their path below src/.
--
-- Which file models what:
--
-- * Prelude passes the library's names on and holds what the others share. `Outcome` of
--   Prelude/Exec is what a call of kernel code comes to: a value, a failed `assert` or a `panic`,
--   behaviour that C leaves undefined, or a loop out of fuel.
-- * Stdlib is lib/stdlib.c: `bcd_to_bin`, `bin_to_bcd` and `atoi`.
-- * Time is kernel/time.c: `mktime`, `get_yday`, `time_read_bcd`, `time_read` and `time_init`. The
--   CMOS chip is a parameter: what each read of the data port gives. Time/Calendar is the calendar
--   that the theorems compare with, written without regard to the source.
-- * Rtc is `cmos_write` and `set_alarm` of kernel/rtc.c, as the bytes put out on the two ports.
-- * Fifo is lib/fifo.c, and Fifo/Refine the queue that it stands for.
-- * Keyboard is the interrupt handler of kernel/keyboard.c with its table of keys; the scan code is
--   an argument, and the task to wake is a part of the result.
-- * Strings is lib/string.c over a memory of bytes, and Strings/Text says what a text in memory is.
-- * Bitmap is lib/bitmap.c over the same memory.
-- * List is lib/list.c over a store of `pre` and `next` fields; List/Chain says what sequence of nodes
--   a list stands for.
-- * Printf is `skip_atoi` and `number` of lib/vsprintf.c, the conversion of numbers, and Format the walk
--   of `vsprintf` over its format; Format/Pieces says what a format is made of.
-- * Namei is `match_name` of fs/namei.c, over the memory of Strings.
-- * Thread is kernel/thread.c: the ready list, `schedule`, `thread_block`, `thread_unblock`, the flag for
--   interrupts and the table of open files of a task; and what a tick of kernel/clock.c does to the running task.
-- * Lock is kernel/lock.c on Thread, cut where a task can lose the processor. The steps of the tasks are
--   the relation of Lock/Exclusion, and Lock/Invariant says what holds between two steps.
-- * Clock is the count of ticks and the time of day of kernel/clock.c.
-- * FsMap is the bitmaps of a file system on Bitmap: `balloc`, `bfree`, `ialloc` and `ifree` of fs/bmap.c,
--   with `get_super` of fs/super.c, on Buffer.
-- * Device is kernel/device.c on List: the table of devices, the calls of their handlers, the elevator
--   over the requests of a device, and in Device/Request a request that finds the queue empty.
-- * Console is kernel/console.c over the same memory, with the bytes put out for the cursor.
-- * Files is fs/file.c on Thread: the table of open files, `sys_open` from the answer of `inode_open` on,
--   `sys_close` and `sys_lseek`.
-- * Buffer is kernel/buffer.c: the cache of disk blocks, on `device_request` of Device/Request with its
--   assertions and the place of a partition on its disk. What the functions do whose pointers stand in the table of
--   devices is a parameter. Buffer/Invariant says what holds of the cache between two calls, what the
--   cache relies on of the requests, and what a user of the cache sees of a block: the blocks in use
--   do not overlap, as those of two partitions, or of a disk that is used as a whole.
-- * Bmap is `bmap` of fs/bmap.c on Buffer and FsMap; Bmap/Zones says where the blocks of a file stand.
-- * Inode is fs/inode.c on Bmap: `iget` and `iput`, and in Inode/File the reading, writing and
--   truncating of files.
-- * Pages is the part of kernel/memory.c that hands out and takes back pages, on Bitmap, and Heap the arenas
--   of `sys_malloc` and `sys_free` on Pages.
--
-- How C is modelled: every number is a natural number, and the wrap-around of `uint8`, `uint16` and
-- `uint32` is written out as a remainder. Arrays and memory are functions of the index. A loop takes
-- fuel, and the theorems say how much is enough: two rounds for the loop of `fifo_put`, one pass for
-- `time_read_bcd` on a chip at rest, 33 rounds for the digits of a `uint32`, a round
-- for each piece of a format and one more, one more round than there are bytes or nodes for a walk
-- along a text or a list, one more than there are bytes for reading and writing a file.
--
-- Not modelled: the wait of a request for those before it, `read_super` and the names of the file system but for
-- `match_name`, processes and the making of tasks, disks and system calls. Left aside: the assembly
-- files, the boot loader, descriptor tables, and port input and output beyond the parameters named.
-- Pointers that walk a text are not wrapped at 2 ^ 32.
pub mod Prelude
pub mod Stdlib
pub mod Time
pub mod Rtc
pub mod Fifo
pub mod Keyboard
pub mod Strings
pub mod Bitmap
pub mod List
pub mod Printf
pub mod Namei
pub mod Format
pub mod Thread
pub mod Lock
pub mod Clock
pub mod FsMap
pub mod Device
pub mod Console
pub mod Files
pub mod Buffer
pub mod Bmap
pub mod Inode
pub mod Pages
pub mod Heap
