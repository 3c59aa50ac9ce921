-- ===== src/Lib.antt =====
-- The core of the kernel grinch: its scheduler with the life of a task, its console, its timed
-- tracepoints, its page allocator on bitmaps, its heap allocator, the memory areas of its
-- processes and the access to them, the files of its tmpfs, and the routines on memory that they
-- use; and the tokeniser of its shell.
--
-- Parts and files:
--   * Errno: the error numbers and the pointers that carry them (common/include/grinch/errno.h).
--   * Ringbuf: the byte ring (lib/ringbuf.c, include/grinch/ringbuf.h). `ringbuf_x` is
--     `Ringbuf.x`. Ringbuf/Inv has the invariant, Ringbuf/Refine the contents and what a write
--     does to them, Ringbuf/Drain what a read and a consume do.
--   * Console: the kernel's console on top of the ring (kernel/console.c). Console/Flush is about
--     `ringbuf_flush`, Console/Boot about the text before and after the device is attached.
--   * Sched: tasks and the scheduler (kernel/task.c, include/grinch/task.h). `task_x` is `x`, with
--     the branches of a long function as functions of their own. Sched/Wait models `wait` and
--     `task_notify_wait`, Sched/Timer sleeping and `task_handle_events` with the sorted insertion
--     of include/grinch/list.h, Sched/Exit `task_exit` and `fork`. Sched/Inv has the invariant,
--     Sched/Sim the steps that leave alone what it reads, Sched/System all steps together.
--   * Ttp: timed tracepoints (lib/ttp.c). `ttp_x` is `Ttp.x`. Ttp/Record is about the events that
--     a trace records, Ttp/Session about a trace from its reset to its printing.
--   * Bytes: routines on memory of a given length (common/src/string.c). Bytes/Copy is about those
--     that write, Bytes/Search about those that search.
--   * Strings: routines on strings that end with a NUL, and comparisons (common/src/string.c).
--     Strings/Laws is about `strlen`, `strcmp`, `strchr` and `strchrnul`.
--   * Refcount: saturating reference counts (include/grinch/refcount.h, lib/refcount.c).
--   * Salloc: the heap allocator (common/src/salloc.c). `salloc_x` is `Salloc.x`, but that
--     Salloc/Realloc has `salloc_realloc` and `salloc_stats`. Salloc/Row has the heap as a list of
--     blocks; Salloc/Place and Alloc are about `salloc_alloc`, Merge, Release, Free and LostMark
--     about `salloc_free`, Check about `salloc_fsck`, Fresh about a heap that has just been made.
--   * Vma: the virtual memory areas of a process (mm/vma.c, `is_urange` of kernel/uaccess.c).
--     `uvma_at` and `uvma_collides` stand in Vma, the other functions of mm/vma.c in Vma/Area.
--     Vma/Brk has the system call `brk` and `process_handle_fault`, Vma/Elf the loop of
--     `process_load_elf` over the program headers (kernel/process.c). Vma/Range is about
--     `uvma_create`, Find about `uvma_at`, Dealloc, Apart and Resize about `uvma_resize`, Destroy
--     about `uvmas_destroy`, Break about `brk`. What they call in the page allocator, the page
--     tables, the heap and the access to user memory are operations of the record `Vma.Machine`.
--   * Uaccess: the kernel's access to the memory of a process (kernel/uaccess.c), on the map from
--     its pages to frames. Uaccess/Write is about `copy_to_user`, Read about `copy_from_user`,
--     Fill about `umemset`. The handler of page faults is an argument. Uaccess/Handler is a
--     handler that keeps a frame for each page and backs every page.
--   * Bitmap: bitmaps (lib/bitmap.c, include/grinch/bitmap.h, `__ffsl` of
--     common/include/grinch/bitops.h). Bitmap/Word is about the masks and `__ffsl`, Set about
--     `bitmap_set` and `bitmap_clear`, Find about `_find_next_bit`, Area about
--     `bitmap_find_next_zero_area_off`; the last has its offset of 0, as in all calls.
--   * Gfp: the page allocator (mm/mm.c, mm/gfp.c). `_alloc_pages_aligned` is `alloc_pages_hint`,
--     `mm_bitmap_find_and_allocate` is `find_and_allocate`; Gfp/Init has `kernel_mem_init` and
--     `create_memory_area`, the end of which is `reserve_kernel`, Gfp/Phys the physical side.
--     Gfp/Find is about the bitmap, Alloc and Free about allocating and freeing, Address
--     about `v2p` and `p2v`, Reserve about the pages of the kernel. Bitmap is below it.
--   * Asid: the address space identifiers (mm/asid.c), on a bitmap. Asid/Laws is about them.
--   * Tmpfs: the file system in memory (fs/tmpfs.c), on the access to user memory. Tmpfs/Names is
--     about a directory, Write and Store about a file.
--   * Pathname: `pathname_sanitise_dir` (fs/util.c). Pathname/Form has the canonical form of a
--     path, Loop is about the loops, Canonical about the whole.
--   * Tokens: how the shell splits a line into words (user/apps/gsh/tokens.c,
--     `tokens_from_string`).
--   Each component's Tests module runs it on small inputs.
--
-- State: a `struct task *` is a number, and `tasks` of the state `Sys` maps it to the task. The
-- kernel's lists hold such numbers in order. Per-CPU variables are functions of the CPU number. A
-- result of `none` stands for BUG() or panic(), except in `ringbuf_flush`, where it stands for
-- fuel that is short: 4097 rounds are enough there, since each round but the last takes a byte out
-- of a ring that holds at most 4096. The counters of the ring wrap at 2 ^ 32. The counts of events
-- of a trace are 64 bits wide in the kernel and unbounded here: they never exceed the limit. In
-- Bytes, Strings and Pathname, memory is a function from addresses to bytes; in Salloc, from
-- addresses to the headers that stand there. A walk over headers, a path or a string takes fuel,
-- one round for each chunk or character, and `none` stands for fuel that is short; the results
-- name the fuel that is enough. In Bitmap, a search takes a round for each word and has fuel for
-- each bit, and the search for an area takes a round for each set bit that it meets, with fuel for
-- each bit. A bitmap is a function from the index of a word to the word. The bitmaps of pages and
-- of identifiers have fewer than 2 ^ 31 bits, so that the `int` and `unsigned int` of the code
-- hold their numbers. In Gfp, an area is a record in the list that stands for the array
-- `memory_areas`. In Uaccess, a copy takes a round for each page, so at most one for each byte,
-- which is the fuel. In Vma, Gfp, Asid and Tmpfs, an `Outcome` tells a return from BUG(), panic()
-- or the use of NULL, and from a loop that is short of fuel or a lock that is waited for without
-- end. A release of pages takes a round for each page of a lazy VMA, and one for any other. A VMA
-- of a process is known by its base, which no other VMA of it has while they are disjoint. The
-- layout of the user's half is that of rv64 and arm64.
--
-- Each function of the scheduler is one step: the kernel runs them under `task_lock` and the locks
-- of the tasks. What a function calls in other parts is an argument: whether memory could be
-- allocated, how the duplication of the parent's files and memory ends, and the time.
--
-- Not modelled: the registers but for the return value, page tables, the locks themselves but for
-- that of the task in `brk`, the file systems but tmpfs, the listing of a directory, drivers, the
-- device tree, and the code of the architectures.
pub mod Prelude
pub mod Errno
pub mod Ringbuf
pub mod Console
pub mod Ttp
pub mod Bytes
pub mod Salloc
pub mod Refcount
pub mod Strings
pub mod Vma
pub mod Uaccess
pub mod Tokens
pub mod Bitmap
pub mod Gfp
pub mod Asid
pub mod Tmpfs
pub mod Pathname
pub mod Sched
