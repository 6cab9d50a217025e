-- ===== src/Lib.antt =====
-- A verification of the Orion kernel, a 32-bit x86 kernel in C.
--
-- The parts and their files:
-- * kernel/mm/pmm.c, the physical frame allocator, is Pmm: `pmm_alloc_frame` is `alloc_frame`,
--     `pmm_free_frame` is `free_frame`, `pmm_init` is `init`, and so on; the static variables are
--     the record `Pmm`. Pmm/Scan has the search, Pmm/Inv the invariant, Pmm/Alloc and Pmm/Init the
--     functions' results.
-- * include/proc.h and the static variables of kernel/proc/proc.c, kernel/proc/sched.c and
--     kernel/drivers/timer.c are Kernel: `Pcb` is `pcb_t`, `Kernel` the state that these files
--     share.
-- * kernel/proc/sched.c is Sched, function by function under the same names, with `proc_wake`
--     and `timer_handler`, which it calls or which calls it. Sched/Queue and Sched/Pick have the
--     ready queue and the choice of a process, Sched/Inv the invariant, Sched/Switch the branches of
--     a switch, Sched/Starvation what many switches do.
-- * kernel/proc/proc.c, kernel/proc/fork.c and kernel/proc/exec.c are Proc, function by function
--     under the same names; its children have one file for each group of functions, and Proc/Wake
--     the processes that wake when the ends of pipes are closed.
-- * kernel/fs/pipe.c is Pipe, without `pipe_create`. Pipe/Ring and Pipe/Flow read the ring as a
--     sequence of bytes, Pipe/Peer has the waiting processes, Pipe/Rounds and Pipe/Transfer the
--     loops, Pipe/Close the ends.
-- * kernel/drivers/keyboard.c is Keyboard: the ring of characters in Keyboard/Ring, the
--     interrupt in Keyboard/Handler.
-- * `kbd_read` of kernel/fs/devfs.c is Devfs: Devfs/Reading has what it reads and how a wait
--     ends.
-- * kernel/proc/fd.c, `vfs_close` of kernel/fs/vfs.c and `sys_dup2` of kernel/syscall/syscall.c
--     are Files: the reference counts in Files/Refs, the slots in Files/Slots. What a vnode does
--     when it is closed, and `kfree`, are the parameter `Backend`.
-- * kernel/fs/ramfs.c is Ramfs, function by function under the same names, with `vnode_alloc`:
--     the record `Ramfs` has the vnodes, the inodes, the memory of buffers and the heap. Ramfs/Grow
--     has the loop that doubles a buffer, Ramfs/File the data of a file, Ramfs/Move the growth of
--     its buffer, Ramfs/Write and Ramfs/Contents writing and reading, Ramfs/Bounds the sizes of
--     buffers, Ramfs/Names the lists of entries, Ramfs/Directory and Ramfs/Create the directories.
--     The kernel heap is the parameter `Allocator`.
-- * kernel/fs/vfs.c is Vfs: Vfs/Descriptors has `fd_table_init`, `fd_read` and `fd_write` of
--     kernel/proc/fd.c, Vfs/Mounts the mount table, Vfs/Walk the walk over a path, Vfs/Split the
--     parent of a path, Vfs/Offsets reading and writing of open files, Vfs/Create `vfs_open`. The
--     operations of a vnode are the interface `Vnodes`, which `ramfs_ops` of Vfs/Backend fills.
-- * lib/libk/string.c is Strings: Strings/Copy and Strings/Bounded have the copying functions,
--     Strings/Compare the comparisons.
-- * kernel/syscall/syscall.c is Syscall, handler by handler under the same names, on the
--     `Kernel` of Proc: Syscall/Keeps and Syscall/Inv have the invariant, Syscall/Guards and
--     Syscall/Memory the checks of pointers. What the handlers call in other files is the parameter
--     `Services`; Syscall/Memory fills its check of a range with `vmm_range_mapped` of Vmm.
-- * kernel/proc/elf.c and include/elf.h are Elf: Elf/Closing has the calls of `vfs_close`. The
--     files, page tables and frames are the parameter `Loader`.
-- * kernel/mm/vmm.c, the page tables, is Vmm, function by function under the same names: the
--     record `Vmm` has the static variables, the words of physical memory, the frame allocator's
--     `Pmm`, and of the processor CR3 and the addresses that were flushed. Vmm/Tables says what the
--     tables in memory translate and which frames they occupy, Vmm/Grow and Vmm/Inv what a new page
--     table changes, Vmm/Mapping and Vmm/MapRange mapping and unmapping, Vmm/Range the check of a
--     pointer's range, Vmm/Spaces, Vmm/Destroy and Vmm/Boot the page directories, Vmm/Entries the
--     values of the entries.
-- * kernel/mm/kheap.c, the kernel heap, is Kheap, function by function under the same names: the
--     record `Kheap` has the static variables, the words of the heap and the `Vmm` that maps them.
--     Kheap/Blocks and Kheap/Focus read the heap as a list of blocks, Kheap/Tags has the macros,
--     Kheap/Around, Kheap/Neighbours and Kheap/Merge have `coalesce`, Kheap/Place `place`,
--     Kheap/FirstFit the search, Kheap/Extend, Kheap/Append and Kheap/Grow `extend_heap`, Kheap/Free
--     and Kheap/Alloc `kfree` and `kmalloc`, Kheap/Aligned the page-aligned pair, Kheap/Boot
--     `kheap_init`, Kheap/Inv the invariant.
-- * kernel/arch/x86/gdt.c, idt.c and irq.c are Descriptors, function by function under the same
--     names: Descriptors/Gates has the tables, Descriptors/Dispatch the interrupts. The addresses of
--     the assembly stubs and the interrupt handlers are parameters.
-- * `write_uint_base` of lib/libk/kprintf.c is Kprintf: Kprintf/Digits reads what it prints.
-- * the bitmaps of pmm.c and proc.c are Bitmap; C's unsigned arithmetic and lists under native
--     numbers are Base.
--
-- How they interact: Kheap takes frames from Pmm and maps them through Vmm, which takes the frames
-- of its page tables from the same Pmm. Proc calls Sched on the same `Kernel` state. The timer
-- interrupt runs `timer_handler`; each interrupt or system call ends in `sched_switch_esp`, which
-- says which stack to load. The kernel heap and the file descriptors are a parameter of Proc, the
-- record `Resources`: an allocation may panic, and closing the descriptors of a process gives the
-- processes that wake at the other ends of its pipes.
--
-- Conventions: a function that changes static variables takes the state and returns the new one.
-- `none` stands for a null pointer or, where the comment says so, for a panic. Words wrap around
-- as in C: `u32` and `sub32` are written out. A pointer to a slot of the process table is the
-- slot's index. Each function is one step, since the kernel handles system calls and interrupts
-- with interrupts off. `proc_wait` is a loop that gives up the processor in each round: a round is
-- `proc_wait_round`, and `proc_wait_resume` is what follows when the process runs again. So it is
-- with a read or a write of a pipe, which is `suspended` and goes on by `read_resume` or
-- `write_resume`, and with a read of the keyboard, which `waits` and then starts again, since it
-- has read nothing yet.
--
-- Bounds and fuel: each loop over an array is a recursion on the number of rounds left, which is
-- computed from the loop's own bounds, so no fuel can run out; `strlen`, `strcmp` and `strcpy` run
-- on fuel that exceeds the length of the string; the walk over a path has as many rounds as the
-- path has bytes, of which each round takes one at least; the loop that doubles a buffer has 33
-- rounds, since a word that is doubled 32 times is 0; the loops of the pipe have `len + 1` rounds,
-- since each round but the last moves a byte, and the results say that these are enough. The loops
-- of vmm.c over a range and those of kheap.c, whose ends depend on memory, run on fuel, and `none`
-- is that it ran out: a page of the range each for `vmm_map_range` and `vmm_range_mapped`, 2 ^ 20
-- rounds for mapping the heap, which has 2 ^ 14 pages, and 2 ^ 22 for the walk over its blocks,
-- each of which takes 16 bytes of 64 MB. The process table has 256 slots and the bitmap of frames
-- 2 ^ 20 bits, as in the C code.
--
-- Not modelled: output (the format loop of kprintf, vga, serial, the dump functions), the task
-- state segment, the programming of the interrupt controllers, `isr_handler`, which halts, and the
-- assembly stubs, the names and the unused register copies in `pcb_t`, the contents of memory that
-- is not mapped (the heap's words are those at its virtual addresses, and a page table is read at
-- its physical address, as the code does), and so far `devfs_init` and `pipe_create`.
pub mod Base
pub mod Bitmap
pub mod Pmm
pub mod Kernel
pub mod Sched
pub mod Proc
pub mod Pipe
pub mod Strings
pub mod Keyboard
pub mod Devfs
pub mod Files
pub mod Ramfs
pub mod Vfs
pub mod Syscall
pub mod Elf
pub mod Vmm
pub mod Kheap
pub mod Kprintf
pub mod Descriptors
