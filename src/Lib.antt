-- ===== src/Lib.antt =====
-- A model of the kernel of this repository, an operating system for x86 with demand-paged mmap,
-- copy-on-write pages and a weighted scheduler, and proofs about it.
--
-- The parts, and the files of the kernel that they stand for:
--   Log      log.c, the write-ahead log of the file system, over the blocks of bio.c and the disk
--   Bio      bio.c, the cache of disk blocks
--   Kalloc   kalloc.c, page frames with reference counts; macros of mmu.h and memlayout.h
--   Vm       vm.c, page tables kept in page frames, copy-on-write and demand paging; flags of mmu.h
--            Vm.Space grows, shrinks, frees and measures an address space; Vm.Copyout is copyout
--   Fork     fork and wait of proc.c, and copyuvm of vm.c, by which fork shares the parent's pages
--   Mmap     the calls mmap, munmap and mprotect of sysproc.c, and the searches of proc.c;
--            Mmap.Grow and Mmap.Shrink relate them to growproc
--   Trap     the page-fault case of trap in trap.c; Trap.Retry repeats the access that faulted
--   Syscall  syscall.c: fetching of arguments, and dispatch with tracing
--   Proc     proc.c: the process table (Proc.Table) and the scheduler (Proc.Scheduler)
--   Pipe     pipe.c, over the process table, where its readers and writers sleep
--   File     file.c, the reference counts of open files
--   Fs       fs.c: the block bitmap; Fs.Inode, inodes and their cache; Fs.Content, what is in a file;
--            Fs.Dir, directories; Fs.Path and Fs.Namex, path names
--   Str      string.c and two instructions of x86.h
--   Base     what all of them share; Tests runs the theorems on small machines
-- A definition has the name of the C function it stands for; a loop of `f` is `f_from` or has a name
-- of its own in the same file, and a lemma's file below the part says what it proves.
--
-- The state is passed explicitly. `Kmem` is the physical memory with the allocator's state: a page
-- table is words of frames in it, as in the kernel. `LogState` is `struct log` with the disk, the
-- cached blocks, and the number of block writes that are left before the power fails. `Ptable` is the
-- process table; a process is named by its slot. `Fs` is what fs.c sees of the disk: the superblock, the
-- blocks of the cache, and the numbers that were given to `log_write`; an inode is passed to an operation
-- and comes back, or is named by its place in the list of cached inodes. `System` is what fork needs of
-- all these. A call that may panic returns an `Outcome`.
-- Trap calls Mmap for the region and Vm for the page; Vm calls Kalloc; Pipe calls Proc and Kalloc;
-- Proc calls Kalloc; Fork calls Proc, Vm, File and Fs.
--
-- Numbers are natural numbers; an unsigned word wraps around by an explicit remainder, an `int`
-- argument is its 32-bit pattern. A critical section is one step, so locks do not appear; a call that
-- sleeps ends with a result that says so, and goes on as another call when it was woken.
-- The loops over the pages of a range run on fuel of 2^20, as many pages as the address space has:
-- a range of n pages below the kernel takes n + 1 rounds, at most 2^19 + 1. `strlen` takes fuel for the
-- bytes that it may look at, and the loop of `namex` one round more than its path has bytes. `balloc` takes
-- a round for each block of the bitmap and two more; readi, writei and copyout take one for each byte at
-- most, since a round moves at least one; a search in a directory takes one for each 16 bytes and two more.
-- All other loops go down a list or a count.
--
-- Not modelled: the file system calls (sysfile.c, exec.c, and reading and writing in file.c), which stand
-- on the part of fs.c that is modelled; the locks of inodes, and the start of fs.c (readsb, iinit); the
-- part of vm.c that loads programs and sets up segments; the parts of trap.c for interrupts; locks,
-- devices and drivers and the boot code, which reach hardware; the user programs. Trap frames and the
-- names of processes are left out, so fork does not copy them.
-- The TLB, kernel stacks and context switches are left out.
pub mod Base
pub mod Log
pub mod Kalloc
pub mod Vm
pub mod Proc
pub mod Mmap
pub mod Trap
pub mod Fork
pub mod Pipe
pub mod File
pub mod Str
pub mod Syscall
pub mod Bio
pub mod Fs
pub mod Tests
