-- ===== src/Lib.antt =====
-- Verification library of the C programs of this repository.
--
-- The repository holds exercises in operating systems. ex3/q1/xv6 is an xv6 kernel to which counting
-- semaphores were added (sem.c, syssem.c, and changes to fork and exit in proc.c), with a program on
-- them (pc.c). ex1/q1 is a program that reads polygons packed into 64-bit commands; ex2/q1 is the same
-- as a pipeline of processes. ex2/q2/xv6 is the kernel with process statistics, and xv6-rev10 is the
-- kernel that both extend; where they share a file, the copy in ex3/q1/xv6 is the one that is modelled.
--
-- Kernel.Sem is ex3/q1/xv6/sem.c. The table `stable` is a function from the slot to its `struct sem`,
-- whose bytes follow the i386 layout because `name` is written past its end. Each function runs under a
-- lock and is one step from a table to a table with its result, and with whether it calls `wakeup`;
-- `sem_open` has the two steps `open_first` and `open_second`, as it gives up `gslock` between them.
-- Loops that sleep (`sem_wait`, `sem_unlink`) are modelled by one pass, which returns or sleeps. The
-- search over the slots is structural recursion on the number of slots left.
-- Kernel.SemCalls is ex3/q1/xv6/syssem.c with the loops of `fork` and `exit` over `osem`; its state is
-- the semaphore table and the descriptors of every process. Arguments enter as what `argint` and
-- `argstr` return.
-- Programs.ProducerConsumer is ex3/q1/xv6/pc.c as a step relation: a process stands between two calls
-- of the semaphores, and its steps are the functions of Kernel.Sem. The start gate `waitc`, the prints
-- and the final clean-up by the parent are left out.
--
-- Kernel.Log is ex3/q1/xv6/log.c with `bwrite` of ex3/q1/xv6/bio.c. The disk is a function from the
-- block number to its contents; a count of writes left stands for the moment at which the machine
-- stops, so every function is defined for every crash. `initlog` is left out but for the recovery.
-- Kernel.Pipe is ex3/q1/xv6/pipe.c: the ring with its two 32-bit counters. A call runs until it returns
-- or sleeps. The allocation of the two files in `pipealloc` is left out.
-- Kernel.Proc is ex3/q1/xv6/proc.c: the table of processes with states, pids, parents, channels and
-- the flag `killed`. What runs under `ptable.lock` is one step, and whether memory can be allocated is
-- an argument. Registers, stacks, page tables, files and `userinit` are left out.
-- Kernel.Strings is ex3/q1/xv6/string.c without `memcpy` and `strlen`, on memory as a function from the
-- address. Its loops recurse on the length that is left.
-- Kernel.Pages is ex3/q1/xv6/kalloc.c: the free list through the pages. `freerange` runs on fuel; more
-- than the number of pages is enough. The junk that fills freed pages is left out.
-- Kernel.Files is ex3/q1/xv6/file.c: the table of open files with their reference counts. The calls into
-- pipes and inodes are arguments, and the loop of `filewrite` runs on fuel, for which more than the number
-- of bytes is enough. `filestat` is left out.
-- Kernel.Descriptors is `argfd`, `fdalloc`, `dup` and `close` of ex3/q1/xv6/sysfile.c over Kernel.Files.
-- Kernel.Blocks and Kernel.Inodes are ex3/q1/xv6/fs.c up to the contents of files: `balloc`, `bfree`, `bmap`,
-- `readi`, `writei` and `itrunc`. The disk is a function from the block and the offset to the byte, with the
-- inode table beside it, and the list of logged blocks that `log_write` of Kernel.Log keeps; a panic of
-- `log_write` sets the flag `stopped`, and other panics are `none`. The caller holds the lock of the inode. The loops of `readi` and `writei` run on fuel, for which the functions give one more than the
-- number of bytes. Devices, `readsb` and `stati` are left out.
-- Kernel.Icache is the inode cache of ex3/q1/xv6/fs.c with `ialloc`, `iput` and `iupdate`. Each function runs by itself, and `iput` uses `itrunc` of Kernel.Inodes.
-- Kernel.Dirs is `dirlookup` of ex3/q1/xv6/fs.c over `readi` and `iget`, on the inode cache. The loop
-- runs on fuel, for which the function gives one more than the number of entries.
-- Kernel.Paths is `skipelem` of ex3/q1/xv6/fs.c, on the bytes of a path.
-- Kernel.Console is the line editor, `consoleread` and `printint` of ex3/q1/xv6/console.c: a ring with
-- three counters. A read runs until it returns or sleeps. Control-U recurses on the size of the ring.
-- Kernel.Arguments is ex3/q1/xv6/syscall.c: how arguments are fetched from the memory of a process.
-- Kernel.Spinlock is ex3/q1/xv6/spinlock.c for one processor and one lock at a time, a step of `acquire`
-- being one `xchg`; Kernel.Sleeplock is ex3/q1/xv6/sleeplock.c.
-- Programs.Ulib is ex3/q1/xv6/ulib.c without `stat`, `memset` and `memmove`. Loops that run to a NUL are
-- on fuel, for which more than the length of the text is enough.
--
-- Polygons is ex1/q1/main.c. Nodes of the list live in a store at addresses that `malloc` gives (an
-- argument); what is printed is a list of lines that hold the integers, since `sqrt` and `printf` are
-- not code of the repository. The walks over the list and the main loop run on fuel, and the theorem
-- on the whole run says how much is enough: more than the number of commands.
-- Pipeline is ex2/q1/main.c: the main process and the two readers as processes that a schedule steps, with the
-- input, the signals and the replies between them. `scanf` and `sprintf` are a parameter with their
-- documented behaviour as hypotheses, and so is the memory behind `polygonBuffer`; the functions on polygons are those of ex1/q1. `writer.c` is left out.
-- ProcData is the system call `get_proc_data` of ex2/q2/xv6, over the process table of Kernel.Proc.
--
-- Integers: an `int` that can be negative is a ℤ, whose increments in Kernel.Sem and Kernel.Proc wrap
-- as 32-bit numbers do (`inc`, `dec`); `uint` counters are natural numbers with `% 2 ^ 32` written out.
-- Base holds the Boolean tests, lists, tables and integers that all parts share.
--
-- Not modelled: the block cache, `dirlink` and `namex`, the other calls of sysfile.c, page tables, drivers, traps and boot code, and
-- the user programs of xv6 but for pc.c.
mod Base
pub mod Kernel
pub mod Pipeline
pub mod Polygons
pub mod ProcData
pub mod Programs
