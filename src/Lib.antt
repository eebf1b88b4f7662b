-- ===== src/Lib.antt =====
-- A model of the kernel and of what it promises: an xv6 for RISC-V with a scheduler that prefers
-- the children of schedtest, with CPU quotas, and with pipes under Peterson's algorithm.
--
-- The parts and the files that model them:
--   Str      kernel/string.c: memset, memcmp, memmove, memcpy, strncmp, strncpy, safestrcpy, strlen.
--   Kalloc   kernel/kalloc.c: kinit, freerange, kfree, kalloc, with the free list threaded through
--            the free pages; PGROUNDUP and PHYSTOP of kernel/riscv.h and kernel/memlayout.h.
--   Log      kernel/log.c: write_log, write_head, install_trans, commit, read_head and
--            recover_from_log on a disk, with bwrite, bpin and bunpin of kernel/bio.c. Log/Ops has
--            begin_op, end_op and log_write.
--   Pipe     kernel/pipe.c: the ring with the critical sections of pipewrite and piperead and with
--            pipeclose. Pipe/Peterson has the steps of peterson_enter and peterson_exit, Pipe/Turns a
--            writer and a reader that make them around their critical sections, and Pipe/Loops the
--            loops of pipewrite and piperead, with what Pipe/Event says of the other end.
--   Proc     kernel/proc.h: the table of processes. Proc/Sched has the round of scheduler, Proc/Quota
--            the quotas (kernel/proc.c, the timer branch of usertrap in kernel/trap.c, sys_setquota
--            of kernel/sysproc.c), Proc/Signal has sleep, wakeup and kkill, and Proc/Life has
--            allocproc, freeproc, kfork, reparent, kexit and kwait.
--   Spin     kernel/spinlock.c: push_off and pop_off, and acquire and release of one lock as
--            steps. Spin/Exclusion has their schedules.
--   Console  kernel/console.c: consoleintr with its line editing, consoleread and consolewrite.
--   Fs       kernel/fs.c and kernel/fs.h: Fs/Blocks has bzero, balloc and bfree, Fs/Table the table of
--            inodes with iget, idup and ilock, Fs/Content bmap, itrunc, iupdate, iput, readi and
--            writei, and Fs/Names directories and paths: dirlookup, dirlink, skipelem, namex.
--            Fs/Entries has ialloc and, of kernel/sysfile.c, create, sys_link, sys_unlink, sys_mkdir,
--            sys_mknod and sys_chdir.
--   File     kernel/file.c: filealloc, filedup, fileclose, fileread and filewrite. File/Descriptors
--            has argfd, fdalloc, sys_dup and sys_close of kernel/sysfile.c, and File/Calls sys_open,
--            sys_pipe with pipealloc of kernel/pipe.c, sys_read, sys_write and sys_fstat.
--   Vm       kernel/vm.c and the entries of kernel/riscv.h: walk, walkaddr, ismapped. Vm/Space has the
--            address space: mappages, uvmcreate, uvmunmap, uvmalloc, uvmdealloc, uvmcopy, uvmfree and
--            vmfault; Vm/User has copyout, copyin and copyinstr.
--   Grep     user/grep.c: match, matchhere and matchstar. Grep/Language says what a pattern stands for,
--            and Grep/Lines has the loop of grep over its buffer of 1024 bytes.
--   Bcache   kernel/bio.c: binit, bget, bread and brelse on the list of buffers in order of use, with the
--            sleep locks of kernel/sleeplock.c.
--   Virtio   kernel/virtio_disk.c: alloc3_desc, free_chain, virtio_disk_rw and virtio_disk_intr on the
--            descriptors and rings of kernel/virtio.h.
--   Shell    user/sh.c: gettoken, peek and the parser from parsecmd down. Shell/Grammar is the grammar
--            that it reads.
--   Wc       user/wc.c: what wc counts in the buffers that read gives.
--   Number   printint of kernel/printf.c and user/printf.c, and atoi of user/ulib.c.
--   Prelude  what the parts share: numbers, tests, lists, memories and integers.
--
-- How they interact: the scheduler compares names by strncmp of Str and begins with the window
-- check of Proc/Quota; kfork copies the name by safestrcpy of Str; kexit wakes the parent by
-- wakeup of Proc/Signal. What Proc/Life uses of page tables, memory and files is the record
-- `Services`, with a state of its own that goes through each call; nothing is assumed about it. In
-- the log the buffer cache is the function that gives the data of a buffer. The file system reads
-- a block as it now is and collects the blocks that it gives to log_write; File calls the inodes
-- of Fs and the loops of Pipe; Fs/Names compares names by strncmp of Str. Vm takes pages by kalloc
-- and kfree of Kalloc and copies by memmove of Str. What a copy to or from a user's memory does is
-- a function that says which offsets it succeeds at, and a device is a function of the size.
-- Bcache has the buffers without their data, Virtio knows a buffer by its number, and the disk
-- device is what fills the used ring and the status bytes.
--
-- How the code is read. A C function with its state becomes a function from the state to its
-- result and the next state; a panic or a wait is `none` or a constructor. Numbers are natural
-- numbers; `uint` counters that the code lets wrap (a pipe's nread and nwrite, those of the
-- console, ticks) wrap at 2^32, and `int` counters are not bounded. A region under a lock is one
-- step; so is a critical section of a pipe in Pipe/Loops and File, where one process writes and
-- one reads, while Pipe/Turns has it read the pipe at its start and put it back at its end. A loop
-- over a table or a count recurs on it. freerange recurs on fuel, of which one more than the end
-- address is enough, since each round goes a page on; strlen recurs on fuel, of which any number
-- above the index of the NUL is enough. The loops of pipewrite and piperead recur on the rounds
-- they are given, and a round says what happens in it from outside: running out of rounds is
-- waiting on; consoleread does the same. balloc recurs on one round more than there are blocks,
-- readi, writei, filewrite and the scans of a directory on one more than there are bytes, as do
-- uvmalloc, uvmcopy and the copies of Vm/User, and namex on one more than the path has, since each
-- round takes at least one. The loop of grep recurs on the calls of read, of which one for each
-- byte is enough. The loops of bget have a round more than there are buffers, free_chain one for
-- each descriptor, virtio_disk_intr any number that is no less than the entries it finds, and the
-- parser of the shell a round for each character and one more. A crash of the disk can fall
-- between any two writes of blocks, each of which is atomic, as log.c relies on.
--
-- Not modelled: ireclaim, sys_exec, the kernel's own page table, exec, dispatch of traps and
-- system calls, formats of printf, the registers of devices, assembly and start-up, user programs
-- but the parser of the shell, grep, wc and atoi, and mkfs; nor is more than one writer or more
-- than one reader of a pipe at a time, which the code lets into the critical section together. The
-- memory that the steps of Pipe/Peterson and of Spin share is sequentially consistent, which for
-- Pipe/Peterson the `volatile` of the code does not ensure on the hardware. swtch is left out: a
-- round of the scheduler ends with the process running.
pub mod Prelude
pub mod Str
pub mod Kalloc
pub mod Log
pub mod Pipe
pub mod Proc
pub mod Spin
pub mod Console
pub mod Fs
pub mod File
pub mod Vm
pub mod Grep
pub mod Number
pub mod Bcache
pub mod Virtio
pub mod Shell
pub mod Wc
