-- ===== src/Lib.antt =====
-- OS/Z is a microkernel operating system. The core (src/core) manages memory, schedules tasks and
-- carries messages; the file system service (src/fs) is a task that answers messages; programs call
-- both through the C library (src/libc). This library models parts of all three.
--
-- Physical memory, Pmm, is src/core/pmm.c. A state has the list of free regions in the order of the
-- array, the two counters, the run level, the error number and the memory itself. pmm_alloc is
-- `alloc`, pmm_allocslot is `allocslot` and pmm_free is `free`; each takes the state and the task
-- that is charged, and returns them changed, or `none` where the source panics. Pmm.Cover says
-- which addresses are free.
--
-- The scheduler, Sched, is src/core/sched.c with the task control blocks of task.h and the CPU
-- control blocks of ccb.h. A pid is the page of a control block, so queues are chains of pids. The
-- source maps control blocks in two windows, LDYN_tmpmap1 and LDYN_tcbalarm, and a pointer into a
-- window shows another task once the window is mapped anew; so a pointer is a `Ptr`, read again
-- after each step. Sched.Queue has sched_add, sched_remove, sched_block, sched_awake and
-- sched_hybernate, Sched.Timer has sched_delay and sched_migrate, and Sched.Pick has sched_pick and
-- sched_intr. The do loop of sched_pick takes fuel, and 2 is enough; the walk of sched_delay takes
-- as much fuel as the timer queue is long, and one more. drivers_ready and the platform's test of
-- the timer's remainder are parameters.
--
-- Messages, Msg, are src/core/msg.c: msg_send, msg_recv and msg_notify, under these names. Msg has
-- the ring of messages of a task, Msg.Post the calls, and Msg.Ring reads the ring as a list. A
-- receive takes as many rounds as the ring has slots, so the fuel mq_max is enough. What pmm_alloc
-- returns is an argument, and the sender has no trace buffer.
--
-- The message policy, Security, is src/core/security.c: task_allowed and msg_allowed, under these
-- names. Security.Policy writes the policy down as a table of rules. The pids of the services are
-- an argument.
--
-- Msg.Event is the word of an event, the macros of include/osZ/types.h. The clock, Clock, is
-- src/core/clock.c with env_getts of src/core/env.c; the parsers of single configuration values of
-- that file are Env, under their names, on strings that are lists of bytes.
--
-- Pipes, Fs.Pipe, are src/fs/pipe.c: pipe_add, pipe_del, pipe_read and pipe_write, under these
-- names. The state has the table of pipes and the suspended messages of the tasks; what the service
-- copies out and which messages it answers is a log of effects. realloc is a parameter, and `none`
-- is a read of memory that is not there.
--
-- File control blocks, Fs.Fcb, are src/fs/fcb.c: the table of blocks with fcb_get, fcb_add, fcb_del
-- and fcb_free. fcb_del takes fuel for the depth of unions in unions, and 1 is enough for a block
-- that is no union. Task contexts, Fs.Taskctx, are src/fs/taskctx.c, with taskctx_open and
-- taskctx_close in modules of their own; a context is passed beside the state of the service. What
-- malloc, realloc and strdup return is an argument.
--
-- The allocator of the C library, Libc.Bztalloc, is src/libc/bztalloc.c: Libc.Bztalloc has the
-- arena and bzt_free, and Libc.Bztalloc.Alloc has bzt_alloc, a part of it after the other. Whether
-- mmap succeeds is a parameter; what the system is asked for and what is written to blocks is a log
-- of effects.
--
-- Virtual memory, Vmm, is src/core/vmm.c over the page tables of x86_64: Vmm has the entries and
-- the tables, Vmm.Map vmm_map, Vmm.Release vmm_free and vmm_del, and Vmm.Text vmm_maptext,
-- vmm_swaptextbuf and vmm_page. Pages come from Pmm. The rounds behind the label again, and those
-- of vmm_free, take fuel, and one more than there are pages is enough; the loop of vmm_del takes
-- fuel, of which no bound is proved, since tables may be linked in a circle.
--
-- The write buffers of a file, Fs.Fcb.Write, are fcb_write of src/fs/fcb.c on the list of the
-- buffers of one file; offsets are not negative.
--
-- Paths, Fs.Vfs, are part of src/fs/vfs.c: canonize, pathcat, pathpush and pathpop. More fuel than
-- the path has characters is enough for canonize; that its result fits into its buffer is not
-- modelled.
--
-- The block cache, Fs.Cache, is src/fs/cache.c: cache_getblock, cache_setblock, cache_freeblocks,
-- cache_flush and cache_cleardirty, under these names, on entries that are linked by their
-- addresses. A walk along a line takes more fuel than the line has entries; on a line that is a
-- circle it never ends.
--
-- The C library, Libc, starts with src/libc/string.c: Libc.Memory has memmove, memchr, memmem,
-- memrmem, strlen, strnlen, strcpy and strcat on a memory that maps addresses to bytes, Libc.Text
-- has strcmp, strncmp, strncpy, strncat and mbstrlen, Libc.Utf has chr and ord, and Libc.Stdlib has
-- stdlib_dec, stdlib_hex, atoi, atol, bsearch and atexit of src/libc/stdlib.c. Loops over strings
-- take fuel, and more fuel than the string has bytes is enough.
--
-- Numbers are natural numbers. Counters and addresses of 64 bits wrap around where the source can
-- reach the wrap (add64, sub64, mul64 of Prelude.Words); addresses in Libc are taken not to wrap.
--
-- Not modelled: the set-up of memory at boot, ELF loading, the dispatch of system calls
-- (msgcore.c), drivers, the console, the debugger, the rest of the file system service (reading and
-- writing of files, blocks, mounts), the input and output of the C library, locks, interrupts and
-- everything written in assembly but lockid, memcpy and memcmp.
pub mod Prelude
pub mod Clock
pub mod Env
pub mod Fs
pub mod Libc
pub mod Msg
pub mod Pmm
pub mod Sched
pub mod Security
pub mod Vmm
