-- ===== src/Lib.antt =====
-- The Yalnix kernel of this repository: the parts of yalnix_framework that keep track of frames,
-- memory, processes, sleep, terminals, pipes, locks, semaphores and condition variables.
--
-- The parts and their files. Each module's comment names the source file it models; a definition
-- has the name of the C function, type or macro, with small helpers for loops and branches.
-- - Ids: the macros of yalnix_framework/headers/identifiers.h.
-- - Frames: yalnix_framework/src/frame_tracking.c, the bitset of physical frames. Frames.Bytes is
--   about the bits of a byte, Frames.Inv the invariant, Frames.Find, Frames.Free and Frames.Start
--   the operations.
-- - Pages: the page table entries of src/frame_tracking.c and the page functions that
--   src/user_memory.c and src/kernel_memory.c both have. A region is its table, the number of its
--   first page, and the frames. Pages.Laws is about one page, Pages.Range and Pages.Fill about ranges.
-- - UserMemory: the rest of yalnix_framework/src/user_memory.c. UserMemory.Brk is about brk,
--   alloc_region and deallocate_region1, UserMemory.Stack about the growth of the stack,
--   UserMemory.Fork, UserMemory.Copies and UserMemory.Child about UCCopy, the copy of a fork.
--   UserMemory.Pointers has the checks of user pointers of src/syscalls.c.
--   UserMemory.Bytes has the accesses to the memory of a process through its page table, and
--   UserMemory.Bytes.Access reads back what was written.
-- - KernelMemory: yalnix_framework/src/kernel_memory.c. KernelMemory.Brk is about SetKernelBrk, KernelMemory.Stack
--   and KernelMemory.Copy about the kernel stacks, KernelMemory.StackBytes about their bytes, KernelMemory.Boot about the
--   pages the kernel starts with.
-- - Loader: yalnix_framework/src/load_program.c, with the executable as an argument. Loader.Build is about the new
--   pages, Loader.Moves about their frames, Loader.Arguments about the stack with the arguments.
-- - Process: yalnix_framework/headers/pcb.h and src/pcb.c. A PCB is named by its address, a
--   number, and a store maps addresses to PCBs. Process.Children is about wait, Process.Retire
--   about exit.
-- - Sleep: the min-heap of yalnix_framework/src/scheduler.c. Its keys are given by a function from
--   processes to ticks, which the scheduler fills with the wake_up fields of its store.
-- - Sched: the rest of scheduler.c. Its state holds the store of PCBs, the heap, the clock and the
--   three queues. Sched.Queues, Sched.Wake and Sched.Waiters are about the ready queue, the
--   sleepers and the processes that wait for a child.
-- - Machine: register values and FullContextSwitch (yalnix_framework/src/interrupt.c), as far as
--   the scheduler sees it.
-- - Pipe: yalnix_framework/src/pipe.c. Pipe.Ring is about the circular buffer as a queue
--   of bytes, Pipe.Grow about its growth, Pipe.Calls has the system calls, Pipe.Calls.Transfer and
--   Pipe.Calls.Served are about them.
-- - Tty: yalnix_framework/src/tty.c. Tty.Waiting has the invariant of owners and writers, Tty.Streams
--   the stream of a terminal, what it was sent and what it will be; Tty.Chunks, Tty.Write, Tty.Done,
--   Tty.Advance and Tty.Deliver follow a write from the call to its last byte. Tty.Lines and
--   Tty.Wake are about the lines received and their readers.
-- - Sync: yalnix_framework/src/synchronization.c. Sync.Holders and Sync.Inv are about acquire and
--   release, Sync.Wait about condition variables, Sync.Slots and Sync.Tables about the tables, and
--   Sync.Calls has the system calls.
-- - Kernel: the calls of yalnix_framework/src/syscalls.c on processes and time, and the clock trap of
--   src/interrupt.c, which Kernel.Clock is about. Kernel.Memory has the calls of
--   pipes and terminals behind the checks of their buffers.
--   Kernel.State has the state of the whole kernel, and the views that the parts have of it; Kernel.Blocking the calls
--   that work on one part, with what a blocked call does when it goes on; Kernel.Lifecycle exit, fork and exec;
--   Kernel.Traps the dispatch and the trap vector of src/interrupt.c. Kernel.Fork is about what a fork leaves of
--   registers, queues, pages and the kernel stack. Kernel.Isolation is about the frames of all processes, kernel stacks and the kernel:
--   Pages.Owners says what it is for tables to share none, Pages.Moves and Pages.Steps what any change of a table
--   has in common, Kernel.Isolation.Exit, Fork, Copy, Spawn, NewStack and Birth follow an exit and a fork, Boot the
--   start, Safe, Calls and Traps go through the calls and traps, and Reach is about runs.
-- - Prelude: lists, integers, arrays, and the result type Run of code that may fault or go wild.
--
-- How the parts interact: pipes, terminals, locks and condition variables put processes on queues of
-- their own and make them ready with schedule_process; a call that blocks asks get_next_process for the
-- process to run. Each of the states of pipes, terminals and locks therefore holds a scheduler state, and the
-- calls return both. A call that blocks is cut in two: what happens up to the switch, and what the
-- process does when it runs again.
--
-- Conventions. Numbers are natural numbers; registers are 32-bit patterns, and -1 is 2 ^ 32 - 1. A C
-- int that the code keeps below 2 ^ 31 is a number without wrap-around. A call of calloc or malloc
-- is a Boolean argument: whether there is memory; a loop takes a function from rounds to Booleans.
-- A read outside an array is the result fault where the code can make one, and so is a sum for Delay
-- that is not an int. Linked queues of PCBs are lists.
--
-- Valid page tables. What is said of pages mapped to frames of their own (Pages.Laws.Mapped) includes that the bitset
-- has a bit behind that of the last frame, which find_frame reads when every frame is in use. There is none if the number
-- of frames is a multiple of 8.
--
-- The memory of a process. A write of the kernel to it goes through the page table of the process: a page that is not
-- valid or may not be written is a fault, and a write below region 1, to the kernel's own memory, is the result wild. The
-- code lets it happen for the pointers of wait and of the calls that store an identifier, which it does not check; the
-- model does not follow what becomes of the kernel then. A read is total: the code reads the memory of a process only
-- behind its checks, which leave out but the later bytes of the pointers of an argument vector.
--
-- Fuel. The loops of the heap run on the number of entries, that of find_frame on the number of
-- frames left, that of wake_sleepers on the number of sleepers, that of wake_waiters on the length
-- of the queue, and the doubling of a pipe's buffer on the bytes needed, each with one more for the
-- last test: every round uses up one of what is counted.
--
-- A trap of a terminal takes no fuel. That a terminal has been sent everything after some number of
-- them goes by the bytes and writers that are left, of which each trap uses up one at least.
--
-- Not modelled: KernelStart (yalnix_framework/src/kernel_start.c), which calls the initialisers in order, with no test of
-- their results, and loads the first program; the initialisers themselves are modelled, and Kernel.Isolation.Boot
-- is about the memory they leave; the saved register contexts, the hardware's registers and its TLB; the pointers
-- inside the queues; TracePrintf. The identifiers of processes, the addresses of new PCBs and the contents
-- of files come from outside, and are arguments. Sizes, addresses and the numbers of calls and traps of
-- hardware.h and yalnix.h are parameters. The user's programs are not part of the kernel.
pub mod Prelude
pub mod Ids
pub mod Frames
pub mod Pages
pub mod UserMemory
pub mod KernelMemory
pub mod Loader
pub mod Sleep
pub mod Process
pub mod Sched
pub mod Machine
pub mod Pipe
pub mod Tty
pub mod Sync
pub mod Kernel
