-- ===== src/Lib.antt =====
-- Verification of the OS library: user-level threads, virtual memory and a file system in C.
--
-- The program has four parts. A1-Cooperative-Threads and A2-Preemptive-Threads are two versions
-- of a user-level thread library; A3-Virtual-Memory simulates demand paging over a trace;
-- A4-File-System is a small file system on a disk image. They share no code. Inside A2 the timer
-- of interrupt.c calls thread_yield, and locks and condition variables sleep and wake on the wait
-- queues of thread.c. Inside A4 the bitmaps record which inodes and blocks are taken.
--
-- Base holds the shared names: Boolean tests on the native numbers, arrays as lists and C's int;
-- Faulting the calls on a state that may fault, Switching those that may also give up the processor,
-- Moves the rules for what such calls keep, Members lists without repetition, and
-- Bytes memory as a map from addresses to bytes with its little-endian words.
--
-- Preempt models A2-Preemptive-Threads/thread.c and the interrupt flag of interrupt.c. One State
-- holds the file's globals; an array is a list of slots, a struct on the heap is found by its
-- number in a map, and a freed one is gone from it. A call is a function from the state to an
-- Outcome: it returns, or gives the processor to another thread together with what the caller
-- does when it runs again, or ends its thread, or exits the process, or fails an assertion or
-- leaves an array (fault), or runs out of the rounds it was given (spins). The names are the
-- source's: Preempt/Slots has the array helpers, State the data and the interrupt flag,
-- WaitQueues the queues and thread_wakeup, Threads creation and exit, Switch the calls that may
-- yield, thread_kill and thread_wait, and Sync locks and condition variables. The other modules
-- prove: Wakeups, Scheduling, RoundRobin, Sleeping, Resumed, Locks, Exits, Creation, Kills, Waiting,
-- Aborts.
-- The loop of wakeup_all runs at most as often as the queue's size says, since each round takes
-- one from it. The loop of lock_acquire takes a bound on its rounds, which the theorems
-- quantify over; a loop that ends needs one round more than it sleeps. Machine contexts and
-- stacks are opaque: a context is only saved or fresh, and signal delivery happens where a call
-- is made.
--
-- Cooperative models A1-Cooperative-Threads/thread.c in the same way: State has the globals, Threads the
-- six calls. The loops over the two arrays are textually those of A2 and shared from Preempt/Slots;
-- the answer of malloc for a stack is an argument of thread_create. thread_yield runs what follows
-- getcontext twice, before the switch and when the caller runs again; the local variable flag is
-- taken to keep its value over the switch. Scheduling, Yields, Ends and Creation hold the proofs.
--
-- Bitmap models A4-File-System/bitmap.c and div_round_up of util.h: words of 64 bits as numbers
-- with the native bit operations, the loops over words and bits by recursion on the number of
-- words and bits left, a failed assertion or a word out of range as fault. Bits and Digits hold
-- the laws of one-bit masks, Form the well-formed bitmaps, Count the number of clear bits, and Alloc,
-- Free, Marks and Init the operations.
--
-- Memory models A3-Virtual-Memory. One Memory holds the globals of pagetable.c, coremap.c and
-- swap.c, with the state of the policy in use and of the swap file as parameters; a call answers
-- none where an assertion fails, a NULL pointer is followed or an array is left. State has the
-- data and the accessors of page table entries, which are found by their address; Swap swap.c,
-- with lseek, read and write as a parameter (SwapFile); Policies rr.c, rand.c and clock.c behind
-- one interface (Policy), with the C library's random as a parameter; PageTable pagetable.c and
-- coremap.c, with what fresh memory of malloc369 holds as a parameter (Fresh); malloc369 is taken
-- not to fail. The loops of clock.c run over the frames that are left. Lists models list.h, with the
-- two pointers of every list entry as two maps from addresses, and TwoQueues s2q.c, where the
-- addresses are the two heads and one entry for each frame. Rings, Insertion and Deletion
-- prove what the lists stand for, Queues, QueueMoves, Managed, Victims, References and Eviction what
-- 2Q does with them. Simulator models access_mem and replay_trace of sim.c, with the
-- memsize * SIMPAGESIZE bytes of physmem, a trace being the list of its lines as sscanf reads them, and Replay proves what a trace does. Cleared says
-- what a policy may change; Clock, ClockEvict, Turns, SwapSpace, SwapPages, Translation and
-- FirstReference hold the proofs.
--
-- Tracking models A3-Virtual-Memory/malloc369.c. Allocator has its functions on a Tracker, which holds
-- the globals, the heap of the C library and the bytes of memory; the hash table of khash.h (PtrMap)
-- and malloc and free (Libc) are parameters, whose documented behaviour PtrMapLaws and LibcLaws state.
-- The C library is taken to leave the bytes of memory alone. A sum that leaves long, a failed
-- assertion and a free that aborts are faults. Accounts says what the counts and the map have to do
-- with the blocks that are live; Allocation, Release, Leaks and Misses hold the proofs.
--
-- Fs models A4-File-System/vsfs.c, vsfs.h, fs_ctx.h and mkfs.c. One Fs is the mapped image taken
-- apart: the superblock, the words of the two bitmaps (the operations of Bitmap), the inode table,
-- and the bytes of each data block; block pointers and directory entries are read from and written
-- to those bytes. The number of a data block is taken never to name a metadata block. A call
-- answers none where an assertion fails, a table or array is left, or a variable without a value
-- is used: the number that bitmap_alloc did not store, or the inode number that path_lookup did
-- not. The clock is a parameter, from the number of its readings so far to what clock_gettime
-- stores, if it succeeds. State has the data and the steps that the operations share, Lookup
-- traverse_block, path_lookup, vsfs_statfs, vsfs_getattr and vsfs_readdir (with FUSE's filler as a
-- parameter), Create, Unlink, Truncate and Access the operations that change files, Format mkfs
-- and the check of fs_ctx_init. The loops run over what is left of their range; the one of
-- vsfs_unlink that passes over unassigned entries stops at the end of its table. Like the source,
-- reading and writing take their range to lie in one block. Counts holds the proofs on the free
-- counts, Stamps and Agree the lemmas on the clock and on lookups in two images, Dentries and Entering
-- those on entries of a directory block and Growth those on new blocks; RoundTrip, Creation, Extension,
-- Misses, Reclaim, RootLoss and Formatted hold the other proofs.
--
-- Not modelled: the wait queue, lock and condition variable calls of A1, which are stubs without a body
-- there; the set-up, statistics
-- and signal handlers of sim.c; the third-party hash table khash.h and the older copy of malloc369.c
-- in A2; option parsing, mmap and FUSE glue, and the test programs.
pub mod Base
pub mod Bitmap
pub mod Cooperative
pub mod Fs
pub mod Memory
pub mod Preempt
pub mod Tracking
