-- ===== src/Lib.antt =====
-- Azalea is a kernel for many cores. This library models parts of its core in kernel/ and states
-- what they do.
--
-- kernel/utility.c: Prelude/Words.antt has what an int of C makes of a word, Utility.antt
-- lk_memset and Utility/Copy.antt lk_memcpy, on memory as a function from addresses to bytes;
-- Utility/Fill.antt says what lk_memset leaves; Utility/Text.antt has lk_strlen, lk_reversestring
-- and the printing of numbers, Utility/Digits.antt and Utility/Numerals.antt what the digits make,
-- Utility/Compare.antt lk_memcmp, and Utility/Agree.antt when it finds two areas the same. A
-- comparison's int result is a word of 32 bits.
--
-- kernel/memory.c, the buddy allocator: Buddy.antt has the MM and the functions on the block
-- lists; Buddy/Bits.antt the bits of a byte; Buddy/Api.antt az_alloc and az_free over the globals
-- of the file; Buddy/Init.antt free_mem_init and bitmap_size. The state is a record with the
-- fields of MM; the byte arrays of the metadata, which free_mem_init lays out one behind the
-- other, are functions of the index. The invariant IsSound (Buddy/Sound.antt) says that each page
-- of the pool is in exactly one free block or in exactly one handed-out block, with the counts,
-- the used size and the block index in agreement. The other files of Buddy/ hold its proofs: Cover
-- (which block holds a page), Counts and Total (free pages), Lists (the lists' part of the
-- invariant), Search, Split, Take, Merge and Size (one function each), Held (the block index),
-- Contract and Alloc (az_alloc), Release and Free (az_free), Restore (both), Fresh and Start
-- (free_mem_init).
--
-- kernel/memory.c, the program break: Heap.antt has sys_sbrk and sys_brk on 64-bit words,
-- Heap/Break.antt what sequences of them do.
--
-- kernel/shm: Shm.antt has the state of shm.h and the pool of shm_mm.c, whose functions are those
-- of memory.c for another MM; Shm/Table.antt the region table (shm_initialize.c, the static
-- functions of shmget.c, shm_destroy of shmctl.c); Shm/Calls.antt the calls shmget, shmat, shmdt
-- and shmctl. Shm/Invariant.antt has the table's invariant and the calls that keep it,
-- Shm/Get.antt shmget, Shm/Lifetime.antt attaching and removal. The regions get their memory from
-- the pool by shm_alloc and give it back by shm_free, which run the allocator's code. The process
-- id and the addresses of the build are parameters.
--
-- kernel/thread.c and kernel/thread.h: Thread.antt has the core mask of a thread, Thread/Mask.antt
-- which cores it allows. Thread/State.antt has the TCBs, the lists and the other globals; a thread
-- is its id, a list (Thread/Lists.antt) the ids of its TCBs with the count beside it.
-- Thread/Boot.antt has sched_init and thread_init, Thread/Tcbs.antt the allocation, the reference
-- counts and the destruction of TCBs, Thread/Select.antt the time slices and select_next_thread,
-- Thread/Switch.antt post_context_switch, Thread/Create.antt create_thread. The invariant IsSched
-- (Thread/Placed.antt) says that every TCB stands once in the list of its state and in no other,
-- and that the counts are right; Moves, Ends, Exits and Starts show that each move of a thread
-- keeps it, Visits, Scans and Chosen the loops of select_next_thread, Picks which thread it picks,
-- Wakes post_context_switch, Clones create_thread, Requests thread_suspend and thread_wake_up, and
-- Booted the start. Whether spinlock_trylock gets a lock is a parameter, for each thread and each
-- round of the retry, none is a halt of the kernel, and the 288 processors are a number that no
-- proof computes.
--
-- kernel/offload/offload_channel.c: Offload/Channel.antt has the circular queues,
-- Offload/Fifo.antt what one operation does to the elements, Offload/Refine.antt sequences of
-- them; a loop that waits for another processor is none. kernel/offload/offload_page.c:
-- Offload.antt has get_iovec, with the page tables as a function from the numbers of pages to
-- those of frames, Offload/Segments.antt what its segments are. The buffer's address is written
-- without its wrap, which a buffer in the address space does not reach.
--
-- kernel/offload/offload_message.c: Offload/Message.antt has the messages of both sides, where
-- what one look at a queue comes to is a result in place of the loops that wait;
-- Offload/Owners.antt which thread a message is of, Offload/Exchange.antt the steps of the threads
-- of a core and of the proxy on the two queues of a channel, Offload/Expected.antt the invariant
-- that ties each answer to its request and Offload/Steps.antt that each step keeps it,
-- Offload/Answers.antt what a thread that waits receives, Offload/Waits.antt that the waiting
-- ends.
--
-- kernel/systemcall/offload_fio.c and offload_network.c: Syscall.antt has the numbers of
-- systemcalllist.h and what a call is, a result or a request with what is made of its answer;
-- Syscall/Files.antt and Syscall/Network.antt the calls. sideloader/offload_proxy: Proxy.antt has
-- the C library as a parameter and the translation of addresses, Proxy/Files.antt and
-- Proxy/Network.antt the jobs, each with the calls of the library that it makes and its answer,
-- Proxy/Dispatch.antt the switch over the types. Syscall/Host.antt puts both sides together and
-- says what a call made at once would be, for all calls with an answer but unlink, which the proxy
-- asks access about first, and getcwd, readdir, rewinddir and gethostbyname, whose answers leave
-- more than a number; Words, Stored, Linked and Served compare them, Received adds the channel
-- between them, and Leaks is about getcwd and the allocator. The page tables' translation of an
-- address is a parameter, the C library may be another one at each answer, and the order of the
-- proxy's jobs is free.
--
-- Tests.antt and Tests/ have runs at concrete states.
--
-- Functions that return an int or -1 return an option, pointers are addresses with 0 for NULL, and
-- unsigned words keep their wrap-around. A spinlock is whether it is held, and a call is one step:
-- what another core does meanwhile is not modelled. Loops run on fuel that their bounds give:
-- max_level rounds for the lists, the number of blocks for the search of a bitmap, 64 and 32 for
-- the shifts of a long and an int, 1024 for the regions, 16 and 19 digits for a QWORD and a long,
-- two rounds for the retry of select_next_thread. A search for the end of a string takes a limit.
--
-- Not modelled are the context switch and what composes the scheduler around it, the search of a
-- thread by its name, page tables, the system calls that are not offloaded, the console,
-- interrupts and the start of the kernel, the Linux side in sideloader/ but for the proxy's jobs,
-- tools and applications. In memory.c, the counters on the screen and the statistics page are left
-- out.
pub mod Prelude
pub mod Utility
pub mod Buddy
pub mod Heap
pub mod Shm
pub mod Thread
pub mod Offload
pub mod Proxy
pub mod Syscall
pub mod Tests
