-- ===== src/Lib.antt =====
-- The kernel of the PowerPC demonstration system: the parts below are modelled function by
-- function, and each part's module holds its definitions, its child modules the proofs and its
-- runs.
--
-- Common         the shared helpers: Boolean tests on the native numbers, lists, lists of addresses
--                (Keys), 32-bit words with their wrap-around (Words, of include/types.h) and signed
--                counters (Int).
-- RingList       include/list.h. A node is an address, NULL is 0, and the store holds the `next`
--                and `prev` pointer of each address. `init_ring`, `add_header`, `add_tail` and
--                `del_node` are initRingDoubleList, addNodeToRingDoubleListHeader,
--                addNodeToRingDoubleListTail and delNodeFromRingDoubleList, each as its pointer
--                writes in order; `walk` is RingList_Foreach. `Ring s header xs` says that the
--                nodes of the header's ring are `xs`. Single has the singly linked lists.
-- RingBuffer     include/ringbuffer.h: CRingBuffer, and in Simple SRingBuffer. Queue has the
--                bounded queue that CRingBuffer refines, Bulk its readn and writen.
-- Heap           kernel/src/mm/heap.cpp: addHeapBlock, allocate and free of the kernel heap, whose
--                free list is a ring of RingList. Blocks says how the blocks of a region tile it,
--                Split and Merge what cutting and joining blocks does to the tiling, Kept what joining
--                leaves of the other blocks, Neighbours what free finds beside a block, FreeList what
--                the list functions do, Listed what they do to a well-formed heap, which Invariant
--                defines.
-- Sync           include/semaphore.h and kernel/src/ipc/semaphore.cpp (Semaphore), include/mutex.h
--                and kernel/src/ipc/mutex.cpp (Mutex). Permits has the interleavings of threads on
--                a semaphore, Exclusion those on a mutex, where a call is cut at each point at
--                which another thread may run; Owner and Steps have its invariant. The mutex calls
--                the semaphore's functions.
-- Scheduler      kernel/src/task/schedule.cpp: the ready rings of RingList, one for each priority,
--                and the search of the next thread (Find); Groups says what rings in order are and
--                what push and append do, Tick the tick handler, Turn and Remove what a moved
--                _curNodeInGroup does, Start has init and, of kernel/src/task/thread.cpp,
--                suspendSelf and wakeup, by which Sync's waiters sleep and wake.
-- MsgQueue       kernel/include/ipc/msgqueue.h and kernel/src/ipc/msgqueue.cpp: the ring of message
--                blocks. Slots has the blocks by their numbers, Order the messages in order. The
--                count of messages to wait for is Sync's semaphore.
-- CString        generic/libc/string, one module for what its functions do: Length, Compare, Search, Copy,
--                Block (memcpy), Bounded and Cut (copies of at most so many bytes), Fill (memset); of
--                kernel/src/arch/powerpc/string.cpp, Block has memcpy_aligned and memcpy_cache_flush,
--                Cut sstrncpy, and Fill.Zero zero_block, with Strides for its loops and Blocks for what
--                they clear together. A memory is a byte at each address.
-- Printk         generic/libc/stdio/printk.cpp: the buffer in front of the console (Buffer), print_ulong
--                (Digits), print_ullong (Long) and vprintf (Format), with the count that it returns in
--                Format.Count and Format.Loop.
-- Vfs            kernel/src/vfs: Path has the functions of vfs.cpp on paths in memory, each with a
--                module for what it does; Tree has the nodes of vfsnode.cpp, the rings of children of
--                vfsdir.cpp and the pool of vfsmanager.cpp, with Find, Remove, Pool and FullPath. The
--                children hang on the rings of RingList, and names are compared by CString.
-- Interrupt      kernel/src/interrut.cpp: the chains of callbacks of the external interrupts, and in
--                Chain what its three functions do to the chain of a vector. The vectors are the
--                asserted ones, and disconnect gives the descriptor that it frees.
-- SemManager     kernel/src/ipc/semmanager.cpp: the pools of free semaphores and mutexes on the rings of
--                RingList, with Sync's mutexes as their locks (Lock); Pools has what allocate does to them
--                under its lock, Calls the whole calls, Fill what init does.
-- Signal         kernel/src/ipc/signalstack.cpp: sigaltstack and, in Stack, the stacks that it takes.
-- BitSearch      kernel/src/arch/powerpc/findfirstbit.cpp: the highest and the lowest set bit of a
--                word, by tables.
--
-- Bounds and fuel. Addresses and sizes of the heap are 32-bit words, and each sum that the code
-- takes is reduced modulo 2 ^ 32; a well-formed heap ends below 2 ^ 32. The scan of the free list
-- and RingList_Foreach run on fuel for the tests that they make; one more than the number of nodes
-- is enough, and the theorems ask for that much. The loop of readn needs two rounds, and one to
-- stop. Entries of _priorityArray beyond its 256 are taken to be empty rings: no priority reaches
-- them. Counters of threads are integers, since there are fewer threads than 2 ^ 31.
--
-- The string functions run on fuel for the characters that they look
-- at, and the theorems ask for more than the length; the array of print_ulong has room for eleven
-- digits, which a word never needs. Objects of the string functions do not wrap round the end of the
-- address space.
--
-- Parameters. The scheduler stops at the call of switchContext, which is assembly.
-- CRingBuffer::init takes what the heap returned as an argument. A well-formed heap is one region;
-- a second call of addHeapBlock makes a second tiling. An operation of the
-- heap is one step; free reads a word of the block and its list pointer before it takes the heap's lock,
-- and what other threads do in between is left out, as are the counters of the _DEBUG build. The instruction dcbz of zero_block is a parameter, of which the theorem asks that it clears the
-- cache line at a multiple of its size. What vprintf takes off its va_list is a list of arguments of
-- their kinds.
--
-- Not modelled: the board, the drivers and the assembly, which are hardware effects; yaffs2 and the
-- flash stack, which are copies of other projects; the other managers, the virtual
-- memory, the pending signals, the clock and the terminal.
pub mod BitSearch
pub mod Common
pub mod CString
pub mod Heap
pub mod Interrupt
pub mod Signal
pub mod SemManager
pub mod MsgQueue
pub mod Printk
pub mod RingBuffer
pub mod RingList
pub mod Scheduler
pub mod Sync
pub mod Vfs
