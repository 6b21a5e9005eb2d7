-- ===== src/Lib.antt =====
-- RedactedOS, a kernel for AArch64 boards: the allocators, the tables of the memory management unit,
-- the scheduler, the loader and the input of processes, a TCP client, drawing, and the library in C
-- that the kernel and its programs share.
--
-- The parts and their files:
--   Base        names, machine words, C arrays as lists, bit fields. A `uint64_t` is a native number
--               with its wrap-around written out (`u64`, `sub64`); a read or write outside an array
--               or through NULL is the outcome `none`.
--   DataStruct  shared/data_struct: RingBuffer is ring_buffer.c, Queue is queue.c, LinkedList is
--               linked_list.c and DoublyLinkedList is doubly_linked_list.c, over a heap of
--               nodes. Fifo is the abstract queue that the first two refine.
--   Std         shared/std: Text, Hex, Compare and Format are string.c, Mem is memfunctions.c and
--               kernel/memory/memory_access.c. A text is the list of bytes from the pointer on.
--   Memory      kernel/memory: TempHeap and Ram are kalloc.c, Pages is page_allocator.c, and Mmu is
--               mmu.c, with the walk of the hardware over its tables. Region is the list of free
--               blocks that both allocators search.
--   Process     kernel/process: Scheduler is scheduler.c; its Switch is about the choice of the next
--               process, Sleep about the sleepers, Start about new processes, and Buffer about the
--               rings of a process in process.h. Loader is loading/process_loader.c. Input is
--               kernel/input/input_dispatch.cpp.
--   Math        shared/math: Rng is rng.c.
--   Net         shared/net: Checksum is checksums.c, Packet is eth.c, ipv4.c and udp.c, Message is
--               arp.c, icmp.c and dhcp.c, Tcp is tcp.c. Dispatch is
--               kernel/networking/network_dispatch.cpp.
--   Ui          shared/ui: Draw is draw/draw.c.
-- Function names are the source's. The Tests modules evaluate the definitions at concrete inputs.
--
-- How the parts meet: strings and queues ask `malloc`, a parameter here, for storage; `string_repeat`
-- calls `memset`; `kalloc` takes its pages from `palloc`, and the scheduler returns stacks and packets
-- to the page allocator, which stand in its list of events. The loader fills slots of the scheduler's
-- table, and the two dispatchers write the rings in it; `read_packet` copies a packet with `kalloc`
-- to the heap of the current process, and gives the original to `free_sized`. The tables of the MMU
-- are pages that `talloc` hands out, a list in the state; the loader's calls of `palloc` are
-- parameters, and so is what `read_packet` gives to the TCP client.
--
-- Bounds and fuel: `find_ready` has 17 rounds in `switch_proc`, which visit each of the 16 processes.
-- The loop of `palloc` over bits has fuel as a parameter, and one page needs 1. The carries of a
-- checksum are folded in at most three rounds. Loops over a linked list end with more fuel than
-- nodes. `mmu_map_4kb` needs three fresh pages at most. The handshake is a recursion on the retries
-- that are left, which are at most 255. Texts are shorter than
-- 2 ^ 31 bytes, so that their indices fit in an `int`. The table of pages has 65536 words, for the
-- addresses below 2 ^ 34. The header of a free block is 16 bytes of the block itself.
--
-- Not modelled: drivers, interrupts, `mmu_init` and the flushing of the TLB, the headers of ELF files,
-- system calls, the bytes of TCP segments, lines in `draw.c`, file systems and the C++ parts but for
-- the two dispatchers. What the linker, the board and the device tree give is a parameter.
pub mod Base
pub mod DataStruct
pub mod Math
pub mod Memory
pub mod Net
pub mod Process
pub mod Std
pub mod Ui
