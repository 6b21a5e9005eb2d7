-- ===== src/DataStruct.antt =====
-- The containers of shared/data_struct.
pub mod Fifo
pub mod RingBuffer
pub mod Queue
pub mod LinkedList
pub mod DoublyLinkedList
