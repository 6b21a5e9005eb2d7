-- ===== src/Memory.antt =====
-- The kernel's allocators, kernel/memory.
pub mod Region
pub mod TempHeap
pub mod Ram
pub mod Pages
pub mod Mmu
