-- ===== src/Mem.antt =====
-- The memory of the kernel: src/mem.
pub mod Heap
pub mod Frames
pub mod Stacks
pub mod PageTable
