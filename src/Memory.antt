-- ===== src/Memory.antt =====
-- The memory managers of kernel/mm.
pub mod Bytes
pub mod Align
pub mod Strings
pub mod Pmm
pub mod Heap
pub mod Vmm
